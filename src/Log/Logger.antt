-- ===== src/Log/Logger.antt =====
-- myserver/include/logging.h and myserver/common/logging.cpp: `SourceFile` and `Logger`.
--
-- The texts that `localtime` and `strerror_r` lead to are arguments. A `Logger` lives for one line of
-- the log: its constructors start the line, its destructor ends it and hands it out.
use my_cpp_code.Common.Decimal.{decimal}
use my_cpp_code.Common.{
  ℕ, ◌-◌, ◌≡◌, ◌≢◌, refl, arith, Bool, true, false, [], ◌∷◌, ◌++◌, Option, none, some, ◌==◌,
  if◌then◌else◌, Bytes, codes, length, take, replicate, All, leb,
}
use my_cpp_code.Log.FixedBuffer.{new_fixed, fixed_length}
use my_cpp_code.Log.Stream.{LogStream, format_integer, put_char, put_text, small_buffer}

pub data Level : Type 0 where
  trace debug info warn error fatal : Level

-- `LOG_DEBUG` and `LOG_INFO` compare with the level that is set; the other macros do not.
unfoldable pub rank : Level → ℕ
rank trace = 0
rank debug = 1
rank info = 2
rank warn = 3
rank error = 4
rank fatal = 5

unfoldable pub is_logged : Level → Level → Bool
unfolding rank
is_logged set debug = leb (rank set) (rank debug)
is_logged set info = leb (rank set) (rank info)
is_logged set _ = true

-- Six bytes of the name; that of `DEBUG` has five and the null.
unfoldable pub level_name : Level → Bytes
level_name trace = codes "TRACE "
level_name debug = codes "DEBUG" ++ (0 ∷ [])
level_name info = codes "INFO " ++ (0 ∷ [])
level_name warn = codes "WARN " ++ (0 ∷ [])
level_name error = codes "ERROR "
level_name fatal = codes "FATAL "

-- `strrchr(filename, '/')`: what stands behind the last slash, if there is one.
unfoldable pub behind_slash : Bytes → Option Bytes
behind_slash [] = none
behind_slash (c ∷ s) = elim (behind_slash s) [
  | some t ↦ some t
  | none ↦ if c == b'/' then some s else none
]

unfoldable pub source_file : Bytes → Bytes
unfolding behind_slash
source_file filename = elim (behind_slash filename) [ some t ↦ t | none ↦ filename ]

pub record Logger : Type 0 where
  pub stream : LogStream
  pub level : Level
  pub line : ℕ
  pub file : Bytes

-- `%06d`.
unfoldable pub six_digits : ℕ → Bytes
six_digits n = replicate (6 - length (decimal n)) b'0' ++ decimal n

-- `formatTime`, with the text of the date and time and the microseconds; the six digits are written
-- with the null behind them.
unfoldable pub format_time : Bytes → ℕ → LogStream → LogStream
unfolding put_text six_digits
format_time time micros s =
    put_text (some (six_digits micros ++ (0 ∷ []))) (put_text (some (take 17 time)) s)

-- `Impl::Impl` with no error number, as all the constructors of `Logger` call it.
unfoldable pub new_logger : Bytes → ℕ → Level → Bytes → ℕ → Logger
unfolding format_time put_text source_file
new_logger time micros level file line = record {
  stream =
      put_text (some (level_name level))
        (format_time time micros (record { buffer = new_fixed small_buffer }));
  level = level;
  line = line;
  file = source_file file;
}

-- The constructor that takes the function's name too.
unfoldable pub new_logger_in : Bytes → ℕ → Level → Bytes → ℕ → Bytes → Logger
unfolding new_logger put_text put_char
new_logger_in time micros level file line func =
    let l = new_logger time micros level file line in
    record l { stream = put_char 32 (put_text (some func) l.stream) }

unfoldable pub finish : Logger → Option LogStream
unfolding put_text
finish l =
    let named =
      put_text (some (codes " : "))
        (put_text (some l.file) (put_text (some (codes " - ")) l.stream)) in
    elim (format_integer (record { negative = false; magnitude = l.line }) named) [
      | none ↦ none
      | some s ↦ some (put_text (some (10 ∷ [])) s)
    ]

unfoldable pub is_fatal : Level → Bool
is_fatal fatal = true
is_fatal _ = false

-- The destructor: what is given to the output function, and whether the program aborts.
unfoldable pub destroy : Logger → Option (Bytes × Bool)
unfolding finish fixed_length is_fatal
destroy l = elim (finish l) [
  | none ↦ none
  | some s ↦ some (take (fixed_length s.buffer) s.buffer.array, is_fatal l.level)
]

behind_slash-none : (name : Bytes) → All (λ c. c ≢ b'/') name → behind_slash name ≡ none
unfolding behind_slash
behind_slash-none [] h = refl
behind_slash-none (c ∷ s) h = ground (arith, behind_slash-none s h.1, h.0)

behind_slash-append :
    (dir name : Bytes) → All (λ c. c ≢ b'/') name → behind_slash (dir ++ (b'/' ∷ name)) ≡ some name
unfolding behind_slash
behind_slash-append [] name h = ground (arith, behind_slash-none name h)
behind_slash-append (c ∷ dir) name h = ground (arith, behind_slash-append dir name h)

-- A source file whose name has no slash is logged under that name, alone or behind any
-- directory.
pub source_file_lem :
    (dir name : Bytes)
    → All (λ c. c ≢ b'/') name
    → (source_file name ≡ name) × (source_file (dir ++ (b'/' ∷ name)) ≡ name)
unfolding source_file
source_file_lem dir name h =
    ground (arith, behind_slash-none name h, behind_slash-append dir name h)
