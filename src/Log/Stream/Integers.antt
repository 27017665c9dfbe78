-- ===== src/Log/Stream/Integers.antt =====
-- log_stream.cpp, `formatInteger`: an integer is written in decimal.
use mathlib.Core.List.{reverse, reverse-append, reverse-cons}
use my_cpp_code.Common.Decimal.{decimal, digits}
use my_cpp_code.Common.{
  ℕ, zero, suc, ◌+◌, ◌*◌, ◌/◌, ◌%◌, ◌^◌, ◌≤◌, ◌<◌, ◌≡◌, refl, ap, ◌∙◌, arith, Bool, true, false, [],
  ◌∷◌, ◌++◌, Option, some, if◌then◌else◌, Bytes, length, overwrite, append_assoc, length-append,
  every_below, every_below_lem, ◌==◌, ==_iff, Bool-cases, inl, inr, leb, leb→le,
  take-overwrite_append, length-reverse, length-overwrite, append-nil,
}
use my_cpp_code.Log.FixedBuffer
use my_cpp_code.Log.FixedBuffer.{written, IsValid, written-overwrite}
use my_cpp_code.Log.Stream.{
  LogStream, Integer, digit_at, digit_loop, format_integer, max_number_size, digit_fuel,
}

digit_at-table : (negative : Bool) → every_below (λ r. digit_at negative r == b'0' + r) 10 ≡ true
unfolding digit_at every_below
digit_at-table true = refl
digit_at-table false = refl

-- Both halves of the table give the digit of the remainder.
digit_at-lt : (negative : Bool) (r : ℕ) → r < 10 → digit_at negative r ≡ b'0' + r
digit_at-lt negative r h =
    (==_iff (digit_at negative r) (b'0' + r)).0 (every_below_lem _ 10 (digit_at-table negative) r h)

abbrev pow10 : ℕ → ℕ
pow10 zero = 1
pow10 (suc n) = 10 * pow10 n

pow10_pos : (n : ℕ) → 1 < pow10 n → 0 < n
pow10_pos zero h = absurd (omega arith)
pow10_pos (suc n) h = omega arith

-- The digits that the loop collects, and `decimal`'s, are the same in opposite orders.
abbrev Collects : ℕ → Option Bytes → Bytes → Bytes → Bytes → Type 0
Collects limit result out printed acc =
    (ds : Bytes) × (result ≡ some (out ++ ds)) × (printed ≡ reverse ds ++ acc) × (length ds ≤ limit)

digit_loop-digits :
    (fuel f m : ℕ) (negative : Bool) (out acc : Bytes)
    → m < pow10 fuel
    → 0 < fuel
    → m ≤ f
    → Collects fuel (digit_loop fuel negative m out) out (digits f m acc) acc
unfolding digit_loop digits
digit_loop-digits zero f m negative out acc h pos g = absurd (omega arith)
digit_loop-digits (suc fuel) zero m negative out acc h pos g = (
  digit_at negative (m % 10) ∷ [],
  ground arith,
  ground (arith, digit_at-lt negative (m % 10)),
  omega arith,
)
digit_loop-digits (suc fuel) (suc f) m negative out acc h pos g = elim (Bool-cases (m / 10 == 0)) [
  | inl last ↦ (
    digit_at negative (m % 10) ∷ [],
    ground arith,
    ground (arith, digit_at-lt negative (m % 10)),
    omega arith,
  )
  | inr more ↦
      let c = digit_at negative (m % 10) in
      let (ds, run, print, few) =
        digit_loop-digits fuel f (m / 10) negative (out ++ (c ∷ [])) ((b'0' + m % 10) ∷ acc)
          (ground arith) (pow10_pos fuel (ground arith)) (omega arith) in
      (
        c ∷ ds,
        rw (more, digit_loop) (run ∙ ap some (append_assoc out (c ∷ []) ds)),
        ground (
          arith,
          print,
          digit_at-lt negative (m % 10),
          reverse-cons c ds,
          append_assoc (reverse ds) (c ∷ []) acc,
        ),
        omega (arith, few),
      )
]

-- The text of an integer.
abbrev pub integer_text : Integer → Bytes
integer_text n = if n.negative then b'-' ∷ decimal n.magnitude else decimal n.magnitude

format_digits :
    (m : ℕ) (negative : Bool)
    → m < 2 ^ 64
    → Collects digit_fuel (digit_loop digit_fuel negative m []) [] (decimal m) []
unfolding decimal
format_digits m negative h =
    digit_loop-digits digit_fuel m m negative [] [] (omega arith) (omega arith) (omega arith)

-- What the stream writes for the digits, lowest first, and a sign.
abbrev backwards : Bool → Bytes → Bytes
backwards negative ds = if negative then ds ++ (b'-' ∷ []) else ds

reverse-backwards :
    (n : Integer) (ds : Bytes)
    → decimal n.magnitude ≡ reverse ds ++ []
    → reverse (backwards n.negative ds) ≡ integer_text n
reverse-backwards n ds e = ground (arith, reverse-append ds (b'-' ∷ []), append-nil (reverse ds))

-- On a valid stream, an integer of a magnitude below 2 ^ 64 is written in decimal, with a minus
-- sign if it is negative, behind what the stream holds, if 48 bytes are free; nothing is written
-- if they are not; and the stream stays valid.
pub format_integer_lem :
    (n : Integer) (s : LogStream)
    → n.magnitude < 2 ^ 64
    → IsValid s.buffer
    → (s' : LogStream) × (format_integer n s ≡ some s')
      × (written s'.buffer ≡ (
          if leb max_number_size (FixedBuffer.avail s.buffer)
          then written s.buffer ++ integer_text n
          else written s.buffer))
      × IsValid s'.buffer
unfolding format_integer FixedBuffer.avail FixedBuffer.add
format_integer_lem n s h v = elim (Bool-cases (leb max_number_size (FixedBuffer.avail s.buffer))) [
  | inl free ↦
      let b = s.buffer in
      let (ds, run, print, few) = format_digits n.magnitude n.negative h in
      let text = backwards n.negative ds in
      let room : b.cur + length text < length b.array =
        ground
          (arith, length-append ds (b'-' ∷ []), leb→le max_number_size (FixedBuffer.avail b)) in
      (
        record {
          buffer = record {
            array = overwrite b.array b.cur (reverse text ++ (0 ∷ []));
            cur = b.cur + length text;
          };
        },
        rw (free, format_integer, run),
        rw free (
            take-overwrite_append b.array (reverse text) (0 ∷ []) b.cur (b.cur + length text)
              (omega (arith, length-reverse text)) (omega arith)
            ∙ ap (◌++◌ (written b)) (reverse-backwards n ds print)),
        omega (arith, length-overwrite b.array b.cur (reverse text ++ (0 ∷ []))),
      )
  | inr full ↦ (s, ground arith, ground arith, v)
]
