-- ===== src/Log/Stream.antt =====
-- myserver/include/log_stream.h and myserver/common/log_stream.cpp: `LogStream`.
--
-- An integer of any of the C++ types is its sign and its magnitude: `num % 10` and `num /= 10`
-- truncate towards zero, so both keep the sign of `num`. The digit loop runs on fuel.
pub mod Integers
use my_cpp_code.Common.{
  ℕ, zero, suc, ◌+◌, ◌-◌, ◌/◌, ◌%◌, Bool, true, false, not, ◌&&◌, List, [], ◌∷◌, ◌++◌, Option, none,
  some, ltb, leb, ◌==◌, if◌then◌else◌, Bytes, codes, length, get_elem?, overwrite, take,
}
use mathlib.Core.List.{reverse}
use my_cpp_code.Log.FixedBuffer
use my_cpp_code.Log.FixedBuffer.{FixedBuffer}

abbrev pub small_buffer : ℕ
small_buffer = 4000

abbrev pub max_number_size : ℕ
max_number_size = 48

pub record LogStream : Type 0 where
  pub buffer : FixedBuffer

pub record Integer : Type 0 where
  pub negative : Bool
  pub magnitude : ℕ

-- The array that `zero[remainder]` reads, with `zero` at index 9.
abbrev pub digit_table : Bytes
digit_table = codes "9876543210123456789"

-- `zero[remainder]`; a remainder lies between -9 and 9.
unfoldable pub digit_at : Bool → ℕ → ℕ
digit_at negative r = elim (get_elem? digit_table (if negative then 9 - r else 9 + r)) [
  | some c ↦ c
  | none ↦ 0
]

-- The `do … while (num != 0)` loop: the digits, lowest first. `none` means that the fuel ran out.
unfoldable pub digit_loop : ℕ → Bool → ℕ → Bytes → Option Bytes
unfolding digit_at
digit_loop zero negative m out = none
digit_loop (suc fuel) negative m out =
    let out' = out ++ (digit_at negative (m % 10) ∷ []) in
    let rest = digit_loop fuel negative (m / 10) out' in if m / 10 == 0 then some out' else rest

-- 64-bit integers have at most 20 digits.
abbrev pub digit_fuel : ℕ
digit_fuel = 20

unfoldable pub format_integer : Integer → LogStream → Option LogStream
unfolding digit_loop
format_integer num s =
    if leb max_number_size (FixedBuffer.avail s.buffer)
    then elim (digit_loop digit_fuel num.negative num.magnitude []) [
      | none ↦ none
      | some digits ↦
          let b = s.buffer in
          let text = if num.negative then digits ++ (b'-' ∷ []) else digits in
          some (record {
            buffer =
                FixedBuffer.add
                  (record b { array = overwrite b.array b.cur (reverse text ++ (0 ∷ [])) })
                  (length text);
          })
    ]
    else some s

unfoldable pub put_char : ℕ → LogStream → LogStream
put_char c s = record { buffer = FixedBuffer.append s.buffer (c ∷ []) }

-- `none` is the null pointer.
unfoldable pub put_text : Option Bytes → LogStream → LogStream
put_text none s = record { buffer = FixedBuffer.append s.buffer (codes "(null)") }
put_text (some t) s = record { buffer = FixedBuffer.append s.buffer t }

unfoldable pub put_buffer : FixedBuffer → LogStream → LogStream
unfolding put_text
put_buffer b s = put_text (some (FixedBuffer.to_string b)) s

-- The overloads for the integer types: a cast keeps the value, and `formatInteger` writes it.
unfoldable pub put_integer : Integer → LogStream → Option LogStream
unfolding format_integer
put_integer n s = format_integer n s

unfoldable pub put_string : Bytes → LogStream → LogStream
put_string t s = record { buffer = FixedBuffer.append s.buffer t }

-- A `GeneralTemplate` is a text and the number of its bytes that count.
unfoldable pub put_general : Bytes → ℕ → LogStream → LogStream
put_general text len s = record { buffer = FixedBuffer.append s.buffer (take len text) }
