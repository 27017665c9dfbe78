-- ===== src/Log/FixedBuffer.antt =====
-- myserver/include/fixed_buffer.h: `FixedBuffer<SIZE>`. `m_cur` is an offset into `m_data`, whose
-- length is `SIZE`.
use my_cpp_code.Common.{
  ℕ, ◌+◌, ◌-◌, ◌≤◌, ◌<◌, ◌≡◌, ◌≢◌, sym, ap, ◌∙◌, arith, ◌++◌, ltb, if◌then◌else◌, Bytes, length,
  take, replicate, overwrite, length-overwrite, slice-zero, slice-overwrite_end, length-take,
}

pub record FixedBuffer : Type 0 where
  pub array : Bytes
  pub cur : ℕ

unfoldable pub new_fixed : ℕ → FixedBuffer
new_fixed size = record { array = replicate size 0; cur = 0 }

unfoldable pub avail : FixedBuffer → ℕ
avail b = length b.array - b.cur

-- A text that does not fit is dropped whole.
unfoldable pub append : FixedBuffer → Bytes → FixedBuffer
unfolding avail
append b s =
    if ltb (length s) (avail b)
    then record { array = overwrite b.array b.cur s; cur = b.cur + length s }
    else b

unfoldable pub add : FixedBuffer → ℕ → FixedBuffer
add b len = record b { cur = b.cur + len }

unfoldable pub reset : FixedBuffer → FixedBuffer
reset b = record b { cur = 0 }

-- `end() - m_data`: the size of the array, not the length of what was written.
unfoldable pub fixed_length : FixedBuffer → ℕ
fixed_length b = length b.array

unfoldable pub to_string : FixedBuffer → Bytes
unfolding fixed_length
to_string b = take (fixed_length b) b.array

abbrev pub IsValid : FixedBuffer → Type 0
IsValid b = b.cur ≤ length b.array

-- What has been written so far.
abbrev pub written : FixedBuffer → Bytes
written b = take b.cur b.array

pub written-overwrite :
    (b : FixedBuffer) (s : Bytes) (to : ℕ)
    → b.cur + length s ≤ length b.array
    → to ≡ b.cur + length s
    → take to (overwrite b.array b.cur s) ≡ written b ++ s
written-overwrite b s to h e =
    sym (slice-zero (overwrite b.array b.cur s) to)
    ∙ slice-overwrite_end b.array s 0 b.cur to (omega arith) h e
    ∙ ap (λ t. t ++ s) (slice-zero b.array b.cur)

-- On a valid buffer, `append` adds the text behind what is written if it leaves a byte free, and
-- else changes nothing; the position stays inside the array, whose size stays the same.
pub append_lem :
    (b : FixedBuffer) (s : Bytes)
    → IsValid b
    → (written (append b s) ≡ (if ltb (length s) (avail b) then written b ++ s else written b))
      × IsValid (append b s)
      × (length (append b s).array ≡ length b.array)
unfolding append avail
append_lem b s v =
    ground (arith, written-overwrite b s (b.cur + length s), length-overwrite b.array b.cur s)

pub length-to_string : (b : FixedBuffer) → length (to_string b) ≡ length b.array
unfolding to_string fixed_length
length-to_string b = omega (arith, length-take (length b.array) b.array)

-- Unless the array is full, `toString` is not what was written: it hands out the whole array.
pub to_string-ne-written : (b : FixedBuffer) → b.cur < length b.array → to_string b ≢ written b
to_string-ne-written b h e =
    omega (arith, ap length e, length-to_string b, length-take b.cur b.array)
