-- ===== src/Buffer/Valid.antt =====
-- buffer.h: the picture above the class, `8 ≤ readerIndex ≤ writerIndex ≤ size`, and that every
-- operation keeps it.
use my_cpp_code.Common.Words.{size_mod, int_limit, size_of_int_small}
use my_cpp_code.Common.{
  ℕ, ◌+◌, ◌-◌, ◌%◌, ◌≤◌, ◌<◌, ◌≡◌, arith, Bytes, length, slice, overwrite, length-resize,
  length-overwrite, length-replicate,
}
use my_cpp_code.Buffer.{
  Buffer, cheap_prepend, init, readable_bytes, writable_bytes, retrieve, make_space,
  ensure_writable_bytes, append,
}

-- The sizes stay below the greatest `int`, since `makeSpace` takes one.
pub record IsValid (b : Buffer) : Type 0 where
  pub prepend : cheap_prepend ≤ b.reader_index
  pub ordered : b.reader_index ≤ b.writer_index
  pub in_bounds : b.writer_index ≤ length b.bytes
  pub fits : length b.bytes < int_limit

pub init-IsValid : (n : ℕ) → n + cheap_prepend < int_limit → IsValid (init n)
unfolding init
init-IsValid n h = omega (arith, length-replicate {A = ℕ} ((cheap_prepend + n) % size_mod) 0)

pub readable_of_valid :
    {b : Buffer} → IsValid b → readable_bytes b ≡ b.writer_index - b.reader_index
unfolding readable_bytes
readable_of_valid v = omega arith

pub writable_of_valid :
    {b : Buffer} → IsValid b → writable_bytes b ≡ length b.bytes - b.writer_index
unfolding writable_bytes
writable_of_valid v = omega arith

pub retrieve-IsValid : {b : Buffer} (n : ℕ) → IsValid b → IsValid (retrieve b n)
unfolding retrieve
retrieve-IsValid n v = ground arith

pub make_space-IsValid :
    {b : Buffer} (n : ℕ) → IsValid b → length b.bytes + n < int_limit → IsValid (make_space b n)
unfolding make_space
make_space-IsValid {b} n v h = ground (
  arith,
  size_of_int_small n,
  length-resize b.bytes (b.writer_index + n) 0,
  length-overwrite b.bytes cheap_prepend (slice b.bytes b.reader_index b.writer_index),
)

pub ensure-IsValid :
    {b : Buffer} (n : ℕ)
    → IsValid b
    → length b.bytes + n < int_limit
    → IsValid (ensure_writable_bytes b n)
unfolding ensure_writable_bytes
ensure-IsValid {b} n v h = ground (arith, make_space-IsValid n v)

-- On a valid buffer that stays within an `int` size, `ensureWritableBytes(n)` makes room for `n`
-- bytes, by moving the content or by growing.
pub le-writable-ensure :
    {b : Buffer} (n : ℕ)
    → IsValid b
    → length b.bytes + n < int_limit
    → n ≤ writable_bytes (ensure_writable_bytes b n)
unfolding ensure_writable_bytes make_space
le-writable-ensure {b} n v h = ground (
  arith,
  size_of_int_small n,
  length-resize b.bytes (b.writer_index + n) 0,
  length-overwrite b.bytes cheap_prepend (slice b.bytes b.reader_index b.writer_index),
)

pub length-ensure-le :
    {b : Buffer} (n : ℕ)
    → IsValid b
    → length b.bytes + n < int_limit
    → length (ensure_writable_bytes b n).bytes ≤ length b.bytes + n
unfolding ensure_writable_bytes make_space
length-ensure-le {b} n v h = ground (
  arith,
  size_of_int_small n,
  length-resize b.bytes (b.writer_index + n) 0,
  length-overwrite b.bytes cheap_prepend (slice b.bytes b.reader_index b.writer_index),
)

pub append-IsValid :
    {b : Buffer} (s : Bytes)
    → IsValid b
    → length b.bytes + length s < int_limit
    → IsValid (append b s)
unfolding append
append-IsValid {b} s v h = ground (
  arith,
  ensure-IsValid (length s) v h,
  le-writable-ensure (length s) v h,
  writable_of_valid (ensure-IsValid (length s) v h),
  length-overwrite (ensure_writable_bytes b (length s)).bytes
      (ensure_writable_bytes b (length s)).writer_index s,
)

pub length-append-le :
    {b : Buffer} (s : Bytes)
    → IsValid b
    → length b.bytes + length s < int_limit
    → length (append b s).bytes ≤ length b.bytes + length s
unfolding append
length-append-le {b} s v h = ground (
  arith,
  length-ensure-le (length s) v h,
  length-overwrite (ensure_writable_bytes b (length s)).bytes
      (ensure_writable_bytes b (length s)).writer_index s,
)

-- With the bytes that fitted written and the writer index at the end, the buffer is valid.
pub filled-IsValid :
    {b : Buffer} (s : Bytes) (w : ℕ)
    → IsValid b
    → b.writer_index ≤ w
    → w ≤ length b.bytes
    → IsValid (record b { bytes = overwrite b.bytes b.writer_index s; writer_index = w })
filled-IsValid {b} s w v lo hi = ground (arith, length-overwrite b.bytes b.writer_index s)
