-- ===== src/Buffer/Contents.antt =====
-- buffer.h and buffer.cpp seen from outside: a queue of bytes. Each operation is described by what
-- it does to the readable bytes.
use my_cpp_code.Common.Words.{int_limit, size_of_int_small, add_size}
use my_cpp_code.Common.{
  ℕ, ◌+◌, ◌-◌, ◌≤◌, ◌<◌, ◌≡◌, refl, sym, ap, ◌∙◌, arith, [], ◌++◌, Bytes, length, take, drop, slice,
  overwrite, length-overwrite, length-slice, slice_self, drop-slice, take-slice, take-drop-slice,
  slice-resize, slice-overwrite_end, overwrite-take, take-append-drop, length-take, length-drop,
  append_assoc, Bool-cases, inl, inr, leb, leb→le, drop-length_le, slice-overwrite_back,
}
use my_cpp_code.Buffer.{
  Buffer, cheap_prepend, init, readable_bytes, writable_bytes, retrieve_all, retrieve, make_space,
  ensure_writable_bytes, append, done, read_fd, retrieve_as_string, retrieve_all_as_string,
  peek_string, get_buffer_as_string,
}
use my_cpp_code.Buffer.Valid.{
  IsValid, ensure-IsValid, le-writable-ensure, readable_of_valid, writable_of_valid, filled-IsValid,
  append-IsValid,
}

-- The readable bytes, oldest first.
abbrev pub contents : Buffer → Bytes
contents b = slice b.bytes b.reader_index b.writer_index

pub contents-init : (n : ℕ) → contents (init n) ≡ []
unfolding init
contents-init n = slice_self _ cheap_prepend

pub contents-retrieve_all : (b : Buffer) → contents (retrieve_all b) ≡ []
unfolding retrieve_all
contents-retrieve_all b = slice_self b.bytes cheap_prepend

pub length-contents : {b : Buffer} → IsValid b → length (contents b) ≡ readable_bytes b
length-contents {b} v =
    omega
      (arith, readable_of_valid v, length-slice b.bytes b.reader_index b.writer_index v.in_bounds)

pub contents-retrieve :
    {b : Buffer} (n : ℕ) → IsValid b → contents (retrieve b n) ≡ drop n (contents b)
unfolding retrieve
contents-retrieve {b} n v = ground (
  arith,
  readable_of_valid v,
  drop-slice n b.bytes b.reader_index b.writer_index,
  contents-retrieve_all b,
  length-contents v,
  drop-length_le n (contents b),
)

-- On a valid buffer with at least `n` readable bytes, `retrieveAsString(n)` hands out the oldest
-- `n` bytes and leaves the others, in order.
pub retrieve_as_string_lem :
    {b : Buffer} (n : ℕ)
    → IsValid b
    → n ≤ length (contents b)
    → ((retrieve_as_string b n).0 ≡ take n (contents b))
      × (contents (retrieve_as_string b n).1 ≡ drop n (contents b))
unfolding retrieve_as_string peek_string
retrieve_as_string_lem {b} n v h = (
  ap (λ k. take k (drop b.reader_index b.bytes)) (omega arith)
      ∙ take-drop-slice b.bytes b.reader_index (b.reader_index + n) (omega arith)
      ∙ sym (
          take-slice n b.bytes b.reader_index b.writer_index
            (omega (arith, length-contents v, readable_of_valid v))),
  contents-retrieve n v,
)

pub contents-make_space :
    {b : Buffer} (n : ℕ)
    → IsValid b
    → length b.bytes + n < int_limit
    → contents (make_space b n) ≡ contents b
unfolding make_space
contents-make_space {b} n v h = ground (
  arith,
  size_of_int_small n,
  readable_of_valid v,
  slice-resize b.bytes (b.writer_index + n) 0 b.reader_index b.writer_index,
  slice-overwrite_back b.bytes b.reader_index b.writer_index cheap_prepend,
)

pub contents-ensure :
    {b : Buffer} (n : ℕ)
    → IsValid b
    → length b.bytes + n < int_limit
    → contents (ensure_writable_bytes b n) ≡ contents b
unfolding ensure_writable_bytes
contents-ensure {b} n v h = ground (arith, contents-make_space n v h)

-- On a valid buffer that stays within an `int` size, `append` adds the bytes behind the readable
-- ones, whether it finds room, moves or grows.
pub contents-append :
    {b : Buffer} (s : Bytes)
    → IsValid b
    → length b.bytes + length s < int_limit
    → contents (append b s) ≡ contents b ++ s
unfolding append
contents-append {b} s v h = ground (
  arith,
  contents-ensure (length s) v h,
  ensure-IsValid (length s) v h,
  le-writable-ensure (length s) v h,
  writable_of_valid (ensure-IsValid (length s) v h),
  slice-overwrite_end (ensure_writable_bytes b (length s)).bytes s
      (ensure_writable_bytes b (length s)).reader_index
      (ensure_writable_bytes b (length s)).writer_index
      (add_size (ensure_writable_bytes b (length s)).writer_index (length s)),
)

-- The bytes that were written up to `w`, behind the content.
contents-filled :
    {b : Buffer} (s : Bytes) (w : ℕ)
    → IsValid b
    → w ≡ b.writer_index + length s
    → w ≤ length b.bytes
    → contents (record b { bytes = overwrite b.bytes b.writer_index s; writer_index = w })
      ≡ contents b ++ s
contents-filled {b} s w v e h =
    slice-overwrite_end b.bytes s b.reader_index b.writer_index w v.ordered (omega arith) e

module _ {b : Buffer} (arrived : Bytes) (v : IsValid b)
    (small : length b.bytes + length arrived < int_limit) where
  -- The buffer once the writable part is full.
  abbrev filled : Buffer
  filled = record b {
    bytes = overwrite b.bytes b.writer_index arrived;
    writer_index = length (overwrite b.bytes b.writer_index arrived);
  }

  filled_full-IsValid : IsValid filled
  filled_full-IsValid =
      filled-IsValid arrived _ v
        (omega (arith, length-overwrite b.bytes b.writer_index arrived, v.in_bounds))
        (omega (arith, length-overwrite b.bytes b.writer_index arrived))

  contents-filled_full :
      writable_bytes b ≤ length arrived
      → contents filled ≡ contents b ++ take (writable_bytes b) arrived
  contents-filled_full h =
      let part = take (length b.bytes - b.writer_index) arrived in
      rw (writable_of_valid v, overwrite-take b.bytes arrived b.writer_index)
        (slice-overwrite_end b.bytes part b.reader_index b.writer_index _ v.ordered
          (omega (arith, length-take (length b.bytes - b.writer_index) arrived))
          (omega (
            arith,
            writable_of_valid v,
            length-overwrite b.bytes b.writer_index part,
            length-take (length b.bytes - b.writer_index) arrived,
          )))

  -- On a valid buffer, if what arrives fits an `int` size, `readFd` adds every byte that `readv`
  -- delivered, in order, also when part of them went to the stack; it reports their number, and
  -- the buffer stays valid.
  pub read_fd_lem :
      let (after, answer) = read_fd b (done arrived) in
      (contents after ≡ contents b ++ arrived) × (answer ≡ done (length arrived)) × IsValid after
  unfolding read_fd
  read_fd_lem = elim (Bool-cases (leb (length arrived) (writable_bytes b))) [
    | inl fits ↦
        let room : length arrived ≤ length b.bytes - b.writer_index =
          omega (arith, leb→le (length arrived) (writable_bytes b) fits, writable_of_valid v) in
        rw fits (
          contents-filled arrived _ v (omega arith) (omega arith),
          refl,
          filled-IsValid arrived _ v (omega arith) (omega arith),
        )
    | inr over ↦
        let rest = drop (writable_bytes b) arrived in
        let few : length filled.bytes + length rest < int_limit = omega (
          arith,
          length-overwrite b.bytes b.writer_index arrived,
          length-drop (writable_bytes b) arrived,
        ) in
        rw over (
          contents-append rest filled_full-IsValid few
              ∙ ap (λ k. k ++ rest) (contents-filled_full (ground arith))
              ∙ append_assoc (contents b) (take (writable_bytes b) arrived) rest
              ∙ ap (◌++◌ (contents b)) (take-append-drop (writable_bytes b) arrived),
          refl,
          append-IsValid rest filled_full-IsValid few,
        )
  ]

-- `getBufferAsString` is the content.
pub get_buffer_as_string_lem : {b : Buffer} → IsValid b → get_buffer_as_string b ≡ contents b
unfolding get_buffer_as_string peek_string
get_buffer_as_string_lem {b} v =
    ap (λ k. take k (drop b.reader_index b.bytes)) (readable_of_valid v)
    ∙ take-drop-slice b.bytes b.reader_index b.writer_index v.ordered

-- `retrieveAllAsString` hands out the whole content and leaves none.
pub retrieve_all_as_string_lem :
    {b : Buffer}
    → IsValid b
    → ((retrieve_all_as_string b).0 ≡ contents b) × (contents (retrieve_all_as_string b).1 ≡ [])
unfolding retrieve_all_as_string retrieve_as_string retrieve get_buffer_as_string
retrieve_all_as_string_lem {b} v =
    (get_buffer_as_string_lem v, ground (arith, contents-retrieve_all b))
