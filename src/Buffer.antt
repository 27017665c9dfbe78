-- ===== src/Buffer.antt =====
-- myserver/include/buffer.h and myserver/common/buffer.cpp: the byte buffer of a connection.
--
-- `bytes` is `m_buffer`; the pointers that the C++ code passes are offsets into it. Sizes are
-- `size_t`, whose wrap-around is written out. What `readv` and `write` answer is an argument.
pub mod Valid
pub mod Contents
pub mod Search
mod Tests
use my_cpp_code.Common.Words.{size_mod, add_size, sub_size, size_of_int}
use my_cpp_code.Common.{
  ℕ, zero, suc, ◌+◌, ◌-◌, ◌%◌, ◌≡◌, Bool, true, false, ◌&&◌, Option, none, some, List, [], ◌∷◌, ltb,
  leb, ◌==◌, if◌then◌else◌, Bytes, length, take, drop, replicate, slice, overwrite, resize,
}

abbrev pub cheap_prepend : ℕ
cheap_prepend = 8

abbrev pub initial_size : ℕ
initial_size = 1024

pub record Buffer : Type 0 where
  pub bytes : Bytes
  pub reader_index : ℕ
  pub writer_index : ℕ

unfoldable pub init : ℕ → Buffer
init init_size = record {
  bytes = replicate (add_size cheap_prepend init_size) 0;
  reader_index = cheap_prepend;
  writer_index = cheap_prepend;
}

unfoldable pub readable_bytes : Buffer → ℕ
readable_bytes b = sub_size b.writer_index b.reader_index

unfoldable pub writable_bytes : Buffer → ℕ
writable_bytes b = sub_size (length b.bytes) b.writer_index

unfoldable pub prependable_bytes : Buffer → ℕ
prependable_bytes b = b.reader_index

unfoldable pub retrieve_all : Buffer → Buffer
retrieve_all b = record b { reader_index = cheap_prepend; writer_index = cheap_prepend }

unfoldable pub retrieve : Buffer → ℕ → Buffer
unfolding readable_bytes retrieve_all
retrieve b len =
    if ltb len (readable_bytes b)
    then record b { reader_index = add_size b.reader_index len }
    else retrieve_all b

-- `end` is an offset from the front of `m_buffer`; `peek()` is the reader index.
unfoldable pub retrieve_until : Buffer → ℕ → Buffer
unfolding retrieve
retrieve_until b end = retrieve b (sub_size end b.reader_index)

-- `std::string(peek(), len)`.
unfoldable pub peek_string : Buffer → ℕ → Bytes
peek_string b len = take len (drop b.reader_index b.bytes)

unfoldable pub get_buffer_as_string : Buffer → Bytes
unfolding peek_string readable_bytes
get_buffer_as_string b = let len = readable_bytes b in peek_string b len

unfoldable pub retrieve_as_string : Buffer → ℕ → Bytes × Buffer
unfolding peek_string retrieve
retrieve_as_string b len = (peek_string b len, retrieve b len)

unfoldable pub retrieve_all_as_string : Buffer → Bytes × Buffer
unfolding retrieve_as_string readable_bytes
retrieve_all_as_string b = retrieve_as_string b (readable_bytes b)

-- `makeSpace(int len)`: the caller's `size_t` is narrowed, and used as a `size_t` again.
unfoldable pub make_space : Buffer → ℕ → Buffer
unfolding writable_bytes prependable_bytes readable_bytes
make_space b n =
    let len = size_of_int n in
    if ltb (add_size (writable_bytes b) (prependable_bytes b)) (add_size len cheap_prepend)
    then record b { bytes = resize b.bytes (add_size b.writer_index len) 0 }
    else record {
      bytes = overwrite b.bytes cheap_prepend (slice b.bytes b.reader_index b.writer_index);
      reader_index = cheap_prepend;
      writer_index = add_size cheap_prepend (readable_bytes b);
    }

unfoldable pub ensure_writable_bytes : Buffer → ℕ → Buffer
unfolding writable_bytes make_space
ensure_writable_bytes b len = if ltb (writable_bytes b) len then make_space b len else b

-- `append(const char* data, size_t len)`, with the bytes and their number as one list.
unfoldable pub append : Buffer → Bytes → Buffer
unfolding ensure_writable_bytes
append b str =
    let roomy = ensure_writable_bytes b (length str) in
    record roomy {
      bytes = overwrite roomy.bytes roomy.writer_index str;
      writer_index = add_size roomy.writer_index (length str);
    }

-- `std::search` for "\r\n": the offset of the first match.
unfoldable pub search_crlf : Bytes → Option ℕ
search_crlf [] = none
search_crlf (c ∷ []) = none
search_crlf (c ∷ d ∷ s) =
    let rest = search_crlf (d ∷ s) in
    if c == 13 && d == 10 then some 0 else elim rest [ none ↦ none | some i ↦ some (suc i) ]

-- An offset from `peek()`; `none` is the null pointer.
unfoldable pub find_crlf : Buffer → Option ℕ
unfolding search_crlf
find_crlf b = search_crlf (slice b.bytes b.reader_index b.writer_index)

-- What a system call answers: the bytes it moved, or `errno`.
pub data Io {ℓ} (A : Type ℓ) : Type ℓ where
  done : A → Io A
  failed : ℕ → Io A

abbrev pub extrabuf_size : ℕ
extrabuf_size = 65536

-- The bytes that the vectors given to `readv` can take.
unfoldable pub iovec_room : Buffer → ℕ
unfolding writable_bytes
iovec_room b =
    let writable = writable_bytes b in
    if ltb writable extrabuf_size then writable + extrabuf_size else writable

-- The kernel fills the writable part of `m_buffer` first and then `extrabuf`.
unfoldable pub read_fd : Buffer → Io Bytes → Buffer × Io ℕ
read_fd b (failed e) = (b, failed e)
read_fd b (done arrived) =
    let writable = writable_bytes b in
    let filled = overwrite b.bytes b.writer_index arrived in
    if leb (length arrived) writable
    then (
      record b { bytes = filled; writer_index = add_size b.writer_index (length arrived) },
      done (length arrived),
    )
    else (
      append (record b { bytes = filled; writer_index = length filled }) (drop writable arrived),
      done (length arrived),
    )

-- What is offered to `write`; the answer, a number of bytes or `errno`, is passed on.
unfoldable pub write_fd : Buffer → (Bytes → Io ℕ) → Io ℕ
unfolding peek_string readable_bytes
write_fd b write = write (peek_string b (readable_bytes b))
