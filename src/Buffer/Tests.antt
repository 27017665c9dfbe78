-- ===== src/Buffer/Tests.antt =====
-- Runs of the buffer, and its theorems at concrete buffers.
use my_cpp_code.Common.Words.{size_of_int}
use my_cpp_code.Common.{◌≡◌, refl, arith, ◌++◌, codes, length, replicate, some}
use my_cpp_code.Buffer.{
  Buffer, append, read_fd, done, ensure_writable_bytes, make_space, search_crlf,
}
use my_cpp_code.Buffer.Valid.{IsValid}
use my_cpp_code.Buffer.Contents.{contents, read_fd_lem}
use my_cpp_code.Buffer.Search.{crlf}

-- A buffer of 16 bytes that holds "abc" at its end.
abbrev nearly_full : Buffer
nearly_full = record { bytes = replicate 13 0 ++ codes "abc"; reader_index = 13; writer_index = 16 }

nearly_full-IsValid : IsValid nearly_full
nearly_full-IsValid = omega arith

read_fd_lem_example :
    let (after, answer) = read_fd nearly_full (done (codes "xy")) in
    (contents after ≡ contents nearly_full ++ codes "xy") × (answer ≡ done 2) × IsValid after
read_fd_lem_example = read_fd_lem (codes "xy") nearly_full-IsValid (omega arith)

found : search_crlf (codes "ab" ++ crlf ++ codes "c") ≡ some 2
unfolding search_crlf
found = refl

-- Five bytes fit once "abc" has moved to the front.
moved : (append nearly_full (codes "defgh")).reader_index ≡ 8
unfolding append ensure_writable_bytes make_space size_of_int
moved = refl

grown : length (append nearly_full (codes "0123456789")).bytes ≡ 26
unfolding append ensure_writable_bytes make_space size_of_int
grown = refl
