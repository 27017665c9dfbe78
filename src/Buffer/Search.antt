-- ===== src/Buffer/Search.antt =====
-- buffer.h, `findCRLF`: the first line end of the readable bytes.
use my_cpp_code.Common.{
  ℕ, zero, suc, ◌≤◌, ◌≡◌, ◌≢◌, refl, arith, [], ◌∷◌, ◌++◌, Bytes, length, none, some, All, take,
  drop,
}
use my_cpp_code.Buffer.{search_crlf}

abbrev pub crlf : Bytes
crlf = 13 ∷ 10 ∷ []

-- No "\r\n" stands in the text.
abbrev pub LacksCrlf : Bytes → Type 0
LacksCrlf s = search_crlf s ≡ none

-- A line without "\r", and its end: the search finds that end, whatever follows.
pub search_crlf-append :
    (line rest : Bytes)
    → All (λ c. c ≢ 13) line
    → search_crlf (line ++ crlf ++ rest) ≡ some (length line)
unfolding search_crlf
search_crlf-append [] rest h = refl
search_crlf-append (c ∷ []) rest h = ground arith
search_crlf-append (c ∷ d ∷ line) rest h = ground (arith, search_crlf-append (d ∷ line) rest h.1)

-- An offset that the search returns is that of a line end inside the bytes, and there is no line
-- end before it.
pub search_crlf_sound :
    (s : Bytes) (i : ℕ)
    → search_crlf s ≡ some i
    → (suc (suc i) ≤ length s) × (take 2 (drop i s) ≡ crlf) × LacksCrlf (take (suc i) s)
unfolding search_crlf
search_crlf_sound [] i h = cc
search_crlf_sound (c ∷ []) i h = cc
search_crlf_sound (c ∷ d ∷ s) zero h = ground arith
search_crlf_sound (c ∷ d ∷ s) (suc i) h = ground (arith, search_crlf_sound (d ∷ s) i)
