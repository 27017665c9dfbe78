-- ===== src/Http/Context/Headers.antt =====
-- http_context.cpp, `parseRequest`: the turns of the loop on a printed line and on header lines.
use my_cpp_code.Common.{
  ℕ, zero, suc, ◌+◌, ◌≤◌, ◌<◌, ◌≡◌, refl, sym, ap, ◌∙◌, arith, [], ◌∷◌, ◌++◌, some, Bytes, length,
  drop, take, All, length-append, take-append_length, drop-append_length, slice-append_middle,
  take-slice, All-append, append_assoc,
}
use my_cpp_code.Buffer.{Buffer, find_crlf, search_crlf}
use my_cpp_code.Buffer.Valid.{IsValid, readable_of_valid}
use my_cpp_code.Buffer.Contents.{contents, length-contents}
use my_cpp_code.Buffer.Search.{search_crlf-append}
use my_cpp_code.Http.Request.{
  HttpRequest, HeaderMap, map_assign, add_header, skip_spaces, pop_spaces,
}
use my_cpp_code.Http.Context.{
  expect_headers, got_all, Loop, again, stop, line_of, skip_line, header_turn, turn_in, turn, turns,
  find, index_of,
}
use my_cpp_code.Http.Context.RequestLine.{Lacks, index_of-append, find-append_end}
use my_cpp_code.Http.Context.Rounds.{
  find_crlf-contents, skip_line-IsValid, contents-skip_line, turns-again, turns-stop,
}

module _ {b : Buffer} (line rest : Bytes) (v : IsValid b)
    (text : contents b ≡ line ++ (13 ∷ 10 ∷ rest)) (lacks : Lacks 13 line) where
  pub first_line_end : find_crlf b ≡ some (length line)
  first_line_end =
      find_crlf-contents b
      ∙ ap search_crlf text
      ∙ ap search_crlf (sym (append_assoc line (13 ∷ 10 ∷ []) rest))
      ∙ search_crlf-append line rest lacks

  first_line_fits : length line + 2 ≤ length (contents b)
  first_line_fits = omega (arith, ap length text, length-append line (13 ∷ 10 ∷ rest))

  pub first_line : line_of b (length line) ≡ line
  first_line =
      sym (
        take-slice (length line) b.bytes b.reader_index b.writer_index
          (omega (arith, first_line_fits, length-contents v, readable_of_valid v)))
      ∙ ap (take (length line)) text
      ∙ take-append_length line (13 ∷ 10 ∷ rest)

  pub first_line_skipped : contents (skip_line b (length line)) ≡ rest
  first_line_skipped =
      contents-skip_line (length line) v first_line_fits
      ∙ ap (drop (length line + 2)) (text ∙ sym (append_assoc line (13 ∷ 10 ∷ []) rest))
      ∙ ap (λ k. drop k ((line ++ (13 ∷ 10 ∷ [])) ++ rest))
          (omega (arith, length-append line (13 ∷ 10 ∷ [])))
      ∙ drop-append_length (line ++ (13 ∷ 10 ∷ [])) rest

-- A header as a client writes it, `field: value`.
abbrev pub header_line : Bytes → Bytes → Bytes
header_line field value = field ++ (b':' ∷ 32 ∷ value)

abbrev pub print_headers : HeaderMap → Bytes → Bytes
print_headers [] rest = 13 ∷ 10 ∷ rest
print_headers ((k, v) ∷ hs) rest = header_line k v ++ (13 ∷ 10 ∷ print_headers hs rest)

-- The field has no colon, neither part a "\r", and the value no space at either end.
abbrev pub IsHeader : Bytes × Bytes → Type 0
IsHeader (k, v) = Lacks b':' k × Lacks 13 k × Lacks 13 v × (skip_spaces v ≡ v) × (pop_spaces v ≡ v)

abbrev pub assign_all : HeaderMap → HeaderMap → HeaderMap
assign_all [] m = m
assign_all ((k, v) ∷ hs) m = assign_all hs (map_assign k v m)

header_line-colon :
    (k v : Bytes)
    → Lacks b':' k
    → find (header_line k v) 0 (length (header_line k v)) b':' ≡ length k
header_line-colon k v h = omega (
  arith,
  find-append_end [] (header_line k v) 0 (length (header_line k v)) b':' refl (omega arith),
  index_of-append b':' k (32 ∷ v) h,
)

skip_spaces-space : (v : Bytes) → skip_spaces (32 ∷ v) ≡ skip_spaces v
unfolding skip_spaces
skip_spaces-space v = refl

add_header-header_line :
    (r : HttpRequest) (k v : Bytes)
    → IsHeader (k, v)
    → add_header r (header_line k v) (length k) ≡ record r { headers = map_assign k v r.headers }
unfolding add_header
add_header-header_line r k v h = ground (
  arith,
  slice-append_middle [] k (b':' ∷ 32 ∷ v) 0 (length k),
  drop-append_length (k ++ (b':' ∷ [])) (32 ∷ v),
  append_assoc k (b':' ∷ []) (32 ∷ v),
  length-append k (b':' ∷ []),
  skip_spaces-space v,
  h.3,
  h.4,
)

pub header_line-Lacks : (k v : Bytes) → IsHeader (k, v) → Lacks 13 (header_line k v)
header_line-Lacks k v h = All-append _ k (b':' ∷ 32 ∷ v) h.1 (omega arith, (omega arith, h.2))

module _ (l : Loop) (now : ℕ) (v : IsValid l.buffer) (at : l.context.state ≡ expect_headers) where
  pub read_header :
      (k value rest : Bytes)
      → IsHeader (k, value)
      → contents l.buffer ≡ header_line k value ++ (13 ∷ 10 ∷ rest)
      → turn l now
        ≡ again (record l {
          context = record (l.context) {
            request = record (l.context.request) {
              headers = map_assign k value l.context.request.headers;
            };
          };
          buffer = skip_line l.buffer (length (header_line k value));
        })
  unfolding turn turn_in header_turn
  read_header k value rest h text =
      let lacks = header_line-Lacks k value h in
      ground (
        arith,
        first_line_end (header_line k value) rest v text lacks,
        first_line (header_line k value) rest v text lacks,
        header_line-colon k value h.0,
        length-append k (b':' ∷ 32 ∷ value),
        add_header-header_line l.context.request k value h,
      )

  read_last :
      (rest : Bytes)
      → contents l.buffer ≡ 13 ∷ 10 ∷ rest
      → turn l now
        ≡ stop (record l {
          context = record (l.context) { state = got_all };
          buffer = skip_line l.buffer 0;
        })
  unfolding turn turn_in header_turn find index_of
  read_last rest text =
      ground (arith, first_line_end [] rest v text tt, first_line [] rest v text tt)

-- What is left of the loop when the headers and the empty line have been read.
abbrev pub HasRead : Loop → HeaderMap → Bytes → Loop → Type 0
HasRead l hs rest l' =
    (l'.ok ≡ l.ok)
    × (l'.context ≡ record {
      state = got_all;
      request = record (l.context.request) { headers = assign_all hs l.context.request.headers };
    })
    × (contents l'.buffer ≡ rest)
    × IsValid l'.buffer

pub read_headers :
    (hs : HeaderMap) (rest : Bytes) (fuel : ℕ) (l : Loop) (now : ℕ)
    → IsValid l.buffer
    → l.context.state ≡ expect_headers
    → All IsHeader hs
    → contents l.buffer ≡ print_headers hs rest
    → length hs < fuel
    → (l' : Loop) × (turns fuel l now ≡ some l') × HasRead l hs rest l'
read_headers [] rest zero l now v at h text f = absurd (omega arith)
read_headers [] rest (suc fuel) l now v at h text f = (
  record l { context = record (l.context) { state = got_all }; buffer = skip_line l.buffer 0 },
  turns-stop fuel l _ now (read_last l now v at rest text),
  (refl, refl, first_line_skipped [] rest v text tt, skip_line-IsValid 0 v),
)
read_headers ((k, value) ∷ hs) rest zero l now v at h text f = absurd (omega arith)
read_headers ((k, value) ∷ hs) rest (suc fuel) l now v at h text f =
    let line = header_line k value in
    let lacks = header_line-Lacks k value h.0 in
    let (l', run, done) =
      read_headers hs rest fuel
        (record l {
          context = record (l.context) {
            request = record (l.context.request) {
              headers = map_assign k value l.context.request.headers;
            };
          };
          buffer = skip_line l.buffer (length line);
        })
        now (skip_line-IsValid (length line) v) at h.1
        (first_line_skipped line (print_headers hs rest) v text lacks) (omega arith) in
    (
      l',
      turns-again fuel l _ now (read_header l now v at k value (print_headers hs rest) h.0 text)
          ∙ run,
      done,
    )
