-- ===== src/Http/Context/Fragment.antt =====
-- http_context.cpp, `parseRequest` on a request that has not arrived whole.
use my_cpp_code.Common.{
  ℕ, zero, suc, ◌+◌, ◌<◌, ◌≡◌, refl, ap, ◌∙◌, arith, true, false, [], ◌∷◌, ◌++◌, none, some, Bytes,
  length, All,
}
use my_cpp_code.Buffer.{Buffer, find_crlf, search_crlf}
use my_cpp_code.Buffer.Valid.{IsValid}
use my_cpp_code.Buffer.Contents.{contents}
use my_cpp_code.Http.Request.{Method, Version, HeaderMap, map_assign}
use my_cpp_code.Http.Context.{
  expect_request_line, expect_headers, Loop, stop, skip_line, turn_in, turn, turns, parse_request,
  new_context, is_got_all,
}
use my_cpp_code.Http.Context.RequestLine.{print_request_line}
use my_cpp_code.Http.Context.Rounds.{find_crlf-contents, skip_line-IsValid, turns-again, turns-stop}
use my_cpp_code.Http.Context.Headers.{
  first_line_skipped, header_line, IsHeader, header_line-Lacks, read_header,
}
use my_cpp_code.Http.Context.RoundTrip.{IsRequest, first-Lacks, read_request_line}

-- Complete header lines without the empty line that ends the head.
abbrev pub header_lines : HeaderMap → Bytes → Bytes
header_lines [] partial = partial
header_lines ((k, v) ∷ hs) partial = header_line k v ++ (13 ∷ 10 ∷ header_lines hs partial)

read_lines :
    (hs : HeaderMap) (partial : Bytes) (fuel : ℕ) (l : Loop) (now : ℕ)
    → IsValid l.buffer
    → l.context.state ≡ expect_headers
    → All IsHeader hs
    → search_crlf partial ≡ none
    → contents l.buffer ≡ header_lines hs partial
    → length hs < fuel
    → (l' : Loop) × (turns fuel l now ≡ some l')
      × (l'.ok ≡ l.ok)
      × (l'.context.state ≡ expect_headers)
      × (contents l'.buffer ≡ partial)
read_lines [] partial zero l now v at h no_end text f = absurd (omega arith)
read_lines [] partial (suc fuel) l now v at h no_end text f = (
  l,
  turns-stop fuel l l now (wait (find_crlf-contents l.buffer ∙ ap search_crlf text ∙ no_end)),
  refl,
  at,
  text,
)
  where
    wait : find_crlf l.buffer ≡ none → turn l now ≡ stop l
    wait e = unfold turn turn_in in ground arith
read_lines ((k, value) ∷ hs) partial zero l now v at h no_end text f = absurd (omega arith)
read_lines ((k, value) ∷ hs) partial (suc fuel) l now v at h no_end text f =
    let line = header_line k value in
    let lacks = header_line-Lacks k value h.0 in
    let (l', run, k', at', text') =
      read_lines hs partial fuel
        (record l {
          context = record (l.context) {
            request = record (l.context.request) {
              headers = map_assign k value l.context.request.headers;
            };
          };
          buffer = skip_line l.buffer (length line);
        })
        now (skip_line-IsValid (length line) v) at h.1 no_end
        (first_line_skipped line (header_lines hs partial) v text lacks) (omega arith) in
    (
      l',
      turns-again fuel l _ now (read_header l now v at k value (header_lines hs partial) h.0 text)
          ∙ run,
      k',
      at',
      text',
    )

-- A request whose head is not complete: the parser returns true with the request line and the
-- complete header lines taken off the buffer, and it has not got the whole request.
pub parse_request-fragment :
    (m : Method) (path query : Bytes) (version : Version) (hs : HeaderMap) (partial : Bytes)
    → IsRequest m path query version hs
    → search_crlf partial ≡ none
    → (b : Buffer) (now fuel : ℕ) → IsValid b
    → contents b ≡ print_request_line m path query version ++ (13 ∷ 10 ∷ header_lines hs partial)
    → length hs + 1 < fuel
    → (l : Loop) × (parse_request fuel new_context b now ≡ some l)
      × (l.ok ≡ true)
      × (is_got_all l.context ≡ false)
      × (contents l.buffer ≡ partial)
unfolding parse_request is_got_all
parse_request-fragment m path query version hs partial printed no_end b now zero v text f =
    absurd (omega arith)
parse_request-fragment m path query version hs partial printed no_end b now (suc fuel) v text f =
    let l : Loop = record { ok = false; context = new_context; buffer = b } in
    let started : l.context.state ≡ expect_request_line = unfold new_context in refl in
    let line = print_request_line m path query version in
    let lacks = first-Lacks m path query version hs partial printed in
    let after = header_lines hs partial in
    let (l', run, k, at, t) =
      read_lines hs partial fuel _ now (skip_line-IsValid (length line) v) refl printed.headers
        no_end (first_line_skipped line after v text lacks) (omega arith) in
    (
      l',
      turns-again fuel l _ now
            (read_request_line m path query version hs partial printed l now after v started text)
          ∙ run,
      k,
      ground arith,
      t,
    )
