-- ===== src/Http/Context/RoundTrip.antt =====
-- http_context.cpp, `parseRequest` on the requests that a client prints.
use my_cpp_code.Common.{
  ℕ, zero, suc, ◌+◌, ◌<◌, ◌≡◌, ◌≢◌, refl, ap, ◌∙◌, arith, true, false, [], ◌∷◌, ◌++◌, some, Bytes,
  length, All,
}
use my_cpp_code.Buffer.{Buffer}
use my_cpp_code.Buffer.Valid.{IsValid}
use my_cpp_code.Buffer.Contents.{contents}
use my_cpp_code.Http.Request.{
  HttpRequest, Method, Version, HeaderMap, is_known, unknown, new_request, set_receive_time,
}
use my_cpp_code.Http.Context.{
  expect_request_line, expect_headers, got_all, Loop, again, skip_line, request_line_turn, turn_in,
  turn, parse_request, new_context,
}
use my_cpp_code.Http.Context.RequestLine.{
  Lacks, process_request_line-print, print_request_line-Lacks, print_request_line, with_line,
  IsQuery, query_or,
}
use my_cpp_code.Http.Context.Rounds.{skip_line-IsValid, turns-again}
use my_cpp_code.Http.Context.Headers.{
  first_line_end, first_line, first_line_skipped, print_headers, IsHeader, assign_all, read_headers,
}

-- A request as a client prints it, with what follows it in the stream.
abbrev pub print_request : Method → Bytes → Bytes → Version → HeaderMap → Bytes → Bytes
print_request m path query version hs rest =
    print_request_line m path query version ++ (13 ∷ 10 ∷ print_headers hs rest)

-- The parts of a request that can be printed.
pub record IsRequest (m : Method) (path query : Bytes) (version : Version) (hs : HeaderMap)
    : Type 0 where
  pub method : is_known m ≡ true
  pub version_known : version ≢ unknown
  pub path_lacks : Lacks b'?' path
  pub query_marked : IsQuery query
  pub target_lacks : Lacks 32 (path ++ query)
  pub target_line : Lacks 13 (path ++ query)
  pub headers : All IsHeader hs

-- The request that the text spells, read at the time `now`.
abbrev pub spelled : Method → Bytes → Bytes → Version → HeaderMap → ℕ → HttpRequest
spelled m path query version hs now = record {
  method = m;
  version = version;
  path = path;
  query = query;
  receive_time = now;
  headers = assign_all hs [];
}

module _ (m : Method) (path query : Bytes) (version : Version) (hs : HeaderMap) (rest : Bytes)
    (printed : IsRequest m path query version hs) where
  abbrev pub first : Bytes
  first = print_request_line m path query version

  pub first-Lacks : Lacks 13 first
  first-Lacks = print_request_line-Lacks m path query version printed.target_line

  pub read_request_line :
      (l : Loop) (now : ℕ) (after : Bytes)
      → IsValid l.buffer
      → l.context.state ≡ expect_request_line
      → contents l.buffer ≡ first ++ (13 ∷ 10 ∷ after)
      → turn l now
        ≡ again (record {
          ok = true;
          context = record {
            state = expect_headers;
            request = record (with_line l.context.request m path query version) {
              receive_time = now;
            };
          };
          buffer = skip_line l.buffer (length first);
        })
  unfolding turn turn_in request_line_turn set_receive_time
  read_request_line l now after v at text = ground (
    arith,
    first_line_end first after v text first-Lacks,
    first_line first after v text first-Lacks,
    process_request_line-print l.context.request m path query version printed.method
        printed.version_known printed.path_lacks printed.query_marked printed.target_lacks,
  )

  query_or-nil : (q : Bytes) → query_or q [] ≡ q
  query_or-nil [] = refl
  query_or-nil (c ∷ q) = refl

  -- `parseRequest` reads a printable request that stands at the front of a valid buffer,
  -- whatever follows it, on fuel that exceeds the number of headers by two: it succeeds, the
  -- request is the one that was printed, stamped with the time of the read, exactly the bytes
  -- behind it stay in the buffer, and the buffer stays valid.
  pub parse_request-print :
      (b : Buffer) (now fuel : ℕ)
      → IsValid b
      → contents b ≡ print_request m path query version hs rest
      → length hs + 1 < fuel
      → (l : Loop) × (parse_request fuel new_context b now ≡ some l)
        × (l.ok ≡ true)
        × (l.context ≡ record { state = got_all; request = spelled m path query version hs now })
        × (contents l.buffer ≡ rest)
        × IsValid l.buffer
  unfolding parse_request
  parse_request-print b now zero v text f = absurd (omega arith)
  parse_request-print b now (suc fuel) v text f =
      let l : Loop = record { ok = false; context = new_context; buffer = b } in
      let started : l.context.state ≡ expect_request_line = unfold new_context in refl in
      let after = print_headers hs rest in
      let (l', run, (k, c, t, w)) =
        read_headers hs rest fuel _ now (skip_line-IsValid (length first) v) refl printed.headers
          (first_line_skipped first after v text first-Lacks) (omega arith) in
      (
        l',
        turns-again fuel l _ now (read_request_line l now after v started text) ∙ run,
        k,
        c
            ∙ unfold new_context new_request in
              ap
                (λ q. record {
                  state = got_all;
                  request = record (spelled m path query version hs now) { query = q };
                })
                (query_or-nil query),
        t,
        w,
      )
