-- ===== src/Http/Tests.antt =====
-- The theorems on requests and responses, at concrete requests.
use my_cpp_code.Common.Words.{size_of_int}
use my_cpp_code.Common.Decimal.{decimal}
use my_cpp_code.Common.{
  ◌+◌, ◌<◌, ◌≡◌, ◌≢◌, ◌↔◌, refl, arith, true, false, [], ◌∷◌, ◌++◌, none, some, Bytes, codes,
  length, replicate, slice, slice-append_middle, append-nil, ap, sym, ◌∙◌, length-append,
}
use my_cpp_code.Buffer.{Buffer, init, find_crlf, search_crlf}
use my_cpp_code.Buffer.Valid.{IsValid}
use my_cpp_code.Buffer.Contents.{contents}
use my_cpp_code.Http.Request.{
  get, http10, http11, HeaderMap, method_string, method_of_string, is_known, skip_spaces,
  pop_spaces, keep_byte, isspace,
}
use my_cpp_code.Http.Context.{
  got_all, Loop, line_of, process_request_line, parse_request, new_context, find, index_of,
  set_protocol,
}
use my_cpp_code.Http.Context.RequestLine.{print_request_line}
use my_cpp_code.Http.Context.Rounds.{parse_request_returns, parse_request_refused}
use my_cpp_code.Http.Context.RoundTrip.{IsRequest, print_request, spelled, parse_request-print}
use my_cpp_code.Http.Context.Fragment.{header_lines}
use my_cpp_code.Http.Response.{HttpResponse, new_response, ok, code_of}
use my_cpp_code.Http.Server.{send, shutdown, HttpCallback, on_message, bad_request_text}
use my_cpp_code.Http.Server.Answers.{
  answer, IsSendable, on_message-print, on_message_incomplete, on_message-fragment,
}

abbrev in_order : HeaderMap → HeaderMap
in_order hs = hs

abbrev hello : HttpResponse
hello = record {
  headers = [];
  status_code = ok;
  status_msg = codes "OK";
  close_connection = true;
  body = codes "hi";
}

abbrev say_hello : HttpCallback
say_hello req resp = hello

hello-IsSendable : IsSendable in_order hello
unfolding init size_of_int code_of decimal
hello-IsSendable = omega arith

-- A buffer with a text behind the eight free bytes at its front.
abbrev holding : Bytes → Buffer
holding s = record { bytes = replicate 8 0 ++ s; reader_index = 8; writer_index = 8 + length s }

holding-IsValid : (s : Bytes) → length s < 1000 → IsValid (holding s)
holding-IsValid s h = omega (arith, length-append (replicate 8 0) s)

contents-holding : (s : Bytes) → contents (holding s) ≡ s
contents-holding s =
    ap (λ t. slice t 8 (8 + length s)) (sym (append-nil (replicate 8 0 ++ s)))
    ∙ slice-append_middle (replicate 8 0) s [] 8 (8 + length s) refl refl

abbrev some_headers : HeaderMap
some_headers = (codes "Host", codes "a") ∷ []

some-IsRequest : IsRequest get (codes "/p") (codes "?q") http11 some_headers
unfolding is_known skip_spaces pop_spaces isspace keep_byte
some-IsRequest = record {
  method = refl;
  version_known = λ e. cc;
  path_lacks = omega arith;
  query_marked = refl;
  target_lacks = omega arith;
  target_line = omega arith;
  headers = ((omega arith, omega arith, omega arith, refl, refl), tt);
}

abbrev whole : Bytes
whole = print_request get (codes "/p") (codes "?q") http11 some_headers (codes "rest")

whole-short : length whole < 1000
unfolding method_string
whole-short = omega arith

on_message-print_example :
    (after : Buffer) × (on_message in_order say_hello 10 (holding whole) 5
      ≡ some (
        answer in_order (
            say_hello
              (spelled get (codes "/p") (codes "?q") http11 some_headers 5)
              (new_response true)),
        after,
      ))
    × (contents after ≡ codes "rest")
    × IsValid after
on_message-print_example =
    on_message-print in_order say_hello get (codes "/p") (codes "?q") http11 some_headers
      (codes "rest") some-IsRequest (holding whole) 5 10 (holding-IsValid whole whole-short)
      (contents-holding whole) (omega arith) hello-IsSendable

parse_request-print_example :
    (l : Loop) × (parse_request 10 new_context (holding whole) 5 ≡ some l)
    × (l.ok ≡ true)
    × (l.context ≡ record {
      state = got_all;
      request = spelled get (codes "/p") (codes "?q") http11 some_headers 5;
    })
    × (contents l.buffer ≡ codes "rest")
    × IsValid l.buffer
parse_request-print_example =
    parse_request-print get (codes "/p") (codes "?q") http11 some_headers (codes "rest")
      some-IsRequest (holding whole) 5 10 (holding-IsValid whole whole-short)
      (contents-holding whole) (omega arith)

abbrev bad : Bytes
bad = codes "FOO" ++ (13 ∷ 10 ∷ [])

bad_line : find_crlf (holding bad) ≡ some 3
unfolding find_crlf search_crlf
bad_line = refl

bad_refused : (process_request_line new_context.request (line_of (holding bad) 3)).1 ≡ false
unfolding process_request_line find index_of
bad_refused = refl

parse_request_refused_example : parse_request 1000 new_context (holding bad) 5 ≡ none
parse_request_refused_example =
    parse_request_refused 1000 new_context (holding bad) 3 5 (unfold new_context in refl) bad_line
      bad_refused

abbrev good : Bytes
good = print_request_line get (codes "/p") [] http10 ++ (13 ∷ 10 ∷ codes "Ho")

good_line : find_crlf (holding good) ≡ some 15
unfolding find_crlf search_crlf method_string
good_line = refl

good_accepted : (process_request_line new_context.request (line_of (holding good) 15)).1 ≡ true
unfolding process_request_line find index_of method_string is_known method_of_string set_protocol
good_accepted = refl

good-short : length good + 1 < 1000
unfolding method_string
good-short = omega arith

parse_request_returns_example :
    (l : Loop) × (parse_request 1000 new_context (holding good) 5 ≡ some l)
    × ((l.ok ≡ true) ↔ (find_crlf (holding good) ≢ none))
    × IsValid l.buffer
parse_request_returns_example =
    parse_request_returns 1000 new_context (holding good) 5 (unfold new_context in refl)
      (holding-IsValid good (omega (arith, good-short)))
      (λ n e. ground (arith, good_line, good_accepted))
      (omega (arith, good-short, ap length (contents-holding good)))

abbrev cut : Bytes
cut = codes "GET /p HT"

cut_line : find_crlf (holding cut) ≡ none
unfolding find_crlf search_crlf
cut_line = refl

on_message_incomplete_example :
    on_message in_order say_hello 10 (holding cut) 5
    ≡ some (send bad_request_text ∷ shutdown ∷ [], holding cut)
on_message_incomplete_example = on_message_incomplete in_order say_hello (holding cut) 5 9 cut_line

abbrev half : Bytes
half =
    print_request_line get (codes "/p") (codes "?q") http11
    ++ (13 ∷ 10 ∷ header_lines some_headers (codes "Acc"))

half-short : length half < 1000
unfolding method_string
half-short = omega arith

on_message-fragment_example :
    (after : Buffer) × (on_message in_order say_hello 10 (holding half) 5 ≡ some ([], after))
    × (contents after ≡ codes "Acc")
on_message-fragment_example =
    on_message-fragment in_order say_hello get (codes "/p") (codes "?q") http11 some_headers
      (codes "Acc") some-IsRequest (unfold search_crlf in refl) (holding half) 5 10
      (holding-IsValid half half-short) (contents-holding half) (omega arith)
