-- ===== src/Http/Server/Answers.antt =====
-- http_server.cpp, `onMessage` and `onRequest`: what goes out on the connection for what came in.
use my_cpp_code.Common.Words.{int_limit}
use my_cpp_code.Common.{
  ℕ, suc, ◌+◌, ◌<◌, ◌≡◌, refl, ap, ◌∙◌, arith, true, false, List, [], ◌∷◌, ◌++◌, none, some,
  if◌then◌else◌, length,
}
use my_cpp_code.Buffer.{Buffer, init, initial_size, find_crlf, search_crlf}
use my_cpp_code.Buffer.Valid.{IsValid, init-IsValid}
use my_cpp_code.Buffer.Contents.{contents, contents-init, get_buffer_as_string_lem}
use my_cpp_code.Http.Request.{HttpRequest, Method, Version, HeaderMap}
use my_cpp_code.Http.Context.{new_context, line_of, process_request_line, is_got_all}
use my_cpp_code.Http.Context.Rounds.{parse_request_refused, parse_request_incomplete}
use my_cpp_code.Http.Context.RequestLine.{print_request_line}
use my_cpp_code.Http.Context.RoundTrip.{IsRequest, print_request, spelled, parse_request-print}
use my_cpp_code.Http.Context.Fragment.{header_lines, parse_request-fragment}
use my_cpp_code.Http.Response.{HttpResponse, new_response}
use my_cpp_code.Http.Response.Render.{render, append_to_buffer-Took}
use my_cpp_code.Http.Server.{
  Action, send, shutdown, HttpCallback, on_request, on_message, bad_request_text,
}

-- What `onRequest` does with the response that the callback has filled in.
abbrev pub answer : (HeaderMap → HeaderMap) → HttpResponse → List Action
answer order r = send (render order r) ∷ (if r.close_connection then shutdown ∷ [] else [])

-- The size of a new buffer, and of the response in it, fits an `int`.
abbrev pub IsSendable : (HeaderMap → HeaderMap) → HttpResponse → Type 0
IsSendable order r = length (init initial_size).bytes + length (render order r) < int_limit

-- If the response fits a new buffer, `onRequest` sends the text of the response that the
-- callback makes of the request, and shuts the connection down if the response says so; the
-- response that the callback is given always asks to close.
pub on_request-answer :
    (order : HeaderMap → HeaderMap) (callback : HttpCallback) (req : HttpRequest)
    → IsSendable order (callback req (new_response true))
    → on_request order callback req ≡ answer order (callback req (new_response true))
unfolding on_request
on_request-answer order callback req h =
    let r = callback req (new_response true) in
    let took =
      append_to_buffer-Took order r {b = init initial_size}
        (init-IsValid initial_size (omega arith)) h in
    ap (λ s. send s ∷ (if r.close_connection then shutdown ∷ [] else []))
      (get_buffer_as_string_lem took.valid
        ∙ took.text
        ∙ ap (λ s. s ++ render order r) (contents-init initial_size))

module _ (order : HeaderMap → HeaderMap) (callback : HttpCallback) where
  -- A printable request (a known method and version, a path without `?`, a target without spaces
  -- or line ends, headers that can be written) that stands whole at the front of a valid buffer
  -- is answered once, by the callback's response to that request, and exactly its bytes are
  -- taken off the buffer. The fuel exceeds the number of headers by two, and the response fits a
  -- buffer.
  pub on_message-print :
      (m : Method) (path query : List ℕ) (version : Version) (hs : HeaderMap) (rest : List ℕ)
      → IsRequest m path query version hs
      → (b : Buffer) (now fuel : ℕ) → IsValid b
      → contents b ≡ print_request m path query version hs rest
      → length hs + 1 < fuel
      → IsSendable order (callback (spelled m path query version hs now) (new_response true))
      → (after : Buffer) × (on_message order callback fuel b now
          ≡ some (
            answer order (callback (spelled m path query version hs now) (new_response true)),
            after,
          ))
        × (contents after ≡ rest)
        × IsValid after
  unfolding on_message is_got_all
  on_message-print m path query version hs rest printed b now fuel v text f fits =
      let (l, run, k, c, t, w) =
        parse_request-print m path query version hs rest printed b now fuel v text f in
      (
        l.buffer,
        ground (arith, on_request-answer order callback (spelled m path query version hs now) fits),
        t,
        w,
      )

  -- A request whose first line has not arrived whole is answered by `400 Bad Request`, and the
  -- connection is shut down; the bytes stay in the buffer. One unit of fuel is enough.
  pub on_message_incomplete :
      (b : Buffer) (now fuel : ℕ)
      → find_crlf b ≡ none
      → on_message order callback (suc fuel) b now ≡ some (send bad_request_text ∷ shutdown ∷ [], b)
  unfolding on_message is_got_all
  on_message_incomplete b now fuel e =
      rw
        (on_message, parse_request_incomplete fuel new_context b now (unfold new_context in refl) e)
        (unfold new_context in refl)

  -- A request line that the parser refuses is never answered: the handler does not return.
  pub on_message_refused :
      (b : Buffer) (n now fuel : ℕ)
      → find_crlf b ≡ some n
      → (process_request_line new_context.request (line_of b n)).1 ≡ false
      → on_message order callback fuel b now ≡ none
  unfolding on_message
  on_message_refused b n now fuel e refused = rw (
    on_message,
    parse_request_refused fuel new_context b n now (unfold new_context in refl) e refused,
  )

  -- A printable request that breaks off behind some complete header lines, in a valid buffer and
  -- on fuel that exceeds the number of those lines by two, gets no answer, and its request line
  -- and complete header lines are gone from the buffer.
  pub on_message-fragment :
      (m : Method) (path query : List ℕ) (version : Version) (hs : HeaderMap) (partial : List ℕ)
      → IsRequest m path query version hs
      → search_crlf partial ≡ none
      → (b : Buffer) (now fuel : ℕ) → IsValid b
      → contents b ≡ print_request_line m path query version ++ (13 ∷ 10 ∷ header_lines hs partial)
      → length hs + 1 < fuel
      → (after : Buffer) × (on_message order callback fuel b now ≡ some ([], after))
        × (contents after ≡ partial)
  unfolding on_message
  on_message-fragment m path query version hs partial printed no_end b now fuel v text f =
      let (l, run, k, g, t) =
        parse_request-fragment m path query version hs partial printed no_end b now fuel v text f in
      (l.buffer, ground arith, t)
