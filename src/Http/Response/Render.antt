-- ===== src/Http/Response/Render.antt =====
-- http_response.cpp, `appendToBuffer`: the text of a response.
use my_cpp_code.Common.Decimal.{decimal}
use my_cpp_code.Common.Words.{int_limit}
use my_cpp_code.Common.{
  ◌+◌, ◌≤◌, ◌<◌, ◌≡◌, sym, ap, ◌∙◌, arith, [], ◌∷◌, ◌++◌, if◌then◌else◌, Bytes, codes, length,
  append_assoc, append-nil, length-append, Bool-cases, inl, inr,
}
use my_cpp_code.Buffer.{Buffer, append}
use my_cpp_code.Buffer.Valid.{IsValid, append-IsValid, length-append-le}
use my_cpp_code.Buffer.Contents.{contents, contents-append}
use my_cpp_code.Http.Request.{HeaderMap}
use my_cpp_code.Http.Response.{
  HttpResponse, code_of, line_end, in_buf, append_connection, append_headers, append_to_buffer,
}

-- A buffer that has taken in a text: valid, with the text behind the old content.
pub record Took (b : Buffer) (s : Bytes) (after : Buffer) : Type 0 where
  pub valid : IsValid after
  pub text : contents after ≡ contents b ++ s
  pub size : length after.bytes ≤ length b.bytes + length s

pub append-Took :
    {b : Buffer} (s : Bytes)
    → IsValid b
    → length b.bytes + length s < int_limit
    → Took b s (append b s)
append-Took s v h = record {
  valid = append-IsValid s v h;
  text = contents-append s v h;
  size = length-append-le s v h;
}

pub Took-trans : {b c d : Buffer} (s t : Bytes) → Took b s c → Took c t d → Took b (s ++ t) d
Took-trans {b} s t p q = record {
  valid = q.valid;
  text = q.text ∙ ap (λ u. u ++ t) p.text ∙ append_assoc (contents b) s t;
  size = omega (arith, p.size, q.size, length-append s t);
}

-- One more text after those that were taken in.
then_append :
    {b c : Buffer} (s t : Bytes)
    → Took b s c
    → length b.bytes + length (s ++ t) < int_limit
    → Took b (s ++ t) (append c t)
then_append s t p h =
    Took-trans s t p (append-Took t p.valid (omega (arith, p.size, length-append s t)))

append_three-Took :
    {b c : Buffer} (s t u w : Bytes)
    → Took b s c
    → length b.bytes + length (((s ++ t) ++ u) ++ w) < int_limit
    → Took b (((s ++ t) ++ u) ++ w) (append (append (append c t) u) w)
append_three-Took s t u w p h =
    then_append ((s ++ t) ++ u) w
      (then_append (s ++ t) u
        (then_append s t p
          (omega (arith, length-append ((s ++ t) ++ u) w, length-append (s ++ t) u)))
        (omega (arith, length-append ((s ++ t) ++ u) w)))
      h

length-three :
    (s t u w : Bytes) → length (((s ++ t) ++ u) ++ w) ≡ length s + length t + length u + length w
length-three s t u w =
    omega (arith, length-append ((s ++ t) ++ u) w, length-append (s ++ t) u, length-append s t)

abbrev pub render_header : Bytes → Bytes → Bytes
render_header k v = ((k ++ codes ": ") ++ v) ++ line_end

abbrev pub render_headers : HeaderMap → Bytes
render_headers [] = []
render_headers ((k, v) ∷ hs) = render_header k v ++ render_headers hs

append_headers-Took :
    (hs : HeaderMap) {b : Buffer}
    → IsValid b
    → length b.bytes + length (render_headers hs) < int_limit
    → Took b (render_headers hs) (append_headers hs b)
unfolding append_headers
append_headers-Took [] v h = record { valid = v; text = sym (append-nil _); size = omega arith }
append_headers-Took ((k, w) ∷ hs) {b} v h =
    let total = length-append (render_header k w) (render_headers hs) in
    let line =
      append_three-Took k (codes ": ") w line_end
        (append-Took k v (omega (arith, total, length-three k (codes ": ") w line_end)))
        (omega (arith, total)) in
    Took-trans (render_header k w) (render_headers hs) line
      (append_headers-Took hs line.valid (omega (arith, total, line.size)))

-- The lines on the connection, and the status line.
abbrev pub render_connection : HttpResponse → Bytes
render_connection r =
    if r.close_connection
    then codes "Connection: close" ++ line_end
    else in_buf (codes "Content-Length: " ++ (decimal (length r.body) ++ line_end))
      ++ (codes "Connection: Keep-Alive" ++ line_end)

abbrev pub render_status : HttpResponse → Bytes
render_status r = in_buf (codes "HTTP/1.1 " ++ (decimal (code_of r.status_code) ++ codes " "))

-- The text of a response: status line, connection lines, headers, an empty line, the body.
abbrev pub render : (HeaderMap → HeaderMap) → HttpResponse → Bytes
render order r =
    ((((((render_status r ++ r.status_msg) ++ line_end) ++ render_connection r)
          ++ render_headers (order r.headers))
        ++ line_end)
      ++ r.body)

append_connection-Took :
    {b : Buffer} (r : HttpResponse)
    → IsValid b
    → length b.bytes + length (render_connection r) < int_limit
    → Took b (render_connection r) (append_connection r b)
unfolding append_connection
append_connection-Took {b} r v h = elim (Bool-cases r.close_connection) [
  | inl closing ↦ rw closing (append-Took _ v (rw closing at h))
  | inr keep ↦
      let first = in_buf (codes "Content-Length: " ++ (decimal (length r.body) ++ line_end)) in
      let second = codes "Connection: Keep-Alive" ++ line_end in
      let room : length b.bytes + length (first ++ second) < int_limit = rw keep at h in
      rw keep (
        then_append first second (append-Took first v (omega (arith, length-append first second)))
          room)
]

-- On a valid buffer, and within an `int` size, `appendToBuffer` adds the text of the response to
-- the output, whatever was in it, in whatever order the headers are visited; the buffer stays
-- valid.
pub append_to_buffer-Took :
    (order : HeaderMap → HeaderMap) (r : HttpResponse) {b : Buffer}
    → IsValid b
    → length b.bytes + length (render order r) < int_limit
    → Took b (render order r) (append_to_buffer order r b)
unfolding append_to_buffer
append_to_buffer-Took order r {b} v h =
    let s1 = render_status r in
    let s3 = (s1 ++ r.status_msg) ++ line_end in
    let s4 = s3 ++ render_connection r in
    let s5 = s4 ++ render_headers (order r.headers) in
    let all = length-append (s5 ++ line_end) r.body in
    let five = length-append s5 line_end in
    let four = length-append s4 (render_headers (order r.headers)) in
    let three = length-append s3 (render_connection r) in
    let two = length-append (s1 ++ r.status_msg) line_end in
    let one = length-append s1 r.status_msg in
    let t1 = append-Took s1 v (omega (arith, all, five, four, three, two, one)) in
    let t2 = then_append s1 r.status_msg t1 (omega (arith, all, five, four, three, two)) in
    let t3 = then_append (s1 ++ r.status_msg) line_end t2 (omega (arith, all, five, four, three)) in
    let t4 =
      Took-trans s3 (render_connection r) t3
        (append_connection-Took r t3.valid (omega (arith, all, five, four, three, t3.size))) in
    let t5 =
      Took-trans s4 (render_headers (order r.headers)) t4 (
        append_headers-Took (order r.headers) t4.valid (omega (arith, all, five, four, t4.size))) in
    then_append (s5 ++ line_end) r.body (then_append s5 line_end t5 (omega (arith, all, five))) h
