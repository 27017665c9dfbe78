-- ===== src/Http/Context.antt =====
-- myserver/include/http_context.h and myserver/http/http_context.cpp: the request parser.
--
-- `round` is one turn of the `while` loop of `parseRequest`. `parse_request` runs the loop on fuel;
-- `none` means that the fuel ran out.
pub mod RequestLine
pub mod Rounds
pub mod Headers
pub mod RoundTrip
pub mod Fragment
use my_cpp_code.Common.{
  ℕ, zero, suc, ◌+◌, ◌-◌, Bool, true, false, ◌&&◌, Option, none, some, List, [], ◌∷◌, ◌==◌,
  if◌then◌else◌, Bytes, codes, bytes_eq, length, slice, get_elem?, not,
}
use my_cpp_code.Buffer.{Buffer, find_crlf, retrieve_until}
use my_cpp_code.Buffer.Contents.{contents}
use my_cpp_code.Http.Request.{
  HttpRequest, Version, http10, http11, new_request, set_method, set_path, set_query, set_version,
  set_receive_time, add_header, swap,
}

-- `std::find`: the offset of the first such byte, or the length.
unfoldable pub index_of : ℕ → Bytes → ℕ
index_of c [] = 0
index_of c (d ∷ s) = if d == c then 0 else suc (index_of c s)

-- `std::find(line + from, line + to, c)`, as an offset in the line.
unfoldable pub find : Bytes → ℕ → ℕ → ℕ → ℕ
find line from to c = from + index_of c (slice line from to)

pub data ParseState : Type 0 where
  expect_request_line expect_headers expect_body got_all : ParseState

pub record HttpContext : Type 0 where
  pub state : ParseState
  pub request : HttpRequest

unfoldable pub new_context : HttpContext
new_context = record { state = expect_request_line; request = new_request }

unfoldable pub is_got_all : HttpContext → Bool
is_got_all c = elim c.state [ got_all ↦ true | _ ↦ false ]

unfoldable pub reset : HttpContext → HttpContext
unfolding swap
reset c = record { state = expect_request_line; request = (swap c.request new_request).0 }

-- The target of the request line, `line[start..space)`.
unfoldable pub set_target : HttpRequest → Bytes → ℕ → ℕ → HttpRequest
unfolding set_path set_query
set_target r line start space =
    let question = find line start space b'?' in
    if not (question == space)
    then set_query (set_path r (slice line start question)) (slice line question space)
    else set_path r (slice line start space)

-- The version, `line[start..end)`.
unfoldable pub set_protocol : HttpRequest → Bytes → ℕ → ℕ → HttpRequest × Bool
unfolding set_version
set_protocol r line start end =
    if end - start == 8 && bytes_eq (slice line start (end - 1)) (codes "HTTP/1.")
    then elim (get_elem? line (end - 1)) [
      | some c ↦
          if c == b'1'
          then (set_version r http11, true)
          else if c == b'0'
          then (set_version r http10, true)
          else (r, false)
      | none ↦ (r, false)
    ]
    else (r, false)

-- `processRequestLine(begin, end)` on the line `[begin, end)`.
unfoldable pub process_request_line : HttpRequest → Bytes → HttpRequest × Bool
unfolding set_method
process_request_line r line =
    let end = length line in
    let space = find line 0 end b' ' in
    if space == end
    then (r, false)
    else let (named, known) = set_method r (slice line 0 space) in
      let start = suc space in
      let space' = find line start end b' ' in
      if not known
      then (named, false)
      else if space' == end
      then (named, false)
      else set_protocol (set_target named line start space') line (suc space') end

-- The variables of the loop.
pub record Loop : Type 0 where
  pub ok : Bool
  pub context : HttpContext
  pub buffer : Buffer

-- A turn leaves `hasMore` true or false.
pub data Turn : Type 0 where
  again : Loop → Turn
  stop : Loop → Turn

-- The first line of the readable bytes, when it ends at offset `n`.
abbrev pub line_of : Buffer → ℕ → Bytes
line_of b n = slice b.bytes b.reader_index (b.reader_index + n)

unfoldable pub skip_line : Buffer → ℕ → Buffer
skip_line b n = retrieve_until b (b.reader_index + n + 2)

unfoldable pub request_line_turn : Loop → ℕ → ℕ → Turn
unfolding set_receive_time
request_line_turn l n now =
    let (r, ok) = process_request_line l.context.request (line_of l.buffer n) in
    if ok
    then again (record {
      ok = true;
      context = record { state = expect_headers; request = set_receive_time r now };
      buffer = skip_line l.buffer n;
    })
    else again (record l { ok = false; context = record (l.context) { request = r } })

unfoldable pub header_turn : Loop → ℕ → Turn
header_turn l n =
    let line = line_of l.buffer n in
    let colon = find line 0 (length line) b':' in
    if not (colon == length line)
    then again (record l {
      context = record (l.context) { request = add_header l.context.request line colon };
      buffer = skip_line l.buffer n;
    })
    else stop (record l {
      context = record (l.context) { state = got_all };
      buffer = skip_line l.buffer n;
    })

-- In the states that the loop does not handle it goes round for ever.
unfoldable pub turn_in : ParseState → Loop → ℕ → Turn
turn_in expect_request_line l now = elim (find_crlf l.buffer) [
  | some n ↦ request_line_turn l n now
  | none ↦ stop l
]
turn_in expect_headers l now = elim (find_crlf l.buffer) [
  | some n ↦ header_turn l n
  | none ↦ stop l
]
turn_in expect_body l now = again l
turn_in got_all l now = again l

unfoldable pub turn : Loop → ℕ → Turn
unfolding turn_in
turn l now = turn_in l.context.state l now

unfoldable pub turns : ℕ → Loop → ℕ → Option Loop
turns zero l now = none
turns (suc fuel) l now = elim (turn l now) [ stop l' ↦ some l' | again l' ↦ turns fuel l' now ]

unfoldable pub parse_request : ℕ → HttpContext → Buffer → ℕ → Option Loop
parse_request fuel c b now = turns fuel (record { ok = false; context = c; buffer = b }) now
