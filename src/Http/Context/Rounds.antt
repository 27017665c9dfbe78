-- ===== src/Http/Context/Rounds.antt =====
-- http_context.cpp, `parseRequest`: when the loop ends, and when it does not.
use my_cpp_code.Common.{
  ℕ, zero, suc, ◌+◌, ◌≤◌, ◌<◌, ◌≡◌, ◌≢◌, refl, sym, ap, ◌∙◌, arith, Bool, true, false, none, some,
  Bytes, length, drop, Option-cases, inl, inr, length-drop, Bool-cases, not, ◌==◌, ◌⊎◌, ◌↔◌,
}
use my_cpp_code.Buffer.{Buffer, find_crlf, search_crlf, retrieve_until, retrieve}
use my_cpp_code.Buffer.Valid.{IsValid, retrieve-IsValid, readable_of_valid}
use my_cpp_code.Buffer.Contents.{contents, contents-retrieve, length-contents}
use my_cpp_code.Buffer.Search.{search_crlf_sound}
use my_cpp_code.Http.Request.{HttpRequest, add_header, set_receive_time}
use my_cpp_code.Http.Context.{
  HttpContext, expect_request_line, expect_headers, got_all, Loop, again, stop, line_of, skip_line,
  request_line_turn, header_turn, turn_in, turn, turns, parse_request, process_request_line, find,
}
use my_cpp_code.Http.Context.RequestLine.{process_request_line_any}

pub find_crlf-contents : (b : Buffer) → find_crlf b ≡ search_crlf (contents b)
unfolding find_crlf
find_crlf-contents b = refl

pub skip_line-IsValid : {b : Buffer} (n : ℕ) → IsValid b → IsValid (skip_line b n)
unfolding skip_line retrieve_until
skip_line-IsValid {b} n v = retrieve-IsValid _ v

-- Skipping a line drops it and its line end from the readable bytes.
pub contents-skip_line :
    {b : Buffer} (n : ℕ)
    → IsValid b
    → n + 2 ≤ length (contents b)
    → contents (skip_line b n) ≡ drop (n + 2) (contents b)
unfolding skip_line retrieve_until
contents-skip_line {b} n v h =
    ap (λ k. contents (retrieve b k)) (omega (arith, length-contents v, readable_of_valid v))
    ∙ contents-retrieve (n + 2) v

pub length-skip_line :
    {b : Buffer} (n : ℕ)
    → IsValid b
    → find_crlf b ≡ some n
    → length (contents (skip_line b n)) < length (contents b)
length-skip_line {b} n v e =
    let found = search_crlf_sound (contents b) n (sym (find_crlf-contents b) ∙ e) in
    omega (
      arith,
      found.0,
      ap length (contents-skip_line n v (omega (arith, found.0))),
      length-drop (n + 2) (contents b),
    )

abbrev has_colon : Bytes → Bool
has_colon line = not (find line 0 (length line) b':' == length line)

-- The loop is at a request line that `processRequestLine` refuses.
pub record IsStuck (l : Loop) (n : ℕ) : Type 0 where
  pub at_line : l.context.state ≡ expect_request_line
  pub line_end : find_crlf l.buffer ≡ some n
  pub refused : (process_request_line l.context.request (line_of l.buffer n)).1 ≡ false

-- Such a turn leaves the loop where it was: nothing is read off the buffer.
stuck_turn :
    (l : Loop) (n now : ℕ)
    → IsStuck l n
    → turn l now
      ≡ again (record l {
        ok = false;
        context = record (l.context) {
          request = (process_request_line l.context.request (line_of l.buffer n)).0;
        };
      })
unfolding turn request_line_turn turn_in
stuck_turn l n now h = ground (arith, h.at_line, h.line_end, h.refused)

IsStuck-again :
    (l : Loop) (r : HttpRequest) (n : ℕ)
    → IsStuck l n
    → IsStuck (record l { ok = false; context = record (l.context) { request = r } }) n
IsStuck-again l r n h = record {
  at_line = h.at_line;
  line_end = h.line_end;
  refused = process_request_line_any r l.context.request (line_of l.buffer n) ∙ h.refused;
}

pub turns-again :
    (fuel : ℕ) (l l' : Loop) (now : ℕ)
    → turn l now ≡ again l'
    → turns (suc fuel) l now ≡ turns fuel l' now
unfolding turns
turns-again fuel l l' now e = rw (e, turns)

pub turns-stop :
    (fuel : ℕ) (l l' : Loop) (now : ℕ) → turn l now ≡ stop l' → turns (suc fuel) l now ≡ some l'
unfolding turns
turns-stop fuel l l' now e = rw (e, turns)

-- A refused request line is never left: no number of turns ends the loop.
pub turns_stuck : (fuel : ℕ) (l : Loop) (n now : ℕ) → IsStuck l n → turns fuel l now ≡ none
unfolding turns
turns_stuck zero l n now h = refl
turns_stuck (suc fuel) l n now h =
    turns-again fuel l _ now (stuck_turn l n now h)
    ∙ turns_stuck fuel _ n now (IsStuck-again l _ n h)

-- A turn at the headers ends the loop, or reads a line and stays at the headers.
pub headers_turn :
    (l : Loop) (now : ℕ)
    → l.context.state ≡ expect_headers
    → IsValid l.buffer
    → ((l' : Loop) × (turn l now ≡ stop l') × (l'.ok ≡ l.ok) × IsValid l'.buffer)
      ⊎ ((l' : Loop) × (turn l now ≡ again l')
          × (l'.ok ≡ l.ok)
          × IsValid l'.buffer
          × (l'.context.state ≡ expect_headers)
          × (length (contents l'.buffer) < length (contents l.buffer)))
unfolding turn turn_in header_turn
headers_turn l now e v = elim (Option-cases (find_crlf l.buffer)) [
  | inl missing ↦ inl (l, ground arith, refl, v)
  | inr (n, found) ↦ elim (Bool-cases (has_colon (line_of l.buffer n))) [
    | inl field ↦ inr (
      record l {
        context = record (l.context) {
          request =
              add_header l.context.request (line_of l.buffer n)
                (find (line_of l.buffer n) 0 (length (line_of l.buffer n)) b':');
        };
        buffer = skip_line l.buffer n;
      },
      ground arith,
      refl,
      skip_line-IsValid n v,
      e,
      length-skip_line n v found,
    )
    | inr last ↦ inl (
      record l { context = record (l.context) { state = got_all }; buffer = skip_line l.buffer n },
      ground arith,
      refl,
      skip_line-IsValid n v,
    )
  ]
]

-- From the headers on every turn ends the loop or uses up a line: fuel above the number of
-- readable bytes is enough.
pub turns_total :
    (fuel : ℕ) (l : Loop) (now : ℕ)
    → l.context.state ≡ expect_headers
    → IsValid l.buffer
    → length (contents l.buffer) < fuel
    → (l' : Loop) × (turns fuel l now ≡ some l') × (l'.ok ≡ l.ok) × IsValid l'.buffer
turns_total zero l now e v h = absurd (omega arith)
turns_total (suc fuel) l now e v h = elim (headers_turn l now e v) [
  | inl (l', t, k, w) ↦ (l', turns-stop fuel l l' now t, k, w)
  | inr (l', t, k, w, e', lt) ↦
      let (l'', run, k', w') = turns_total fuel l' now e' w (omega arith) in
      (l'', turns-again fuel l l' now t ∙ run, k' ∙ k, w')
]

-- On a context that expects a request line, a first line that `processRequestLine` refuses keeps
-- `parseRequest` in its loop for ever: no amount of fuel gives a result.
pub parse_request_refused :
    (fuel : ℕ) (c : HttpContext) (b : Buffer) (n now : ℕ)
    → c.state ≡ expect_request_line
    → find_crlf b ≡ some n
    → (process_request_line c.request (line_of b n)).1 ≡ false
    → parse_request fuel c b now ≡ none
unfolding parse_request
parse_request_refused fuel c b n now at e refused =
    turns_stuck fuel _ n now (record { at_line = at; line_end = e; refused = refused })

-- Without a line end the parser returns false at once and changes nothing.
pub parse_request_incomplete :
    (fuel : ℕ) (c : HttpContext) (b : Buffer) (now : ℕ)
    → c.state ≡ expect_request_line
    → find_crlf b ≡ none
    → parse_request (suc fuel) c b now ≡ some (record { ok = false; context = c; buffer = b })
unfolding parse_request turn turn_in
parse_request_incomplete fuel c b now at e = turns-stop fuel _ _ now (ground arith)

accepted_turn :
    (l : Loop) (n now : ℕ)
    → l.context.state ≡ expect_request_line
    → find_crlf l.buffer ≡ some n
    → (process_request_line l.context.request (line_of l.buffer n)).1 ≡ true
    → turn l now
      ≡ again (record {
        ok = true;
        context = record {
          state = expect_headers;
          request =
              set_receive_time (process_request_line l.context.request (line_of l.buffer n)).0 now;
        };
        buffer = skip_line l.buffer n;
      })
unfolding turn turn_in request_line_turn
accepted_turn l n now at e accepted = ground arith

-- On a context that expects a request line and a valid buffer whose first line, if there is one,
-- is accepted, the parser returns: fuel that exceeds the number of readable bytes by two is
-- enough, its result is true exactly when there was a line, and the buffer stays valid.
pub parse_request_returns :
    (fuel : ℕ) (c : HttpContext) (b : Buffer) (now : ℕ)
    → c.state ≡ expect_request_line
    → IsValid b
    → ((n : ℕ) → find_crlf b ≡ some n → (process_request_line c.request (line_of b n)).1 ≡ true)
    → length (contents b) + 1 < fuel
    → (l : Loop) × (parse_request fuel c b now ≡ some l)
      × ((l.ok ≡ true) ↔ (find_crlf b ≢ none))
      × IsValid l.buffer
unfolding parse_request
parse_request_returns zero c b now at v accepted f = absurd (omega arith)
parse_request_returns (suc fuel) c b now at v accepted f = elim (Option-cases (find_crlf b)) [
  | inl missing ↦ (
    record { ok = false; context = c; buffer = b },
    parse_request_incomplete fuel c b now at missing,
    ((λ k. cc), λ k. absurd (k missing)),
    v,
  )
  | inr (n, found) ↦
      let start : Loop = record { ok = false; context = c; buffer = b } in
      let (l, run, k, w) =
        turns_total fuel _ now refl (skip_line-IsValid n v)
          (omega (arith, length-skip_line n v found)) in
      (
        l,
        turns-again fuel start _ now (accepted_turn start n now at found (accepted n found)) ∙ run,
        ((λ _ e. cc), λ _. k),
        w,
      )
]
