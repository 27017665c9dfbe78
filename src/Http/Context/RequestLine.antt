-- ===== src/Http/Context/RequestLine.antt =====
-- http_context.cpp, `processRequestLine`: which lines are accepted and what is read from them.
use my_cpp_code.Common.{
  ℕ, suc, ◌+◌, ◌-◌, ◌≤◌, ◌≡◌, ◌≢◌, refl, sym, ap, ◌∙◌, arith, true, [], ◌∷◌, ◌++◌, Bytes, codes,
  length, slice, All, length-append, slice-append_middle, slice-append_end, append_assoc,
  append-nil, All-append, get_elem?-append_length,
}
use my_cpp_code.Http.Request.{
  HttpRequest, Method, is_known, method_of_string, method_string, Version, http10, http11, unknown,
  invalid,
}
use my_cpp_code.Http.Request.Headers.{method_of_string-method_string}
use my_cpp_code.Http.Context.{index_of, find, set_target, set_protocol, process_request_line}

-- The text has no such byte.
abbrev pub Lacks : ℕ → Bytes → Type 0
Lacks c = All (λ d. d ≢ c)

pub index_of-append : (c : ℕ) (s rest : Bytes) → Lacks c s → index_of c (s ++ c ∷ rest) ≡ length s
unfolding index_of
index_of-append c [] rest h = ground arith
index_of-append c (d ∷ s) rest h = ground (arith, index_of-append c s rest h.1)

pub index_of-Lacks : (c : ℕ) (s : Bytes) → Lacks c s → index_of c s ≡ length s
unfolding index_of
index_of-Lacks c [] h = refl
index_of-Lacks c (d ∷ s) h = ground (arith, index_of-Lacks c s h.1)

pub index_of-le : (c : ℕ) (s : Bytes) → index_of c s ≤ length s
unfolding index_of
index_of-le c [] = omega arith
index_of-le c (d ∷ s) = ground (arith, index_of-le c s)

-- A search in the last of two parts, and in the middle of three.
pub find-append_end :
    (pre mid : Bytes) (from to c : ℕ)
    → from ≡ length pre
    → to ≡ from + length mid
    → find (pre ++ mid) from to c ≡ from + index_of c mid
unfolding find
find-append_end pre mid from to c e f =
    ap (λ s. from + index_of c s) (slice-append_end pre mid from to e f)

pub find-append_middle :
    (pre mid rest : Bytes) (from to c : ℕ)
    → from ≡ length pre
    → to ≡ from + length mid
    → find (pre ++ (mid ++ rest)) from to c ≡ from + index_of c mid
unfolding find
find-append_middle pre mid rest from to c e f =
    ap (λ s. from + index_of c s) (slice-append_middle pre mid rest from to e f)

-- Whether a line is accepted does not depend on what the request holds already.
pub process_request_line_any :
    (r q : HttpRequest) (line : Bytes)
    → (process_request_line r line).1 ≡ (process_request_line q line).1
unfolding process_request_line set_protocol
process_request_line_any r q line = ground arith

-- A line of three parts, and what comes before its first and behind its second part.
abbrev pub three_parts : Bytes → Bytes → Bytes → Bytes
three_parts m t v = m ++ (32 ∷ (t ++ (32 ∷ v)))

module _ (m t v : Bytes) where
  three_parts-target : three_parts m t v ≡ (m ++ (32 ∷ [])) ++ (t ++ (32 ∷ v))
  three_parts-target = sym (append_assoc m (32 ∷ []) (t ++ (32 ∷ v)))

  three_parts-version : three_parts m t v ≡ (m ++ (32 ∷ (t ++ (32 ∷ [])))) ++ v
  three_parts-version = sym (
      append_assoc m (32 ∷ (t ++ (32 ∷ []))) v
      ∙ ap (λ s. m ++ (32 ∷ s)) (append_assoc t (32 ∷ []) v))

  length-three_parts : length (three_parts m t v) ≡ length m + length t + length v + 2
  length-three_parts =
      omega (arith, length-append m (32 ∷ (t ++ (32 ∷ v))), length-append t (32 ∷ v))

module _ (r : HttpRequest) (m t v : Bytes) (m_lacks : Lacks 32 m) (t_lacks : Lacks 32 t) where
  find-first_space : find (three_parts m t v) 0 (length (three_parts m t v)) 32 ≡ length m
  find-first_space = omega (
    arith,
    find-append_end [] (three_parts m t v) 0 (length (three_parts m t v)) 32 refl (omega arith),
    index_of-append 32 m (t ++ (32 ∷ v)) m_lacks,
  )

  find-second_space :
      find (three_parts m t v) (suc (length m)) (length (three_parts m t v)) 32
      ≡ suc (length m) + length t
  find-second_space =
      ap (λ s. find s (suc (length m)) (length (three_parts m t v)) 32) (three_parts-target m t v)
      ∙ find-append_end (m ++ (32 ∷ [])) (t ++ (32 ∷ v)) (suc (length m))
          (length (three_parts m t v)) 32 (omega (arith, length-append m (32 ∷ [])))
          (omega (arith, length-three_parts m t v, length-append t (32 ∷ v)))
      ∙ ap (λ k. suc (length m) + k) (index_of-append 32 t v t_lacks)

  slice-first_part : slice (three_parts m t v) 0 (length m) ≡ m
  slice-first_part = slice-append_middle [] m (32 ∷ (t ++ (32 ∷ v))) 0 (length m) refl (omega arith)

  -- A line of three parts is cut at its first two spaces.
  process_request_line_cut :
      is_known (method_of_string m) ≡ true
      → process_request_line r (three_parts m t v)
        ≡ set_protocol
            (set_target
              (record r { method = method_of_string m })
              (three_parts m t v)
              (suc (length m))
              (suc (length m) + length t))
            (three_parts m t v)
            (suc (suc (length m) + length t))
            (length (three_parts m t v))
  unfolding process_request_line
  process_request_line_cut known =
      ground
        (arith, find-first_space, find-second_space, slice-first_part, length-three_parts m t v)

-- The protocol of an accepted line.
abbrev pub protocol_name : Bytes
protocol_name = codes "HTTP/1."

abbrev pub minor : Version → ℕ
minor http10 = b'0'
minor http11 = b'1'
minor unknown = 0

abbrev pub version_text : Version → Bytes
version_text v = protocol_name ++ (minor v ∷ [])

set_protocol-version_text :
    (r : HttpRequest) (pre : Bytes) (v : Version) (start end : ℕ)
    → v ≢ unknown
    → start ≡ length pre
    → end ≡ length pre + 8
    → set_protocol r (pre ++ version_text v) start end ≡ (record r { version = v }, true)
unfolding set_protocol
set_protocol-version_text r pre unknown start end known e f = absurd (known refl)
set_protocol-version_text r pre v start end known e f = ground (
  arith,
  slice-append_middle pre protocol_name (minor v ∷ []) start (end - 1),
  get_elem?-append_length (pre ++ protocol_name) [] (minor v) (end - 1)
      (omega (arith, length-append pre protocol_name)),
  append_assoc pre protocol_name (minor v ∷ []),
)

-- The query, with its question mark; the empty text stands for a target without one.
abbrev pub IsQuery : Bytes → Type 0
IsQuery [] = Unit
IsQuery (c ∷ q) = c ≡ b'?'

-- A target without a query leaves the old one.
abbrev pub query_or : Bytes → Bytes → Bytes
query_or [] old = old
query_or (c ∷ q) old = c ∷ q

abbrev pub with_target : HttpRequest → Bytes → Bytes → HttpRequest
with_target r path query = record r { path = path; query = query_or query r.query }

set_target-append :
    (r : HttpRequest) (pre path query rest : Bytes) (start space : ℕ)
    → Lacks b'?' path
    → IsQuery query
    → start ≡ length pre
    → space ≡ length pre + length path + length query
    → set_target r (pre ++ ((path ++ query) ++ rest)) start space ≡ with_target r path query
unfolding set_target
set_target-append r pre path [] rest start space h q e f = ground (
  arith,
  append-nil path,
  find-append_middle pre path rest start space b'?',
  index_of-Lacks b'?' path h,
  slice-append_middle pre path rest start space,
)
set_target-append r pre path (c ∷ query) rest start space h q e f = ground (
  arith,
  length-append path (c ∷ query),
  find-append_middle pre (path ++ (c ∷ query)) rest start space b'?',
  index_of-append b'?' path query h,
  append_assoc path (c ∷ query) rest,
  slice-append_middle pre path ((c ∷ query) ++ rest) start (start + length path),
  append_assoc pre path ((c ∷ query) ++ rest),
  slice-append_middle (pre ++ path) (c ∷ query) rest (start + length path) space
      (omega (arith, length-append pre path)),
)

abbrev pub print_request_line : Method → Bytes → Bytes → Version → Bytes
print_request_line m path query v = three_parts (method_string m) (path ++ query) (version_text v)

-- The request that a request line spells.
abbrev pub with_line : HttpRequest → Method → Bytes → Bytes → Version → HttpRequest
with_line r m path query v = record (with_target (record r { method = m }) path query) {
  version = v;
}

method_string-Lacks : (m : Method) → Lacks 32 (method_string m)
unfolding method_string
method_string-Lacks invalid = omega arith
method_string-Lacks _ = omega arith

set_target-three_parts :
    (r : HttpRequest) (m path query v : Bytes)
    → Lacks b'?' path
    → IsQuery query
    → set_target r
        (three_parts m (path ++ query) v)
        (suc (length m))
        (suc (length m) + length (path ++ query))
      ≡ with_target r path query
set_target-three_parts r m path query v lacks q =
    let from = suc (length m) in
    ap (λ s. set_target r s from (from + length (path ++ query)))
      (three_parts-target m (path ++ query) v)
    ∙ set_target-append r (m ++ (32 ∷ [])) path query (32 ∷ v) from (from + length (path ++ query))
        lacks q (omega (arith, length-append m (32 ∷ [])))
        (omega (arith, length-append m (32 ∷ []), length-append path query))

set_protocol-three_parts :
    (r : HttpRequest) (m t : Bytes) (v : Version)
    → v ≢ unknown
    → set_protocol r
        (three_parts m t (version_text v))
        (suc (suc (length m) + length t))
        (length (three_parts m t (version_text v)))
      ≡ (record r { version = v }, true)
set_protocol-three_parts r m t v known =
    let end = length (three_parts m t (version_text v)) in
    let start = suc (suc (length m) + length t) in
    ap (λ s. set_protocol r s start end) (three_parts-version m t (version_text v))
    ∙ set_protocol-version_text r (m ++ (32 ∷ (t ++ (32 ∷ [])))) v start end known
        (omega (arith, length-append m (32 ∷ (t ++ (32 ∷ []))), length-append t (32 ∷ [])))
        (omega (
          arith,
          length-three_parts m t (version_text v),
          length-append m (32 ∷ (t ++ (32 ∷ []))),
          length-append t (32 ∷ []),
        ))

-- A request line of a known method and version, a path without `?`, an empty query or one that
-- starts with `?`, and no space in either, is accepted, whatever the request holds, and read as
-- what it spells: the method, the path, the query and the version.
pub process_request_line-print :
    (r : HttpRequest) (m : Method) (path query : Bytes) (v : Version)
    → is_known m ≡ true
    → v ≢ unknown
    → Lacks b'?' path
    → IsQuery query
    → Lacks 32 (path ++ query)
    → process_request_line r (print_request_line m path query v)
      ≡ (with_line r m path query v, true)
process_request_line-print r m path query v known version lacks q target =
    let name = method_string m in
    let line = print_request_line m path query v in
    let start = suc (length name) in
    let space = start + length (path ++ query) in
    process_request_line_cut r name (path ++ query) (version_text v) (method_string-Lacks m) target
      (rw (method_of_string-method_string m) known)
    ∙ ap
        (λ k.
          set_protocol (set_target (record r { method = k }) line start space) line (suc space)
            (length line))
        (method_of_string-method_string m)
    ∙ ap (λ q. set_protocol q line (suc space) (length line))
        (set_target-three_parts (record r { method = m }) name path query (version_text v) lacks q)
    ∙ set_protocol-three_parts (with_target (record r { method = m }) path query) name
        (path ++ query) v version

pub print_request_line-Lacks :
    (m : Method) (path query : Bytes) (v : Version)
    → Lacks 13 (path ++ query)
    → Lacks 13 (print_request_line m path query v)
print_request_line-Lacks m path query v h =
    All-append _ (method_string m) (32 ∷ ((path ++ query) ++ (32 ∷ version_text v))) (name-Lacks m)
      (omega arith, All-append _ (path ++ query) (32 ∷ version_text v) h (version-Lacks v))
  where
    name-Lacks : (m : Method) → Lacks 13 (method_string m)
    name-Lacks invalid = unfold method_string in omega arith
    name-Lacks _ = unfold method_string in omega arith

    version-Lacks : (v : Version) → Lacks 13 (32 ∷ version_text v)
    version-Lacks unknown = omega arith
    version-Lacks _ = omega arith
