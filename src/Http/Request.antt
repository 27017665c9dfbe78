-- ===== src/Http/Request.antt =====
-- myserver/include/http_request.h: `HttpRequest`. A pair of pointers is the range of bytes that it
-- bounds, and `m_headers` an association list with one entry for a key.
pub mod Headers
use my_cpp_code.Common.{
  ℕ, suc, ◌+◌, Bool, true, false, ◌&&◌, ◌||◌, List, [], ◌∷◌, leb, ◌==◌, if◌then◌else◌, Bytes, codes,
  bytes_eq, slice, drop,
}

pub data Method : Type 0 where
  invalid get post head put delete : Method

pub data Version : Type 0 where
  unknown http10 http11 : Version

abbrev pub HeaderMap : Type 0
HeaderMap = List (Bytes × Bytes)

pub record HttpRequest : Type 0 where
  pub method : Method
  pub version : Version
  pub path : Bytes
  pub query : Bytes
  pub receive_time : ℕ
  pub headers : HeaderMap

unfoldable pub new_request : HttpRequest
new_request = record {
  method = invalid;
  version = unknown;
  path = [];
  query = [];
  receive_time = 0;
  headers = [];
}

-- The ladder of string tests in `setMethod`.
unfoldable pub method_of_string : Bytes → Method
method_of_string m =
    if bytes_eq m (codes "GET")
    then get
    else if bytes_eq m (codes "POST")
    then post
    else if bytes_eq m (codes "HEAD")
    then head
    else if bytes_eq m (codes "PUT")
    then put
    else if bytes_eq m (codes "DELETE")
    then delete
    else invalid

unfoldable pub is_known : Method → Bool
is_known invalid = false
is_known _ = true

unfoldable pub set_method : HttpRequest → Bytes → HttpRequest × Bool
set_method r m = (record r { method = method_of_string m }, is_known (method_of_string m))

unfoldable pub method_string : Method → Bytes
method_string invalid = codes "UNKNOWN"
method_string get = codes "GET"
method_string post = codes "POST"
method_string head = codes "HEAD"
method_string put = codes "PUT"
method_string delete = codes "DELETE"

unfoldable pub set_version : HttpRequest → Version → HttpRequest
set_version r v = record r { version = v }

unfoldable pub set_path : HttpRequest → Bytes → HttpRequest
set_path r s = record r { path = s }

unfoldable pub set_query : HttpRequest → Bytes → HttpRequest
set_query r s = record r { query = s }

unfoldable pub set_receive_time : HttpRequest → ℕ → HttpRequest
set_receive_time r t = record r { receive_time = t }

-- `m[key] = value` on an `unordered_map`.
unfoldable pub map_assign : Bytes → Bytes → HeaderMap → HeaderMap
map_assign k v [] = (k, v) ∷ []
map_assign k v ((j, w) ∷ m) = if bytes_eq j k then (j, v) ∷ m else (j, w) ∷ map_assign k v m

-- `isspace` in the C locale.
unfoldable pub isspace : ℕ → Bool
isspace c = c == 32 || (leb 9 c && leb c 13)

unfoldable pub skip_spaces : Bytes → Bytes
unfolding isspace
skip_spaces [] = []
skip_spaces (c ∷ s) = if isspace c then skip_spaces s else c ∷ s

-- A byte in front of a text that has lost its trailing spaces already.
unfoldable pub keep_byte : ℕ → Bytes → Bytes
keep_byte c [] = if isspace c then [] else c ∷ []
keep_byte c (d ∷ s) = c ∷ d ∷ s

-- `while (!value.empty() && isspace(value.back())) value.pop_back();`
unfoldable pub pop_spaces : Bytes → Bytes
pop_spaces [] = []
pop_spaces (c ∷ s) = keep_byte c (pop_spaces s)

-- `colon` is an offset in the line.
unfoldable pub add_header : HttpRequest → Bytes → ℕ → HttpRequest
add_header r line colon =
    let field = slice line 0 colon in
    let value = pop_spaces (skip_spaces (drop (suc colon) line)) in
    record r { headers = map_assign field value r.headers }

unfoldable pub lookup_header : Bytes → HeaderMap → Bytes
lookup_header k [] = []
lookup_header k ((j, v) ∷ m) = if bytes_eq j k then v else lookup_header k m

-- A missing field reads as the empty string.
unfoldable pub get_header : HttpRequest → Bytes → Bytes
get_header r k = lookup_header k r.headers

-- `swap` exchanges every member: the pair is (`*this`, `rhs`) afterwards.
unfoldable pub swap : HttpRequest → HttpRequest → HttpRequest × HttpRequest
swap r rhs = (
  record {
    method = rhs.method;
    version = rhs.version;
    path = rhs.path;
    query = rhs.query;
    receive_time = rhs.receive_time;
    headers = rhs.headers;
  },
  record {
    method = r.method;
    version = r.version;
    path = r.path;
    query = r.query;
    receive_time = r.receive_time;
    headers = r.headers;
  },
)
