-- ===== src/Http/Response.antt =====
-- myserver/include/http_response.h and myserver/http/http_response.cpp: `HttpResponse`.
--
-- The loop over `m_headers` visits an `unordered_map` in an order that the library chooses: that
-- order is the argument `order`, a function of the map.
pub mod Render
use my_cpp_code.Common.Decimal.{decimal}
use my_cpp_code.Common.{
  ℕ, Bool, true, false, List, [], ◌∷◌, ◌++◌, if◌then◌else◌, Bytes, codes, length, take,
}
use my_cpp_code.Buffer.{Buffer, append}
use my_cpp_code.Http.Request.{HeaderMap, map_assign}

pub data StatusCode : Type 0 where
  unknown ok moved_permanently bad_request not_found : StatusCode

unfoldable pub code_of : StatusCode → ℕ
code_of unknown = 0
code_of ok = 200
code_of moved_permanently = 301
code_of bad_request = 400
code_of not_found = 404

pub record HttpResponse : Type 0 where
  pub headers : HeaderMap
  pub status_code : StatusCode
  pub status_msg : Bytes
  pub close_connection : Bool
  pub body : Bytes

unfoldable pub new_response : Bool → HttpResponse
new_response close = record {
  headers = [];
  status_code = unknown;
  status_msg = [];
  close_connection = close;
  body = [];
}

unfoldable pub set_status_code : HttpResponse → StatusCode → HttpResponse
set_status_code r c = record r { status_code = c }

unfoldable pub set_status_msg : HttpResponse → Bytes → HttpResponse
set_status_msg r s = record r { status_msg = s }

unfoldable pub set_close_connection : HttpResponse → Bool → HttpResponse
set_close_connection r on = record r { close_connection = on }

unfoldable pub set_body : HttpResponse → Bytes → HttpResponse
set_body r s = record r { body = s }

unfoldable pub add_header : HttpResponse → Bytes → Bytes → HttpResponse
add_header r k v = record r { headers = map_assign k v r.headers }

unfoldable pub set_content_type : HttpResponse → Bytes → HttpResponse
set_content_type r v = add_header r (codes "Content-Type") v

abbrev pub line_end : Bytes
line_end = 13 ∷ 10 ∷ []

-- `snprintf(buf, sizeof(buf), …)` with `char buf[32]` keeps 31 bytes.
abbrev pub in_buf : Bytes → Bytes
in_buf s = take 31 s

unfoldable pub append_connection : HttpResponse → Buffer → Buffer
append_connection r b =
    if r.close_connection
    then append b (codes "Connection: close" ++ line_end)
    else append
        (append b (in_buf (codes "Content-Length: " ++ (decimal (length r.body) ++ line_end))))
        (codes "Connection: Keep-Alive" ++ line_end)

unfoldable pub append_headers : HeaderMap → Buffer → Buffer
append_headers [] b = b
append_headers ((k, v) ∷ hs) b =
    append_headers hs (append (append (append (append b k) (codes ": ")) v) line_end)

unfoldable pub append_to_buffer : (HeaderMap → HeaderMap) → HttpResponse → Buffer → Buffer
unfolding append_connection append_headers
append_to_buffer order r b =
    let b =
      append b (in_buf (codes "HTTP/1.1 " ++ (decimal (code_of r.status_code) ++ codes " "))) in
    let b = append b r.status_msg in
    let b = append b line_end in
    let b = append_connection r b in
    let b = append_headers (order r.headers) b in let b = append b line_end in append b r.body
