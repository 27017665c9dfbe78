-- ===== src/Http/Server.antt =====
-- myserver/include/http_server.h and myserver/http/http_server.cpp: `HttpServer`.
--
-- A call on the connection is an `Action`; `Connection` turns them into writes. The user's
-- `HttpCallback`, which fills the response in, is the argument `callback`.
pub mod Answers
pub mod Start
use my_cpp_code.Common.{
  ℕ, Bool, true, false, not, ◌&&◌, ◌||◌, List, [], ◌∷◌, ◌++◌, Option, none, some, if◌then◌else◌,
  Bytes, codes, bytes_eq,
}
use my_cpp_code.Buffer.{Buffer, init, initial_size, get_buffer_as_string}
use my_cpp_code.Http.Request.{HttpRequest, HeaderMap, Version, http10, get_header}
use my_cpp_code.Http.Context.{Loop, new_context, parse_request, is_got_all}
use my_cpp_code.Http.Response.{
  HttpResponse, new_response, append_to_buffer, set_status_code, set_status_msg,
  set_close_connection, not_found, line_end,
}
use my_cpp_code.TcpServer.{TcpServer, new_server, set_threads, start_server}

-- The constructor, whose callbacks are the two handlers, and `start`.
unfoldable pub new_http_server : ℕ → Bytes → Bytes → TcpServer
unfolding new_server set_threads
new_http_server loop listen_addr name = set_threads (new_server loop listen_addr name) 4

unfoldable pub start_http : (ℕ → ℕ) → TcpServer → TcpServer
unfolding start_server
start_http start_loop s = start_server start_loop false s

pub data Action : Type 0 where
  send : Bytes → Action
  shutdown : Action

abbrev pub HttpCallback : Type 0
HttpCallback = HttpRequest → HttpResponse → HttpResponse

unfoldable pub default_http_callback : HttpCallback
unfolding set_status_code set_status_msg set_close_connection
default_http_callback req resp =
    set_close_connection (set_status_msg (set_status_code resp not_found) (codes "Not Found")) true

unfoldable pub is_http10 : Version → Bool
is_http10 http10 = true
is_http10 _ = false

-- The wish of the client, which `onRequest` computes and then replaces by `true`.
unfoldable pub wants_close : HttpRequest → Bool
unfolding is_http10
wants_close req =
    let connection = get_header req (codes "Connection") in
    bytes_eq connection (codes "close")
    || (is_http10 req.version && not (bytes_eq connection (codes "Keep-Alive")))

unfoldable pub on_request : (HeaderMap → HeaderMap) → HttpCallback → HttpRequest → List Action
on_request order callback req =
    let wanted = wants_close req in
    let close = true in
    let response = callback req (new_response close) in
    let buf = append_to_buffer order response (init initial_size) in
    send (get_buffer_as_string buf) ∷ (if response.close_connection then shutdown ∷ [] else [])

abbrev pub bad_request_text : Bytes
bad_request_text = codes "HTTP/1.1 400 Bad Request" ++ (line_end ++ line_end)

-- Every call has a context of its own. `none` means that the parser did not return on this fuel.
unfoldable pub on_message :
    (HeaderMap → HeaderMap) → HttpCallback → ℕ → Buffer → ℕ → Option (List Action × Buffer)
on_message order callback fuel buf receive_time =
    elim (parse_request fuel new_context buf receive_time) [
      | none ↦ none
      | some l ↦
          let failed = if l.ok then [] else send bad_request_text ∷ shutdown ∷ [] in
          let answered =
            if is_got_all l.context then on_request order callback l.context.request else [] in
          some (failed ++ answered, l.buffer)
    ]
