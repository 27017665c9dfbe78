-- ===== src/TcpServer.antt =====
-- myserver/include/tcp_server.h and myserver/net/tcp_server.cpp: `TcpServer`.
--
-- A loop is a number, a connection object its name, loop and descriptor. A functor that is given to
-- a loop by `runInLoop` or `queueInLoop` is a `Task`, and `tasks` records them in order.
pub mod Names
mod Tests
use my_cpp_code.Common.Words.{int_limit}
use my_cpp_code.Common.Decimal.{decimal}
use my_cpp_code.Common.{
  ℕ, zero, suc, ◌+◌, Bool, true, false, List, [], ◌∷◌, ◌++◌, Option, none, some, ◌==◌, ltb,
  if◌then◌else◌, Bytes, codes, bytes_eq, take,
}
use my_cpp_code.ThreadPool
use my_cpp_code.ThreadPool.{ThreadPool, new_pool, get_next_loop}

pub record Conn : Type 0 where
  pub name : Bytes
  pub loop : ℕ
  pub fd : ℕ

pub data Task : Type 0 where
  listen : Task
  establish : Conn → Task
  remove : Conn → Task
  destroy : Conn → Task

abbrev pub ConnectionMap : Type 0
ConnectionMap = List (Bytes × Conn)

pub record TcpServer : Type 0 where
  pub base_loop : ℕ
  pub ip_port : Bytes
  pub name : Bytes
  pub pool : ThreadPool ℕ
  pub started : ℕ
  pub next_conn_id : ℕ
  pub connections : ConnectionMap
  pub tasks : List (ℕ × Task)

unfoldable pub new_server : ℕ → Bytes → Bytes → TcpServer
new_server loop ip_port name = record {
  base_loop = loop;
  ip_port = ip_port;
  name = name;
  pool = new_pool loop;
  started = 0;
  next_conn_id = 1;
  connections = [];
  tasks = [];
}

unfoldable pub give : ℕ → Task → TcpServer → TcpServer
give loop t s = record s { tasks = s.tasks ++ ((loop, t) ∷ []) }

unfoldable pub set_threads : TcpServer → ℕ → TcpServer
set_threads s n = record s { pool = ThreadPool.set_thread_num s.pool n }

-- `m_started++ == 0`.
unfoldable pub start_server : (ℕ → ℕ) → Bool → TcpServer → TcpServer
unfolding give
start_server start_loop has_callback s =
    let first = s.started == 0 in
    let counted = record s { started = s.started + 1 } in
    if first
    then give s.base_loop listen
        (record counted { pool = (ThreadPool.start start_loop has_callback s.pool).0 })
    else counted

-- `snprintf` into `char buf[64]` keeps 63 bytes.
abbrev pub conn_name : Bytes → Bytes → ℕ → Bytes
conn_name name ip_port id = name ++ take 63 (codes "-" ++ (ip_port ++ (codes "#" ++ decimal id)))

-- `m_connections[name] = conn`.
unfoldable pub assign : Bytes → Conn → ConnectionMap → ConnectionMap
assign k c [] = (k, c) ∷ []
assign k c ((j, d) ∷ m) = if bytes_eq j k then (j, c) ∷ m else (j, d) ∷ assign k c m

unfoldable pub erase : Bytes → ConnectionMap → ConnectionMap
erase k [] = []
erase k ((j, d) ∷ m) = if bytes_eq j k then m else (j, d) ∷ erase k m

-- `none` is undefined behaviour: a loop read behind the end of the pool's vector, or a `++m_nextConnId`
-- that overflows the `int`.
unfoldable pub new_connection : TcpServer → ℕ → Option TcpServer
unfolding assign give
new_connection s fd = elim (get_next_loop s.pool) [
  | none ↦ none
  | some (io_loop, pool) ↦
      let conn : Conn = record {
        name = conn_name s.name s.ip_port s.next_conn_id;
        loop = io_loop;
        fd = fd;
      } in
      if ltb (s.next_conn_id + 1) int_limit
      then some (
          give io_loop (establish conn) (record s {
            pool = pool;
            next_conn_id = s.next_conn_id + 1;
            connections = assign conn.name conn s.connections;
          }))
      else none
]

unfoldable pub remove_connection_in_loop : Conn → TcpServer → TcpServer
unfolding erase give
remove_connection_in_loop conn s =
    give conn.loop (destroy conn) (record s { connections = erase conn.name s.connections })

-- The callback runs on the connection's loop; `in_thread` says whether that is the base loop.
unfoldable pub remove_connection : Bool → Conn → TcpServer → TcpServer
unfolding remove_connection_in_loop give
remove_connection in_thread conn s =
    if in_thread then remove_connection_in_loop conn s else give s.base_loop (remove conn) s

-- The destructor.
unfoldable pub destroy_all : ConnectionMap → TcpServer → TcpServer
unfolding give
destroy_all [] s = s
destroy_all ((k, c) ∷ m) s = destroy_all m (give c.loop (destroy c) s)
