-- ===== src/TcpServer/Names.antt =====
-- tcp_server.cpp: the names under which connections stand in the map.
use my_cpp_code.Common.Decimal.{decimal, value, value-decimal}
use my_cpp_code.Common.{
  ℕ, ◌+◌, ◌≤◌, ◌<◌, ◌≡◌, ◌≢◌, refl, sym, ap, ◌∙◌, arith, [], ◌∷◌, ◌++◌, some, Bytes, codes,
  bytes_eq→eq, bytes_eq_refl, drop, length, length-append, take-length_le, drop-append_length, All,
  All-append, lt→ltb,
}
use my_cpp_code.ThreadPool.{get_next_loop}
use my_cpp_code.Common.Words.{int_limit}
use my_cpp_code.ThreadPool.RoundRobin.{IsValid, get_next_loop_total}
use my_cpp_code.TcpServer.{
  TcpServer, Conn, establish, destroy, ConnectionMap, conn_name, assign, erase, give,
  new_connection, remove_connection_in_loop,
}

-- The number of a connection fits the 64 bytes for its name, and the next one an `int`.
abbrev pub Fits : Bytes → ℕ → Type 0
Fits ip_port id = (length ip_port + length (decimal id) ≤ 61) × (id + 1 < int_limit)

cancel_left : (s t u : Bytes) → (s ++ t) ≡ (s ++ u) → t ≡ u
cancel_left s t u h = sym (drop-append_length s t) ∙ ap (drop (length s)) h ∙ drop-append_length s u

conn_name-whole :
    (name ip_port : Bytes) (id : ℕ)
    → Fits ip_port id
    → conn_name name ip_port id ≡ name ++ (codes "-" ++ (ip_port ++ (codes "#" ++ decimal id)))
conn_name-whole name ip_port id h = ap (◌++◌ name) (
    take-length_le 63 (codes "-" ++ (ip_port ++ (codes "#" ++ decimal id)))
      (omega (arith, h.0, length-append ip_port (codes "#" ++ decimal id))))

-- Connections with different numbers have different names.
pub conn_name_injective :
    (name ip_port : Bytes) (i j : ℕ)
    → Fits ip_port i
    → Fits ip_port j
    → conn_name name ip_port i ≡ conn_name name ip_port j
    → i ≡ j
conn_name_injective name ip_port i j f g h =
    let whole = sym (conn_name-whole name ip_port i f) ∙ h ∙ conn_name-whole name ip_port j g in
    let tags = cancel_left name _ _ whole in
    let ends = cancel_left ip_port _ _ (cancel_left (codes "-") _ _ tags) in
    sym (value-decimal i) ∙ ap (value 0) (cancel_left (codes "#") _ _ ends) ∙ value-decimal j

-- The entry stands under the connection's name, which has a number that was given out.
abbrev pub IsNumbered : TcpServer → Bytes × Conn → Type 0
IsNumbered s (k, c) =
    (i : ℕ) × (i < s.next_conn_id)
    × Fits s.ip_port i
    × (k ≡ conn_name s.name s.ip_port i)
    × (c.name ≡ k)

assign-fresh :
    (k : Bytes) (c : Conn) (m : ConnectionMap)
    → All (λ e. e.0 ≢ k) m
    → assign k c m ≡ m ++ ((k, c) ∷ [])
unfolding assign
assign-fresh k c [] h = refl
assign-fresh k c ((j, d) ∷ m) h = ground (arith, bytes_eq→eq j k, h.0, assign-fresh k c m h.1)

erase-append :
    (k : Bytes) (c : Conn) (m : ConnectionMap)
    → All (λ e. e.0 ≢ k) m
    → erase k (m ++ ((k, c) ∷ [])) ≡ m
unfolding erase
erase-append k c [] h = ground (arith, bytes_eq_refl k)
erase-append k c ((j, d) ∷ m) h = ground (arith, bytes_eq→eq j k, h.0, erase-append k c m h.1)

IsNumbered-ne :
    (s : TcpServer) (m : ConnectionMap)
    → Fits s.ip_port s.next_conn_id
    → All (IsNumbered s) m
    → All (λ e. e.0 ≢ conn_name s.name s.ip_port s.next_conn_id) m
IsNumbered-ne s [] f h = tt
IsNumbered-ne s ((k, c) ∷ m) f h =
    let (i, small, fits, named, same) = h.0 in
    (
      (λ e. absurd (
          omega (
            arith,
            conn_name_injective s.name s.ip_port i s.next_conn_id fits f (sym named ∙ e),
            small,
          ))),
      IsNumbered-ne s m f h.1,
    )

pub record IsValidServer (s : TcpServer) : Type 0 where
  pub pool : IsValid s.pool
  pub numbered : All (IsNumbered s) s.connections

IsNumbered-next :
    (s s' : TcpServer) (m : ConnectionMap)
    → s'.name ≡ s.name
    → s'.ip_port ≡ s.ip_port
    → s.next_conn_id ≤ s'.next_conn_id
    → All (IsNumbered s) m
    → All (IsNumbered s') m
IsNumbered-next s s' [] e f l h = tt
IsNumbered-next s s' ((k, c) ∷ m) e f l h =
    let (i, small, fits, named, same) = h.0 in
    ((i, omega arith, rw f fits, rw (e, f) named, same), IsNumbered-next s s' m e f l h.1)

-- On a valid server whose address and next number fit the name's 64 bytes, and whose next number
-- is below the greatest `int`, a new connection gets the loop that the pool deals, joins the map
-- behind the others without replacing one, and is set up on that loop; the server stays valid.
pub new_connection_lem :
    (s : TcpServer) (fd : ℕ)
    → IsValidServer s
    → Fits s.ip_port s.next_conn_id
    → (s' : TcpServer) × (c : Conn) × (new_connection s fd ≡ some s')
      × (s'.connections ≡ s.connections ++ ((c.name, c) ∷ []))
      × (s'.tasks ≡ s.tasks ++ ((c.loop, establish c) ∷ []))
      × (c.fd ≡ fd)
      × (get_next_loop s.pool ≡ some (c.loop, s'.pool))
      × IsValidServer s'
unfolding new_connection give
new_connection_lem s fd v f =
    let (loop, pool, dealt, ok) = get_next_loop_total s.pool v.pool in
    let room = lt→ltb (s.next_conn_id + 1) int_limit f.1 in
    let key = conn_name s.name s.ip_port s.next_conn_id in
    let c : Conn = record { name = key; loop = loop; fd = fd } in
    let joined = assign-fresh key c s.connections (IsNumbered-ne s s.connections f v.numbered) in
    let s' : TcpServer = record s {
      pool = pool;
      next_conn_id = s.next_conn_id + 1;
      connections = assign key c s.connections;
      tasks = s.tasks ++ ((loop, establish c) ∷ []);
    } in
    (
      s',
      c,
      rw (dealt, room, new_connection) refl,
      joined,
      refl,
      refl,
      dealt,
      record {
        pool = ok;
        numbered = rw joined (
            All-append (IsNumbered s') s.connections ((key, c) ∷ [])
              (IsNumbered-next s s' s.connections refl refl (omega arith) v.numbered)
              ((s.next_conn_id, omega arith, f, refl, refl), tt));
      },
    )

-- On a valid server whose address and next number fit the name's 64 bytes, and whose next number
-- is below the greatest `int`, a connection that is made and then removed on the base loop
-- leaves the map as it was, and it is destroyed on the loop on which it was set up.
pub remove-new_connection :
    (s : TcpServer) (fd : ℕ)
    → IsValidServer s
    → Fits s.ip_port s.next_conn_id
    → (s' : TcpServer) × (c : Conn) × (new_connection s fd ≡ some s')
      × ((remove_connection_in_loop c s').connections ≡ s.connections)
      × ((remove_connection_in_loop c s').tasks
          ≡ (s.tasks ++ ((c.loop, establish c) ∷ [])) ++ ((c.loop, destroy c) ∷ []))
unfolding remove_connection_in_loop give new_connection
remove-new_connection s fd v f =
    let (loop, pool, dealt, ok) = get_next_loop_total s.pool v.pool in
    let room = lt→ltb (s.next_conn_id + 1) int_limit f.1 in
    let key = conn_name s.name s.ip_port s.next_conn_id in
    let c : Conn = record { name = key; loop = loop; fd = fd } in
    let fresh = IsNumbered-ne s s.connections f v.numbered in
    let s' : TcpServer = record s {
      pool = pool;
      next_conn_id = s.next_conn_id + 1;
      connections = assign key c s.connections;
      tasks = s.tasks ++ ((loop, establish c) ∷ []);
    } in
    (
      s',
      c,
      rw (dealt, room, new_connection) refl,
      ap (erase key) (assign-fresh key c s.connections fresh)
          ∙ erase-append key c s.connections fresh,
      refl,
    )
