-- ===== src/TcpServer/Tests.antt =====
-- The theorems on a server with one connection.
use my_cpp_code.Common.Decimal.{decimal}
use my_cpp_code.Common.{◌≡◌, refl, arith, true, [], ◌∷◌, ◌++◌, some, Bytes, codes, inr}
use my_cpp_code.ThreadPool.{get_next_loop}
use my_cpp_code.TcpServer.{
  TcpServer, Conn, establish, destroy, conn_name, new_connection, remove_connection_in_loop,
}
use my_cpp_code.TcpServer.Names.{Fits, IsValidServer, new_connection_lem, remove-new_connection}

abbrev first_name : Bytes
first_name = conn_name (codes "s") (codes "0.0.0.0:80") 1

abbrev first_conn : Conn
first_conn = record { name = first_name; loop = 20; fd = 7 }

abbrev server : TcpServer
server = record {
  base_loop = 0;
  ip_port = codes "0.0.0.0:80";
  name = codes "s";
  pool = record { base_loop = 0; started = true; num_threads = 2; next = 1; loops = 10 ∷ 20 ∷ [] };
  started = 1;
  next_conn_id = 2;
  connections = (first_name, first_conn) ∷ [];
  tasks = [];
}

server-IsValidServer : IsValidServer server
unfolding decimal
server-IsValidServer = record {
  pool = inr (omega arith);
  numbered = ((1, omega arith, (omega arith, omega arith), refl, refl), tt);
}

second-Fits : Fits (codes "0.0.0.0:80") 2
unfolding decimal
second-Fits = (omega arith, omega arith)

new_connection_lem_example :
    (s' : TcpServer) × (c : Conn) × (new_connection server 8 ≡ some s')
    × (s'.connections ≡ server.connections ++ ((c.name, c) ∷ []))
    × (s'.tasks ≡ server.tasks ++ ((c.loop, establish c) ∷ []))
    × (c.fd ≡ 8)
    × (get_next_loop server.pool ≡ some (c.loop, s'.pool))
    × IsValidServer s'
new_connection_lem_example = new_connection_lem server 8 server-IsValidServer second-Fits

remove-new_connection_example :
    (s' : TcpServer) × (c : Conn) × (new_connection server 8 ≡ some s')
    × ((remove_connection_in_loop c s').connections ≡ server.connections)
    × ((remove_connection_in_loop c s').tasks
        ≡ (server.tasks ++ ((c.loop, establish c) ∷ [])) ++ ((c.loop, destroy c) ∷ []))
remove-new_connection_example = remove-new_connection server 8 server-IsValidServer second-Fits
