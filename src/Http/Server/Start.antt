-- ===== src/Http/Server/Start.antt =====
-- http_server.cpp and tcp_server.cpp: starting the HTTP server.
use my_cpp_code.Common.{ℕ, ◌≡◌, arith, [], ◌∷◌, Bytes}
use my_cpp_code.ThreadPool.{start, start_loops, set_thread_num, new_pool}
use my_cpp_code.ThreadPool.RoundRobin.{IsValid, loops_from}
use my_cpp_code.TcpServer.{listen, new_server, set_threads, start_server, give}
use my_cpp_code.Http.Server.{new_http_server, start_http}

-- A new HTTP server that is started has the loops of four threads, in order, in a valid pool,
-- and its base loop is told to listen; starting it again changes neither the pool nor what is
-- listened to.
pub start_http_lem :
    (start_loop : ℕ → ℕ) (loop : ℕ) (ip_port name : Bytes)
    → let s = start_http start_loop (new_http_server loop ip_port name) in
      (s.pool.loops ≡ loops_from start_loop 0 4)
      × IsValid s.pool
      × (s.tasks ≡ (loop, listen) ∷ [])
      × ((start_http start_loop s).pool ≡ s.pool)
      × ((start_http start_loop s).tasks ≡ s.tasks)
unfolding start_http new_http_server start_server set_threads new_server give start set_thread_num
    new_pool start_loops
start_http_lem start_loop loop ip_port name = ground arith
