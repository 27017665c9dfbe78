-- ===== src/Acceptor/Tests.antt =====
-- The theorem on a server that accepts.
use my_cpp_code.Common.Decimal.{decimal}
use my_cpp_code.Common.{
  ℕ, ◌+◌, ◌<◌, ◌≡◌, refl, arith, true, leb, List, [], ◌∷◌, some, codes, length, every_below,
  every_below_lem, leb→le, inr,
}
use my_cpp_code.Buffer.{Io, done, failed}
use my_cpp_code.TcpServer.{TcpServer, Conn}
use my_cpp_code.TcpServer.Names.{Fits, IsValidServer}
use my_cpp_code.Acceptor.{Served}
use my_cpp_code.Acceptor.Serving.{accepted, serve, Joined, serve-Joined}

abbrev quiet_server : Served TcpServer
quiet_server = record {
  state = record {
    base_loop = 0;
    ip_port = codes "0.0.0.0:80";
    name = codes "s";
    pool = record {
      base_loop = 0;
      started = true;
      num_threads = 2;
      next = 1;
      loops = 10 ∷ 20 ∷ [];
    };
    started = 1;
    next_conn_id = 1;
    connections = [];
    tasks = [];
  };
  closed = [];
  logged = [];
}

quiet_server-IsValidServer : IsValidServer quiet_server.state
quiet_server-IsValidServer = record { pool = inr (omega arith); numbered = tt }

abbrev some_answers : List (Io ℕ)
some_answers = done 7 ∷ failed 24 ∷ done 8 ∷ []

short_table : every_below (λ i. leb (10 + length (decimal i)) 61) 4 ≡ true
unfolding every_below decimal
short_table = refl

some-Fits : (i : ℕ) → i < 1 + length some_answers → Fits (codes "0.0.0.0:80") i
some-Fits i h =
    let small : i < 4 = omega arith in
    (
      leb→le (10 + length (decimal i)) 61
          (every_below_lem (λ i. leb (10 + length (decimal i)) 61) 4 short_table i small),
      omega arith,
    )

serve-Joined_example :
    (t : Served TcpServer) × (cs : List Conn) × (serve (λ e. e) some_answers quiet_server ≡ some t)
    × Joined quiet_server t (accepted some_answers) cs
    × IsValidServer t.state
serve-Joined_example =
    serve-Joined (λ e. e) some_answers quiet_server quiet_server-IsValidServer some-Fits
