-- ===== src/Acceptor/Serving.antt =====
-- acceptor.cpp and tcp_server.cpp: the acceptor of a server, whose callback is `newConnection`.
use my_cpp_code.Common.{
  ℕ, ◌+◌, ◌<◌, ◌≡◌, refl, sym, ap, ◌∙◌, arith, List, [], ◌∷◌, ◌++◌, Option, some, map, length,
  append_assoc, append-nil, ◌==◌, Bool-cases, inl, inr,
}
use my_cpp_code.Buffer.{Io, done, failed}
use my_cpp_code.TcpServer.{TcpServer, Conn, establish, new_connection, give}
use my_cpp_code.TcpServer.Names.{Fits, IsValidServer, new_connection_lem}
use my_cpp_code.Acceptor.{
  Served, accept4_failed, accept_failed, limit_reached, emfile, accept, handle_answer, handle_read,
  handle_reads,
}

-- The descriptors that `accept4` returned.
pub accepted : List (Io ℕ) → List ℕ
accepted [] = []
accepted (done fd ∷ answers) = fd ∷ accepted answers
accepted (failed e ∷ answers) = accepted answers

-- What the logging leaves in `errno` does not change which descriptors are handled.
abbrev pub serve : (ℕ → ℕ) → List (Io ℕ) → Served TcpServer → Option (Served TcpServer)
serve errno_left answers s = handle_reads errno_left (some (λ fd t. new_connection t fd)) answers s

append_step {ℓ} :
    {A : Type ℓ} (a b c d : List A) (x : A) → b ≡ a ++ (x ∷ []) → d ≡ b ++ c → d ≡ a ++ (x ∷ c)
append_step a b c d x p q = rw (q, p) (append_assoc a (x ∷ []) c)

new_connection_next :
    (s s' : TcpServer) (fd : ℕ)
    → new_connection s fd ≡ some s'
    → (s'.next_conn_id ≡ s.next_conn_id + 1) × (s'.ip_port ≡ s.ip_port)
unfolding new_connection give
new_connection_next s s' fd e = ground arith

handle_reads_next :
    (errno_left : ℕ → ℕ) (answer : Io ℕ) (answers : List (Io ℕ)) (s r t : Served TcpServer)
    → handle_read errno_left (some (λ fd s. new_connection s fd)) answer s ≡ some r
    → serve errno_left answers r ≡ some t
    → serve errno_left (answer ∷ answers) s ≡ some t
unfolding handle_reads
handle_reads_next errno_left answer answers s r t e h = rw (e, handle_reads) h

failed_read :
    (errno_left : ℕ → ℕ) (e : ℕ) (s : Served TcpServer)
    → (r : Served TcpServer) × (handle_read errno_left
          (some (λ fd s. new_connection s fd))
          (failed e)
          s
        ≡ some r)
      × (r.state ≡ s.state)
      × (r.closed ≡ s.closed)
unfolding handle_read
failed_read errno_left e s = elim (Bool-cases (errno_left e == emfile)) [
  | inl full ↦ (
    record s {
      logged =
          ((s.logged ++ (accept4_failed ∷ [])) ++ (accept_failed ∷ [])) ++ (limit_reached ∷ []);
    },
    rw full refl,
    refl,
    refl,
  )
  | inr other ↦ (
    record s { logged = (s.logged ++ (accept4_failed ∷ [])) ++ (accept_failed ∷ []) },
    rw other refl,
    refl,
    refl,
  )
]

-- The connections `cs` have been made for the descriptors `fds`.
pub record Joined (s t : Served TcpServer) (fds : List ℕ) (cs : List Conn) : Type 0 where
  pub descriptors : map (λ (c : Conn). c.fd) cs ≡ fds
  pub registered : t.state.connections ≡ s.state.connections ++ map (λ (c : Conn). (c.name, c)) cs
  pub dealt : t.state.tasks ≡ s.state.tasks ++ map (λ (c : Conn). (c.loop, establish c)) cs
  pub kept : t.closed ≡ s.closed

-- On a valid server for which the address and every number that may be given out fit the name's
-- 64 bytes, and these numbers are below the greatest `int`, whatever `accept4` answers and
-- whatever the logging leaves in `errno`: every descriptor that was accepted gets a connection,
-- in order, which joins the map behind the others and is set up on its loop; no descriptor is
-- closed, and the server stays valid.
pub serve-Joined :
    (errno_left : ℕ → ℕ) (answers : List (Io ℕ)) (s : Served TcpServer)
    → IsValidServer s.state
    → ((i : ℕ) → i < s.state.next_conn_id + length answers → Fits s.state.ip_port i)
    → (t : Served TcpServer) × (cs : List Conn) × (serve errno_left answers s ≡ some t)
      × Joined s t (accepted answers) cs
      × IsValidServer t.state
unfolding handle_reads accepted
serve-Joined errno_left [] s v f = (
  s,
  [],
  refl,
  record {
    descriptors = refl;
    registered = sym (append-nil _);
    dealt = sym (append-nil _);
    kept = refl;
  },
  v,
)
serve-Joined errno_left (done fd ∷ answers) s v f =
    let (state, c, made, joined, dealt, same, on_loop, valid) =
      new_connection_lem s.state fd v (f _ (omega arith)) in
    let (next, address) = new_connection_next s.state state fd made in
    let r : Served TcpServer = record s { state = state } in
    let read : handle_read errno_left (some (λ fd s. new_connection s fd)) (done fd) s ≡ some r =
      unfold handle_read accept handle_answer in rw made refl in
    let (t, cs, served, tail, ok) =
      serve-Joined errno_left answers r valid (λ i h. rw address (f i (omega arith))) in
    (
      t,
      c ∷ cs,
      handle_reads_next errno_left _ answers s r t read served,
      record {
        descriptors = rw (same, tail.descriptors) refl;
        registered = append_step _ _ _ _ _ joined tail.registered;
        dealt = append_step _ _ _ _ _ dealt tail.dealt;
        kept = tail.kept;
      },
      ok,
    )
serve-Joined errno_left (failed e ∷ answers) s v f =
    let (r, read, kept, same) = failed_read errno_left e s in
    let (t, cs, served, tail, ok) = serve-Joined errno_left answers r (rw kept v) (λ i h.
      let bound : i < s.state.next_conn_id + length answers = rw kept at h in
      rw kept (f i (omega arith))) in
    (
      t,
      cs,
      handle_reads_next errno_left _ answers s r t read served,
      record {
        descriptors = tail.descriptors;
        registered =
            tail.registered
            ∙ ap (λ (x : TcpServer). x.connections ++ map (λ (c : Conn). (c.name, c)) cs) kept;
        dealt =
            tail.dealt
            ∙ ap (λ (x : TcpServer). x.tasks ++ map (λ (c : Conn). (c.loop, establish c)) cs) kept;
        kept = tail.kept ∙ same;
      },
      ok,
    )
