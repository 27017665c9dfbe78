-- ===== src/Connection/History.antt =====
-- tcp_connection.cpp over a whole history of calls.
use my_cpp_code.Common.Words.{int_limit}
use my_cpp_code.Common.{
  ℕ, ◌+◌, ◌≤◌, ◌<◌, ◌≡◌, sym, ap, ◌∙◌, arith, true, List, [], ◌∷◌, ◌++◌, if◌then◌else◌, Bytes,
  length, append_assoc, append-nil, eq_nil_of_length, inl, inr,
}
use my_cpp_code.Buffer.{Io, retrieve, write_fd}
use my_cpp_code.Buffer.Valid.{length-append-le}
use my_cpp_code.Buffer.Contents.{contents, length-contents}
use my_cpp_code.Connection.{
  Connection, is_connected, send, send_in_loop, finish_send, queue_rest, attempt, handle_write,
  after_write, drained, shutdown_in_loop, shutdown, handle_close, connect_destroyed,
}
use my_cpp_code.Connection.Delivery.{
  IsValidConn, stream, accepted, stream-send, stream-handle_write, attempt-output, io_cases,
}
use my_cpp_code.Connection.Lifecycle.{
  send-IsValidConn, handle_write-IsValidConn, shutdown-IsValidConn, handle_close-IsValidConn,
  connect_destroyed-IsValidConn,
}

-- The calls on a connection, each with what the kernel answers.
pub data Op : Type 0 where
  sends : Bytes → Io ℕ → Op
  writable : (Bytes → Io ℕ) → Op
  shuts closes destroys : Op

unfoldable pub step : Op → Connection → Connection
step (sends msg answer) c = send c msg answer
step (writable write) c = handle_write c write
step shuts c = shutdown c
step closes c = handle_close c
step destroys c = connect_destroyed c

unfoldable pub run : List Op → Connection → Connection
run [] c = c
run (o ∷ os) c = run os (step o c)

-- The bytes of the messages.
abbrev pub load : List Op → ℕ
load [] = 0
load (sends msg answer ∷ os) = length msg + load os
load (_ ∷ os) = load os

-- What the messages of a history add to the stream.
abbrev pub taken : List Op → Connection → Bytes
taken [] c = []
taken (sends msg answer ∷ os) c =
    (if is_connected c.state then accepted c msg answer else [])
    ++ taken os (step (sends msg answer) c)
taken (o ∷ os) c = taken os (step o c)

abbrev size : Op → ℕ
size (sends msg answer) = length msg
size _ = 0

size-send :
    (c : Connection) (msg : Bytes) (answer : Io ℕ)
    → IsValidConn c
    → length c.output.bytes + length msg < int_limit
    → length (send c msg answer).output.bytes ≤ length c.output.bytes + length msg
unfolding send send_in_loop finish_send queue_rest
size-send c msg answer v h =
    let a = attempt c msg answer in
    let (same, less) = attempt-output c msg answer in
    ground (arith, length-append-le {b = c.output} a.remaining v.output)

size-handle_write :
    (c : Connection) (write : Bytes → Io ℕ)
    → length (handle_write c write).output.bytes ≤ length c.output.bytes
unfolding handle_write after_write drained shutdown_in_loop retrieve
size-handle_write c write = elim (io_cases (write_fd c.output write)) [
  | inl (n, e) ↦ ground arith
  | inr (errno, e) ↦ ground arith
]

size-step :
    (o : Op) (c : Connection)
    → IsValidConn c
    → length c.output.bytes + size o < int_limit
    → length (step o c).output.bytes ≤ length c.output.bytes + size o
unfolding step shutdown shutdown_in_loop handle_close connect_destroyed
size-step (sends msg answer) c v h = size-send c msg answer v h
size-step (writable write) c v h = omega (arith, size-handle_write c write)
size-step shuts c v h = ground arith
size-step closes c v h = ground arith
size-step destroys c v h = ground arith

step-IsValidConn :
    (o : Op) (c : Connection)
    → IsValidConn c
    → length c.output.bytes + size o < int_limit
    → IsValidConn (step o c)
unfolding step
step-IsValidConn (sends msg answer) c v h = send-IsValidConn c msg answer v h
step-IsValidConn (writable write) c v h = handle_write-IsValidConn c write v
step-IsValidConn shuts c v h = shutdown-IsValidConn c v
step-IsValidConn closes c v h = handle_close-IsValidConn c v
step-IsValidConn destroys c v h = connect_destroyed-IsValidConn c v

stream-sends :
    (msg : Bytes) (answer : Io ℕ) (c : Connection)
    → IsValidConn c
    → length c.output.bytes + length msg < int_limit
    → stream (step (sends msg answer) c)
      ≡ stream c ++ (if is_connected c.state then accepted c msg answer else [])
unfolding step is_connected send
stream-sends msg answer c v h = ground (arith, stream-send c msg answer v, append-nil (stream c))

abbrev IsQuiet : Op → Type 0
IsQuiet (sends msg answer) = ⊥
IsQuiet (writable write) = ⊥
IsQuiet _ = Unit

stream-quiet : (o : Op) (c : Connection) → IsQuiet o → stream (step o c) ≡ stream c
unfolding step shutdown shutdown_in_loop handle_close connect_destroyed
stream-quiet (sends msg answer) c q = absurd q
stream-quiet (writable write) c q = absurd q
stream-quiet shuts c q = ground arith
stream-quiet closes c q = ground arith
stream-quiet destroys c q = ground arith

-- From a valid connection, over any history of calls whose messages fit the output buffer's
-- `int` size, with whatever the kernel answers: the bytes that have gone to the kernel and those
-- that wait are those from before and the bytes that were taken on, in order; and the connection
-- stays valid.
pub stream-run :
    (os : List Op) (c : Connection)
    → IsValidConn c
    → length c.output.bytes + load os < int_limit
    → (stream (run os c) ≡ stream c ++ taken os c) × IsValidConn (run os c)
unfolding run
stream-run [] c v h = (sym (append-nil (stream c)), v)
stream-run (sends msg answer ∷ os) c v h =
    let o = sends msg answer in
    let (e, w) =
      stream-run os (step o c) (step-IsValidConn o c v (omega arith))
        (omega (arith, size-step o c v (omega arith))) in
    let now = stream-sends msg answer c v (omega arith) in
    (
      e
          ∙ ap (λ s. s ++ taken os (step o c)) now
          ∙ append_assoc (stream c) (if is_connected c.state then accepted c msg answer else [])
              (taken os (step o c)),
      w,
    )
stream-run (writable write ∷ os) c v h =
    let o = writable write in
    let (e, w) =
      stream-run os (step o c) (step-IsValidConn o c v (omega arith))
        (omega (arith, size-step o c v (omega arith))) in
    (e ∙ ap (λ s. s ++ taken os (step o c)) (unfold step in stream-handle_write c write v), w)
stream-run (shuts ∷ os) c v h =
    let (e, w) =
      stream-run os (step shuts c) (step-IsValidConn shuts c v (omega arith))
        (omega (arith, size-step shuts c v (omega arith))) in
    (e ∙ ap (λ s. s ++ taken os (step shuts c)) (stream-quiet shuts c tt), w)
stream-run (closes ∷ os) c v h =
    let (e, w) =
      stream-run os (step closes c) (step-IsValidConn closes c v (omega arith))
        (omega (arith, size-step closes c v (omega arith))) in
    (e ∙ ap (λ s. s ++ taken os (step closes c)) (stream-quiet closes c tt), w)
stream-run (destroys ∷ os) c v h =
    let (e, w) =
      stream-run os (step destroys c) (step-IsValidConn destroys c v (omega arith))
        (omega (arith, size-step destroys c v (omega arith))) in
    (e ∙ ap (λ s. s ++ taken os (step destroys c)) (stream-quiet destroys c tt), w)

-- From a valid connection, over any history of calls whose messages fit the output buffer's
-- `int` size: if the writing side is shut down at the end, everything that was taken on has gone
-- to the kernel, in order.
pub sent-run :
    (os : List Op) (c : Connection)
    → IsValidConn c
    → length c.output.bytes + load os < int_limit
    → (run os c).write_shut ≡ true
    → (run os c).sent ≡ stream c ++ taken os c
sent-run os c v h shut =
    let (e, w) = stream-run os c v h in
    let empty : contents (run os c).output ≡ [] =
      eq_nil_of_length (contents (run os c).output)
        (ground (arith, w.shut, length-contents w.output)) in
    sym (append-nil (run os c).sent) ∙ ap (◌++◌ (run os c).sent) (sym empty) ∙ e
