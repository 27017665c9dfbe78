-- ===== src/Connection/Delivery.antt =====
-- tcp_connection.cpp: what is sent reaches the kernel in order, without loss or duplication.
use my_cpp_code.Common.Words.{int_limit}
use my_cpp_code.Common.{
  ℕ, ◌+◌, ◌≤◌, ◌<◌, ◌≡◌, refl, arith, false, not, ◌&&◌, ◌||◌, [], ◌++◌, ◌==◌, if◌then◌else◌, Bytes,
  length, take, drop, append_assoc, append-nil, take-append-drop, length-drop, eq_nil_of_length,
  inl, inr, ◌⊎◌,
}
use my_cpp_code.Buffer.{readable_bytes, Io, done, failed, write_fd}
use my_cpp_code.Buffer.Valid.{IsValid}
use my_cpp_code.Buffer.Contents.{
  contents, contents-append, contents-retrieve, length-contents, get_buffer_as_string_lem,
}
use my_cpp_code.Poller.Channel.{is_write, IsMask}
use my_cpp_code.Connection.{
  Connection, connected, disconnected, Attempt, write_now, queue_rest, attempt, finish_send,
  send_in_loop, send, is_connected, after_write, handle_write, drained, shutdown_in_loop, epipe,
  econnreset,
}

-- All bytes that the connection has taken on: those with the kernel, then those that wait.
abbrev pub stream : Connection → Bytes
stream c = c.sent ++ contents c.output

-- The channel has an interest in writing exactly while output waits, and none once the connection
-- is down.
abbrev pub IsInterested : Connection → Type 0
IsInterested c =
    ((c.state ≡ disconnected) × (is_write c.channel ≡ false))
    ⊎ (is_write c.channel ≡ not (readable_bytes c.output == 0))

-- The writing side has been shut down.
abbrev pub IsShut : Connection → Type 0
IsShut c = (readable_bytes c.output ≡ 0) × (is_connected c.state ≡ false)

pub record IsValidConn (c : Connection) : Type 0 where
  pub output : IsValid c.output
  pub mask : IsMask c.channel.events
  pub interest : IsInterested c
  pub shut : (c.write_shut ≡ false) ⊎ IsShut c

-- A `write` that has failed for good: the peer is gone, and the bytes are given up.
abbrev pub IsFatal : ℕ → Type 0
IsFatal e = (e ≡ epipe) ⊎ (e ≡ econnreset)

-- What an answer of `write` leaves of the bytes: all of them, unless it has failed for good on an
-- idle connection.
abbrev pub accepted : Connection → Bytes → Io ℕ → Bytes
accepted c msg (done n) = msg
accepted c msg (failed e) =
    if not (is_write c.channel) && (e == epipe || e == econnreset) then [] else msg

queue_rest-stream :
    (c : Connection) (rest : Bytes)
    → IsValid c.output
    → length c.output.bytes + length rest < int_limit
    → stream (queue_rest c rest) ≡ stream c ++ rest
unfolding queue_rest
queue_rest-stream c rest v h =
    ground (arith, contents-append rest v h, append_assoc c.sent (contents c.output) rest)

finish_send-stream :
    (a : Attempt)
    → IsValid a.connection.output
    → length a.connection.output.bytes + length a.remaining < int_limit
    → stream (finish_send a) ≡ stream a.connection ++ (if a.fault then [] else a.remaining)
unfolding finish_send
finish_send-stream a v h = ground (
  arith,
  queue_rest-stream a.connection a.remaining v h,
  append-nil (stream a.connection),
  eq_nil_of_length a.remaining,
)

-- The bytes that the kernel took on the spot and those that remain are the message.
attempt-stream :
    (c : Connection) (msg : Bytes) (answer : Io ℕ)
    → IsValidConn c
    → c.state ≡ connected
    → let a = attempt c msg answer in
      (stream a.connection ++ (if a.fault then [] else a.remaining))
      ≡ stream c ++ accepted c msg answer
unfolding attempt write_now
attempt-stream c msg (done n) v up = ground (
  arith,
  eq_nil_of_length (contents c.output),
  length-contents v.output,
  append-nil c.sent,
  append-nil (c.sent ++ take n msg),
  append_assoc c.sent (take n msg) (drop n msg),
  take-append-drop n msg,
)
attempt-stream c msg (failed e) v up = ground (arith, v.interest)

pub attempt-output :
    (c : Connection) (msg : Bytes) (answer : Io ℕ)
    → let a = attempt c msg answer in
      (a.connection.output ≡ c.output) × (length a.remaining ≤ length msg)
unfolding attempt write_now
attempt-output c msg (done n) = ground (arith, length-drop n msg)
attempt-output c msg (failed e) = ground arith

-- On a valid connection that is up, with a message that fits the output buffer's `int` size,
-- what `send` takes on follows what was taken on before: all of the message, unless the kernel
-- says that the peer is gone.
pub stream-send :
    (c : Connection) (msg : Bytes) (answer : Io ℕ)
    → IsValidConn c
    → c.state ≡ connected
    → length c.output.bytes + length msg < int_limit
    → stream (send c msg answer) ≡ stream c ++ accepted c msg answer
unfolding send send_in_loop
stream-send c msg answer v up h =
    let (same, less) = attempt-output c msg answer in
    ground
      (arith, attempt-stream c msg answer v up, finish_send-stream (attempt c msg answer), v.output)

-- What `writeFd` offers to the kernel is the whole content of the output buffer, and what the kernel
-- takes of it moves from the buffer to the wire.
after_write-stream : (c : Connection) (n : ℕ) → IsValidConn c → stream (after_write c n) ≡ stream c
unfolding after_write drained shutdown_in_loop
after_write-stream c n v = ground (
  arith,
  get_buffer_as_string_lem v.output,
  contents-retrieve n v.output,
  append_assoc c.sent (take n (contents c.output)) (drop n (contents c.output)),
  take-append-drop n (contents c.output),
)

pub io_cases : (r : Io ℕ) → ((n : ℕ) × (r ≡ done n)) ⊎ ((e : ℕ) × (r ≡ failed e))
io_cases (done n) = inl (n, refl)
io_cases (failed e) = inr (e, refl)

-- `handleWrite` loses and repeats no byte, whatever the kernel answers.
pub stream-handle_write :
    (c : Connection) (write : Bytes → Io ℕ)
    → IsValidConn c
    → stream (handle_write c write) ≡ stream c
unfolding handle_write
stream-handle_write c write v = elim (io_cases (write_fd c.output write)) [
  | inl (n, e) ↦ ground (arith, after_write-stream c n v)
  | inr (errno, e) ↦ ground arith
]
