-- ===== src/Connection/Lifecycle.antt =====
-- tcp_connection.cpp: the invariant of a connection over its life, and the end of its writing side.
use my_cpp_code.Common.Words.{int_limit}
use my_cpp_code.Common.{
  ℕ, ◌+◌, ◌<◌, ◌≡◌, refl, ap, arith, true, ltb, Bytes, length, length-append, Bool-cases, inl, inr,
}
use my_cpp_code.Buffer.{
  Buffer, readable_bytes, append, Io, done, failed, write_fd, init, initial_size,
}
use my_cpp_code.Buffer.Valid.{IsValid, append-IsValid, retrieve-IsValid, init-IsValid}
use my_cpp_code.Buffer.Contents.{contents, contents-append, length-contents}
use my_cpp_code.Poller.Channel.{
  is_write, with_write_lem, new_channel, is_write-without_all, without_all_lem, with_read, tie,
}
use my_cpp_code.Connection.{
  Connection, connected, write_now, queue_rest, attempt, finish_send, send_in_loop, send,
  is_connected, is_disconnected, is_disconnecting, after_write, handle_write, drained, handle_close,
  connect_destroyed, connect_established, shutdown_in_loop, shutdown, new_connection,
}
use my_cpp_code.Connection.Delivery.{IsValidConn, attempt-output, io_cases}

-- The bytes that wait, and the interest in writing, as numbers.
readable-append :
    {b : Buffer} (s : Bytes)
    → IsValid b
    → length b.bytes + length s < int_limit
    → readable_bytes (append b s) ≡ readable_bytes b + length s
readable-append {b} s v h = omega (
  arith,
  length-contents v,
  length-contents (append-IsValid s v h),
  ap length (contents-append s v h),
  length-append (contents b) s,
)

queue_rest-IsValidConn :
    (c : Connection) (rest : Bytes)
    → IsValidConn c
    → c.state ≡ connected
    → 0 < length rest
    → length c.output.bytes + length rest < int_limit
    → IsValidConn (queue_rest c rest)
unfolding queue_rest is_connected
queue_rest-IsValidConn c rest v up pos h = ground (
  arith,
  append-IsValid rest v.output h,
  readable-append rest v.output h,
  with_write_lem c.channel v.mask,
  v.mask,
  v.interest,
  v.shut,
)

attempt-IsValidConn :
    (c : Connection) (msg : Bytes) (answer : Io ℕ)
    → IsValidConn c
    → IsValidConn (attempt c msg answer).connection
      × ((attempt c msg answer).connection.state ≡ c.state)
unfolding attempt write_now
attempt-IsValidConn c msg (done n) v = ground (arith, v.output, v.mask, v.interest, v.shut)
attempt-IsValidConn c msg (failed e) v = ground (arith, v.output, v.mask, v.interest, v.shut)

-- `send` keeps the invariant of the connection.
pub send-IsValidConn :
    (c : Connection) (msg : Bytes) (answer : Io ℕ)
    → IsValidConn c
    → length c.output.bytes + length msg < int_limit
    → IsValidConn (send c msg answer)
unfolding send send_in_loop finish_send is_connected is_disconnected
send-IsValidConn c msg answer v h =
    let (w, same_state) = attempt-IsValidConn c msg answer v in
    let (same, less) = attempt-output c msg answer in
    let a = attempt c msg answer in
    ground (arith, queue_rest-IsValidConn a.connection a.remaining w)

after_write-IsValidConn :
    (c : Connection) (n : ℕ)
    → IsValidConn c
    → is_write c.channel ≡ true
    → IsValidConn (after_write c n)
unfolding after_write drained shutdown_in_loop is_disconnecting is_connected
after_write-IsValidConn c n v w = ground (
  arith,
  retrieve-IsValid n v.output,
  with_write_lem c.channel v.mask,
  v.mask,
  v.interest,
  v.shut,
)

-- `handleWrite` keeps the invariant, and with it the interest in writing.
pub handle_write-IsValidConn :
    (c : Connection) (write : Bytes → Io ℕ) → IsValidConn c → IsValidConn (handle_write c write)
unfolding handle_write
handle_write-IsValidConn c write v = elim (Bool-cases (is_write c.channel)) [
  | inl w ↦ elim (io_cases (write_fd c.output write)) [
    | inl (n, e) ↦ elim (Bool-cases (ltb 0 n)) [
      | inl some_bytes ↦ rw (w, handle_write, e, some_bytes) (after_write-IsValidConn c n v w)
      | inr none_taken ↦ rw (w, handle_write, e, none_taken) v
    ]
    | inr (errno, e) ↦ rw (w, handle_write, e) v
  ]
  | inr idle ↦ rw (idle, handle_write) v
]

pub shutdown-IsValidConn : (c : Connection) → IsValidConn c → IsValidConn (shutdown c)
unfolding shutdown shutdown_in_loop is_connected
shutdown-IsValidConn c v = ground (arith, v.output, v.mask, v.interest, v.shut)

pub handle_close-IsValidConn : (c : Connection) → IsValidConn c → IsValidConn (handle_close c)
unfolding handle_close is_connected
handle_close-IsValidConn c v = ground (
  arith,
  v.output,
  v.mask,
  v.interest,
  v.shut,
  is_write-without_all c.channel v.mask,
  without_all_lem c.channel v.mask,
)

pub connect_destroyed-IsValidConn :
    (c : Connection) → IsValidConn c → IsValidConn (connect_destroyed c)
unfolding connect_destroyed is_connected
connect_destroyed-IsValidConn c v = ground (
  arith,
  v.output,
  v.mask,
  v.interest,
  v.shut,
  is_write-without_all c.channel v.mask,
  without_all_lem c.channel v.mask,
)

-- A connection that the server has just established.
pub established-IsValidConn :
    (address fd : ℕ) → IsValidConn (connect_established (new_connection address fd))
unfolding connect_established new_connection new_channel with_read tie is_write readable_bytes init
established-IsValidConn address fd = record {
  output = unfold init in init-IsValid initial_size (omega arith);
  mask = omega arith;
  interest = inr refl;
  shut = inl refl;
}
