-- ===== src/Connection/Tests.antt =====
-- The theorems on a connection that has just been established.
use my_cpp_code.Common.Words.{int_limit, size_of_int}
use my_cpp_code.Common.{◌+◌, ◌<◌, ◌≡◌, refl, arith, true, List, [], ◌∷◌, ◌++◌, codes, length}
use my_cpp_code.Buffer.{done, failed, init, readable_bytes}
use my_cpp_code.Poller.Channel.{is_write, with_read, tie, new_channel}
use my_cpp_code.Connection.{
  Connection, connected, new_connection, connect_established, send, send_in_loop, attempt,
  write_now, finish_send, shutdown, shutdown_in_loop, is_connected, is_disconnected,
}
use my_cpp_code.Connection.Delivery.{IsValidConn, stream}
use my_cpp_code.Connection.Lifecycle.{established-IsValidConn}
use my_cpp_code.Connection.History.{
  Op, sends, writable, shuts, step, run, taken, stream-run, sent-run,
}

abbrev established : Connection
established = connect_established (new_connection 1 9)

established-fits : length established.output.bytes + 100 < int_limit
unfolding connect_established new_connection init size_of_int
established-fits = omega arith

established-connected : established.state ≡ connected
unfolding connect_established
established-connected = refl

-- A message of which the kernel takes two bytes, a second message, and the rest when it is writable.
abbrev history : List Op
history =
    sends (codes "hello") (done 2)
    ∷ sends (codes "!") (failed 11)
    ∷ shuts
    ∷ writable (λ s. done (length s))
    ∷ []

stream-run_example :
    (stream (run history established) ≡ stream established ++ taken history established)
    × IsValidConn (run history established)
stream-run_example =
    stream-run history established (established-IsValidConn 1 9) (omega (arith, established-fits))

-- Everything has gone to the kernel when the writing side is shut.
abbrev short_history : List Op
short_history = sends (codes "hello") (done 5) ∷ shuts ∷ []

short_history-shut : (run short_history established).write_shut ≡ true
unfolding run step send send_in_loop attempt write_now finish_send shutdown shutdown_in_loop
    connect_established new_connection is_connected is_disconnected init size_of_int is_write
    with_read tie new_channel readable_bytes
short_history-shut = refl

sent-run_example :
    (run short_history established).sent ≡ stream established ++ taken short_history established
sent-run_example =
    sent-run short_history established (established-IsValidConn 1 9)
      (omega (arith, established-fits)) short_history-shut
