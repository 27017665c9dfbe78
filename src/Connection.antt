-- ===== src/Connection.antt =====
-- myserver/include/tcp_connection.h and myserver/net/tcp_connection.cpp: `TcpConnection`.
--
-- The methods run on the loop's thread. What `write` and `readv` answer are arguments; `sent` is what
-- the kernel has taken, `events` the callbacks that were called or queued, in order. The channel's
-- mask is changed here; telling the poller of it is `Poller`'s.
pub mod Delivery
pub mod Lifecycle
pub mod History
mod Tests
use my_cpp_code.Common.{
  ℕ, ◌+◌, ◌-◌, ◌*◌, Bool, true, false, not, ◌&&◌, ◌||◌, List, [], ◌∷◌, ◌++◌, ltb, leb, ◌==◌,
  if◌then◌else◌, Bytes, length, take, drop,
}
use my_cpp_code.Buffer.{
  Buffer, init, initial_size, readable_bytes, append, retrieve, retrieve_all, get_buffer_as_string,
  Io, done, failed, read_fd, write_fd,
}
use my_cpp_code.Poller.Channel.{
  Channel, new_channel, with_read, with_write, without_write, without_all, is_write, tie,
}

pub data State : Type 0 where
  disconnected connecting connected disconnecting : State

pub data Event : Type 0 where
  connection_event message_event write_complete_event close_event error_event : Event
  high_water_event : ℕ → Event

pub record Connection : Type 0 where
  pub state : State
  pub channel : Channel
  pub input : Buffer
  pub output : Buffer
  pub high_water_mark : ℕ
  pub has_write_complete : Bool
  pub has_high_water : Bool
  pub write_shut : Bool
  pub sent : Bytes
  pub events : List Event

unfoldable pub new_connection : ℕ → ℕ → Connection
new_connection address fd = record {
  state = connecting;
  channel = new_channel address fd;
  input = init initial_size;
  output = init initial_size;
  high_water_mark = 64 * 1024 * 1024;
  has_write_complete = false;
  has_high_water = false;
  write_shut = false;
  sent = [];
  events = [];
}

abbrev pub ewouldblock : ℕ
ewouldblock = 11

abbrev pub epipe : ℕ
epipe = 32

abbrev pub econnreset : ℕ
econnreset = 104

abbrev log : Event → Connection → Connection
log e c = record c { events = c.events ++ (e ∷ []) }

abbrev pub log_if : Bool → Event → Connection → Connection
log_if b e c = if b then log e c else c

-- The result of the direct `write`: the connection, the bytes that remain and `faultError`.
pub record Attempt : Type 0 where
  pub connection : Connection
  pub remaining : Bytes
  pub fault : Bool

unfoldable pub write_now : Connection → Bytes → Io ℕ → Attempt
write_now c msg (done n) = record {
  connection =
      log_if (length msg - n == 0 && c.has_write_complete) write_complete_event
        (record c { sent = c.sent ++ take n msg });
  remaining = drop n msg;
  fault = false;
}
write_now c msg (failed e) = record {
  connection = c;
  remaining = msg;
  fault = not (e == ewouldblock) && (e == epipe || e == econnreset);
}

unfoldable pub queue_rest : Connection → Bytes → Connection
queue_rest c rest =
    let old_len = readable_bytes c.output in
    let total = old_len + length rest in
    let crossed =
      leb c.high_water_mark total && (ltb old_len c.high_water_mark && c.has_high_water) in
    let queued =
      log_if crossed (high_water_event total) (record c { output = append c.output rest }) in
    if not (is_write c.channel) then record queued { channel = with_write c.channel } else queued

unfoldable pub attempt : Connection → Bytes → Io ℕ → Attempt
attempt c msg answer =
    if not (is_write c.channel) && readable_bytes c.output == 0
    then write_now c msg answer
    else record { connection = c; remaining = msg; fault = false }

unfoldable pub finish_send : Attempt → Connection
finish_send a =
    if not a.fault && ltb 0 (length a.remaining)
    then queue_rest a.connection a.remaining
    else a.connection

unfoldable pub is_disconnected : State → Bool
is_disconnected disconnected = true
is_disconnected _ = false

unfoldable pub is_connected : State → Bool
is_connected connected = true
is_connected _ = false

unfoldable pub is_disconnecting : State → Bool
is_disconnecting disconnecting = true
is_disconnecting _ = false

unfoldable pub send_in_loop : Connection → Bytes → Io ℕ → Connection
unfolding is_disconnected
send_in_loop c msg answer =
    if is_disconnected c.state then c else finish_send (attempt c msg answer)

unfoldable pub send : Connection → Bytes → Io ℕ → Connection
unfolding is_connected
send c msg answer = if is_connected c.state then send_in_loop c msg answer else c

-- `send(Buffer*)` empties the caller's buffer.
unfoldable pub send_buffer : Connection → Buffer → Io ℕ → Connection × Buffer
unfolding is_connected
send_buffer c b answer =
    if is_connected c.state
    then (send_in_loop c (get_buffer_as_string b) answer, retrieve_all b)
    else (c, b)

unfoldable pub shutdown_in_loop : Connection → Connection
shutdown_in_loop c = if not (is_write c.channel) then record c { write_shut = true } else c

unfoldable pub shutdown : Connection → Connection
unfolding is_connected
shutdown c =
    if is_connected c.state then shutdown_in_loop (record c { state = disconnecting }) else c

unfoldable pub connect_established : Connection → Connection
connect_established c =
    log connection_event (record c { state = connected; channel = with_read (tie c.channel) })

-- The removal of the channel from the poller is `Poller.remove_channel`.
unfoldable pub connect_destroyed : Connection → Connection
unfolding is_connected
connect_destroyed c =
    if is_connected c.state
    then log connection_event (record c { state = disconnected; channel = without_all c.channel })
    else c

unfoldable pub handle_close : Connection → Connection
handle_close c =
    log close_event
      (log connection_event (record c { state = disconnected; channel = without_all c.channel }))

unfoldable pub handle_error : Connection → Connection
handle_error c = log error_event c

-- The message callback works on the input buffer.
unfoldable pub after_read : (Buffer → Buffer) → Connection → Io ℕ → Connection
after_read on_message c (failed e) = handle_error c
after_read on_message c (done n) =
    if ltb 0 n then log message_event (record c { input = on_message c.input }) else handle_close c

unfoldable pub handle_read : (Buffer → Buffer) → Connection → Io Bytes → Connection
handle_read on_message c answer =
    let (b, n) = read_fd c.input answer in after_read on_message (record c { input = b }) n

-- The output has been written whole.
unfoldable pub drained : Connection → Connection
unfolding is_disconnecting
drained c = if is_disconnecting c.state then shutdown_in_loop c else c

-- The part of `handleWrite` behind a successful `writeFd`.
unfoldable pub after_write : Connection → ℕ → Connection
after_write c n =
    let c' = record c {
      output = retrieve c.output n;
      sent = c.sent ++ take n (get_buffer_as_string c.output);
    } in
    if readable_bytes c'.output == 0
    then drained (
        log_if c.has_write_complete write_complete_event
          (record c' { channel = without_write c.channel }))
    else c'

unfoldable pub handle_write : Connection → (Bytes → Io ℕ) → Connection
handle_write c write =
    if is_write c.channel
    then elim (write_fd c.output write) [
      | done n ↦ if ltb 0 n then after_write c n else c
      | failed e ↦ c
    ]
    else c
