-- ===== src/Acceptor.antt =====
-- myserver/include/acceptor.h and myserver/net/acceptor.cpp: `Acceptor`, with what it calls of
-- myserver/net/mysocket.cpp.
--
-- The kernel's answers are arguments. `none` says that the process has aborted, by LOG_FATAL or in the
-- callback.
pub mod Registered
pub mod Serving
mod Tests
use my_cpp_code.Common.{
  ℕ, ◌+◌, Bool, true, false, List, [], ◌∷◌, ◌++◌, Option, none, some, ◌==◌, if◌then◌else◌,
}
use my_cpp_code.Buffer.{Io, done, failed}
use my_cpp_code.Poller.Channel.{Channel, new_channel}
use my_cpp_code.Poller.Epoll.{Kernel, EpollPoller}
use my_cpp_code.Poller.Registration.{call, enable_read, disable_all, remove}

module _ (k : Kernel) where
  -- `poller` is that of the acceptor's loop.
  pub record Acceptor : Type 0 where
    pub socket : ℕ
    pub channel : Channel
    pub poller : EpollPoller k
    pub listenning : Bool

  -- The answers of `socket` and `bind`; `address` is the channel's.
  unfoldable pub new_acceptor : ℕ → Io ℕ → Bool → EpollPoller k → Option Acceptor
  new_acceptor address (failed e) bound p = none
  new_acceptor address (done fd) bound p =
      if bound
      then some
          (record { socket = fd; channel = new_channel address fd; poller = p; listenning = false })
      else none

  unfoldable pub with_channel : Channel × EpollPoller k → Acceptor → Acceptor
  with_channel (c, p) a = record a { channel = c; poller = p }

  -- The answer of `listen`.
  unfoldable pub listen : Bool → Acceptor → Option Acceptor
  unfolding with_channel
  listen answer a =
      let opened = record a { listenning = true } in
      if answer
      then some (with_channel (call k enable_read (opened.channel, opened.poller)) opened)
      else none

  unfoldable pub destroy : Acceptor → Acceptor
  unfolding with_channel
  destroy a = with_channel (call k remove (call k disable_all (a.channel, a.poller))) a

pub data Message : Type 0 where
  accept4_failed accept_failed limit_reached no_callback : Message

-- The state of the callback's owner, the descriptors closed and the lines logged.
pub record Served {ℓ} (S : Type ℓ) : Type ℓ where
  pub state : S
  pub closed : List ℕ
  pub logged : List Message

abbrev pub emfile : ℕ
emfile = 24

abbrev log {ℓ} : {S : Type ℓ} → Message → Served S → Served S
log m s = record s { logged = s.logged ++ (m ∷ []) }

abbrev with_state {ℓ} : {S : Type ℓ} → Served S → S → Served S
with_state s state = record s { state = state }

-- `m_acceptSocket.accept`: it logs a failure itself.
unfoldable pub accept {ℓ} : {S : Type ℓ} → Io ℕ → Served S → Served S
accept (done fd) s = s
accept (failed e) s = log accept4_failed s

abbrev called {ℓ} : {S : Type ℓ} → Served S → Option S → Option (Served S)
called s none = none
called s (some state) = some (with_state s state)

-- `errno_left` is what the logging leaves in `errno`, which is read behind it.
unfoldable pub handle_answer {ℓ} :
    {S : Type ℓ} → (ℕ → ℕ) → Option (ℕ → S → Option S) → Io ℕ → Served S → Option (Served S)
handle_answer errno_left (some callback) (done fd) s = called s (callback fd s.state)
handle_answer errno_left none (done fd) s =
    let noted = log no_callback s in some (record noted { closed = noted.closed ++ (fd ∷ []) })
handle_answer errno_left callback (failed e) s =
    let noted = log accept_failed s in
    some (if errno_left e == emfile then log limit_reached noted else noted)

unfoldable pub handle_read {ℓ} :
    {S : Type ℓ} → (ℕ → ℕ) → Option (ℕ → S → Option S) → Io ℕ → Served S → Option (Served S)
unfolding accept handle_answer
handle_read errno_left callback answer s =
    handle_answer errno_left callback answer (accept answer s)

-- The listening socket becomes readable again and again.
unfoldable pub handle_reads {ℓ} :
    {S : Type ℓ} → (ℕ → ℕ) → Option (ℕ → S → Option S) → List (Io ℕ) → Served S → Option (Served S)
handle_reads errno_left callback [] s = some s
handle_reads errno_left callback (answer ∷ answers) s =
    elim (handle_read errno_left callback answer s) [
      | none ↦ none
      | some t ↦ handle_reads errno_left callback answers t
    ]
