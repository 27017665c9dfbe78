-- ===== src/Poller/Epoll.antt =====
-- myserver/include/poller.h, include/epoll_poller.h, common/poller.cpp and common/epoll_poller.cpp.
--
-- The kernel's side of epoll is a parameter, with what epoll_ctl(2) documents as its laws: a call
-- that succeeds changes the entry of its descriptor as it says, and one that fails changes nothing;
-- EEXIST is the error of an ADD of a registered descriptor and ENOENT that of a MOD or DEL of one that
-- is not registered, and such calls fail. Any call may fail with another error, such as ENOMEM.
use my_cpp_code.Common.Words.{size_mod, int_mod, int_limit}
use my_cpp_code.Common.{
  ℕ, ◌-◌, ◌*◌, ◌%◌, ◌≡◌, ◌≢◌, Bool, true, false, not, ◌&&◌, ◌||◌, List, [], Option, none, some, ltb,
  ◌==◌, if◌then◌else◌, length, take,
}
use my_cpp_code.Buffer.{Io, done, failed}
use my_cpp_code.Poller.Channel.{Channel, Index, new, added, deleted, set_index, is_none_event}

pub data CtlOp : Type 0 where
  ctl_add ctl_mod ctl_del : CtlOp

abbrev pub accepts : CtlOp → Option ℕ → Bool
accepts ctl_add none = true
accepts ctl_add (some e) = false
accepts ctl_mod none = false
accepts ctl_mod (some e) = true
accepts ctl_del none = false
accepts ctl_del (some e) = true

abbrev pub leaves : CtlOp → ℕ → Option ℕ
leaves ctl_add e = some e
leaves ctl_mod e = some e
leaves ctl_del e = none

abbrev pub enoent : ℕ
enoent = 2

abbrev pub eexist : ℕ
eexist = 17

abbrev pub succeeds : Option ℕ → Bool
succeeds none = true
succeeds (some e) = false

-- `ctl` gives no error or the `errno`.
pub record Kernel : Type 1 where
  pub State : Type 0
  pub ctl : State → CtlOp → ℕ → ℕ → State × Option ℕ
  pub registered : State → ℕ → Option ℕ
  pub ctl_refuses :
      (s : State) (op : CtlOp) (fd e : ℕ)
      → accepts op (registered s fd) ≡ false
      → succeeds (ctl s op fd e).1 ≡ false
  pub ctl_error :
      (s : State) (op : CtlOp) (fd e errno : ℕ)
      → accepts op (registered s fd) ≡ true
      → (ctl s op fd e).1 ≡ some errno
      → (errno ≢ eexist) × (errno ≢ enoent)
  pub ctl_registered :
      (s : State) (op : CtlOp) (fd e g : ℕ)
      → registered (ctl s op fd e).0 g
        ≡ (if g == fd && succeeds (ctl s op fd e).1 then leaves op e else registered s g)

abbrev pub or_else : Option ℕ → Option ℕ → Option ℕ
or_else none b = b
or_else (some a) b = some a

module _ (k : Kernel) where
  open k use {State, ctl, registered}

  -- `channels` maps a descriptor to the address of its channel. `first_error` is the `errno` of the
  -- first `epoll_ctl` that has failed; `update` logs each, and as a fatal error unless it was a DEL.
  pub record EpollPoller : Type 0 where
    pub channels : ℕ → Option ℕ
    pub kernel : State
    pub first_error : Option ℕ
    pub aborted : Bool

  abbrev is_del : CtlOp → Bool
  is_del ctl_del = true
  is_del _ = false

  unfoldable pub update : CtlOp → Channel → EpollPoller → EpollPoller
  update op c p =
      let (s, error) = ctl p.kernel op c.fd c.events in
      record p {
        kernel = s;
        first_error = or_else p.first_error error;
        aborted = p.aborted || (not (succeeds error) && not (is_del op));
      }

  abbrev with_channel : ℕ → Option ℕ → EpollPoller → EpollPoller
  with_channel fd v p = record p { channels = λ g. if g == fd then v else p.channels g }

  unfoldable pub update_by : Index → Channel → EpollPoller → Channel × EpollPoller
  update_by new c p =
      let c' = set_index c added in (c', update ctl_add c' (with_channel c.fd (some c.address) p))
  update_by deleted c p = let c' = set_index c added in (c', update ctl_add c' p)
  update_by added c p =
      if is_none_event c then (set_index c deleted, update ctl_del c p) else (c, update ctl_mod c p)

  unfoldable pub update_channel : Channel → EpollPoller → Channel × EpollPoller
  unfolding update_by
  update_channel c p = update_by c.index c p

  unfoldable pub remove_by : Index → Channel → EpollPoller → EpollPoller
  remove_by added c p = update ctl_del c p
  remove_by _ c p = p

  unfoldable pub remove_channel : Channel → EpollPoller → Channel × EpollPoller
  unfolding remove_by
  remove_channel c p = (set_index c new, remove_by c.index c (with_channel c.fd none p))

  unfoldable pub has_channel : Channel → EpollPoller → Bool
  has_channel c p = elim (p.channels c.fd) [ some a ↦ a == c.address | none ↦ false ]

-- An event that `epoll_wait` reports: the channel's address and the bits.
abbrev pub Event : Type 0
Event = ℕ × ℕ

pub data PollLog : Type 0 where
  silent logged_timeout logged_failure : PollLog

pub record Polled : Type 0 where
  pub active : List Event
  pub list_size : ℕ
  pub log : PollLog

-- The number of rounds of `for (int i = 0; i < numEvents; ++i)`.
unfoldable pub rounds : ℕ → ℕ
rounds n = let low = n % int_mod in if ltb low int_limit then low else 0

unfoldable pub fill_active_channels : ℕ → List Event → List Event
unfolding rounds
fill_active_channels num_events events = take (rounds num_events) events

-- `size_t numEvents = ::epoll_wait(…)`: the result -1 becomes the greatest `size_t`.
unfoldable pub num_events_of : Io (List Event) → ℕ
num_events_of (done events) = length events
num_events_of (failed e) = size_mod - 1

abbrev pub eintr : ℕ
eintr = 4

abbrev errno_of : Io (List Event) → ℕ
errno_of (done events) = 0
errno_of (failed e) = e

abbrev events_of : Io (List Event) → List Event
events_of (done events) = events
events_of (failed e) = []

-- `list_size` is the size of `m_events`.
unfoldable pub poll : ℕ → Io (List Event) → Polled
unfolding num_events_of fill_active_channels
poll list_size answer =
    let n = num_events_of answer in
    if ltb 0 n
    then record {
      active = fill_active_channels n (events_of answer);
      list_size = if n == list_size then list_size * 2 else list_size;
      log = silent;
    }
    else if n == 0
    then record { active = []; list_size = list_size; log = logged_timeout }
    else record {
      active = [];
      list_size = list_size;
      log = if not (errno_of answer == eintr) then logged_failure else silent;
    }
