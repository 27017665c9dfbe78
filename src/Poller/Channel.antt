-- ===== src/Poller/Channel.antt =====
-- myserver/include/channel.h and myserver/net/channel.cpp: `Channel`. The two masks are the bits of
-- sys/epoll.h.
use my_cpp_code.Common.{
  ℕ, ◌-◌, ◌/◌, ◌^◌, ◌<◌, ◌≡◌, refl, arith, Bool, true, false, not, ◌&&◌, List, [], ◌∷◌, ◌++◌,
  ==_iff, ◌==◌, if◌then◌else◌, bit_and, bit_or, every_below, every_below_lem,
}

abbrev pub epollin : ℕ
epollin = 1

abbrev pub epollpri : ℕ
epollpri = 2

abbrev pub epollout : ℕ
epollout = 4

abbrev pub epollerr : ℕ
epollerr = 8

abbrev pub epollhup : ℕ
epollhup = 16

abbrev pub none_event : ℕ
none_event = 0

abbrev pub read_event : ℕ
read_event = bit_or epollin epollpri

abbrev pub write_event : ℕ
write_event = epollout

-- `kNew`, `kAdded`, `kDeleted` of epoll_poller.cpp.
pub data Index : Type 0 where
  new added deleted : Index

-- `address` is the object's own, by which the poller knows it.
pub record Channel : Type 0 where
  pub address : ℕ
  pub fd : ℕ
  pub events : ℕ
  pub revents : ℕ
  pub index : Index
  pub tied : Bool

unfoldable pub new_channel : ℕ → ℕ → Channel
new_channel address fd = record {
  address = address;
  fd = fd;
  events = 0;
  revents = 0;
  index = new;
  tied = false;
}

-- `~m` of a 32-bit mask.
abbrev pub complement : ℕ → ℕ
complement m = 2 ^ 32 - 1 - m

-- The masks that `enableRead` and the others compute; the call of `update` is the poller's.
unfoldable pub with_read : Channel → Channel
with_read c = record c { events = bit_or c.events read_event }

unfoldable pub without_read : Channel → Channel
without_read c = record c { events = bit_and c.events (complement read_event) }

unfoldable pub with_write : Channel → Channel
with_write c = record c { events = bit_or c.events write_event }

unfoldable pub without_write : Channel → Channel
without_write c = record c { events = bit_and c.events (complement write_event) }

unfoldable pub without_all : Channel → Channel
without_all c = record c { events = bit_and c.events none_event }

unfoldable pub is_none_event : Channel → Bool
is_none_event c = c.events == none_event

unfoldable pub is_write : Channel → Bool
is_write c = not (bit_and c.events write_event == 0)

unfoldable pub is_read : Channel → Bool
is_read c = not (bit_and c.events read_event == 0)

unfoldable pub set_revents : Channel → ℕ → Channel
set_revents c r = record c { revents = r }

unfoldable pub set_index : Channel → Index → Channel
set_index c i = record c { index = i }

unfoldable pub tie : Channel → Channel
tie c = record c { tied = true }

pub data Callback : Type 0 where
  on_close on_error on_read on_write : Callback

abbrev has : ℕ → ℕ → Bool
has r m = not (bit_and r m == 0)

-- The callbacks that run, in order; all four are set.
unfoldable pub handle_event_with_guard : Channel → List Callback
handle_event_with_guard c =
    (if has c.revents epollhup && not (has c.revents epollin) then on_close ∷ [] else [])
    ++ ((if has c.revents epollerr then on_error ∷ [] else [])
        ++ ((if has c.revents (bit_or epollin epollpri) then on_read ∷ [] else [])
            ++ (if has c.revents epollout then on_write ∷ [] else [])))

-- `alive` says whether the tied object still exists.
unfoldable pub handle_event : Channel → Bool → List Callback
handle_event c alive =
    if c.tied then (if alive then handle_event_with_guard c else []) else handle_event_with_guard c

-- The masks that a channel can have: the read bits come together.
abbrev pub IsMask : ℕ → Type 0
IsMask e = e < 8

write_table :
    every_below
      (λ e.
        not (bit_and (bit_or e write_event) write_event == 0)
        && (bit_and (bit_and e (complement write_event)) write_event == 0))
      8
    ≡ true
unfolding every_below
write_table = refl

mask_table :
    every_below
      (λ e.
        (bit_or e write_event / 8 == 0)
        && ((bit_and e (complement write_event) / 8 == 0)
            && ((bit_or e read_event / 8 == 0) && (bit_and e (complement read_event) / 8 == 0))))
      8
    ≡ true
unfolding every_below
mask_table = refl

read_table :
    every_below
      (λ e.
        (bit_and (bit_or e write_event) read_event == bit_and e read_event)
        && (bit_and (bit_and e (complement write_event)) read_event == bit_and e read_event))
      8
    ≡ true
unfolding every_below
read_table = refl

-- On a mask of read and write bits, `enableWrite` and `disableWrite` set and clear the interest
-- in writing, keep that in reading, and stay within such masks.
pub with_write_lem :
    (c : Channel)
    → IsMask c.events
    → (is_write (with_write c) ≡ true)
      × (is_write (without_write c) ≡ false)
      × (is_read (with_write c) ≡ is_read c)
      × (is_read (without_write c) ≡ is_read c)
      × IsMask (with_write c).events
      × IsMask (without_write c).events
unfolding is_write is_read with_write without_write
with_write_lem c h = ground (
  arith,
  every_below_lem _ 8 write_table c.events h,
  every_below_lem _ 8 mask_table c.events h,
  every_below_lem _ 8 read_table c.events h,
)

pub without_all_lem : (c : Channel) → IsMask c.events → (without_all c).events ≡ 0
unfolding without_all
without_all_lem c h =
    (==_iff _ 0).0
      (every_below_lem (λ e. bit_and e 0 == 0) 8 (unfold every_below in refl) c.events h)

pub is_write-without_all : (c : Channel) → IsMask c.events → is_write (without_all c) ≡ false
unfolding is_write
is_write-without_all c h = rw (without_all_lem c h) refl

pub with_read_lem :
    (c : Channel)
    → IsMask c.events
    → (is_write (with_read c) ≡ is_write c) × IsMask (with_read c).events
unfolding is_write with_read
with_read_lem c h = ground (
  arith,
  every_below_lem (λ e. bit_and (bit_or e read_event) write_event == bit_and e write_event) 8
      (unfold every_below in refl) c.events h,
  every_below_lem _ 8 mask_table c.events h,
)
