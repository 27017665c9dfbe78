-- ===== src/Timers.antt =====
-- myserver/include/timestamp.h, include/timer.h, common/timer.cpp, include/timer_queue.h and
-- common/timer_queue.cpp: the timers of an event loop.
--
-- A time is a number of microseconds, and so is an interval, which is a `double` of seconds in the
-- code. A `Timer*` is a number, `heap` what it points to. The readings of `Timestamp::now()` are
-- arguments.
pub mod Expiry
pub mod Order
pub mod Ownership
pub mod Rearmed
mod Tests
use my_cpp_code.Common.{
  ℕ, zero, suc, ◌+◌, ◌-◌, ◌*◌, ◌/◌, ◌%◌, ◌^◌, Bool, true, false, not, ◌&&◌, ◌||◌, List, [], ◌∷◌,
  ◌++◌, Option, none, some, ltb, ◌==◌, if◌then◌else◌,
}
use mathlib.Core.Option.{bind}

abbrev pub micro_seconds_per_second : ℕ
micro_seconds_per_second = 1000 * 1000

unfoldable pub get_second : ℕ → ℕ
get_second t = t / micro_seconds_per_second

unfoldable pub add_time : ℕ → ℕ → ℕ
add_time t interval = t + interval

-- A callback is a number.
pub record Timer : Type 0 where
  pub callback : ℕ
  pub expiration : ℕ
  pub interval : ℕ
  pub repeat : Bool

unfoldable pub new_timer : ℕ → ℕ → ℕ → Timer
new_timer cb when interval = record {
  callback = cb;
  expiration = when;
  interval = interval;
  repeat = ltb 0 interval;
}

unfoldable pub restart : Timer → ℕ → Timer
unfolding add_time
restart t now = record t { expiration = if t.repeat then add_time now t.interval else 0 }

-- `std::pair<Timestamp, Timer*>`, and its order.
abbrev pub Entry : Type 0
Entry = ℕ × ℕ

unfoldable pub entry_lt : Entry → Entry → Bool
entry_lt (w, p) (v, q) = ltb w v || (not (ltb v w) && ltb p q)

pub record TimerQueue : Type 0 where
  pub timers : List Entry
  pub heap : ℕ → Option Timer
  pub next_pointer : ℕ
  pub calling_expired_timers : Bool
  pub armed : Option (ℕ × ℕ)

-- `std::set::insert`, the set as the list of its elements in order.
unfoldable pub set_insert : Entry → List Entry → List Entry
set_insert e [] = e ∷ []
set_insert e (x ∷ xs) =
    if entry_lt e x then e ∷ x ∷ xs else if entry_lt x e then x ∷ set_insert e xs else x ∷ xs

-- The elements in front of `lower_bound(e)`, and the others.
unfoldable pub below : Entry → List Entry → List Entry
below e [] = []
below e (x ∷ xs) = if entry_lt x e then x ∷ below e xs else []

unfoldable pub from_bound : Entry → List Entry → List Entry
from_bound e [] = []
from_bound e (x ∷ xs) = if entry_lt x e then from_bound e xs else x ∷ xs

unfoldable pub is_earlier : ℕ → List Entry → Bool
is_earlier when [] = true
is_earlier when ((w, p) ∷ xs) = ltb when w

-- The second part says whether the earliest deadline has changed.
unfoldable pub insert : TimerQueue → ℕ → Timer → TimerQueue × Bool
insert q p t =
    (record q { timers = set_insert (t.expiration, p) q.timers }, is_earlier t.expiration q.timers)

-- `newValue.it_value` of `resetTimerfd`, in seconds and nanoseconds.
unfoldable pub timer_delay : ℕ → ℕ → ℕ × ℕ
timer_delay expiration now =
    let micros = if ltb expiration (now + 100) then 100 else expiration - now in
    (micros / micro_seconds_per_second, micros % micro_seconds_per_second * 1000)

unfoldable pub reset_timerfd : TimerQueue → ℕ → ℕ → TimerQueue
reset_timerfd q expiration now = record q { armed = some (timer_delay expiration now) }

abbrev pub store : (ℕ → Option Timer) → ℕ → Option Timer → ℕ → Option Timer
store heap p v r = if r == p then v else heap r

unfoldable pub add_timer_in_loop : TimerQueue → ℕ → Timer → ℕ → TimerQueue
unfolding insert
add_timer_in_loop q p t now =
    let (q', earliest_changed) = insert q p t in
    if earliest_changed then reset_timerfd q' t.expiration now else q'

-- `new Timer` takes the next pointer.
unfoldable pub add_timer : TimerQueue → ℕ → ℕ → ℕ → ℕ → TimerQueue
add_timer q cb when interval now =
    let t = new_timer cb when interval in
    let p = q.next_pointer in
    add_timer_in_loop (record q { heap = store q.heap p (some t); next_pointer = p + 1 }) p t now

abbrev pub uintptr_max : ℕ
uintptr_max = 2 ^ 64 - 1

unfoldable pub get_expired : TimerQueue → ℕ → List Entry × TimerQueue
get_expired q now =
    let sentry : Entry = (now, uintptr_max) in
    (below sentry q.timers, record q { timers = from_bound sentry q.timers })

-- `none` is undefined behaviour from here on: a `Timer*` is read that points to no timer.
unfoldable pub rearm : List Entry → TimerQueue → ℕ → Option TimerQueue
rearm [] q now = some q
rearm ((w, p) ∷ xs) q now = elim (q.heap p) [
  | none ↦ none
  | some t ↦ some (reset_timerfd q t.expiration now)
]

-- One turn of the loop in `reset`, with the clock's readings for the restart and for the timer.
unfoldable pub reset_one : TimerQueue → Entry → ℕ × ℕ → Option TimerQueue
unfolding insert
reset_one q (w, p) (now, later) = elim (q.heap p) [
  | none ↦ none
  | some t ↦
      let kept =
        (let t' = restart t now in
          (insert (record q { heap = store q.heap p (some t') }) p t').0) in
      let freed = record q { heap = store q.heap p none } in
      let q' = if t.repeat then kept else freed in rearm q'.timers q' later
]

-- `clock` gives the readings of the clock in each turn.
unfoldable pub reset : TimerQueue → List Entry → (ℕ → ℕ × ℕ) → ℕ → Option TimerQueue
unfolding bind
reset q [] clock turn = some q
reset q (e ∷ es) clock turn = bind (reset_one q e (clock turn)) λ q'. reset q' es clock (turn + 1)

-- The callbacks run one after another; `effect` is what a callback does to the queue.
unfoldable pub run_timers :
    (ℕ → TimerQueue → TimerQueue) → List Entry → TimerQueue → Option TimerQueue
run_timers effect [] q = some q
run_timers effect ((w, p) ∷ es) q = elim (q.heap p) [
  | none ↦ none
  | some t ↦ run_timers effect es (effect t.callback q)
]

unfoldable pub handle_read :
    (ℕ → TimerQueue → TimerQueue) → TimerQueue → ℕ → (ℕ → ℕ × ℕ) → Option TimerQueue
unfolding get_expired bind
handle_read effect q now clock =
    let (expired, q1) = get_expired q now in
    bind (run_timers effect expired (record q1 { calling_expired_timers = true }))
      λ q2. reset (record q2 { calling_expired_timers = false }) expired clock 0

-- `EventLoop::runAt`, `runAfter` and `runEvery`. `now` is the clock's reading for the deadline,
-- `then_now` its reading when the timer is armed.
unfoldable pub run_at : TimerQueue → ℕ → ℕ → ℕ → TimerQueue
unfolding add_timer
run_at q ts cb then_now = add_timer q cb ts 0 then_now

unfoldable pub run_after : TimerQueue → ℕ → ℕ → ℕ → ℕ → TimerQueue
unfolding run_at add_time
run_after q wait_time cb now then_now = run_at q (add_time now wait_time) cb then_now

unfoldable pub run_every : TimerQueue → ℕ → ℕ → ℕ → ℕ → TimerQueue
unfolding add_timer add_time
run_every q interval cb now then_now = add_timer q cb (add_time now interval) interval then_now

-- The destructor frees the timers that are in the set.
unfoldable pub free_timers : List Entry → (ℕ → Option Timer) → ℕ → Option Timer
free_timers [] heap = heap
free_timers ((w, p) ∷ es) heap = free_timers es (store heap p none)
