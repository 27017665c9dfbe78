-- ===== src/Timers/Tests.antt =====
-- The theorems on the timers at a queue of two.
use my_cpp_code.Common.{
  ◌≤◌, ◌<◌, ◌≡◌, refl, arith, true, false, [], ◌∷◌, ◌++◌, All, none, some, if◌then◌else◌, ◌==◌,
}
use my_cpp_code.Timers.{Timer, TimerQueue, entry_lt, get_expired, reset}
use my_cpp_code.Timers.Order.{IsSorted}
use my_cpp_code.Timers.Expiry.{get_expired_lem}
use my_cpp_code.Timers.Ownership.{IsValid}
use my_cpp_code.Timers.Rearmed.{Rearmed, reset_lem}

abbrev once : Timer
once = record { callback = 3; expiration = 500; interval = 0; repeat = false }

abbrev ticking : Timer
ticking = record { callback = 4; expiration = 900; interval = 100; repeat = true }

abbrev queue : TimerQueue
queue = record {
  timers = (500, 1) ∷ (900, 2) ∷ [];
  heap = λ p. if p == 1 then some once else if p == 2 then some ticking else none;
  next_pointer = 3;
  calling_expired_timers = false;
  armed = none;
}

queue-IsSorted : IsSorted queue.timers
unfolding entry_lt
queue-IsSorted = ((refl, tt), (tt, tt))

queue-IsValid : IsValid queue
queue-IsValid = record {
  sorted = queue-IsSorted;
  owned = (refl, (refl, tt));
  fresh = (omega arith, (omega arith, tt));
}

get_expired_lem_example :
    let (expired, q') = get_expired queue 600 in
    ((expired ++ q'.timers) ≡ queue.timers)
    × All (λ e. e.0 ≤ 600) expired
    × All (λ e. 600 < e.0) q'.timers
    × IsSorted q'.timers
get_expired_lem_example = get_expired_lem queue 600 queue-IsSorted (omega arith, (omega arith, tt))

-- The queue once the repeating timer has expired.
abbrev expired_queue : TimerQueue
expired_queue = record queue { timers = (500, 1) ∷ [] }

expired_queue-IsValid : IsValid expired_queue
unfolding entry_lt
expired_queue-IsValid = record { sorted = (tt, tt); owned = (refl, tt); fresh = (omega arith, tt) }

reset_lem_example :
    (r : TimerQueue) × (reset expired_queue ((900, 2) ∷ []) (λ turn. (1000, 1001)) 0 ≡ some r)
    × Rearmed ((900, 2) ∷ []) (λ turn. (1000, 1001)) 0 expired_queue r
reset_lem_example =
    reset_lem ((900, 2) ∷ []) expired_queue (λ turn. (1000, 1001)) 0 expired_queue-IsValid
      (refl, tt) (tt, (omega arith, tt), tt) (omega arith, tt)
