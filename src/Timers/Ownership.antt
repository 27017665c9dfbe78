-- ===== src/Timers/Ownership.antt =====
-- timer_queue.cpp: the entries of the set and the timers that they point to.
use my_cpp_code.Common.{
  ℕ, ◌+◌, ◌<◌, ◌≡◌, ◌≢◌, refl, sym, ap, ◌∙◌, arith, Bool, true, false, List, [], ◌∷◌, Option, none,
  some, All, Bool-cases, Option-cases, inl, inr,
}
use mathlib.Core.Option.{some-injective}
use my_cpp_code.Timers.{
  Entry, Timer, TimerQueue, set_insert, insert, store, new_timer, restart, add_timer,
  add_timer_in_loop, reset_timerfd, reset_one, rearm, timer_delay, is_earlier,
}
use my_cpp_code.Timers.Order.{IsSorted, set_insert-All, set_insert-IsSorted}

abbrev pub deadline : Option Timer → Option ℕ
deadline none = none
deadline (some t) = some t.expiration

-- The entry's pointer is valid, and its time the deadline of the timer there.
abbrev pub IsOwned : (ℕ → Option Timer) → Entry → Type 0
IsOwned heap e = deadline (heap e.1) ≡ some e.0

pub no_deadline : (w : ℕ) (o : Option Timer) → o ≡ none → deadline o ≡ some w → ⊥
no_deadline w none e h = cc
no_deadline w (some t) e h = cc

pub has_deadline :
    (w : ℕ) (o : Option Timer) (t : Timer) → o ≡ some t → deadline o ≡ some w → t.expiration ≡ w
has_deadline w o t e h = some-injective t.expiration w (ap deadline (sym e) ∙ h)

pub record IsValid (q : TimerQueue) : Type 0 where
  pub sorted : IsSorted q.timers
  pub owned : All (IsOwned q.heap) q.timers
  pub fresh : All (λ e. e.1 < q.next_pointer) q.timers

-- A store at a pointer that no entry has.
IsOwned-store :
    (heap : ℕ → Option Timer) (p : ℕ) (v : Option Timer) (es : List Entry)
    → All (λ e. e.1 ≢ p) es
    → All (IsOwned heap) es
    → All (IsOwned (store heap p v)) es
IsOwned-store heap p v [] n o = tt
IsOwned-store heap p v (e ∷ es) n o = (ground (arith, n.0, o.0), IsOwned-store heap p v es n.1 o.1)

fresh-ne : (n : ℕ) (es : List Entry) → All (λ e. e.1 < n) es → All (λ e. e.1 ≢ n) es
fresh-ne n [] h = tt
fresh-ne n (e ∷ es) h = (omega arith, fresh-ne n es h.1)

fresh-suc : (n : ℕ) (es : List Entry) → All (λ e. e.1 < n) es → All (λ e. e.1 < n + 1) es
fresh-suc n [] h = tt
fresh-suc n (e ∷ es) h = (omega arith, fresh-suc n es h.1)

-- `addTimer` keeps a valid queue valid: ordered, and with every entry's deadline that of its
-- timer.
pub add_timer-IsValid :
    (q : TimerQueue) (cb when interval now : ℕ)
    → IsValid q
    → IsValid (add_timer q cb when interval now)
unfolding add_timer add_timer_in_loop insert reset_timerfd new_timer
add_timer-IsValid q cb when interval now v =
    let t = new_timer cb when interval in
    let p = q.next_pointer in
    let e : Entry = (when, p) in
    let heap = store q.heap p (some t) in
    let sorted = set_insert-IsSorted e q.timers v.sorted in
    let owned =
      set_insert-All (IsOwned heap) e q.timers (ground arith)
        (IsOwned-store q.heap p (some t) q.timers (fresh-ne p q.timers v.fresh) v.owned) in
    let fresh =
      set_insert-All (λ x. x.1 < p + 1) e q.timers (omega arith) (fresh-suc p q.timers v.fresh) in
    elim (Bool-cases (is_earlier when q.timers)) [
      | inl earlier ↦
          rw (earlier, add_timer) (record { sorted = sorted; owned = owned; fresh = fresh })
      | inr later ↦ rw (later, add_timer) (record { sorted = sorted; owned = owned; fresh = fresh })
    ]

-- A pointer that no entry of a list has.
abbrev pub Outside : ℕ → List Entry → Type 0
Outside p es = All (λ e. e.1 ≢ p) es

-- The pointers of a list are different, and none is that of an entry in the queue.
abbrev pub IsApart : List Entry → List Entry → Type 0
IsApart [] timers = Unit
IsApart (e ∷ es) timers = Outside e.1 es × Outside e.1 timers × IsApart es timers

-- `timerfd` is armed for the first entry.
abbrev pub IsArmed : List Entry → ℕ → Option (ℕ × ℕ) → Type 0
IsArmed [] now armed = Unit
IsArmed ((w, p) ∷ es) now armed = armed ≡ some (timer_delay w now)

-- `r` is the queue `q`, perhaps armed anew.
pub record Armed (q r : TimerQueue) (now : ℕ) : Type 0 where
  pub timers : r.timers ≡ q.timers
  pub heap : r.heap ≡ q.heap
  pub next_pointer : r.next_pointer ≡ q.next_pointer
  pub armed : IsArmed r.timers now r.armed
  pub valid : IsValid r

rearm_lem :
    (es : List Entry) (q : TimerQueue) (now : ℕ)
    → q.timers ≡ es
    → IsValid q
    → (r : TimerQueue) × (rearm es q now ≡ some r) × Armed q r now
unfolding rearm reset_timerfd
rearm_lem [] q now e v = (
  q,
  refl,
  record { timers = refl; heap = refl; next_pointer = refl; armed = rw e tt; valid = v },
)
rearm_lem ((w, p) ∷ es) q now e v =
    let own : All (IsOwned q.heap) ((w, p) ∷ es) = rw e at v.owned in
    elim (Option-cases (q.heap p)) [
      | inl gone ↦ absurd (no_deadline w (q.heap p) gone own.0)
      | inr (t, there) ↦
          let when = has_deadline w (q.heap p) t there own.0 in
          (
            record q { armed = some (timer_delay t.expiration now) },
            rw (there, rearm) refl,
            record {
              timers = refl;
              heap = refl;
              next_pointer = refl;
              armed = rw (e, when) refl;
              valid = record { sorted = v.sorted; owned = v.owned; fresh = v.fresh };
            },
          )
    ]

-- What one turn of `reset` leaves: a repeating timer is back in the set with its new deadline, and
-- the memory of any other is free.
abbrev pub turned_by : Bool → TimerQueue → ℕ → Timer → ℕ → TimerQueue
turned_by true q p t now = record q {
  timers = set_insert ((restart t now).expiration, p) q.timers;
  heap = store q.heap p (some (restart t now));
}
turned_by false q p t now = record q { heap = store q.heap p none }

abbrev pub turned : TimerQueue → ℕ → Timer → ℕ → TimerQueue
turned q p t now = turned_by t.repeat q p t now

reset_one-turned :
    (q : TimerQueue) (w p now later : ℕ) (t : Timer)
    → q.heap p ≡ some t
    → reset_one q (w, p) (now, later) ≡ rearm (turned q p t now).timers (turned q p t now) later
unfolding reset_one insert
reset_one-turned q w p now later t e = rw (e, reset_one) (ground arith)

next-turned :
    (q : TimerQueue) (p : ℕ) (t : Timer) (now : ℕ)
    → (turned q p t now).next_pointer ≡ q.next_pointer
next-turned q p t now = ground arith

turned_by-IsValid :
    (b : Bool) (q : TimerQueue) (p : ℕ) (t : Timer) (now : ℕ)
    → Outside p q.timers
    → p < q.next_pointer
    → IsValid q
    → IsValid (turned_by b q p t now)
turned_by-IsValid true q p t now out old v =
    let t' = restart t now in
    let e : Entry = (t'.expiration, p) in
    let heap = store q.heap p (some t') in
    record {
      sorted = set_insert-IsSorted e q.timers v.sorted;
      owned =
          set_insert-All (IsOwned heap) e q.timers (ground arith)
            (IsOwned-store q.heap p (some t') q.timers out v.owned);
      fresh = set_insert-All (λ x. x.1 < q.next_pointer) e q.timers old v.fresh;
    }
turned_by-IsValid false q p t now out old v = record {
  sorted = v.sorted;
  owned = IsOwned-store q.heap p none q.timers out v.owned;
  fresh = v.fresh;
}

turned_by-Outside :
    (b : Bool) (q : TimerQueue) (p r : ℕ) (t : Timer) (now : ℕ)
    → p ≢ r
    → Outside r q.timers
    → Outside r (turned_by b q p t now).timers
turned_by-Outside true q p r t now ne out = set_insert-All (λ x. x.1 ≢ r) _ q.timers ne out
turned_by-Outside false q p r t now ne out = out

turned-IsApart :
    (es : List Entry) (q : TimerQueue) (p : ℕ) (t : Timer) (now : ℕ)
    → Outside p es
    → IsApart es q.timers
    → IsApart es (turned q p t now).timers
turned-IsApart [] q p t now out a = tt
turned-IsApart (e ∷ es) q p t now out a = (
  a.0,
  turned_by-Outside t.repeat q p e.1 t now (λ s. out.0 (sym s)) a.1,
  turned-IsApart es q p t now out.1 a.2,
)

-- A turn of `reset`, on an entry that was taken out of the set.
pub reset_one_lem :
    (q : TimerQueue) (w p : ℕ) (es : List Entry) (now later : ℕ) (t : Timer)
    → q.heap p ≡ some t
    → IsValid q
    → IsApart ((w, p) ∷ es) q.timers
    → p < q.next_pointer
    → (r : TimerQueue) × (reset_one q (w, p) (now, later) ≡ some r)
      × Armed (turned q p t now) r later
      × IsApart es r.timers
      × (r.next_pointer ≡ q.next_pointer)
reset_one_lem q w p es now later t e v a old =
    let q' = turned q p t now in
    let (r, run, armed) =
      rearm_lem q'.timers q' later refl (turned_by-IsValid t.repeat q p t now a.1 old v) in
    (
      r,
      reset_one-turned q w p now later t e ∙ run,
      armed,
      rw armed.timers (turned-IsApart es q p t now a.0 a.2),
      armed.next_pointer ∙ next-turned q p t now,
    )
