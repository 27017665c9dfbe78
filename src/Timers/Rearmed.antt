-- ===== src/Timers/Rearmed.antt =====
-- timer_queue.cpp, `reset`: what becomes of the timers that have expired.
use my_cpp_code.Common.{
  ℕ, ◌+◌, ◌<◌, ◌≡◌, ◌≢◌, refl, sym, ap, ◌∙◌, arith, Bool, true, false, List, [], ◌∷◌, ◌++◌, Option,
  none, some, All, Bool-cases, Option-cases, inl, inr, ==_refl,
}
use mathlib.Core.Option.{bind}
use mathlib.Core.Path.{subst}
use mathlib.Core.List.{Perm, perm_middle}
use mathlib.Core.List.Perm
use my_cpp_code.Timers.{Entry, Timer, TimerQueue, entry_lt, set_insert, restart, add_time, reset}
use my_cpp_code.Timers.Ownership.{
  IsOwned, IsValid, Outside, IsApart, IsArmed, Armed, turned_by, turned, reset_one_lem, no_deadline,
}

-- What an expired timer becomes, `now` the time of the restart.
abbrev pub renewed_by : Bool → Timer → ℕ → Option Timer
renewed_by true t now = some (record t { expiration = now + t.interval })
renewed_by false t now = none

abbrev pub renewed : Option Timer → ℕ → Option Timer
renewed none now = none
renewed (some t) now = renewed_by t.repeat t now

-- Its entry in the set.
abbrev pub entry_by : Bool → Timer → ℕ → ℕ → List Entry
entry_by true t p now = (now + t.interval, p) ∷ []
entry_by false t p now = []

abbrev pub entry : Option Timer → ℕ → ℕ → List Entry
entry none p now = []
entry (some t) p now = entry_by t.repeat t p now

pub entries_back : List Entry → (ℕ → Option Timer) → (ℕ → ℕ × ℕ) → ℕ → List Entry
entries_back [] heap clock turn = []
entries_back ((w, p) ∷ es) heap clock turn =
    entry (heap p) p (clock turn).0 ++ entries_back es heap clock (turn + 1)

-- Each expired timer that repeats has its new deadline in memory, and any other is freed.
abbrev pub AllRenewed :
    List Entry → (ℕ → Option Timer) → (ℕ → Option Timer) → (ℕ → ℕ × ℕ) → ℕ → Type 0
AllRenewed [] heap after clock turn = Unit
AllRenewed ((w, p) ∷ es) heap after clock turn =
    (after p ≡ renewed (heap p) (clock turn).0) × AllRenewed es heap after clock (turn + 1)

-- The last turn has armed `timerfd`.
abbrev pub LastArmed : List Entry → (ℕ → ℕ × ℕ) → ℕ → TimerQueue → Type 0
LastArmed [] clock turn r = Unit
LastArmed (e ∷ []) clock turn r = IsArmed r.timers (clock turn).1 r.armed
LastArmed (e ∷ f ∷ es) clock turn r = LastArmed (f ∷ es) clock (turn + 1) r

pub record Rearmed (es : List Entry) (clock : ℕ → ℕ × ℕ) (turn : ℕ) (q r : TimerQueue)
    : Type 0 where
  pub valid : IsValid r
  pub timers : Perm r.timers (entries_back es q.heap clock turn ++ q.timers)
  pub each : AllRenewed es q.heap r.heap clock turn
  pub others : (p : ℕ) → Outside p es → r.heap p ≡ q.heap p
  pub armed : LastArmed es clock turn r
  pub idle : es ≡ [] → r ≡ q

entry_lt_apart : (a b : Entry) → b.1 ≢ a.1 → entry_lt a b ≡ false → entry_lt b a ≡ false → ⊥
unfolding entry_lt
entry_lt_apart (w, p) (v, r) ne h k = ground arith

set_insert-Perm : (e : Entry) (es : List Entry) → Outside e.1 es → Perm (set_insert e es) (e ∷ es)
unfolding set_insert
set_insert-Perm e [] out = Perm.rfl
set_insert-Perm e (x ∷ xs) out = elim (Bool-cases (entry_lt e x)) [
  | inl lt ↦ rw lt Perm.rfl
  | inr ge ↦ elim (Bool-cases (entry_lt x e)) [
    | inl gt ↦
        rw (ge, gt) (Perm.trans (Perm.cons x (set_insert-Perm e xs out.1)) (Perm.swap e x xs))
    | inr same ↦ absurd (entry_lt_apart e x out.0 ge same)
  ]
]

turned_by-timers :
    (b : Bool) (q : TimerQueue) (p : ℕ) (t : Timer) (now : ℕ)
    → t.repeat ≡ b
    → Outside p q.timers
    → Perm (turned_by b q p t now).timers (entry_by b t p now ++ q.timers)
unfolding restart add_time
turned_by-timers true q p t now e out = rw e (set_insert-Perm (now + t.interval, p) q.timers out)
turned_by-timers false q p t now e out = Perm.rfl

turned_by-heap :
    (b : Bool) (q : TimerQueue) (p : ℕ) (t : Timer) (now : ℕ)
    → t.repeat ≡ b
    → (turned_by b q p t now).heap p ≡ renewed_by b t now
unfolding restart add_time
turned_by-heap true q p t now e = rw (e, ==_refl p) refl
turned_by-heap false q p t now e = rw (==_refl p) refl

turned_by-others :
    (b : Bool) (q : TimerQueue) (p r : ℕ) (t : Timer) (now : ℕ)
    → p ≢ r
    → (turned_by b q p t now).heap r ≡ q.heap r
turned_by-others true q p r t now ne = ground arith
turned_by-others false q p r t now ne = ground arith

-- What is said of the entries depends on the memory at their pointers only.
abbrev Same : List Entry → (ℕ → Option Timer) → (ℕ → Option Timer) → Type 0
Same es heap old = All (λ e. heap e.1 ≡ old e.1) es

entries_back-Same :
    (es : List Entry) (heap old : ℕ → Option Timer) (clock : ℕ → ℕ × ℕ) (turn : ℕ)
    → Same es heap old
    → entries_back es heap clock turn ≡ entries_back es old clock turn
unfolding entries_back
entries_back-Same [] heap old clock turn h = refl
entries_back-Same ((w, p) ∷ es) heap old clock turn h =
    rw (h.0, entries_back-Same es heap old clock (turn + 1) h.1) refl

AllRenewed-Same :
    (es : List Entry) (heap old after : ℕ → Option Timer) (clock : ℕ → ℕ × ℕ) (turn : ℕ)
    → Same es heap old
    → AllRenewed es heap after clock turn
    → AllRenewed es old after clock turn
AllRenewed-Same [] heap old after clock turn h k = tt
AllRenewed-Same ((w, p) ∷ es) heap old after clock turn h k = (
  k.0 ∙ ap (λ (o : Option Timer). renewed o (clock turn).0) h.0,
  AllRenewed-Same es heap old after clock (turn + 1) h.1 k.1,
)

IsOwned-Same :
    (es : List Entry) (heap old : ℕ → Option Timer)
    → Same es heap old
    → All (IsOwned old) es
    → All (IsOwned heap) es
IsOwned-Same [] heap old h o = tt
IsOwned-Same (e ∷ es) heap old h o = (rw h.0 o.0, IsOwned-Same es heap old h.1 o.1)

turned-Same :
    (es : List Entry) (q r : TimerQueue) (p now : ℕ) (t : Timer)
    → r.heap ≡ (turned q p t now).heap
    → Outside p es
    → Same es r.heap q.heap
turned-Same [] q r p now t h out = tt
turned-Same (e ∷ es) q r p now t h out = (
  ap (λ (f : ℕ → Option Timer). f e.1) h
      ∙ turned_by-others t.repeat q p e.1 t now (λ same. out.0 (sym same)),
  turned-Same es q r p now t h out.1,
)

entry-middle :
    (b : Bool) (t : Timer) (p now : ℕ) (back old : List Entry)
    → Perm (back ++ (entry_by b t p now ++ old)) ((entry_by b t p now ++ back) ++ old)
entry-middle true t p now back old = perm_middle back old
entry-middle false t p now back old = Perm.rfl

-- One turn, and what the others then do.
turn-Rearmed :
    (w p : ℕ) (es : List Entry) (q q1 r : TimerQueue) (clock : ℕ → ℕ × ℕ) (turn : ℕ) (t : Timer)
    → q.heap p ≡ some t
    → Outside p es
    → Outside p q.timers
    → Armed (turned q p t (clock turn).0) q1 (clock turn).1
    → Rearmed es clock (turn + 1) q1 r
    → Rearmed ((w, p) ∷ es) clock turn q r
unfolding entries_back
turn-Rearmed w p es q q1 r clock turn t there apart out one rest =
    let now = (clock turn).0 in
    let same = turned-Same es q q1 p now t one.heap apart in
    let back = entries_back es q.heap clock (turn + 1) in
    let mine : entry (q.heap p) p now ≡ entry_by t.repeat t p now =
      ap (λ (o : Option Timer). entry o p now) there in
    record {
      valid = rest.valid;
      timers = Perm.trans rest.timers (
          rw (entries_back-Same es q1.heap q.heap clock (turn + 1) same, one.timers, mine)
            (Perm.trans (Perm.append_left back (turned_by-timers t.repeat q p t now refl out))
              (entry-middle t.repeat t p now back q.timers)));
      each = (
        rest.others p apart
            ∙ ap (λ (f : ℕ → Option Timer). f p) one.heap
            ∙ turned_by-heap t.repeat q p t now refl
            ∙ ap (λ (o : Option Timer). renewed o now) (sym there),
        AllRenewed-Same es q1.heap q.heap r.heap clock (turn + 1) same rest.each,
      );
      others = λ x outside.
          rest.others x outside.1
          ∙ ap (λ (f : ℕ → Option Timer). f x) one.heap
          ∙ turned_by-others t.repeat q p x t now outside.0;
      armed = last_turn es rest;
      idle = λ e. absurd (cc e);
    }
  where
    last_turn :
        (fs : List Entry) → Rearmed fs clock (turn + 1) q1 r → LastArmed ((w, p) ∷ fs) clock turn r
    last_turn [] last =
        subst (λ (x : TimerQueue). IsArmed x.timers (clock turn).1 x.armed) (sym (last.idle refl))
          one.armed
    last_turn (f ∷ fs) last = last.armed

-- On a valid queue, for expired entries that point to timers with their deadlines, with
-- different pointers, none of them in the queue and all given out before, whatever the clock
-- reads: `reset` reads no freed timer; the set is afterwards that from before and, for each
-- expired timer that repeats, one entry at the restart's time plus the interval, which is also
-- the timer's deadline in memory; any other expired timer is freed, and no other memory changes;
-- the queue is valid; and if anything had expired, `timerfd` is armed for the first entry of the
-- set, if there is one.
pub reset_lem :
    (es : List Entry) (q : TimerQueue) (clock : ℕ → ℕ × ℕ) (turn : ℕ)
    → IsValid q
    → All (IsOwned q.heap) es
    → IsApart es q.timers
    → All (λ e. e.1 < q.next_pointer) es
    → (r : TimerQueue) × (reset q es clock turn ≡ some r) × Rearmed es clock turn q r
unfolding reset bind entries_back
reset_lem [] q clock turn v own a old = (
  q,
  refl,
  record {
    valid = v;
    timers = Perm.rfl;
    each = tt;
    others = λ p h. refl;
    armed = tt;
    idle = λ e. refl;
  },
)
reset_lem ((w, p) ∷ es) q clock turn v own a old = elim (Option-cases (q.heap p)) [
  | inl gone ↦ absurd (no_deadline w (q.heap p) gone own.0)
  | inr (t, there) ↦
      let (q1, run, one, apart, next) =
        reset_one_lem q w p es (clock turn).0 (clock turn).1 t there v a old.0 in
      let same = turned-Same es q q1 p (clock turn).0 t one.heap a.0 in
      let (r, runs, rest) =
        reset_lem es q1 clock (turn + 1) one.valid (IsOwned-Same es q1.heap q.heap same own.1) apart
          (rw next old.1) in
      (r, rw run runs, turn-Rearmed w p es q q1 r clock turn t there a.0 a.1 one rest)
]
