-- ===== src/EventLoopThread/HandOver.antt =====
-- event_loop_thread.cpp: `startLoop` gets the loop that `threadFunc` publishes.
use my_cpp_code.Common.{
  ℕ, ◌≡◌, refl, ap, sym, ◌∙◌, arith, Bool, true, false, ◌||◌, List, [], ◌∷◌, Option, none, some,
  if◌then◌else◌, Bool-cases, inl, inr,
}
use my_cpp_code.EventLoop
use my_cpp_code.EventLoop.{
  EventLoop, Phase, outside, polling, handling, running, new_loop, enter_loop, return_from_poll,
  handle_read, begin_pending, run_functor, end_pending,
}
use my_cpp_code.EventLoopThread.{
  Owner, idle, testing, waiting, returned, quitting, joining, gone, Place, absent, starting,
  publishing, before_loop, in_loop, leaving, ended, EventLoopThread, new_thread, destroy_thread,
  owner_step, woken, round_step, is_outside, thread_step, Act, owner_runs, thread_runs, wakes, act,
  run,
}

-- What `m_loop` holds.
abbrev pub published : Place → ℕ → Option ℕ
published absent a = none
published starting a = none
published publishing a = none
published before_loop a = some a
published in_loop a = some a
published leaving a = some a
published ended a = none

abbrev pub calls_made : Bool → Place → ℕ
calls_made b absent = 0
calls_made b starting = 0
calls_made b _ = if b then 1 else 0

abbrev before_publishing : Place → Bool
before_publishing starting = true
before_publishing publishing = true
before_publishing _ = false

abbrev serving : Place → Bool
serving before_loop = true
serving in_loop = true
serving _ = false

-- Where the thread can be, given where the owner is.
abbrev pub placed : Owner → Place → Bool
placed idle absent = true
placed idle _ = false
placed testing p = before_publishing p || serving p
placed waiting p = before_publishing p
placed (returned r) p = serving p
placed quitting p = serving p
placed joining leaving = true
placed joining ended = true
placed joining p = serving p
placed gone ended = true
placed gone _ = false

abbrev before_quit : Owner → Bool
before_quit joining = false
before_quit gone = false
before_quit _ = true

abbrev Returns : Owner → ℕ → Type 0
Returns (returned r) a = r ≡ some a
Returns _ a = Unit {0}

abbrev pub is_in_loop : Place → Bool
is_in_loop in_loop = true
is_in_loop _ = false

pub record Inv (b : Bool) (a : ℕ) (s : EventLoopThread) : Type 0 where
  pub address : s.address ≡ a
  pub given : s.has_callback ≡ b
  pub visible : s.m_loop ≡ published s.place a
  pub calls : s.callbacks ≡ calls_made b s.place
  pub where_both : placed s.owner s.place ≡ true
  pub answer : Returns s.owner a
  pub calm : before_quit s.owner ≡ true → s.loop.quitting ≡ false
  pub inside : is_in_loop s.place ≡ true → s.loop.quitting ≡ false → is_outside s.loop.phase ≡ false
  pub idle_loop : (s.loop.functors ≡ []) × (s.loop.pending ≡ [])

pub round_lem :
    (p : Phase) (l : EventLoop)
    → l.phase ≡ p
    → l.functors ≡ []
    → l.pending ≡ []
    → ((round_step p l).quitting ≡ l.quitting)
      × ((round_step p l).functors ≡ [])
      × ((round_step p l).pending ≡ [])
      × (l.quitting ≡ false → is_outside p ≡ false → is_outside (round_step p l).phase ≡ false)
unfolding round_step return_from_poll begin_pending end_pending
round_lem polling l e f g = (refl, f, g, λ q h. refl)
round_lem handling l e f g = (refl, g, refl, λ q h. refl)
round_lem running l e f g = ground arith
round_lem outside l e f g = (refl, f, g, λ q h. cc)

-- The loop is over only after the destructor has called `quit`.
leaving-Inv :
    (b : Bool) (a : ℕ) (s : EventLoopThread) (o : Owner)
    → s.owner ≡ o
    → s.place ≡ in_loop
    → is_outside s.loop.phase ≡ true
    → Inv b a s
    → Inv b a (record s { place = leaving })
leaving-Inv b a s joining o e over v = ground arith
leaving-Inv b a s other o e over v = absurd (ground (arith, v.inside, v.calm))

thread_step-Inv :
    (b : Bool) (a : ℕ) (p : Place) (s : EventLoopThread)
    → s.place ≡ p
    → Inv b a s
    → Inv b a (thread_step p s)
unfolding thread_step enter_loop
thread_step-Inv b a absent s e v = v
thread_step-Inv b a starting s e v = ground arith
thread_step-Inv b a publishing s e v = ground arith
thread_step-Inv b a before_loop s e v = ground arith
thread_step-Inv b a in_loop s e v = elim (Bool-cases (is_outside s.loop.phase)) [
  | inl over ↦ rw (over, thread_step) (leaving-Inv b a s s.owner refl e over v)
  | inr on ↦
      let (q, f, g, h) = round_lem s.loop.phase s.loop refl v.idle_loop.0 v.idle_loop.1 in
      rw (on, thread_step)
        (record {
          address = v.address;
          given = v.given;
          visible = v.visible;
          calls = v.calls;
          where_both = v.where_both;
          answer = v.answer;
          calm = λ x. q ∙ v.calm x;
          inside = λ x y. h (sym q ∙ y) on;
          idle_loop = (f, g);
        })
]
thread_step-Inv b a leaving s e v = ground arith
thread_step-Inv b a ended s e v = v

owner_step-Inv :
    (b : Bool) (a : ℕ) (o : Owner) (s : EventLoopThread)
    → s.owner ≡ o
    → Inv b a s
    → Inv b a (owner_step o s)
unfolding owner_step destroy_thread EventLoop.quit
owner_step-Inv b a idle s e v = ground arith
owner_step-Inv b a testing s e v = ground arith
owner_step-Inv b a waiting s e v = v
owner_step-Inv b a (returned r) s e v = ground arith
owner_step-Inv b a quitting s e v = ground arith
owner_step-Inv b a joining s e v = ground arith
owner_step-Inv b a gone s e v = v

woken-Inv :
    (b : Bool) (a : ℕ) (o : Owner) (s : EventLoopThread)
    → s.owner ≡ o
    → Inv b a s
    → Inv b a (record s { owner = woken o })
woken-Inv b a waiting s e v = ground arith
woken-Inv b a idle s e v = ground arith
woken-Inv b a testing s e v = ground arith
woken-Inv b a (returned r) s e v = ground arith
woken-Inv b a quitting s e v = ground arith
woken-Inv b a joining s e v = ground arith
woken-Inv b a gone s e v = ground arith

act-Inv : (b : Bool) (a : ℕ) (x : Act) (s : EventLoopThread) → Inv b a s → Inv b a (act x s)
unfolding act
act-Inv b a owner_runs s v = owner_step-Inv b a s.owner s refl v
act-Inv b a thread_runs s v = thread_step-Inv b a s.place s refl v
act-Inv b a wakes s v = woken-Inv b a s.owner s refl v

pub run-Inv :
    (b : Bool) (a : ℕ) (schedule : List Act) (s : EventLoopThread)
    → Inv b a s
    → Inv b a (run schedule s)
unfolding run
run-Inv b a [] s v = v
run-Inv b a (x ∷ schedule) s v = run-Inv b a schedule (act x s) (act-Inv b a x s v)

pub new_thread-Inv : (b : Bool) (a : ℕ) → Inv b a (new_thread b a)
unfolding new_thread new_loop
new_thread-Inv b a = ground arith

in_start_loop : Owner → Bool
in_start_loop testing = true
in_start_loop waiting = true
in_start_loop _ = false

two_steps :
    (b : Bool) (a : ℕ) (s : EventLoopThread)
    → Inv b a s
    → in_start_loop s.owner ≡ true
    → (run (thread_runs ∷ thread_runs ∷ owner_runs ∷ []) s).owner ≡ returned (some a)
unfolding run act owner_step thread_step in_start_loop
two_steps b a s v h = ground arith

-- What is to be said of `startLoop` where the owner stands.
abbrev pub StartsLoop : Bool → ℕ → EventLoopThread → Owner → Type 0
StartsLoop b a s idle = s.place ≡ absent
StartsLoop b a s testing =
    (run (thread_runs ∷ thread_runs ∷ owner_runs ∷ []) s).owner ≡ returned (some a)
StartsLoop b a s waiting =
    (run (thread_runs ∷ thread_runs ∷ owner_runs ∷ []) s).owner ≡ returned (some a)
StartsLoop b a s (returned r) =
    (r ≡ some a) × (s.m_loop ≡ some a) × (s.callbacks ≡ (if b then 1 else 0))
StartsLoop b a s _ = Unit

starts_loop :
    (b : Bool) (a : ℕ) (s : EventLoopThread) (o : Owner)
    → s.owner ≡ o
    → Inv b a s
    → StartsLoop b a s o
unfolding in_start_loop
starts_loop b a s idle e v = ground arith
starts_loop b a s testing e v = two_steps b a s v (ap in_start_loop e)
starts_loop b a s waiting e v = two_steps b a s v (ap in_start_loop e)
starts_loop b a s (returned r) e v = ground arith
starts_loop b a s quitting e v = tt
starts_loop b a s joining e v = tt
starts_loop b a s gone e v = tt

-- Under every schedule, and whatever wakes the owner, where only the destructor calls `quit`:
-- what `startLoop` returns is the address of the thread's loop, which `m_loop` then holds,
-- behind one call of the init callback, if there is one; and while `startLoop` has not returned,
-- two more steps of the thread and one of the owner make it return that address.
pub run-StartsLoop :
    (b : Bool) (a : ℕ) (schedule : List Act)
    → let s = run schedule (new_thread b a) in StartsLoop b a s s.owner
run-StartsLoop b a schedule =
    let s = run schedule (new_thread b a) in
    starts_loop b a s s.owner refl (run-Inv b a schedule (new_thread b a) (new_thread-Inv b a))
