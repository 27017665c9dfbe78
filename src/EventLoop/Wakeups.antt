-- ===== src/EventLoop/Wakeups.antt =====
-- event_loop.cpp: no functor is lost, none overtakes another, and the loop does not sleep on one.
use my_cpp_code.Common.{
  ℕ, ◌+◌, ◌<◌, ◌≡◌, ◌≢◌, refl, sym, ap, ◌∙◌, arith, Bool, true, false, List, [], ◌∷◌, ◌++◌,
  append_assoc, append-nil, ◌⊎◌, inl,
}
use my_cpp_code.EventLoop.{
  EventLoop, Phase, polling, handling, running, new_loop, push_functor, wakeup, queue_in_loop,
  run_in_loop, quit, enter_loop, return_from_poll, handle_read, begin_pending, run_functor,
  end_pending,
}
use my_cpp_code.EventLoop.Schedule.{
  Step, enter, poll_returns, read_wakeups, own_queue, early_queue, is_early, early_calls, own_run,
  own_quit, take_functors, call_functor, finish, other_push, other_wakeup, other_quit, Reach, here,
  next,
}

abbrev IsCalling : Phase → Bool → Type 0
IsCalling running b = b ≡ true
IsCalling _ b = b ≡ false

abbrev LeftOver : Phase → List ℕ → Type 0
LeftOver running fs = Unit
LeftOver _ fs = fs ≡ []

record Inv (s : EventLoop) : Type 0 where
  is_calling : IsCalling s.phase s.calling
  left_over : LeftOver s.phase s.functors

Step-Inv : {s t : EventLoop} → Step s t → Inv s → Inv t
Step-Inv {s} (enter e) v = unfold enter_loop in ground arith
Step-Inv (poll_returns e) v = unfold return_from_poll in ground arith
Step-Inv (read_wakeups e w) v = unfold handle_read in ground arith
Step-Inv (own_queue cb b) v = unfold queue_in_loop push_functor wakeup in ground arith
Step-Inv (early_queue cb e) v = unfold queue_in_loop push_functor wakeup in ground arith
Step-Inv (own_run cb b) v = unfold run_in_loop in ground arith
Step-Inv (own_quit b) v = unfold quit wakeup in ground arith
Step-Inv (take_functors e) v = unfold begin_pending in ground arith
Step-Inv (call_functor f rest e h) v = unfold run_functor in ground arith
Step-Inv (finish e h) v = unfold end_pending in ground arith
Step-Inv (other_push cb) v = unfold push_functor in ground arith
Step-Inv (other_wakeup h) v = unfold wakeup in ground arith
Step-Inv other_quit v = unfold quit in ground arith

Reach-Inv : {s t : EventLoop} → Inv s → Reach s t → Inv t
Reach-Inv v here = v
Reach-Inv v (next r st) = Step-Inv st (Reach-Inv v r)

new_loop-Inv : Inv new_loop
unfolding new_loop
new_loop-Inv = record { is_calling = refl; left_over = refl }

-- Functors wait only while the loop is busy with its handlers, or the eventfd has been written to or
-- is about to be.
abbrev Noticed : Phase → List ℕ → ℕ → Type 0
Noticed handling pending n = Unit
Noticed _ pending n = (pending ≡ []) ⊎ (0 < n)

abbrev IsNoticed : EventLoop → Type 0
IsNoticed s = Noticed s.phase s.pending (s.wakeups + s.in_flight)

-- So it is when the loop's own thread has queued nothing outside `loop()`.
Step-IsNoticed :
    {s t : EventLoop} → (st : Step s t) → is_early st ≡ 0 → Inv s → IsNoticed s → IsNoticed t
unfolding is_early
Step-IsNoticed (enter e) z i v = unfold enter_loop in ground arith
Step-IsNoticed (poll_returns e) z i v = unfold return_from_poll in tt
Step-IsNoticed (read_wakeups e w) z i v = unfold handle_read in ground arith
Step-IsNoticed (own_queue cb b) z i v = unfold queue_in_loop push_functor wakeup in ground arith
Step-IsNoticed (early_queue cb e) z i v = absurd (omega arith)
Step-IsNoticed (own_run cb b) z i v = unfold run_in_loop in ground arith
Step-IsNoticed (own_quit b) z i v = unfold quit wakeup in ground arith
Step-IsNoticed (take_functors e) z i v = unfold begin_pending in inl refl
Step-IsNoticed (call_functor f rest e h) z i v = unfold run_functor in ground arith
Step-IsNoticed (finish e h) z i v = unfold end_pending in ground arith
Step-IsNoticed (other_push cb) z i v = unfold push_functor in ground arith
Step-IsNoticed (other_wakeup h) z i v = unfold wakeup in ground arith
Step-IsNoticed other_quit z i v = unfold quit in ground arith

new_loop-IsNoticed : IsNoticed new_loop
unfolding new_loop
new_loop-IsNoticed = inl refl

Reach-IsNoticed : {t : EventLoop} → (r : Reach new_loop t) → early_calls r ≡ 0 → IsNoticed t
unfolding early_calls
Reach-IsNoticed here z = new_loop-IsNoticed
Reach-IsNoticed (next r st) z =
    Step-IsNoticed st (omega arith) (Reach-Inv new_loop-Inv r) (Reach-IsNoticed r (omega arith))

-- In whatever order the loop's thread and other threads run, when the loop's own thread has
-- called `queueInLoop` only inside `loop()`: the loop never sleeps on a functor. While it is
-- blocked in `poll` with functors pending, the eventfd is readable or a thread that queued one
-- is about to write to it.
pub Reach-wakeups :
    {s : EventLoop}
    → (r : Reach new_loop s) → early_calls r ≡ 0
    → s.phase ≡ polling
    → s.pending ≢ []
    → 0 < s.wakeups + s.in_flight
Reach-wakeups {s} r z e h = let v = Reach-IsNoticed r z in ground arith

-- What was queued has run, is being run, or is pending, in that order.
abbrev InOrder : EventLoop → Type 0
InOrder s = (s.ran ++ (s.functors ++ s.pending)) ≡ s.queued

push-InOrder : (cb : ℕ) (s : EventLoop) → InOrder s → InOrder (push_functor cb s)
unfolding push_functor
push-InOrder cb s o =
    ap (◌++◌ s.ran) (sym (append_assoc s.functors s.pending (cb ∷ [])))
    ∙ sym (append_assoc s.ran (s.functors ++ s.pending) (cb ∷ []))
    ∙ ap (λ q. q ++ (cb ∷ [])) o

queue-InOrder : (cb : ℕ) (s : EventLoop) → InOrder s → InOrder (queue_in_loop true cb s)
unfolding queue_in_loop wakeup
queue-InOrder cb s o = ground (arith, push-InOrder cb s o)

Step-InOrder : {s t : EventLoop} → Step s t → Inv s → InOrder s → InOrder t
Step-InOrder (enter e) v o = unfold enter_loop in o
Step-InOrder (poll_returns e) v o = unfold return_from_poll in o
Step-InOrder (read_wakeups e w) v o = unfold handle_read in o
Step-InOrder {s} (own_queue cb b) v o = queue-InOrder cb s o
Step-InOrder {s} (early_queue cb e) v o = queue-InOrder cb s o
Step-InOrder (own_run cb b) v o = unfold run_in_loop in o
Step-InOrder (own_quit b) v o = unfold quit in o
Step-InOrder {s} (take_functors e) v o =
    unfold begin_pending in ground (arith, append-nil s.pending, v.left_over)
Step-InOrder {s} (call_functor f rest e h) v o =
    unfold run_functor in
    (append_assoc s.ran (f ∷ []) (rest ++ s.pending)
      ∙ ap (λ fs. s.ran ++ (fs ++ s.pending)) (sym h)
      ∙ o)
Step-InOrder (finish e h) v o = unfold end_pending in ground arith
Step-InOrder {s} (other_push cb) v o = push-InOrder cb s o
Step-InOrder (other_wakeup h) v o = unfold wakeup in o
Step-InOrder other_quit v o = unfold quit in o

Reach-InOrder : {s t : EventLoop} → Inv s → InOrder s → Reach s t → InOrder t
Reach-InOrder v o here = o
Reach-InOrder v o (next r st) = Step-InOrder st (Reach-Inv v r) (Reach-InOrder v o r)

-- No functor is lost, run twice or overtaken: in every reachable state those that have run, those
-- that `doPendingFunctors` still has to run and those pending are, in this order, those queued.
pub Reach-queued :
    {s : EventLoop} → Reach new_loop s → (s.ran ++ (s.functors ++ s.pending)) ≡ s.queued
Reach-queued r = Reach-InOrder new_loop-Inv (unfold new_loop in refl) r

-- `quit` called by another thread leaves the eventfd as it is, called by the loop's own thread
-- it writes to it, and from either it asks the loop to stop.
pub wakeups-quit :
    (s : EventLoop)
    → ((quit false s).wakeups ≡ s.wakeups)
      × ((quit true s).wakeups ≡ s.wakeups + 1)
      × ((in_thread : Bool) → (quit in_thread s).quitting ≡ true)
unfolding quit wakeup
wakeups-quit s = (refl, refl, λ t. ground arith)
