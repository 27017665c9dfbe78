-- ===== src/Poller/Registration.antt =====
-- channel.h and epoll_poller.cpp: a channel's index and the kernel's registration stay in step.
use my_cpp_code.Common.Words.{int_limit}
use my_cpp_code.Common.{
  ℕ, ◌*◌, ◌<◌, ◌≡◌, ◌≢◌, refl, arith, true, List, [], ◌∷◌, Option, none, some, ◌==◌, length,
  take-length_le, if◌then◌else◌, ◌∙◌, sym, Bool-cases, Option-cases, inl, inr, ==_refl,
}
use mathlib.Core.Option.{none-ne-some}
use my_cpp_code.Buffer.{Io, done, failed}
use my_cpp_code.Poller.Channel.{
  Channel, Index, new, added, deleted, set_index, is_none_event, with_read, without_read,
  with_write, without_write, without_all,
}
use my_cpp_code.Poller.Epoll.{
  Kernel, EpollPoller, CtlOp, ctl_add, ctl_mod, ctl_del, accepts, leaves, eexist, enoent, update,
  update_by, update_channel, remove_by, remove_channel, poll, Event, silent, logged_failure,
  num_events_of, fill_active_channels, rounds,
}

-- The calls that change a channel's interest, and its removal.
pub data Call : Type 0 where
  enable_read disable_read enable_write disable_write disable_all remove : Call

abbrev pub masked : Call → Channel → Channel
masked enable_read c = with_read c
masked disable_read c = without_read c
masked enable_write c = with_write c
masked disable_write c = without_write c
masked disable_all c = without_all c
masked remove c = c

module _ (k : Kernel) where
  open k use {State, ctl, registered, ctl_error, ctl_registered}

  abbrev Poller : Type 0
  Poller = EpollPoller k

  -- `enableRead()` and the others set the mask and update; `remove()` takes the channel away.
  unfoldable pub call : Call → Channel × Poller → Channel × Poller
  call remove (c, p) = remove_channel k c p
  call f (c, p) = update_channel k (masked f c) p

  unfoldable pub calls : List Call → Channel × Poller → Channel × Poller
  calls [] s = s
  calls (f ∷ fs) s = calls fs (call f s)

  -- What the index says of the kernel's entry for the descriptor: with the index `added` it holds
  -- the mask given, and without it there is no entry.
  abbrev pub entry_of : Index → ℕ → Option ℕ
  entry_of added e = some e
  entry_of new e = none
  entry_of deleted e = none

  -- While no call of `epoll_ctl` has failed, the channel and the kernel agree, and the first that
  -- fails does not fail because they disagree.
  pub record InStep (c : Channel) (p : Poller) : Type 0 where
    pub entry : p.first_error ≡ none → registered p.kernel c.fd ≡ entry_of c.index c.events
    pub accepted : (errno : ℕ) → p.first_error ≡ some errno → (errno ≢ eexist) × (errno ≢ enoent)

  -- Once a call has failed there is nothing more to show.
  failed-InStep :
      (c c' : Channel) (p p' : Poller) (e : ℕ)
      → p.first_error ≡ some e
      → p'.first_error ≡ some e
      → InStep c p
      → InStep c' p'
  failed-InStep c c' p p' e f g s = record {
    entry = λ h. absurd (none-ne-some e (sym h ∙ g));
    accepted = λ errno h. s.accepted errno (f ∙ sym g ∙ h);
  }

  update-InStep :
      (op : CtlOp) (c c' : Channel) (p : Poller)
      → p.first_error ≡ none
      → accepts op (registered p.kernel c.fd) ≡ true
      → c'.fd ≡ c.fd
      → leaves op c.events ≡ entry_of c'.index c'.events
      → InStep c' (update k op c p)
  unfolding update
  update-InStep op c c' p quiet fits same mask = record {
    entry = λ h.
        let fine : (ctl p.kernel op c.fd c.events).1 ≡ none = rw quiet at h in
        rw same (ctl_registered p.kernel op c.fd c.events c.fd ∙ rw (fine, ==_refl c.fd) mask);
    accepted = λ errno h. ctl_error p.kernel op c.fd c.events errno fits (rw quiet at h);
  }

  update-failed :
      (op : CtlOp) (c : Channel) (p : Poller) (e : ℕ)
      → p.first_error ≡ some e
      → (update k op c p).first_error ≡ some e
  unfolding update
  update-failed op c p e f = rw f refl

  -- The mask has changed from `e` since the last update.
  update_by-InStep :
      (i : Index) (c : Channel) (p : Poller) (e : ℕ)
      → c.index ≡ i
      → p.first_error ≡ none
      → registered p.kernel c.fd ≡ entry_of i e
      → InStep (update_by k i c p).0 (update_by k i c p).1
  unfolding update_by set_index
  update_by-InStep new c p e i quiet r =
      update-InStep ctl_add (set_index c added) (set_index c added)
        (record p { channels = λ g. if g == c.fd then some c.address else p.channels g }) quiet
        (rw r refl) refl refl
  update_by-InStep added c p e i quiet r = elim (Bool-cases (is_none_event c)) [
    | inl idle ↦
        rw idle (update-InStep ctl_del c (set_index c deleted) p quiet (rw r refl) refl refl)
    | inr busy ↦ rw busy (update-InStep ctl_mod c c p quiet (rw r refl) refl (rw i refl))
  ]
  update_by-InStep deleted c p e i quiet r =
      update-InStep ctl_add (set_index c added) (set_index c added) p quiet (rw r refl) refl refl

  update_by-failed :
      (i : Index) (c : Channel) (p : Poller) (e : ℕ)
      → p.first_error ≡ some e
      → (update_by k i c p).1.first_error ≡ some e
  unfolding update_by set_index
  update_by-failed new c p e f = update-failed ctl_add _ _ e f
  update_by-failed added c p e f = elim (Bool-cases (is_none_event c)) [
    | inl idle ↦ rw idle (update-failed ctl_del c p e f)
    | inr busy ↦ rw busy (update-failed ctl_mod c p e f)
  ]
  update_by-failed deleted c p e f = update-failed ctl_add _ p e f

  remove_by-InStep :
      (i : Index) (c : Channel) (p : Poller)
      → p.first_error ≡ none
      → registered p.kernel c.fd ≡ entry_of i c.events
      → InStep (set_index c new) (remove_by k i c p)
  unfolding remove_by set_index
  remove_by-InStep new c p quiet r = record {
    entry = λ h. r;
    accepted = λ errno h. absurd (none-ne-some errno (sym quiet ∙ h));
  }
  remove_by-InStep deleted c p quiet r = record {
    entry = λ h. r;
    accepted = λ errno h. absurd (none-ne-some errno (sym quiet ∙ h));
  }
  remove_by-InStep added c p quiet r =
      update-InStep ctl_del c (set_index c new) p quiet (rw r refl) refl refl

  remove_by-failed :
      (i : Index) (c : Channel) (p : Poller) (e : ℕ)
      → p.first_error ≡ some e
      → (remove_by k i c p).first_error ≡ some e
  unfolding remove_by
  remove_by-failed added c p e f = update-failed ctl_del c p e f
  remove_by-failed new c p e f = f
  remove_by-failed deleted c p e f = f

  call-quiet :
      (f : Call) (c : Channel) (p : Poller)
      → p.first_error ≡ none
      → InStep c p
      → InStep (call f (c, p)).0 (call f (c, p)).1
  unfolding call update_channel remove_channel with_read without_read with_write without_write
      without_all
  call-quiet remove c p quiet s = remove_by-InStep c.index c _ quiet (s.entry quiet)
  call-quiet f c p quiet s =
      update_by-InStep c.index (masked f c) p c.events refl quiet (s.entry quiet)

  call-failed :
      (f : Call) (c : Channel) (p : Poller) (e : ℕ)
      → p.first_error ≡ some e
      → (call f (c, p)).1.first_error ≡ some e
  unfolding call update_channel remove_channel
  call-failed remove c p e h = remove_by-failed c.index c _ e h
  call-failed f c p e h = update_by-failed _ (masked f c) p e h

  call-InStep :
      (f : Call) (c : Channel) (p : Poller)
      → InStep c p
      → InStep (call f (c, p)).0 (call f (c, p)).1
  call-InStep f c p s = elim (Option-cases p.first_error) [
    | inl quiet ↦ call-quiet f c p quiet s
    | inr (e, h) ↦ failed-InStep c _ p _ e h (call-failed f c p e h) s
  ]

  -- From a channel that is in step with the kernel, whatever calls are made on the channel, in
  -- whatever order, and whichever of them the kernel lets fail: the first `epoll_ctl` that
  -- fails, if any, fails neither with EEXIST nor with ENOENT, and while none has failed the
  -- kernel's entry is the channel's mask while its index is `kAdded`, and none otherwise.
  pub calls-InStep :
      (fs : List Call) (c : Channel) (p : Poller)
      → InStep c p
      → InStep (calls fs (c, p)).0 (calls fs (c, p)).1
  unfolding calls
  calls-InStep [] c p s = s
  calls-InStep (f ∷ fs) c p s =
      calls-InStep fs (call f (c, p)).0 (call f (c, p)).1 (call-InStep f c p s)

-- No answer of `epoll_wait`, an error neither, makes `poll` log a failure; on an error it goes on
-- with no active channel.
pub poll_never_logs_failure :
    (list_size : ℕ) (answer : Io (List Event))
    → ((poll list_size answer).log ≢ logged_failure)
      × ((e : ℕ) → answer ≡ failed e → (poll list_size answer).active ≡ [])
unfolding poll num_events_of fill_active_channels rounds
poll_never_logs_failure list_size (done events) = (ground arith, λ e h. cc)
poll_never_logs_failure list_size (failed errno) = (λ h. cc, λ e h. refl)

-- When `epoll_wait` reports events, every one becomes active, in order, and the list doubles when it
-- was full.
pub poll_done :
    (list_size : ℕ) (events : List Event)
    → 0 < length events
    → length events < int_limit
    → poll list_size (done events) ≡ record {
      active = events;
      list_size = if length events == list_size then list_size * 2 else list_size;
      log = silent;
    }
unfolding poll num_events_of fill_active_channels rounds
poll_done list_size events pos small =
    ground (arith, take-length_le (length events) events (omega arith))
