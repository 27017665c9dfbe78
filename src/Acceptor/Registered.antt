-- ===== src/Acceptor/Registered.antt =====
-- acceptor.cpp: the listening socket's registration over an acceptor's life.
use my_cpp_code.Common.{ℕ, ◌≡◌, refl, ap, sym, ◌∙◌, arith, true, false, none, some, [], ◌∷◌}
use mathlib.Core.Option.{none-ne-some}
use my_cpp_code.Buffer.{done}
use my_cpp_code.Poller.Channel.{
  Channel, Index, new, added, deleted, without_all, new_channel, read_event, with_read, set_index,
}
use my_cpp_code.Poller.Epoll.{Kernel, EpollPoller, update_channel, update_by, remove_channel}
use my_cpp_code.Poller.Registration.{
  call, calls, enable_read, disable_all, remove, InStep, calls-InStep,
}
use my_cpp_code.Acceptor.{Acceptor, new_acceptor, listen, destroy}

module _ (k : Kernel) where
  open k use {State, registered}

  fd-update_by : (i : Index) (c : Channel) (p : EpollPoller k) → (update_by k i c p).0.fd ≡ c.fd
  unfolding update_by set_index
  fd-update_by new c p = refl
  fd-update_by deleted c p = refl
  fd-update_by added c p = ground arith

  -- After `disableAll()` and `remove()` the kernel has no entry, whatever it had before.
  removed :
      (c : Channel) (p : EpollPoller k)
      → InStep k c p
      → let (d, q) = call k remove (call k disable_all (c, p)) in
        q.first_error ≡ none → registered q.kernel c.fd ≡ none
  unfolding call calls update_channel remove_channel set_index without_all
  removed c p v =
      let kept = calls-InStep k (disable_all ∷ remove ∷ []) c p v in
      let fd = fd-update_by c.index (without_all c) p in
      λ h. ap (registered _) (sym fd) ∙ kept.entry h

  opened :
      (address fd : ℕ) (p : EpollPoller k)
      → registered p.kernel fd ≡ none
      → p.first_error ≡ none
      → let (d, q) = call k enable_read (new_channel address fd, p) in
        InStep k d q
        × (d.fd ≡ fd)
        × (q.first_error ≡ none → registered q.kernel fd ≡ some read_event)
  unfolding call calls update_channel update_by set_index with_read new_channel
  opened address fd p e r =
      let kept = calls-InStep k (enable_read ∷ []) (new_channel address fd) p (record {
        entry = λ h. e;
        accepted = λ errno h. absurd (none-ne-some errno (sym r ∙ h));
      }) in
      (kept, refl, kept.entry)

  -- Where the loop's poller has no entry for a new socket, and while no `epoll_ctl` has failed,
  -- the socket is registered for reading exactly while the acceptor listens: not when it is new,
  -- and not after the destructor, whether it has listened or not.
  pub listen-destroy :
      (address fd : ℕ) (p : EpollPoller k)
      → registered p.kernel fd ≡ none
      → p.first_error ≡ none
      → (a b : Acceptor k) × (new_acceptor k address (done fd) true p ≡ some a)
        × (listen k true a ≡ some b)
        × (registered a.poller.kernel fd ≡ none)
        × (b.listenning ≡ true)
        × (b.poller.first_error ≡ none → registered b.poller.kernel fd ≡ some read_event)
        × ((destroy k b).poller.first_error ≡ none
            → registered (destroy k b).poller.kernel fd ≡ none)
        × ((destroy k a).poller.first_error ≡ none
            → registered (destroy k a).poller.kernel fd ≡ none)
  unfolding new_acceptor listen destroy
  listen-destroy address fd p e r =
      let c = new_channel address fd in
      let a : Acceptor k = record { socket = fd; channel = c; poller = p; listenning = false } in
      let (d, q) = call k enable_read (c, p) in
      let (kept, same, entry) = opened address fd p e r in
      let listens = removed d q kept in
      let idle = removed c p (
        unfold new_channel in
        record { entry = λ h. e; accepted = λ errno h. absurd (none-ne-some errno (sym r ∙ h)) }) in
      (
        a,
        record a { channel = d; poller = q; listenning = true },
        refl,
        refl,
        e,
        refl,
        entry,
        (λ h. ap (registered _) (sym same) ∙ listens h),
        (λ h. unfold new_channel in idle h),
      )
