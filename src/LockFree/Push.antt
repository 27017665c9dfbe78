-- ===== src/LockFree/Push.antt =====
-- lock_free_stack.cpp, `lock_free_stack_7::push`: what each of its steps does to the values.
use my_cpp_code.Common.{
  ℕ, ◌+◌, ◌≤◌, ◌≡◌, ◌≢◌, inl, inr, refl, ap, sym, ◌∙◌, arith, Bool, true, false, not, ◌&&◌, List,
  [], ◌∷◌, Option, none, some, ◌==◌, ==_iff, ==_refl, Bool-cases,
}
use mathlib.Core.Path.{subst}
use my_cpp_code.LockFree.{
  Local, idle, allocated, pushing, begin_push, Stack, put, assign, same_pointer, exchange_push,
  step_from,
}
use my_cpp_code.LockFree.Invariant.{
  Phase, unused, linked, retired, owned, Shared, Chain, Knows, Inv, Chain-Apart, Simulates,
  quiet_step, Only, Chain-Only, node_step,
}

owned-private : (p : Phase) (i : ℕ) → p ≡ owned i → ¬ Shared p
owned-private unused i e sh = sh
owned-private linked i e sh = cc
owned-private retired i e sh = cc
owned-private (owned j) i e sh = sh

unused-private : (p : Phase) → p ≡ unused → ¬ Shared p
unused-private unused e sh = sh
unused-private linked e sh = cc
unused-private retired e sh = cc
unused-private (owned j) e sh = sh

owner_of : Phase → ℕ
owner_of (owned i) = i
owner_of _ = 0

pub same_pointer→eq : (p q : Option ℕ) → same_pointer p q ≡ true → p ≡ q
same_pointer→eq none none e = refl
same_pointer→eq none (some b) e = cc
same_pointer→eq (some a) none e = cc
same_pointer→eq (some a) (some b) e = ap some ((==_iff a b).0 e)

pub room_assign :
    (phase : ℕ → Phase) (n fresh : ℕ) (w : Phase)
    → phase n ≢ unused
    → ((a : ℕ) → fresh ≤ a → phase a ≡ unused)
    → (a : ℕ) → fresh ≤ a
    → assign n w phase a ≡ unused
room_assign phase n fresh w ne room a above = elim (Bool-cases (a == n)) [
  | inl same ↦ absurd (ne (ap phase (sym ((==_iff a n).0 same)) ∙ room a above))
  | inr other ↦ rw other (room a above)
]

module _ {T : Type 0} (phase : ℕ → Phase) (chain : List ℕ) (l : List T) (s : Stack T) (i : ℕ)
    (h : Inv phase chain l s) where
  -- No value is put or taken.
  pub unchanged : (s' : Stack T) → Inv phase chain l s' → Simulates l [] s'
  unchanged s' v = record { phase = phase; chain = chain; values = l; inv = v; legal = refl }

  pub quiet :
      (v : Local)
      → Knows s.cell s.link phase i v
      → Simulates l [] (record s { local = assign i v s.local })
  quiet v new = unchanged _ (quiet_step phase chain l s i v new h)

  foreign : (nd : ℕ) → phase nd ≡ owned i → (j : ℕ) → (j == i) ≡ false → phase nd ≢ owned j
  unfolding owner_of
  foreign nd mine j other e =
      let k : i ≡ j = ap owner_of (sym mine ∙ e) in absurd (ground (arith, k, ==_refl j))

  pub allocate_step : (x : T) → Simulates l [] (step_from i idle (begin_push x) s).1
  unfolding step_from
  allocate_step x =
      let n = s.fresh in
      let free : phase n ≡ unused = h.room n (omega arith) in
      let s' = (step_from i idle (begin_push x) s).1 in
      let phase' = assign n (owned i) phase in
      let only : Only n s.cell s.link phase s'.cell s'.link phase' =
        λ a other. rw other (refl, refl, refl) in
      record {
        phase = phase';
        chain = chain;
        values = l;
        inv =
            node_step phase phase' chain l s s' i n (allocated n) (unused-private (phase n) free)
              (λ j other e. not_owned j (sym free ∙ e)) only (rw (==_refl n) (refl, λ e. cc))
              (λ a above. above_fresh a above)
              (Chain-Only n s.cell s'.cell s.link s'.link phase phase' s.head chain l
                (λ e. not_linked (sym free ∙ e)) only h.path)
              (λ j. refl) h.knows;
        legal = refl;
      }
    where
      above_fresh : (a : ℕ) → s.fresh + 1 ≤ a → assign s.fresh (owned i) phase a ≡ unused
      above_fresh a above = elim (Bool-cases (a == s.fresh)) [
        | inl same ↦ absurd (omega (arith, (==_iff a s.fresh).0 same))
        | inr other ↦ rw other (h.room a (omega arith))
      ]

      not_owned : (j : ℕ) → unused ≢ owned j
      not_owned j e = cc

      not_linked : unused ≢ linked
      not_linked e = cc

  -- The store to `nd->next`, of a node that is not on the stack yet.
  pub link_step :
      (nd : ℕ) (v : Local) (local : ℕ → Local)
      → (phase nd ≡ owned i) × (s.cell nd ≢ none)
      → Knows s.cell (assign nd s.head s.link) phase i v
      → ((j : ℕ) → local j ≡ assign i v s.local j)
      → Simulates l [] (record s { link = assign nd s.head s.link; local = local })
  link_step nd v local (mine, full) new moved =
      let s' : Stack T = record s { link = assign nd s.head s.link; local = local } in
      let only : Only nd s.cell s.link phase s'.cell s'.link phase =
        λ a other. (refl, refl, rw other refl) in
      unchanged s' (
        node_step phase phase chain l s s' i nd v (owned-private (phase nd) i mine)
          (foreign nd mine) only new h.room
          (Chain-Only nd s.cell s'.cell s.link s'.link phase phase s.head chain l
            (λ e. not_linked (sym mine ∙ e)) only h.path)
          moved h.knows)
    where
      not_linked : owned i ≢ linked
      not_linked e = cc

  pub push_step :
      (nd : ℕ) (fails : Bool)
      → (phase nd ≡ owned i) × (s.cell nd ≢ none)
      → s.local i ≡ pushing nd
      → let r = exchange_push i nd fails s in Simulates l r.0 r.1
  unfolding exchange_push
  push_step nd fails (mine, full) at =
      elim (Bool-cases (same_pointer s.head (s.link nd) && not fails)) [
        | inl same ↦
            let e = same_pointer→eq s.head (s.link nd) (ground arith) in
            rw (same, exchange_push) (push_done (s.cell nd) refl e)
        | inr other ↦
            rw (other, exchange_push)
              (link_step nd (pushing nd) s.local (mine, full) (mine, full) stay)
      ]
    where
      not_linked : owned i ≢ linked
      not_linked e = cc

      not_unused : owned i ≢ unused
      not_unused e = cc

      push_done :
          (v : Option T)
          → s.cell nd ≡ v
          → s.head ≡ s.link nd
          → Simulates l
              (elim v [ none ↦ [] | some x ↦ put x ∷ [] ])
              (record s { head = some nd; local = assign i idle s.local })
      push_done none val e = absurd (full val)
      push_done (some x) val e =
          let phase' = assign nd linked phase in
          let s' : Stack T = record s { head = some nd; local = assign i idle s.local } in
          let only : Only nd s.cell s.link phase s.cell s.link phase' =
            λ a other. (rw other refl, refl, refl) in
          let rest : Chain s.cell s.link phase' (s.link nd) chain l =
            subst (λ q. Chain s.cell s.link phase' q chain l) e
              (Chain-Only nd s.cell s.cell s.link s.link phase phase' s.head chain l
                (λ f. not_linked (sym mine ∙ f)) only h.path) in
          let apart =
            Chain-Apart s.cell s.link phase nd s.head chain l (λ f. not_linked (sym mine ∙ f))
              h.path in
          record {
            phase = phase';
            chain = nd ∷ chain;
            values = x ∷ l;
            inv =
                node_step phase phase' (nd ∷ chain) (x ∷ l) s s' i nd idle
                  (owned-private (phase nd) i mine) (foreign nd mine) only tt
                  (room_assign phase nd s.fresh linked (λ f. not_unused (sym mine ∙ f)) h.room)
                  (refl, val, rw (==_refl nd) refl, apart, rest) (λ j. refl) h.knows;
            legal = (x ∷ l, refl, refl);
          }

      stay : (j : ℕ) → s.local j ≡ assign i (pushing nd) s.local j
      stay j = elim (Bool-cases (j == i)) [
        | inl same ↦ rw same (ap s.local ((==_iff j i).0 same) ∙ at)
        | inr other ↦ rw other refl
      ]
