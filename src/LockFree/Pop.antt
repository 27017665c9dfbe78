-- ===== src/LockFree/Pop.antt =====
-- lock_free_stack.cpp, `lock_free_stack_7::pop`: what each of its steps does to the values.
use my_cpp_code.Common.{
  ℕ, ◌≡◌, ◌≢◌, inl, inr, refl, ap, sym, ◌∙◌, arith, Bool, not, ◌&&◌, List, [], ◌∷◌, Option, none,
  some, ◌==◌, ==_iff, ==_refl, Bool-cases,
}
use mathlib.Core.Path.{subst}
use mathlib.Core.Option.{some-injective, none-ne-some}
use my_cpp_code.LockFree.{
  idle, cutting, testing, Stack, took, saw_empty, assign, same_pointer, load_old, exchange_pop,
}
use my_cpp_code.LockFree.Invariant.{
  Phase, unused, linked, retired, owned, Shared, Apart, Chain, Inv, Kept, Knows-Kept, Chain-kept,
  Chain-retired, Simulates, Knows-set, quiet_step,
}
use my_cpp_code.LockFree.Push.{same_pointer→eq, room_assign, unchanged, quiet}

-- Other threads do not rely on a node's staying on the stack.
retire_Kept :
    {T : Type 0} (cell : ℕ → Option T) (link : ℕ → Option ℕ) (phase : ℕ → Phase) (old j : ℕ)
    → phase old ≡ linked
    → (a : ℕ) → Kept j cell link phase cell link (assign old retired phase) a
retire_Kept cell link phase old j on a = elim (Bool-cases (a == old)) [
  | inl same ↦
      let on' : phase a ≡ linked = ap phase ((==_iff a old).0 same) ∙ on in
      rw same
        (λ f. absurd (not_owned (sym on' ∙ f)), λ sh. tt, λ f. refl, λ sh f. absurd (not_linked f))
  | inr other ↦ rw other (λ f. (f, refl), λ sh. sh, λ f. f, λ sh f. (f, refl))
]
  where
    not_owned : linked ≢ owned j
    not_owned e = cc

    not_linked : retired ≢ linked
    not_linked e = cc

linked-used : (p : Phase) → p ≡ linked → p ≢ unused
linked-used unused e = λ f. cc
linked-used linked e = λ f. cc
linked-used retired e = λ f. cc
linked-used (owned i) e = λ f. cc

linked-Shared : (p : Phase) → p ≡ linked → Shared p
linked-Shared unused e = cc
linked-Shared linked e = tt
linked-Shared retired e = tt
linked-Shared (owned j) e = cc

module _ {T : Type 0} (cell : ℕ → Option T) (link : ℕ → Option ℕ) (phase : ℕ → Phase)
    (h : Option ℕ) where
  Chain-none : (chain : List ℕ) (l : List T) → h ≡ none → Chain cell link phase h chain l → l ≡ []
  Chain-none [] [] e c = refl
  Chain-none [] (x ∷ l) e c = absurd c
  Chain-none (a ∷ chain) [] e c = absurd c
  Chain-none (a ∷ chain) (x ∷ l) e c = absurd (none-ne-some a (sym e ∙ c.0))

  Chain-some :
      (chain : List ℕ) (l : List T) (b : ℕ)
      → h ≡ some b
      → Chain cell link phase h chain l
      → phase b ≡ linked
  Chain-some [] [] b e c = absurd (none-ne-some b (sym c ∙ e))
  Chain-some [] (x ∷ l) b e c = absurd c
  Chain-some (a ∷ chain) [] b e c = absurd c
  Chain-some (a ∷ chain) (x ∷ l) b e c = ap phase (sym (some-injective a b (sym c.0 ∙ e))) ∙ c.2

module _ {T : Type 0} (phase : ℕ → Phase) (chain : List ℕ) (l : List T) (s : Stack T) (i : ℕ)
    (h : Inv phase chain l s) where
  load_at :
      (p : Option ℕ)
      → s.head ≡ p
      → Simulates l
          (elim p [ none ↦ saw_empty ∷ [] | some a ↦ [] ])
          (record s { local = assign i (testing p) s.local })
  load_at none e =
      let none_left = Chain-none s.cell s.link phase s.head chain l e h.path in
      record {
        phase = phase;
        chain = chain;
        values = l;
        inv = quiet_step phase chain l s i (testing none) tt h;
        legal = (l, (none_left, none_left), refl);
      }
  load_at (some a) e =
      quiet phase chain l s i h (testing (some a))
        (linked-Shared (phase a) (Chain-some s.cell s.link phase s.head chain l a e h.path))

  pub load_step : let r = load_old i s in Simulates l r.0 r.1
  unfolding load_old
  load_step = load_at s.head refl

  pub cut_step :
      (old : ℕ)
      → phase old ≡ retired
      → Simulates l [] (record s { link = assign old none s.link; local = assign i idle s.local })
  cut_step old gone =
      let link' = assign old none s.link in
      unchanged phase chain l s i h (record s { link = link'; local = assign i idle s.local })
        (record {
          room = h.room;
          path =
              Chain-kept s.cell s.cell s.link link' phase phase s.head chain l
                (λ a p. (p, refl, away a p)) h.path;
          knows = Knows-set s.cell link' phase i idle s.local tt (λ j other.
              Knows-Kept s.cell s.cell s.link link' phase phase j (s.local j)
                (λ a. (λ f. (f, refl), λ sh. sh, λ f. f, λ sh f. (f, away a f))) (h.knows j));
        })
    where
      clash : retired ≢ linked
      clash e = cc

      away : (a : ℕ) → phase a ≡ linked → assign old none s.link a ≡ s.link a
      away a p = elim (Bool-cases (a == old)) [
        | inl same ↦ absurd (clash (sym gone ∙ ap phase (sym ((==_iff a old).0 same)) ∙ p))
        | inr other ↦ rw other refl
      ]

pop_success :
    {T : Type 0} (phase : ℕ → Phase) (chain : List ℕ) (l : List T) (s : Stack T) (i : ℕ)
    (h : Inv phase chain l s) (old : ℕ) (nxt : Option ℕ)
    → s.head ≡ some old
    → (phase old ≡ linked → s.link old ≡ nxt)
    → Simulates l
        (took (s.cell old) ∷ [])
        (record s { head = nxt; local = assign i (cutting old) s.local })
pop_success phase [] [] s i h old nxt at next = absurd (none-ne-some old (sym h.path ∙ at))
pop_success phase [] (x ∷ l) s i h old nxt at next = absurd h.path
pop_success phase (a ∷ chain) [] s i h old nxt at next = absurd h.path
pop_success {T} phase (a ∷ chain) (x ∷ l) s i h old nxt at next =
    let (e, val, p, apart, rest) = h.path in
    let eo : a ≡ old = some-injective a old (sym e ∙ at) in
    let po : phase old ≡ linked = ap phase (sym eo) ∙ p in
    let phase' = assign old retired phase in
    record {
      phase = phase';
      chain = chain;
      values = l;
      inv = record {
        room = room_assign phase old s.fresh retired (linked-used (phase old) po) h.room;
        path =
            subst (λ q. Chain s.cell s.link phase' q chain l) (ap s.link eo ∙ next po)
              (Chain-retired s.cell s.link phase old (s.link a) chain l
                (subst (λ b. Apart b chain) eo apart) rest);
        knows =
            Knows-set s.cell s.link phase' i (cutting old) s.local (rw (==_refl old) refl)
              (λ j other.
                Knows-Kept s.cell s.cell s.link s.link phase phase' j (s.local j)
                  (retire_Kept s.cell s.link phase old j po) (h.knows j));
      };
      legal = (l, (x, ap s.cell (sym eo) ∙ val, refl), refl);
    }

module _ {T : Type 0} (phase : ℕ → Phase) (chain : List ℕ) (l : List T) (s : Stack T) (i : ℕ)
    (h : Inv phase chain l s) where
  pub pop_step :
      (old : ℕ) (nxt : Option ℕ) (fails : Bool)
      → (phase old ≡ linked → s.link old ≡ nxt)
      → let r = exchange_pop i old nxt fails s in Simulates l r.0 r.1
  unfolding exchange_pop
  pop_step old nxt fails next = elim (Bool-cases (same_pointer s.head (some old) && not fails)) [
    | inl same ↦
        let e = same_pointer→eq s.head (some old) (ground arith) in
        rw (same, exchange_pop) (pop_success phase chain l s i h old nxt e next)
    | inr other ↦ rw (other, exchange_pop) (load_step phase chain l s i h)
  ]
