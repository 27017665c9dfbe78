-- ===== src/LockFree/Invariant.antt =====
-- lock_free_stack.cpp, `lock_free_stack_7`: who holds each node, and the list that hangs from the head.
use my_cpp_code.Common.{
  ℕ, ◌≤◌, ◌≡◌, ◌≢◌, inl, inr, ap, sym, ◌∙◌, false, List, [], ◌∷◌, Option, none, some, ◌==◌, ==_iff,
  Bool-cases,
}
use mathlib.Core.Path.{subst}
use my_cpp_code.LockFree.{
  Local, idle, loading, allocated, pushing, cutting, testing, trying, Stack, Event, put, took,
  saw_empty, assign,
}

-- Who holds a node: nobody yet, the thread that pushes it, the stack, or at most threads that pop.
pub data Phase : Type 0 where
  unused linked retired : Phase
  owned : ℕ → Phase

abbrev pub Shared : Phase → Type 0
Shared unused = ⊥
Shared linked = Unit
Shared retired = Unit
Shared (owned i) = ⊥

pub retired-Shared : (p : Phase) → p ≡ retired → Shared p
retired-Shared unused e = cc
retired-Shared linked e = tt
retired-Shared retired e = tt
retired-Shared (owned i) e = cc

-- The nodes from a pointer on, with their values; no node comes twice.
abbrev pub Apart : ℕ → List ℕ → Type 0
Apart a [] = Unit
Apart a (b ∷ chain) = ((b == a) ≡ false) × Apart a chain

module _ {T : Type 0} where
  abbrev pub Chain :
      (ℕ → Option T) → (ℕ → Option ℕ) → (ℕ → Phase) → Option ℕ → List ℕ → List T → Type 0
  Chain cell link phase h [] [] = h ≡ none
  Chain cell link phase h [] (x ∷ xs) = ⊥
  Chain cell link phase h (a ∷ chain) [] = ⊥
  Chain cell link phase h (a ∷ chain) (x ∷ xs) =
      (h ≡ some a)
      × (cell a ≡ some x)
      × (phase a ≡ linked)
      × Apart a chain
      × Chain cell link phase (link a) chain xs

  -- What a thread knows of the node that it works on.
  abbrev pub Knows : (ℕ → Option T) → (ℕ → Option ℕ) → (ℕ → Phase) → ℕ → Local → Type 0
  Knows cell link phase i idle = Unit
  Knows cell link phase i loading = Unit
  Knows cell link phase i (allocated nd) = (phase nd ≡ owned i) × (cell nd ≢ none)
  Knows cell link phase i (pushing nd) = (phase nd ≡ owned i) × (cell nd ≢ none)
  Knows cell link phase i (testing none) = Unit
  Knows cell link phase i (testing (some a)) = Shared (phase a)
  Knows cell link phase i (trying a nxt) = Shared (phase a) × (phase a ≡ linked → link a ≡ nxt)
  Knows cell link phase i (cutting a) = phase a ≡ retired

  pub record Inv (phase : ℕ → Phase) (chain : List ℕ) (l : List T) (s : Stack T) : Type 0 where
    pub room : (a : ℕ) → s.fresh ≤ a → phase a ≡ unused
    pub path : Chain s.cell s.link phase s.head chain l
    pub knows : (i : ℕ) → Knows s.cell s.link phase i (s.local i)

  -- A change of the heap that another thread `j` does not notice.
  abbrev pub Kept :
      ℕ
      → (ℕ → Option T)
      → (ℕ → Option ℕ)
      → (ℕ → Phase)
      → (ℕ → Option T)
      → (ℕ → Option ℕ)
      → (ℕ → Phase)
      → ℕ
      → Type 0
  Kept j cell link phase cell' link' phase' a =
      (phase a ≡ owned j → (phase' a ≡ owned j) × (cell' a ≡ cell a))
      × (Shared (phase a) → Shared (phase' a))
      × (phase a ≡ retired → phase' a ≡ retired)
      × (Shared (phase a) → phase' a ≡ linked → (phase a ≡ linked) × (link' a ≡ link a))

  pub Knows-Kept :
      (cell cell' : ℕ → Option T) (link link' : ℕ → Option ℕ) (phase phase' : ℕ → Phase) (j : ℕ)
      (v : Local)
      → ((a : ℕ) → Kept j cell link phase cell' link' phase' a)
      → Knows cell link phase j v
      → Knows cell' link' phase' j v
  Knows-Kept cell cell' link link' phase phase' j idle k h = tt
  Knows-Kept cell cell' link link' phase phase' j loading k h = tt
  Knows-Kept cell cell' link link' phase phase' j (allocated a) k h =
      let (e, f) = (k a).0 h.0 in (e, rw f (h.1))
  Knows-Kept cell cell' link link' phase phase' j (pushing a) k h =
      let (e, f) = (k a).0 h.0 in (e, rw f (h.1))
  Knows-Kept cell cell' link link' phase phase' j (testing none) k h = tt
  Knows-Kept cell cell' link link' phase phase' j (testing (some a)) k h = (k a).1 h
  Knows-Kept cell cell' link link' phase phase' j (trying a nxt) k h =
      ((k a).1 h.0, λ e. let (p, q) = (k a).3 h.0 e in q ∙ h.1 p)
  Knows-Kept cell cell' link link' phase phase' j (cutting a) k h = (k a).2 h

  -- A change of the heap away from the nodes of the chain.
  pub Chain-kept :
      (cell cell' : ℕ → Option T) (link link' : ℕ → Option ℕ) (phase phase' : ℕ → Phase)
      (h : Option ℕ) (chain : List ℕ) (l : List T)
      → ((a : ℕ) → phase a ≡ linked → (phase' a ≡ linked) × (cell' a ≡ cell a) × (link' a ≡ link a))
      → Chain cell link phase h chain l
      → Chain cell' link' phase' h chain l
  Chain-kept cell cell' link link' phase phase' h [] [] k c = c
  Chain-kept cell cell' link link' phase phase' h (a ∷ chain) (x ∷ l) k (e, val, p, apart, rest) =
      let (p', f, g) = k a p in
      (
        e,
        f ∙ val,
        p',
        apart,
        rw g (Chain-kept cell cell' link link' phase phase' (link a) chain l k rest),
      )
  Chain-kept cell cell' link link' phase phase' h [] (x ∷ l) k c = absurd c
  Chain-kept cell cell' link link' phase phase' h (a ∷ chain) [] k c = absurd c

  -- The rest of the chain, when its first node has been taken.
  pub Chain-retired :
      (cell : ℕ → Option T) (link : ℕ → Option ℕ) (phase : ℕ → Phase) (old : ℕ) (h : Option ℕ)
      (chain : List ℕ) (l : List T)
      → Apart old chain
      → Chain cell link phase h chain l
      → Chain cell link (assign old retired phase) h chain l
  Chain-retired cell link phase old h [] [] apart c = c
  Chain-retired cell link phase old h (a ∷ chain) (x ∷ l) (ne, others) (e, val, p, apart, rest) =
      (e, val, rw ne p, apart, Chain-retired cell link phase old (link a) chain l others rest)
  Chain-retired cell link phase old h [] (x ∷ l) apart c = absurd c
  Chain-retired cell link phase old h (a ∷ chain) [] apart c = absurd c

  -- A node that is not linked is not in the chain.
  pub Chain-Apart :
      (cell : ℕ → Option T) (link : ℕ → Option ℕ) (phase : ℕ → Phase) (nd : ℕ) (h : Option ℕ)
      (chain : List ℕ) (l : List T)
      → phase nd ≢ linked
      → Chain cell link phase h chain l
      → Apart nd chain
  Chain-Apart cell link phase nd h [] l ne c = tt
  Chain-Apart cell link phase nd h (a ∷ chain) (x ∷ l) ne (e, val, p, apart, rest) = (
    elim (Bool-cases (a == nd)) [
      | inl same ↦ absurd (ne (ap phase (sym ((==_iff a nd).0 same)) ∙ p))
      | inr other ↦ other
    ],
    Chain-Apart cell link phase nd (link a) chain l ne rest,
  )
  Chain-Apart cell link phase nd h (a ∷ chain) [] ne c = absurd c

  -- The values that an event may find and leave.
  abbrev pub Apply : Event T → List T → List T → Type 0
  Apply (put x) l m = m ≡ x ∷ l
  Apply (took v) l m = (x : T) × (v ≡ some x) × (l ≡ x ∷ m)
  Apply saw_empty l m = (l ≡ []) × (m ≡ [])

  abbrev pub Legal : List T → List (Event T) → List T → Type 0
  Legal l [] m = l ≡ m
  Legal l (e ∷ events) m = (k : List T) × Apply e l k × Legal k events m

  -- A state that a step has led to, and what the step has done to the values.
  pub record Simulates (l : List T) (events : List (Event T)) (s : Stack T) : Type 0 where
    pub phase : ℕ → Phase
    pub chain : List ℕ
    pub values : List T
    pub inv : Inv phase chain values s
    pub legal : Legal l events values

  pub Knows-set :
      (cell : ℕ → Option T) (link : ℕ → Option ℕ) (phase : ℕ → Phase) (i : ℕ) (v : Local)
      (local : ℕ → Local)
      → Knows cell link phase i v
      → ((j : ℕ) → (j == i) ≡ false → Knows cell link phase j (local j))
      → (j : ℕ) → Knows cell link phase j (assign i v local j)
  Knows-set cell link phase i v local new old j = elim (Bool-cases (j == i)) [
    | inl same ↦ rw (same, (==_iff j i).0 same) new
    | inr other ↦ rw other (old j other)
  ]

  -- A step that only moves the thread on.
  pub quiet_step :
      (phase : ℕ → Phase) (chain : List ℕ) (l : List T) (s : Stack T) (i : ℕ) (v : Local)
      → Knows s.cell s.link phase i v
      → Inv phase chain l s
      → Inv phase chain l (record s { local = assign i v s.local })
  quiet_step phase chain l s i v new h = record {
    room = h.room;
    path = h.path;
    knows = Knows-set s.cell s.link phase i v s.local new (λ j other. h.knows j);
  }

  -- Everything but the node `n` is as before.
  abbrev pub Only :
      ℕ
      → (ℕ → Option T)
      → (ℕ → Option ℕ)
      → (ℕ → Phase)
      → (ℕ → Option T)
      → (ℕ → Option ℕ)
      → (ℕ → Phase)
      → Type 0
  Only n cell link phase cell' link' phase' =
      (a : ℕ) → (a == n) ≡ false → (phase' a ≡ phase a) × (cell' a ≡ cell a) × (link' a ≡ link a)

  -- Other threads do not notice what happens to a node that is not shared and not theirs.
  Kept-Only :
      (n j : ℕ) (cell cell' : ℕ → Option T) (link link' : ℕ → Option ℕ) (phase phase' : ℕ → Phase)
      → ¬ Shared (phase n)
      → phase n ≢ owned j
      → Only n cell link phase cell' link' phase'
      → (a : ℕ) → Kept j cell link phase cell' link' phase' a
  Kept-Only n j cell cell' link link' phase phase' unshared foreign only a =
      elim (Bool-cases (a == n)) [
        | inl same ↦
            let e : n ≡ a = sym ((==_iff a n).0 same) in
            let lone : ¬ Shared (phase a) = subst (λ b. ¬ Shared (phase b)) e unshared in
            (
              λ f. absurd (foreign (ap phase e ∙ f)),
              λ sh. absurd (lone sh),
              λ f. absurd (lone (retired-Shared (phase a) f)),
              λ sh. absurd (lone sh),
            )
        | inr other ↦
            let (p, c, k) = only a other in
            (λ f. (p ∙ f, c), λ sh. rw p sh, λ f. p ∙ f, λ sh f. (sym p ∙ f, k))
      ]

  -- Nor does the chain, when the node is not linked.
  pub Chain-Only :
      (n : ℕ) (cell cell' : ℕ → Option T) (link link' : ℕ → Option ℕ) (phase phase' : ℕ → Phase)
      (h : Option ℕ) (chain : List ℕ) (l : List T)
      → phase n ≢ linked
      → Only n cell link phase cell' link' phase'
      → Chain cell link phase h chain l
      → Chain cell' link' phase' h chain l
  Chain-Only n cell cell' link link' phase phase' h chain l ne only c =
      Chain-kept cell cell' link link' phase phase' h chain l
        (λ a f. elim (Bool-cases (a == n)) [
          | inl same ↦ absurd (ne (ap phase (sym ((==_iff a n).0 same)) ∙ f))
          | inr other ↦ let (p, v, k) = only a other in (p ∙ f, v, k)
        ])
        c

  -- A thread changes one node, which no other thread works on.
  pub node_step :
      (phase phase' : ℕ → Phase) (chain : List ℕ) (l : List T) (s s' : Stack T) (i n : ℕ)
      (v : Local)
      → ¬ Shared (phase n)
      → ((j : ℕ) → (j == i) ≡ false → phase n ≢ owned j)
      → Only n s.cell s.link phase s'.cell s'.link phase'
      → Knows s'.cell s'.link phase' i v
      → ((a : ℕ) → s'.fresh ≤ a → phase' a ≡ unused)
      → Chain s'.cell s'.link phase' s'.head chain l
      → ((j : ℕ) → s'.local j ≡ assign i v s.local j)
      → ((j : ℕ) → Knows s.cell s.link phase j (s.local j))
      → Inv phase' chain l s'
  node_step phase phase' chain l s s' i n v unshared foreign only new room path moved knows =
      record {
        room = room;
        path = path;
        knows = λ j. rw (moved j) (
            Knows-set s'.cell s'.link phase' i v s.local new
              (λ k other.
                Knows-Kept s.cell s'.cell s.link s'.link phase phase' k (s.local k)
                  (Kept-Only n k s.cell s'.cell s.link s'.link phase phase' unshared
                    (foreign k other) only)
                  (knows k))
              j);
      }
