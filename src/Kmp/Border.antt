-- ===== src/Kmp/Border.antt =====
-- any/kmp.cpp: the borders of a string's prefixes, by their positions.
use my_cpp_code.Common.{
  ℕ, zero, suc, ◌+◌, ◌-◌, ◌≤◌, ◌<◌, ◌≡◌, refl, sym, ap, ◌∙◌, arith, List, [], ◌∷◌, ◌==◌,
  if◌then◌else◌, length, inl, inr, Bool-cases, Bytes,
}
use my_cpp_code.Kmp.{get_elem, set}

-- The first `k` bytes are also the last `k` of the first `m`, and not all of them.
abbrev pub Border : Bytes → ℕ → ℕ → Type 0
Border s m k = (k < m) × ((t : ℕ) → t < k → get_elem s t ≡ get_elem s (m - k + t))

abbrev pub Longest : Bytes → ℕ → ℕ → Type 0
Longest s m k = Border s m k × ((k' : ℕ) → Border s m k' → k' ≤ k)

move : (s : Bytes) (a b : ℕ) → a ≡ b → get_elem s a ≡ get_elem s b
move s a b e = ap (get_elem s) e

pub Border-zero : (s : Bytes) (m : ℕ) → 0 < m → Border s m 0
Border-zero s m pos = (pos, λ t h. absurd (omega arith))

pub Border-restrict : (s : Bytes) (m i k : ℕ) → Border s m i → Border s m k → k < i → Border s i k
Border-restrict s m i k (im, fi) (km, fk) ki = (
  ki,
  λ t h.
      fk t h
      ∙ move s (m - k + t) (m - i + (i - k + t)) (omega arith)
      ∙ sym (fi (i - k + t) (omega arith)),
)

pub Border-trans : (s : Bytes) (m i k : ℕ) → Border s m i → Border s i k → Border s m k
Border-trans s m i k (im, fi) (ki, fk) = (
  omega arith,
  λ t h.
      fk t h
      ∙ fi (i - k + t) (omega arith)
      ∙ move s (m - i + (i - k + t)) (m - k + t) (omega arith),
)

pub Border-suc :
    (s : Bytes) (m k : ℕ) → Border s m k → get_elem s k ≡ get_elem s m → Border s (m + 1) (k + 1)
Border-suc s m k (km, f) e = (
  omega arith,
  λ t h. elim (Bool-cases (t == k)) [
    | inl last ↦ move s t k (ground arith) ∙ e ∙ move s m (m + 1 - (k + 1) + t) (ground arith)
    | inr before ↦ f t (ground arith) ∙ move s (m - k + t) (m + 1 - (k + 1) + t) (omega arith)
  ],
)

pub Border-pred :
    (s : Bytes) (m k : ℕ) → Border s (m + 1) (suc k) → Border s m k × (get_elem s k ≡ get_elem s m)
Border-pred s m k (km, f) = (
  (omega arith, λ t h. f t (omega arith) ∙ move s (m + 1 - suc k + t) (m - k + t) (omega arith)),
  f k (omega arith) ∙ move s (m + 1 - suc k + k) m (omega arith),
)

pub length-set : (l : List ℕ) (i v : ℕ) → length (set l i v) ≡ length l
length-set [] i v = refl
length-set (x ∷ l) zero v = refl
length-set (x ∷ l) (suc i) v = ap suc (length-set l i v)

pub get_elem-set :
    (l : List ℕ) (i v k : ℕ)
    → i < length l
    → get_elem (set l i v) k ≡ (if k == i then v else get_elem l k)
get_elem-set [] i v k h = absurd (omega arith)
get_elem-set (x ∷ l) zero v zero h = refl
get_elem-set (x ∷ l) zero v (suc k) h = ground arith
get_elem-set (x ∷ l) (suc i) v zero h = ground arith
get_elem-set (x ∷ l) (suc i) v (suc k) h = ground (arith, get_elem-set l i v k (omega arith))
