-- ===== src/ListHead/Count.antt =====
-- A list of distinct nodes below a bound is no longer than the bound.
use s.Base.{
  ℕ, suc, zero, ◌≤◌, ◌≡◌, refl, true, false, ◌&&◌, inl, inr, List, [], ◌∷◌, arith, ◌==◌, leb,
  length, Bool-cases,
}
use s.ListHead.Links.{has, Distinct}
use s.ListHead.Move.{erase, has-erase}

length-erase : (e : ℕ) (xs : List ℕ) → has e xs ≡ true → length xs ≡ suc (length (erase e xs))
unfolding erase
length-erase e [] m = cc
length-erase e (x ∷ xs) m = ground (arith, length-erase e xs)

Distinct-erase :
    (e : ℕ) (xs : List ℕ) → Distinct xs → Distinct (erase e xs) × (has e (erase e xs) ≡ false)
unfolding erase
Distinct-erase e [] d = (tt, refl)
Distinct-erase e (x ∷ xs) d = elim (Bool-cases (e == x)) [
  | inl p ↦ rw p (d.1, ground arith)
  | inr p ↦ rw p (
    (ground (arith, has-erase x e xs), (Distinct-erase e xs d.1).0),
    ground (arith, (Distinct-erase e xs d.1).1),
  )
]

pub length-le :
    (n : ℕ) (xs : List ℕ)
    → Distinct xs
    → ((a : ℕ) → has a xs ≡ true → (leb 1 a && leb a n) ≡ true)
    → length xs ≤ n
length-le n [] d h = omega arith
length-le zero (x ∷ xs) d h = absurd (ground (arith, h x))
length-le (suc n) (x ∷ xs) d h = elim (Bool-cases (has (suc n) (x ∷ xs))) [
  | inl m ↦
      let e = Distinct-erase (suc n) (x ∷ xs) d in
      omega (
        arith,
        length-erase (suc n) (x ∷ xs) m,
        length-le n (erase (suc n) (x ∷ xs)) e.0 (λ a i. lower a i e.1),
      )
  | inr out ↦ omega (arith, length-le n xs d.1 (λ a i. ground (arith, h a)))
]
  where
    lower :
        (a : ℕ)
        → has a (erase (suc n) (x ∷ xs)) ≡ true
        → has (suc n) (erase (suc n) (x ∷ xs)) ≡ false
        → (leb 1 a && leb a n) ≡ true
    lower a i o = ground (arith, has-erase a (suc n) (x ∷ xs), h a)
