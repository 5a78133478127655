-- ===== src/Base/Loops.antt =====
-- Counted loops: over all the indices below a bound, and to the first index that passes a test.
use Prim.Native.Nat.{ℕ, zero, suc, ◌+◌, ◌<◌, ◌≤◌}
use mathlib.Core.Path.{◌≡◌, sym, subst, ap, ◌∙◌}
use mathlib.Core.Logic.{inl, inr}
use mathlib.Core.Bool.{Bool, true, false}
use mathlib.Core.Option.{Option, none, some}
use native.Mathlib.Omega.{arith}
use s.Base.Tests.{Bool-cases, ◌==◌, if◌then◌else◌, ltb}
use s.Base.Arrays.{update}

-- `for (i = 0; i < n; i++) s = body i s`
unfoldable pub loop {ℓ} : {S : Type ℓ} → ℕ → (ℕ → S → S) → S → S
loop zero body s = s
loop (suc n) body s = body n (loop n body s)

-- An invariant of the rounds done so far.
pub loop_inv {ℓ κ} :
    {S : Type ℓ} (P : ℕ → S → Type κ) (n : ℕ) (body : ℕ → S → S) (s : S)
    → ((i : ℕ) (t : S) → i < n → P i t → P (suc i) (body i t))
    → P 0 s
    → P n (loop n body s)
unfolding loop
loop_inv P zero body s keep h = h
loop_inv P (suc n) body s keep h =
    keep n (loop n body s) (omega arith)
      (loop_inv P n body s (λ i t lt p. keep i t (omega arith) p) h)

-- `for (i = i; rounds left; i++) if (test i) return i;`
unfoldable pub find_from : (ℕ → Bool) → ℕ → ℕ → Option ℕ
find_from test i zero = none
find_from test i (suc k) = elim (test i) [ true ↦ some i | false ↦ find_from test (suc i) k ]

unfoldable pub find_below : ℕ → (ℕ → Bool) → Option ℕ
unfolding find_from
find_below n test = find_from test 0 n

-- What the search says: the least index that passes, or that none does.
abbrev pub Least : (ℕ → Bool) → ℕ → ℕ → Option ℕ → Type 0
Least test i n (some k) =
    (i ≤ k) × (k < n) × (test k ≡ true) × ((j : ℕ) → i ≤ j → j < k → test j ≡ false)
Least test i n none = (j : ℕ) → i ≤ j → j < n → test j ≡ false

Least-skip :
    (test : ℕ → Bool) (i n : ℕ) (r : Option ℕ)
    → test i ≡ false
    → Least test (suc i) n r
    → Least test i n r
Least-skip test i n (some k) e h = (
  omega arith,
  h.1,
  h.2,
  λ j a b. elim (Bool-cases (i == j)) [ inl p ↦ ground arith | inr p ↦ h.3 j (ground arith) b ],
)
Least-skip test i n none e h =
    λ j a b. elim (Bool-cases (i == j)) [ inl p ↦ ground arith | inr p ↦ h j (ground arith) b ]

find_from-hit : (test : ℕ → Bool) (i k : ℕ) → test i ≡ true → find_from test i (suc k) ≡ some i
unfolding find_from
find_from-hit test i k e = rw (e, find_from)

find_from-miss :
    (test : ℕ → Bool) (i k : ℕ)
    → test i ≡ false
    → find_from test i (suc k) ≡ find_from test (suc i) k
unfolding find_from
find_from-miss test i k e = rw (e, find_from)

find_from-Least : (test : ℕ → Bool) (i k n : ℕ) → i + k ≡ n → Least test i n (find_from test i k)
find_from-Least test i zero n e = unfold find_from in (λ j a b. absurd (omega arith))
find_from-Least test i (suc k) n e = elim (Bool-cases (test i)) [
  | inl p ↦
      subst (Least test i n) (sym (find_from-hit test i k p))
        (omega arith, omega arith, p, λ j a b. absurd (omega arith))
  | inr p ↦ subst (Least test i n) (sym (find_from-miss test i k p)) (
      Least-skip test i n (find_from test (suc i) k) p
        (find_from-Least test (suc i) k n (omega arith)))
]

pub find_below-Least : (n : ℕ) (test : ℕ → Bool) → Least test 0 n (find_below n test)
unfolding find_below
find_below-Least n test = find_from-Least test 0 n n (omega arith)

-- A loop that gives each place a value of its own index and old value.
pub loop-update {ℓ} :
    {A : Type ℓ} (n : ℕ) (f : ℕ → A → A) (a : ℕ → A) (j : ℕ)
    → loop n (λ i r. update r i (f i (r i))) a j ≡ (if ltb j n then f j (a j) else a j)
unfolding loop update
loop-update zero f a j = ground arith
loop-update (suc n) f a j = elim (Bool-cases (j == n)) [
  | inl p ↦
      let e : n ≡ j = ground arith in
      rw p (
        ap (λ k. f k (loop n (λ i r. update r i (f i (r i))) a k)) e
        ∙ ap (f j) (loop-update n f a j)
        ∙ ground arith)
  | inr p ↦ rw p (loop-update n f a j ∙ ground arith)
]
