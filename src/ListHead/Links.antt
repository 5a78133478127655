-- ===== src/ListHead/Links.antt =====
-- What a list of include/list.h stands for: the nodes from the head round to the head again, each
-- linked to the next in both directions.
use s.Base.{ℕ, ◌≡◌, refl, Bool, true, false, ◌||◌, List, [], ◌∷◌, ◌++◌, arith, ◌==◌}
use s.ListHead.{Heap}

abbrev pub has : ℕ → List ℕ → Bool
has a [] = false
has a (x ∷ xs) = (a == x) || has a xs

-- From `p`, the `next` fields lead through `xs` to `stop`, and the `prev` fields lead back.
abbrev pub Links : Heap → ℕ → List ℕ → ℕ → Type 0
Links h p [] stop = (h.next p ≡ stop) × (h.prev stop ≡ p)
Links h p (x ∷ xs) stop = (h.next p ≡ x) × (h.prev x ≡ p) × Links h x xs stop

abbrev pub Distinct : List ℕ → Type 0
Distinct [] = Unit
Distinct (x ∷ xs) = (has x xs ≡ false) × Distinct xs

-- The list at `head` holds the nodes `xs`, in order.
pub record IsQueue (h : Heap) (head : ℕ) (xs : List ℕ) : Type 0 where
  pub links : Links h head xs head
  pub head_out : has head xs ≡ false
  pub distinct : Distinct xs

pub has-append : (a : ℕ) (xs ys : List ℕ) → has a (xs ++ ys) ≡ (has a xs || has a ys)
has-append a [] ys = refl
has-append a (x ∷ xs) ys = ground (arith, has-append a xs ys)

-- Links survive a change that spares their fields.
pub Links-frame :
    (h g : Heap) (p : ℕ) (xs : List ℕ) (stop : ℕ)
    → ((a : ℕ) → has a (p ∷ xs) ≡ true → g.next a ≡ h.next a)
    → ((a : ℕ) → has a (xs ++ stop ∷ []) ≡ true → g.prev a ≡ h.prev a)
    → Links h p xs stop
    → Links g p xs stop
Links-frame h g p [] stop n b l = ground (arith, n p, b stop)
Links-frame h g p (x ∷ xs) stop n b l = (
  ground (arith, n p),
  ground (arith, b x),
  Links-frame h g x xs stop (λ a i. n a (ground arith)) (λ a i. b a (ground arith)) l.2,
)

-- The node before the end is the start or one of the list.
pub prev-stop-has :
    (h : Heap) (p : ℕ) (xs : List ℕ) (stop : ℕ)
    → Links h p xs stop
    → has (h.prev stop) (p ∷ xs) ≡ true
prev-stop-has h p [] stop l = ground arith
prev-stop-has h p (x ∷ xs) stop l = ground (arith, prev-stop-has h x xs stop l.2)

pub Distinct-snoc : (xs : List ℕ) (a : ℕ) → Distinct xs → has a xs ≡ false → Distinct (xs ++ a ∷ [])
Distinct-snoc [] a d out = (refl, tt)
Distinct-snoc (x ∷ xs) a d out =
    (ground (arith, has-append x xs (a ∷ [])), Distinct-snoc xs a d.1 (ground arith))
