-- ===== src/ListHead/Queue.antt =====
-- The tests of include/list.h on a list, and what an operation on one list leaves of another.
use s.Base.{ℕ, ◌≡◌, ◌≢◌, true, false, List, [], ◌∷◌, ◌++◌, arith}
use s.ListHead.{Heap, list_add, list_add_tail, list_del, init_list_head, list_empty, list_first}
use s.ListHead.Links.{has, IsQueue, Links-frame, has-append, prev-stop-has}
use s.ListHead.Delete.{mid-Links}

pub list_empty-nil : (h : Heap) (head : ℕ) → IsQueue h head [] → list_empty h head ≡ true
list_empty-nil h head q = ground arith

pub list_empty-cons :
    (h : Heap) (head x : ℕ) (xs : List ℕ) → IsQueue h head (x ∷ xs) → list_empty h head ≡ false
list_empty-cons h head x xs q = ground (arith, q.head_out)

pub list_first-cons :
    (h : Heap) (head x : ℕ) (xs : List ℕ) → IsQueue h head (x ∷ xs) → list_first h head ≡ x
list_first-cons h head x xs q = q.links.0

-- Two heaps agree on a node's fields.
abbrev pub SameAt : Heap → Heap → ℕ → Type 0
SameAt h g a = (g.next a ≡ h.next a) × (g.prev a ≡ h.prev a)

-- A list is a list still in a heap that agrees on its nodes.
pub IsQueue-frame :
    (h g : Heap) (head : ℕ) (xs : List ℕ)
    → ((a : ℕ) → has a (head ∷ xs) ≡ true → SameAt h g a)
    → IsQueue h head xs
    → IsQueue g head xs
IsQueue-frame h g head xs same q = record {
  links =
      Links-frame h g head xs head (λ a i. (same a i).0)
        (λ a i. (same a (ground (arith, has-append a xs (head ∷ [])))).1) q.links;
  head_out = q.head_out;
  distinct = q.distinct;
}

module _ (h : Heap) (head : ℕ) where
  pub init_list_head-SameAt : (a : ℕ) → a ≢ head → SameAt h (init_list_head h head) a
  unfolding init_list_head
  init_list_head-SameAt a ne = ground arith

  pub list_add-SameAt :
      (new : ℕ) (xs : List ℕ)
      → IsQueue h head xs
      → (a : ℕ) → has a (new ∷ head ∷ xs) ≡ false
      → SameAt h (list_add h new head) a
  unfolding list_add
  list_add-SameAt new [] q a out = ground arith
  list_add-SameAt new (x ∷ xs) q a out = ground arith

  pub list_add_tail-SameAt :
      (new : ℕ) (xs : List ℕ)
      → IsQueue h head xs
      → (a : ℕ) → has a (new ∷ head ∷ xs) ≡ false
      → SameAt h (list_add_tail h new head) a
  unfolding list_add_tail
  list_add_tail-SameAt new xs q a out = ground (arith, prev-stop-has h head xs head q.links)

  pub list_del-SameAt :
      (xs : List ℕ) (e : ℕ) (ys : List ℕ)
      → IsQueue h head (xs ++ e ∷ ys)
      → (a : ℕ) → has a (head ∷ (xs ++ e ∷ ys)) ≡ false
      → SameAt h (list_del h e) a
  unfolding list_del
  list_del-SameAt xs e ys q a out = ground (
    arith,
    mid-Links h head xs e ys head q.links,
    has-append a xs (e ∷ ys),
    has-append (h.next e) ys (head ∷ []),
  )
