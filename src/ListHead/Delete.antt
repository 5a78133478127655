-- ===== src/ListHead/Delete.antt =====
-- `list_del` of include/list.h: the list that it leaves.
use s.Base.{ℕ, ◌≡◌, true, false, List, [], ◌∷◌, ◌++◌, arith}
use s.ListHead.{Heap, list_del}
use s.ListHead.Links.{has, Links, Distinct, IsQueue, has-append, Links-frame}

-- The node after the start is one of the list or the end.
next-start-has :
    (h : Heap) (p : ℕ) (xs : List ℕ) (stop : ℕ)
    → Links h p xs stop
    → has (h.next p) (xs ++ stop ∷ []) ≡ true
next-start-has h p [] stop l = ground arith
next-start-has h p (x ∷ xs) stop l = ground arith

-- Inside a chain, a node's neighbours are nodes of the chain.
pub mid-Links :
    (h : Heap) (p : ℕ) (xs : List ℕ) (e : ℕ) (ys : List ℕ) (stop : ℕ)
    → Links h p (xs ++ e ∷ ys) stop
    → (has (h.prev e) (p ∷ xs) ≡ true) × (has (h.next e) (ys ++ stop ∷ []) ≡ true)
mid-Links h p [] e ys stop l = (ground arith, next-start-has h e ys stop l.2)
mid-Links h p (x ∷ xs) e ys stop l = ground (arith, mid-Links h x xs e ys stop l.2)

-- The rest of a chain behind a deleted node.
after-Links :
    (h : Heap) (p e : ℕ) (ys : List ℕ) (stop : ℕ)
    → Links h p (e ∷ ys) stop
    → has e (p ∷ stop ∷ ys) ≡ false
    → has p ys ≡ false
    → has stop ys ≡ false
    → Distinct ys
    → Links (list_del h e) p ys stop
unfolding list_del
after-Links h p e [] stop l eo po so d = ground arith
after-Links h p e (y ∷ ys) stop l eo po so d = (
  ground arith,
  ground arith,
  Links-frame h (list_del h e) y ys stop (λ a i. ground arith)
      (λ a i. ground (arith, has-append a ys (stop ∷ []))) l.2.2,
)

del-Links :
    (h : Heap) (p : ℕ) (xs : List ℕ) (e : ℕ) (ys : List ℕ) (stop : ℕ)
    → Links h p (xs ++ e ∷ ys) stop
    → has p (xs ++ e ∷ ys) ≡ false
    → has stop (xs ++ e ∷ ys) ≡ false
    → Distinct (xs ++ e ∷ ys)
    → Links (list_del h e) p (xs ++ ys) stop
del-Links h p [] e ys stop l po so d =
    after-Links h p e ys stop l (ground arith) (ground arith) (ground arith) d.1
del-Links h p (x ∷ xs) e ys stop l po so d = (
  unfold list_del in ground (arith, mid-Links h x xs e ys stop l.2, has-append p xs (e ∷ ys)),
  unfold list_del in
      ground (
        arith,
        mid-Links h x xs e ys stop l.2,
        has-append x xs (e ∷ ys),
        has-append (h.next e) ys (stop ∷ []),
      ),
  del-Links h x xs e ys stop l.2 d.0 (ground arith) d.1,
)

has-del :
    (a : ℕ) (xs : List ℕ) (e : ℕ) (ys : List ℕ)
    → has a (xs ++ e ∷ ys) ≡ false
    → has a (xs ++ ys) ≡ false
has-del a xs e ys o = ground (arith, has-append a xs (e ∷ ys), has-append a xs ys)

Distinct-del : (xs : List ℕ) (e : ℕ) (ys : List ℕ) → Distinct (xs ++ e ∷ ys) → Distinct (xs ++ ys)
Distinct-del [] e ys d = d.1
Distinct-del (x ∷ xs) e ys d = (has-del x xs e ys d.0, Distinct-del xs e ys d.1)

-- `list_del` of a node that stands in a well-formed list, wherever it stands, leaves the
-- well-formed list of the other nodes in the same order.
pub list_del-IsQueue :
    (h : Heap) (head : ℕ) (xs : List ℕ) (e : ℕ) (ys : List ℕ)
    → IsQueue h head (xs ++ e ∷ ys)
    → IsQueue (list_del h e) head (xs ++ ys)
list_del-IsQueue h head xs e ys q = record {
  links = del-Links h head xs e ys head q.links q.head_out q.head_out q.distinct;
  head_out = has-del head xs e ys q.head_out;
  distinct = Distinct-del xs e ys q.distinct;
}

-- A deleted node is in no place of the list that is left.
pub has-mid :
    (xs : List ℕ) (e : ℕ) (ys : List ℕ) → Distinct (xs ++ e ∷ ys) → has e (xs ++ ys) ≡ false
has-mid [] e ys d = d.0
has-mid (x ∷ xs) e ys d = ground (arith, has-append x xs (e ∷ ys), has-mid xs e ys d.1)
