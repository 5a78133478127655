-- ===== src/ListHead/Insert.antt =====
-- `list_add` and `list_add_tail` of include/list.h: the list that they leave.
use s.Base.{ℕ, ◌≡◌, false, List, [], ◌∷◌, ◌++◌, arith}
use s.ListHead.{Heap, list_add, list_add_tail, init_list_head}
use s.ListHead.Links.{
  has, Links, Distinct, IsQueue, has-append, Links-frame, prev-stop-has, Distinct-snoc,
}

-- `INIT_LIST_HEAD` leaves a well-formed empty list, whatever stood there.
pub init_list_head-IsQueue : (h : Heap) (list : ℕ) → IsQueue (init_list_head h list) list []
unfolding init_list_head
init_list_head-IsQueue h list = ground arith

add-Links :
    (h : Heap) (new head : ℕ) (xs : List ℕ)
    → IsQueue h head xs
    → has new (head ∷ xs) ≡ false
    → Links (list_add h new head) head (new ∷ xs) head
unfolding list_add
add-Links h new head [] q out = ground arith
add-Links h new head (x ∷ xs) q out = (
  ground arith,
  ground arith,
  (
    ground arith,
    ground arith,
    Links-frame h (list_add h new head) x xs head (λ a i. ground arith)
        (λ a i. ground (arith, has-append a xs (head ∷ []))) q.links.2,
  ),
)

-- `list_add` of a node that is neither the head nor in a well-formed list leaves the well-formed
-- list with the new node in front.
pub list_add-IsQueue :
    (h : Heap) (new head : ℕ) (xs : List ℕ)
    → IsQueue h head xs
    → has new (head ∷ xs) ≡ false
    → IsQueue (list_add h new head) head (new ∷ xs)
list_add-IsQueue h new head xs q out = record {
  links = add-Links h new head xs q out;
  head_out = ground (arith, q.head_out);
  distinct = (ground arith, q.distinct);
}

snoc-Links :
    (h : Heap) (new p : ℕ) (xs : List ℕ) (stop : ℕ)
    → Links h p xs stop
    → has p xs ≡ false
    → has stop xs ≡ false
    → Distinct xs
    → has new (p ∷ stop ∷ xs) ≡ false
    → Links (list_add_tail h new stop) p (xs ++ new ∷ []) stop
unfolding list_add_tail
snoc-Links h new p [] stop l po so d out = ground arith
snoc-Links h new p (x ∷ xs) stop l po so d out = (
  ground (arith, prev-stop-has h x xs stop l.2),
  ground arith,
  snoc-Links h new x xs stop l.2 d.0 (ground arith) d.1 (ground arith),
)

-- `list_add_tail` of a node that is neither the head nor in a well-formed list leaves the
-- well-formed list with the new node at its end.
pub list_add_tail-IsQueue :
    (h : Heap) (new head : ℕ) (xs : List ℕ)
    → IsQueue h head xs
    → has new (head ∷ xs) ≡ false
    → IsQueue (list_add_tail h new head) head (xs ++ new ∷ [])
list_add_tail-IsQueue h new head xs q out = record {
  links = snoc-Links h new head xs head q.links q.head_out q.head_out q.distinct (ground arith);
  head_out = ground (arith, q.head_out, has-append head xs (new ∷ []));
  distinct = Distinct-snoc xs new q.distinct (ground arith);
}
