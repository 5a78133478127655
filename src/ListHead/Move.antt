-- ===== src/ListHead/Move.antt =====
-- Moving a node from wherever it stands in one list to the end of another.
use s.Base.{
  ℕ, ◌≡◌, refl, Bool, true, List, [], ◌∷◌, ◌++◌, arith, ◌==◌, if◌then◌else◌, update, sym, ==→≡,
  Bool-cases, inl, inr, ap, ◌≢◌,
}
use s.ListHead.{Heap, list_del, list_add_tail}
use s.ListHead.Links.{has}
use s.ListHead.Queues.{IsQueues, Out, list_del-IsQueues, list_add_tail-IsQueues}

-- The list without the first place of `e`.
unfoldable pub erase : ℕ → List ℕ → List ℕ
erase e [] = []
erase e (x ∷ xs) = if e == x then xs else x ∷ erase e xs

-- The places around a node of the list.
pub record Split (e : ℕ) (zs : List ℕ) : Type 0 where
  pub front : List ℕ
  pub back : List ℕ
  pub whole : zs ≡ front ++ e ∷ back
  pub less : erase e zs ≡ front ++ back

pub split : (e : ℕ) (zs : List ℕ) → has e zs ≡ true → Split e zs
unfolding erase
split e [] m = cc
split e (x ∷ xs) m = elim (Bool-cases (e == x)) [
  | inl p ↦ record {
    front = [];
    back = xs;
    whole = ap (λ y. y ∷ xs) (sym (==→≡ e x p));
    less = rw p;
  }
  | inr p ↦
      let r = split e xs (ground arith) in
      record {
        front = x ∷ r.front;
        back = r.back;
        whole = ap (λ l. x ∷ l) r.whole;
        less = rw p (ap (λ l. x ∷ l) r.less);
      }
]

pub has-erase : (a e : ℕ) (zs : List ℕ) → a ≢ e → has a (erase e zs) ≡ has a zs
unfolding erase
has-erase a e [] ne = refl
has-erase a e (x ∷ xs) ne = ground (arith, has-erase a e xs ne)

-- The lists after `e` has gone from the list `i`, and after it has come to the end of the list `j`.
abbrev pub without : (ℕ → List ℕ) → ℕ → ℕ → ℕ → List ℕ
without q i e = update q i (erase e (q i))

abbrev pub at_end : (ℕ → List ℕ) → ℕ → ℕ → ℕ → List ℕ
at_end q j e = update q j (q j ++ e ∷ [])

abbrev pub move : (ℕ → List ℕ) → (i j e : ℕ) → ℕ → List ℕ
move q i j e = at_end (without q i e) j e

module _ (is_node is_head : ℕ → Bool) (h : Heap) (q : ℕ → List ℕ)
    (v : IsQueues is_node is_head h q) where
  pub del-IsQueues :
      (i e : ℕ)
      → is_head i ≡ true
      → has e (q i) ≡ true
      → IsQueues is_node is_head (list_del h e) (without q i e)
        × Out is_node is_head (without q i e) e
  del-IsQueues i e hi m =
      let r = split e (q i) m in
      rw (r.less) (list_del-IsQueues is_node is_head h q v i r.front e r.back hi r.whole)

  pub requeue-IsQueues :
      (i j e : ℕ)
      → is_head i ≡ true
      → is_head j ≡ true
      → has e (q i) ≡ true
      → IsQueues is_node is_head (list_add_tail (list_del h e) e j) (move q i j e)
  requeue-IsQueues i j e hi hj m =
      let d = del-IsQueues i e hi m in
      list_add_tail-IsQueues is_node is_head (list_del h e) (without q i e) d.0 j e hj d.1
