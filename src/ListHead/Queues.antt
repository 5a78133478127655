-- ===== src/ListHead/Queues.antt =====
-- A heap that holds several lists at once: one for each head, over nodes that are never heads, and
-- no node in two of them.
use s.Base.{
  ℕ, ◌≡◌, ◌≢◌, Bool, true, false, List, [], ◌∷◌, ◌++◌, arith, ◌==◌, update, Bool-cases, inl, inr,
  subst, sym, ==→≡, update_self, ap, ◌∙◌,
}
use s.ListHead.{Heap, list_add, list_add_tail, list_del, init_list_head}
use s.ListHead.Links.{has, IsQueue, has-append}
use s.ListHead.Insert.{list_add-IsQueue, list_add_tail-IsQueue, init_list_head-IsQueue}
use s.ListHead.Delete.{list_del-IsQueue, has-mid}
use s.ListHead.Queue.{
  IsQueue-frame, list_add-SameAt, list_add_tail-SameAt, list_del-SameAt, init_list_head-SameAt,
}

module _ (is_node is_head : ℕ → Bool) where
  -- `q i` is what the list at the head `i` holds.
  pub record IsQueues (h : Heap) (q : ℕ → List ℕ) : Type 0 where
    pub each : (i : ℕ) → is_head i ≡ true → IsQueue h i (q i)
    pub heads : (i : ℕ) → is_head i ≡ true → is_node i ≡ false
    pub nodes : (i a : ℕ) → is_head i ≡ true → has a (q i) ≡ true → is_node a ≡ true
    pub apart :
        (i j a : ℕ)
        → is_head i ≡ true
        → is_head j ≡ true
        → i ≢ j
        → has a (q i) ≡ true
        → has a (q j) ≡ false

  -- The node `e` is in no list.
  abbrev pub Out : (ℕ → List ℕ) → ℕ → Type 0
  Out q e = (is_node e ≡ true) × ((i : ℕ) → is_head i ≡ true → has e (q i) ≡ false)

  module _ (h : Heap) (q : ℕ → List ℕ) (v : IsQueues h q) where
    -- A node that is not of the list `i` keeps out of `i`'s nodes.
    other_out :
        (i j a : ℕ)
        → is_head i ≡ true
        → is_head j ≡ true
        → i ≢ j
        → has a (j ∷ q j) ≡ true
        → has a (i ∷ q i) ≡ false
    other_out i j a hi hj ne m = elim (Bool-cases (a == j)) [
      | inl e ↦ ground (arith, v.nodes i a hi, v.heads j hj)
      | inr e ↦ ground (arith, v.apart j i a hj hi, v.nodes j a hj, v.heads i hi)
    ]

    new-Out : (i e : ℕ) → is_head i ≡ true → Out q e → has e (i ∷ q i) ≡ false
    new-Out i e hi out = ground (arith, out.1 i hi, v.heads i hi)

    -- A node of another list is neither the new node nor one of this list.
    add-Out :
        (i j e a : ℕ)
        → is_head i ≡ true
        → is_head j ≡ true
        → j ≢ i
        → Out q e
        → has a (j ∷ q j) ≡ true
        → has a (e ∷ i ∷ q i) ≡ false
    add-Out i j e a hi hj ne out m =
        ground (arith, out.1 j hj, v.heads j hj, other_out i j a hi hj (λ s. ne (sym s)) m)

    -- One list is changed, and the others are kept.
    IsQueues-update :
        (g : Heap) (i : ℕ) (zs : List ℕ)
        → is_head i ≡ true
        → IsQueue g i zs
        → ((j : ℕ) → is_head j ≡ true → j ≢ i → IsQueue g j (q j))
        → ((a : ℕ) → has a zs ≡ true → is_node a ≡ true)
        → ((a j : ℕ) → has a zs ≡ true → is_head j ≡ true → j ≢ i → has a (q j) ≡ false)
        → IsQueues g (update q i zs)
    unfolding update
    IsQueues-update g i zs hi mine others all sep = record {
      each = λ j hj. elim (Bool-cases (j == i)) [
        | inl p ↦
            subst (λ t. IsQueue g t (update q i zs t)) (sym (==→≡ j i p))
              (subst (IsQueue g i) (sym (update_self q i zs)) mine)
        | inr p ↦ rw p (others j hj (ground arith))
      ];
      heads = v.heads;
      nodes = λ j a hj m. ground (arith, v.nodes j a, all a);
      apart = λ j k a hj hk ne m. ground (arith, v.apart j k a, sep a k, sep a j);
    }

    pub list_del-IsQueues :
        (i : ℕ) (xs : List ℕ) (e : ℕ) (ys : List ℕ)
        → is_head i ≡ true
        → q i ≡ xs ++ e ∷ ys
        → IsQueues (list_del h e) (update q i (xs ++ ys)) × Out (update q i (xs ++ ys)) e
    list_del-IsQueues i xs e ys hi eq =
        let old : IsQueue h i (xs ++ e ∷ ys) = subst (IsQueue h i) eq (v.each i hi) in
        let sub : (a : ℕ) → has a (xs ++ ys) ≡ true → has a (q i) ≡ true =
          λ a m. rw eq (ground (arith, has-append a xs (e ∷ ys), has-append a xs ys)) in
        let at : has e (q i) ≡ true = rw eq (ground (arith, has-append e xs (e ∷ ys))) in
        (
          IsQueues-update (list_del h e) i (xs ++ ys) hi (list_del-IsQueue h i xs e ys old)
              (λ j hj ne.
                IsQueue-frame h (list_del h e) j (q j)
                  (λ a m.
                    list_del-SameAt h i xs e ys old a
                      (rw (← eq) (other_out i j a hi hj (λ s. ne (sym s)) m)))
                  (v.each j hj))
              (λ a m. v.nodes i a hi (sub a m))
              (λ a j m hj ne. v.apart i j a hi hj (λ s. ne (sym s)) (sub a m)),
          (
            v.nodes i e hi at,
            λ j hj.
                unfold update in ground (arith, has-mid xs e ys old.distinct, v.apart i j e hi hj),
          ),
        )

    pub list_add_tail-IsQueues :
        (i e : ℕ)
        → is_head i ≡ true
        → Out q e
        → IsQueues (list_add_tail h e i) (update q i (q i ++ e ∷ []))
    list_add_tail-IsQueues i e hi out =
        IsQueues-update (list_add_tail h e i) i (q i ++ e ∷ []) hi
          (list_add_tail-IsQueue h e i (q i) (v.each i hi) (new-Out i e hi out))
          (λ j hj ne.
            IsQueue-frame h (list_add_tail h e i) j (q j)
              (λ a m.
                list_add_tail-SameAt h i e (q i) (v.each i hi) a (add-Out i j e a hi hj ne out m))
              (v.each j hj))
          (λ a m. ground (arith, has-append a (q i) (e ∷ []), v.nodes i a hi))
          (λ a j m hj ne.
            ground (arith, has-append a (q i) (e ∷ []), v.apart i j a hi hj, out.1 j hj))

    pub list_add-IsQueues :
        (i e : ℕ) → is_head i ≡ true → Out q e → IsQueues (list_add h e i) (update q i (e ∷ q i))
    list_add-IsQueues i e hi out =
        IsQueues-update (list_add h e i) i (e ∷ q i) hi
          (list_add-IsQueue h e i (q i) (v.each i hi) (new-Out i e hi out))
          (λ j hj ne.
            IsQueue-frame h (list_add h e i) j (q j)
              (λ a m. list_add-SameAt h i e (q i) (v.each i hi) a (add-Out i j e a hi hj ne out m))
              (v.each j hj))
          (λ a m. ground (arith, v.nodes i a hi))
          (λ a j m hj ne. ground (arith, v.apart i j a hi hj, out.1 j hj))

-- Lists that are no longer looked at do not matter.
pub weaken-IsQueues :
    (is_node is_head is_head' : ℕ → Bool) (h : Heap) (q : ℕ → List ℕ)
    → ((i : ℕ) → is_head' i ≡ true → is_head i ≡ true)
    → IsQueues is_node is_head h q
    → IsQueues is_node is_head' h q
weaken-IsQueues is_node is_head is_head' h q sub v = record {
  each = λ i hi. v.each i (sub i hi);
  heads = λ i hi. v.heads i (sub i hi);
  nodes = λ i a hi m. v.nodes i a (sub i hi) m;
  apart = λ i j a hi hj ne m. v.apart i j a (sub i hi) (sub j hj) ne m;
}

-- A list head that is made anew is an empty list beside the others.
pub init-IsQueues :
    (is_node is_head is_head' : ℕ → Bool) (h : Heap) (q : ℕ → List ℕ) (i : ℕ)
    → ((j : ℕ) → is_head' j ≡ true → j ≢ i → is_head j ≡ true)
    → is_node i ≡ false
    → IsQueues is_node is_head h q
    → IsQueues is_node is_head' (init_list_head h i) (update q i [])
unfolding update
init-IsQueues is_node is_head is_head' h q i sub no_node v = record {
  each = λ j hj. elim (Bool-cases (j == i)) [
    | inl p ↦ rw p (
        subst (λ t. IsQueue (init_list_head h i) t []) (sym (==→≡ j i p))
          (init_list_head-IsQueue h i))
    | inr p ↦ rw p (
        IsQueue-frame h (init_list_head h i) j (q j)
          (λ a m.
            init_list_head-SameAt h i a
              (λ e. ground (arith, v.nodes j a (sub j hj (ground arith)), ap is_node e)))
          (v.each j (sub j hj (ground arith))))
  ];
  heads = λ j hj. elim (Bool-cases (j == i)) [
    | inl p ↦ ap is_node (==→≡ j i p) ∙ no_node
    | inr p ↦ v.heads j (sub j hj (ground arith))
  ];
  nodes = λ j a hj m. ground (arith, v.nodes j a, sub j hj);
  apart = λ j k a hj hk ne m. ground (arith, v.apart j k a, sub j hj, sub k hk);
}
