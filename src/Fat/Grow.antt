-- ===== src/Fat/Grow.antt =====
-- `fat_add_block` of fat.c: a file grows by the first free block.
use s.Base.{
  List-cases, ℕ, ◌<◌, ◌≡◌, refl, ◌≢◌, true, false, List, [], ◌∷◌, ◌++◌, ℤ, pos, minus, ◌=ℤ◌, ◌+ℤ◌,
  ◌-ℤ◌, arith, ◌==◌, length-append, if◌then◌else◌, update, update_self, inl, inr, Bool-cases, sym,
  ap, ◌∙◌, subst, ==→≡,
}
use s.ListHead.Links.{has, Distinct, has-append, Distinct-snoc}
use s.Fat.{Fat, eoc, max_files, enospc, fat_add_block}
use s.Fat.Chain.{Chain, last_of, IsValid, Chain-frame, Chain-join, last_of-snoc}
use s.Fat.Assign.{
  after, no_blocks, some_blocks, ends, last_mine, links_at, root_at, others_at, rest_at, first_at,
  free_at,
}

-- The blocks of the files once the file `f` has got the block `b`.
abbrev pub grown : (ℕ → List ℕ) → ℕ → ℕ → ℕ → List ℕ
grown chain f b = update chain f (chain f ++ b ∷ [])

-- What adding a block to file `f` may do, with `free` the free blocks before.
pub data Added (fs : Fat) (chain : ℕ → List ℕ) (f : ℕ) : List ℕ → ℤ × Fat → Type 0 where
  full : Added fs chain f [] (minus enospc, fs)
  added :
      {b : ℕ} {free : List ℕ} {fs' : Fat}
      → fs'.contents ≡ fs.contents
      → ((g : ℕ)
          → ((fs'.root g).size ≡ (fs.root g).size)
            × ((fs'.root g).name ≡ (fs.root g).name)
            × ((fs'.root g).mode ≡ (fs.root g).mode))
      → fs'.free_block_count ≡ fs.free_block_count -ℤ pos 1
      → fs'.used_block_count ≡ fs.used_block_count +ℤ pos 1
      → IsValid fs' (grown chain f b) free
      → Added fs chain f (b ∷ free) (pos b, fs')

module _ (fs : Fat) (chain : ℕ → List ℕ) (f b : ℕ) (free : List ℕ) (v : IsValid fs chain (b ∷ free))
    (lt : f < max_files) where
  free_kept : Chain (after fs f).block_lists (after fs f).first_free_block free
  free_kept =
      subst (λ z. Chain (after fs f).block_lists z free) (sym (free_at fs chain f b free v lt).0)
        (Chain-frame fs.block_lists (after fs f).block_lists (fs.block_lists b) free
          (λ x i. links_at fs chain f b free v lt x ∙ spared x i) v.frees.1)
    where
      last_ne : (x : ℕ) → has x free ≡ true → last_of (chain f) =ℤ pos x ≡ false
      last_ne x i =
          ground
            (arith, ends fs chain f b free v lt, last_mine fs chain f b free v lt x, v.used f x lt)

      spared :
          (x : ℕ)
          → has x free ≡ true
          → (if x == b then eoc else if last_of (chain f) =ℤ pos x then pos b else fs.block_lists x)
            ≡ fs.block_lists x
      spared x i = ground (arith, last_ne x i, v.free_distinct.0)

  last_free_kept : (after fs f).last_free_block ≡ last_of free
  last_free_kept = (free_at fs chain f b free v lt).1 ∙ final free v.frees.1 v.last_free
    where
      final :
          (xs : List ℕ)
          → Chain fs.block_lists (fs.block_lists b) xs
          → fs.last_free_block ≡ last_of (b ∷ xs)
          → (if fs.block_lists b =ℤ eoc then eoc else fs.last_free_block) ≡ last_of xs
      final [] c e = rw c
      final (x ∷ xs) c e = rw c.0 e

  others_kept :
      (g : ℕ)
      → g < max_files
      → g ≢ f
      → Chain (after fs f).block_lists ((after fs f).root g).first_block (chain g)
  others_kept g lg ne =
      subst (λ z. Chain (after fs f).block_lists z (chain g))
        (sym (others_at fs chain f b free v lt g ne).0)
        (Chain-frame fs.block_lists (after fs f).block_lists (fs.root g).first_block (chain g)
          (λ x i. links_at fs chain f b free v lt x ∙ spared x i) (v.files g lg))
    where
      last_ne : (x : ℕ) → has x (chain g) ≡ true → last_of (chain f) =ℤ pos x ≡ false
      last_ne x i = ground (
        arith,
        ends fs chain f b free v lt,
        last_mine fs chain f b free v lt x,
        v.apart f g x lt lg,
      )

      spared :
          (x : ℕ)
          → has x (chain g) ≡ true
          → (if x == b then eoc else if last_of (chain f) =ℤ pos x then pos b else fs.block_lists x)
            ≡ fs.block_lists x
      spared x i = ground (arith, last_ne x i, v.used g x lg i)

  own_kept : Chain (after fs f).block_lists ((after fs f).root f).first_block (chain f ++ b ∷ [])
  own_kept = elim (List-cases (chain f)) [
    | inl e ↦ rw e (
      first_at fs chain f b free v lt ∙ rw (no_blocks fs chain f b free v lt e).0,
      links_at fs chain f b free v lt b ∙ ground arith,
    )
    | inr (z, zs, e) ↦
        let (c, (y, l, m, k)) = some_blocks fs chain f b free v lt z zs e in
        let h : Chain fs.block_lists (fs.root f).first_block (z ∷ zs) =
          subst (Chain fs.block_lists (fs.root f).first_block) e (v.files f lt) in
        let d : Distinct (z ∷ zs) = subst Distinct e (v.distinct f lt) in
        let head : ((after fs f).root f).first_block ≡ (fs.root f).first_block =
          first_at fs chain f b free v lt ∙ rw c in
        rw e (
          subst (λ t. Chain (after fs f).block_lists t ((z ∷ zs) ++ b ∷ [])) (sym head)
            (Chain-join fs.block_lists (after fs f).block_lists (fs.root f).first_block z zs (pos b)
              (b ∷ []) h d
              (λ x i n.
                links_at fs chain f b free v lt x
                ∙ own_spared x (rw e i) (λ p. n (ap last_of (sym e) ∙ p)))
              (λ x p. links_at fs chain f b free v lt x ∙ own_last x (ap last_of e ∙ p))
              (refl, links_at fs chain f b free v lt b ∙ ground arith)))
  ]
    where
      own_spared :
          (x : ℕ)
          → has x (chain f) ≡ true
          → last_of (chain f) ≢ pos x
          → (if x == b then eoc else if last_of (chain f) =ℤ pos x then pos b else fs.block_lists x)
            ≡ fs.block_lists x
      own_spared x i n = ground (arith, v.used f x lt i)

      own_last :
          (x : ℕ)
          → last_of (chain f) ≡ pos x
          → (if x == b then eoc else if last_of (chain f) =ℤ pos x then pos b else fs.block_lists x)
            ≡ pos b
      own_last x p = ground (arith, v.used f x lt (last_mine fs chain f b free v lt x p))

  after-IsValid : IsValid (after fs f) (grown chain f b) free
  unfolding update
  after-IsValid = record {
    files = λ g lg. elim (Bool-cases (g == f)) [
      | inl p ↦
          subst
            (λ t.
              Chain (after fs f).block_lists ((after fs f).root t).first_block (grown chain f b t))
            (sym (==→≡ g f p))
            (subst (Chain (after fs f).block_lists ((after fs f).root f).first_block)
              (sym (update_self chain f (chain f ++ b ∷ []))) own_kept)
      | inr p ↦ rw p (others_kept g lg (λ e. ground arith))
    ];
    lasts = λ g lg. elim (Bool-cases (g == f)) [
      | inl p ↦ rw p (
          ap (λ t. ((after fs f).root t).last_block) (==→≡ g f p)
          ∙ (rest_at fs chain f b free v lt).1
          ∙ sym (last_of-snoc (chain f) b))
      | inr p ↦ rw p ((others_at fs chain f b free v lt g (λ e. ground arith)).1 ∙ v.lasts g lg)
    ];
    frees = free_kept;
    last_free = last_free_kept;
    inside = λ g x lg i.
        ground (
          arith,
          has-append x (chain f) (b ∷ []),
          v.inside g x lg,
          v.inside f x lt,
          v.free_inside b,
        );
    free_inside = λ x i. v.free_inside x (ground arith);
    distinct = λ g lg. elim (Bool-cases (g == f)) [
      | inl p ↦ rw p (Distinct-snoc (chain f) b (v.distinct f lt) (ground (arith, v.used f b lt)))
      | inr p ↦ rw p (v.distinct g lg)
    ];
    free_distinct = v.free_distinct.1;
    apart = λ g k x lg lk ne i. ground (
      arith,
      has-append x (chain f) (b ∷ []),
      v.apart g k x lg lk ne,
      v.apart f k x lt lk,
      v.apart g f x lg lt,
      v.used g x lg,
      v.used k x lk,
      v.used k b lk,
    );
    used = λ g x lg i.
        ground
          (arith, has-append x (chain f) (b ∷ []), v.used g x lg, v.used f x lt, v.free_distinct.0);
    covers = λ g lg. ground (
      arith,
      root_at fs chain f b free v lt g,
      v.covers g lg,
      v.covers f lt,
      length-append (chain f) (b ∷ []),
    );
  }

-- On a valid file system and for a file number below 10, `fat_add_block` answers -ENOSPC and
-- changes nothing if no block is free; otherwise it takes the first free block, answers its number
-- and appends it to the file's chain. Every file's name, mode and size, the chains of the other
-- files and all data stay as they are, the counters follow, and the file system stays valid.
pub fat_add_block-Added :
    (fs : Fat) (chain : ℕ → List ℕ) (free : List ℕ) (f : ℕ)
    → IsValid fs chain free
    → f < max_files
    → Added fs chain f free (fat_add_block fs f)
fat_add_block-Added fs chain [] f v lt = unfold fat_add_block in rw v.frees full
fat_add_block-Added fs chain (b ∷ free) f v lt =
    subst (Added fs chain f (b ∷ free))
      (λ i. (sym (rest_at fs chain f b free v lt).0 i, after fs f))
      (added (rest_at fs chain f b free v lt).2 (root_at fs chain f b free v lt)
        (rest_at fs chain f b free v lt).3 (rest_at fs chain f b free v lt).4
        (after-IsValid fs chain f b free v lt))
