-- ===== src/Fat/Assign.antt =====
-- `fat_add_block` of fat.c: the fields that it writes when a block is free.
use s.Base.{
  List-cases, ℕ, ◌<◌, ◌≡◌, ◌≢◌, true, false, List, [], ◌∷◌, pos, ◌=ℤ◌, ◌+ℤ◌, ◌-ℤ◌, arith, ◌==◌,
  if◌then◌else◌, inl, inr, ap, ◌∙◌, subst, ◌⊎◌,
}
use s.ListHead.Links.{has}
use s.Fat.{Fat, eoc, max_files, fat_add_block}
use s.Fat.Chain.{Chain, last_of, IsValid, last_of-has}

-- The state that `fat_add_block` leaves.
abbrev pub after : Fat → ℕ → Fat
after fs f = (fat_add_block fs f).1

module _ (fs : Fat) (chain : ℕ → List ℕ) (f b : ℕ) (free : List ℕ) (v : IsValid fs chain (b ∷ free))
    (lt : f < max_files) where
  pub first : fs.first_free_block ≡ pos b
  first = v.frees.0

  -- How the call sees an empty file, and one with blocks.
  pub no_blocks : chain f ≡ [] → ((fs.root f).first_block ≡ eoc) × (last_of (chain f) ≡ eoc)
  no_blocks e =
      (subst (Chain fs.block_lists (fs.root f).first_block) e (v.files f lt), ap last_of e)

  pub some_blocks :
      (x : ℕ) (xs : List ℕ)
      → chain f ≡ x ∷ xs
      → ((fs.root f).first_block ≡ pos x)
        × ((y : ℕ) × ((fs.root f).last_block ≡ pos y)
            × (last_of (chain f) ≡ pos y)
            × (has y (chain f) ≡ true))
  some_blocks x xs e =
      let c = subst (Chain fs.block_lists (fs.root f).first_block) e (v.files f lt) in
      let (y, l, m) = last_of-has x xs in
      let ly : last_of (chain f) ≡ pos y = ap last_of e ∙ l in
      (c.0, (y, v.lasts f lt ∙ ly, ly, rw e m))

  -- How the call sees the file: with no block, or with a last one.
  pub ends :
      (((fs.root f).first_block ≡ eoc) × (last_of (chain f) ≡ eoc))
      ⊎ ((x : ℕ) × (y : ℕ) × ((fs.root f).first_block ≡ pos x)
          × ((fs.root f).last_block ≡ pos y)
          × (last_of (chain f) ≡ pos y)
          × (has y (chain f) ≡ true)
          × (has y (b ∷ free) ≡ false))
  ends = elim (List-cases (chain f)) [
    | inl e ↦ inl (no_blocks e)
    | inr (z, zs, e) ↦
        let (c, (y, l, m, i)) = some_blocks z zs e in inr (z, y, c, l, m, i, v.used f y lt i)
  ]

  pub last_mine : (x : ℕ) → last_of (chain f) ≡ pos x → has x (chain f) ≡ true
  last_mine x e = ground (arith, ends)

  -- The links that the call writes: that of the file's last block, if it has one, and the new
  -- one's.
  pub links_at :
      (x : ℕ)
      → (after fs f).block_lists x
        ≡ (if x == b then eoc else if last_of (chain f) =ℤ pos x then pos b else fs.block_lists x)
  unfolding fat_add_block
  links_at x = ground (arith, first, ends)

  pub root_at :
      (g : ℕ)
      → (((after fs f).root g).size ≡ (fs.root g).size)
        × (((after fs f).root g).name ≡ (fs.root g).name)
        × (((after fs f).root g).mode ≡ (fs.root g).mode)
  unfolding fat_add_block
  root_at g = ground (arith, first, ends)

  pub others_at :
      (g : ℕ)
      → g ≢ f
      → (((after fs f).root g).first_block ≡ (fs.root g).first_block)
        × (((after fs f).root g).last_block ≡ (fs.root g).last_block)
  unfolding fat_add_block
  others_at g ne = ground (arith, first, ends)

  pub rest_at :
      ((fat_add_block fs f).0 ≡ pos b)
      × (((after fs f).root f).last_block ≡ pos b)
      × ((after fs f).contents ≡ fs.contents)
      × ((after fs f).free_block_count ≡ fs.free_block_count -ℤ pos 1)
      × ((after fs f).used_block_count ≡ fs.used_block_count +ℤ pos 1)
  unfolding fat_add_block
  rest_at = ground (arith, first, ends)

  pub first_at :
      ((after fs f).root f).first_block
      ≡ (if (fs.root f).first_block =ℤ eoc then pos b else (fs.root f).first_block)
  unfolding fat_add_block
  first_at = ground (arith, first, ends)

  -- The block's link is read before it is ended, and it is not the file's last block.
  pub free_at :
      ((after fs f).first_free_block ≡ fs.block_lists b)
      × ((after fs f).last_free_block
          ≡ (if fs.block_lists b =ℤ eoc then eoc else fs.last_free_block))
  unfolding fat_add_block
  free_at = ground (arith, first, ends)
