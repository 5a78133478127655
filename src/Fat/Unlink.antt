-- ===== src/Fat/Unlink.antt =====
-- `fat_unlink` of fat.c: what it does to the free blocks.
use s.Base.{
  ℕ, ◌<◌, ◌≡◌, ◌≢◌, true, false, List, ◌∷◌, ◌++◌, ℤ, pos, arith, ◌==◌, if◌then◌else◌, update, sym,
  ap, ◌∙◌, subst, ltb,
}
use s.ListHead.Links.{has, has-append}
use s.Fat.{Fat, max_files}
use s.Fat.Calls.{fat_unlink}
use s.Fat.Chain.{Chain, last_of, IsValid, Chain-frame, Chain-join, last_of-has}

-- A closed file removed while `y` is recorded as the last free block.
module _ (fs : Fat) (y f : ℕ) (l : fs.last_free_block ≡ pos y) (lt : f < max_files)
    (closed : (fs.root f).opens ≡ pos 0) where
  small : ltb max_files f ≡ false
  small = ground arith

  links_at :
      (b : ℕ)
      → (fat_unlink fs f).1.block_lists b
        ≡ (if b == y then (fs.root f).first_block else fs.block_lists b)
  unfolding fat_unlink update
  links_at b = ground (arith, small)

  kept :
      ((fat_unlink fs f).0 ≡ pos 0)
      × ((fat_unlink fs f).1.first_free_block ≡ fs.first_free_block)
      × ((fat_unlink fs f).1.last_free_block ≡ fs.last_free_block)
      × ((g : ℕ) → g ≢ f → (fat_unlink fs f).1.root g ≡ fs.root g)
  unfolding fat_unlink update
  kept = (
    ground (arith, small),
    ground (arith, small),
    ground (arith, small),
    λ g ne. ground (arith, small),
  )

module _ (fs : Fat) (chain : ℕ → List ℕ) (x : ℕ) (xs : List ℕ) (v : IsValid fs chain (x ∷ xs)) where
  last :
      (y : ℕ) × (fs.last_free_block ≡ pos y) × (last_of (x ∷ xs) ≡ pos y) × (has y (x ∷ xs) ≡ true)
  last = let (y, e, i) = last_of-has x xs in (y, v.last_free ∙ e, e, i)

  -- Links that differ only behind the last free block lead through the free blocks to a file's.
  joined :
      (m : ℕ → ℤ) (f y : ℕ)
      → f < max_files
      → last_of (x ∷ xs) ≡ pos y
      → has y (x ∷ xs) ≡ true
      → ((b : ℕ) → m b ≡ (if b == y then (fs.root f).first_block else fs.block_lists b))
      → Chain m fs.first_free_block ((x ∷ xs) ++ chain f)
  joined m f y lt e i at =
      Chain-join fs.block_lists m fs.first_free_block x xs (fs.root f).first_block (chain f) v.frees
        v.free_distinct (λ b k n. at b ∙ ground arith) (λ b k. at b ∙ ground arith)
        (Chain-frame fs.block_lists m (fs.root f).first_block (chain f)
          (λ b k. at b ∙ ground (arith, v.used f b lt k)) (v.files f lt))

  module _ (f : ℕ) (lt : f < max_files) (closed : (fs.root f).opens ≡ pos 0) where
    -- While some block is free, removing a file that is not open from a valid file system succeeds,
    -- leaves the other files' entries alone and puts the file's blocks, in order, behind the free
    -- ones.
    pub fat_unlink-free :
        ((fat_unlink fs f).0 ≡ pos 0)
        × ((g : ℕ) → g ≢ f → (fat_unlink fs f).1.root g ≡ fs.root g)
        × Chain
            (fat_unlink fs f).1.block_lists
            (fat_unlink fs f).1.first_free_block
            ((x ∷ xs) ++ chain f)
    fat_unlink-free =
        let (y, l, e, i) = last in
        let k = kept fs y f l lt closed in
        (
          k.0,
          k.3,
          subst (λ z. Chain (fat_unlink fs f).1.block_lists z ((x ∷ xs) ++ chain f)) (sym k.1)
              (joined (fat_unlink fs f).1.block_lists f y lt e i (links_at fs y f l lt closed)),
        )

    -- On a valid file system with a free block, `fat_unlink` of two different files that are not
    -- open leaves the free list without the first one's blocks: the second one's blocks stand
    -- behind the free blocks, and no block of the first file is among them.
    pub fat_unlink-loses :
        (g : ℕ)
        → g < max_files
        → g ≢ f
        → (fs.root g).opens ≡ pos 0
        → let twice = (fat_unlink (fat_unlink fs f).1 g).1 in
          Chain twice.block_lists twice.first_free_block ((x ∷ xs) ++ chain g)
          × ((b : ℕ) → has b (chain f) ≡ true → has b ((x ∷ xs) ++ chain g) ≡ false)
    fat_unlink-loses g lg ne open' =
        let (y, l, e, i) = last in
        let k = kept fs y f l lt closed in
        let fs' = (fat_unlink fs f).1 in
        let same : fs'.root g ≡ fs.root g = k.3 g ne in
        let l' : fs'.last_free_block ≡ pos y = k.2 ∙ l in
        let still : (fs'.root g).opens ≡ pos 0 = ap (λ d. d.opens) same ∙ open' in
        let k' = kept fs' y g l' lg still in
        let m = (fat_unlink fs' g).1.block_lists in
        (
          subst (λ z. Chain m z ((x ∷ xs) ++ chain g)) (sym (k'.1 ∙ k.1))
              (joined m g y lg e i (λ b.
                links_at fs' y g l' lg still b
                ∙ ground (arith, links_at fs y f l lt closed b, ap (λ d. d.first_block) same))),
          λ b h. ground (
            arith,
            has-append b (x ∷ xs) (chain g),
            v.used f b lt h,
            v.apart f g b lt lg (λ p. ne (sym p)) h,
          ),
        )
