-- ===== src/Fat/Chain.antt =====
-- What the links of fat.c stand for: each file's blocks and the free blocks, in order, with no
-- block in two places.
use s.Base.{
  ℕ, zero, suc, ◌*◌, ◌<◌, ◌≤◌, ◌≡◌, refl, ◌≢◌, true, false, List, [], ◌∷◌, ◌++◌, ℤ, pos, arith,
  length, sym, ap, ◌∙◌, subst,
}
use s.ListHead.Links.{has, Distinct}
use s.Fat.{Fat, eoc, max_blocks, max_files, block_size, follow, fat_translate_block}

-- From the value `b`, the links lead through the blocks `xs` to the end of the chain.
abbrev pub Chain : (ℕ → ℤ) → ℤ → List ℕ → Type 0
Chain links b [] = b ≡ eoc
Chain links b (x ∷ xs) = (b ≡ pos x) × Chain links (links x) xs

abbrev pub last_of : List ℕ → ℤ
last_of [] = eoc
last_of (x ∷ []) = pos x
last_of (x ∷ y ∷ xs) = last_of (y ∷ xs)

-- `chain f` is the blocks of file `f`, and `free` the free ones.
pub record IsValid (fs : Fat) (chain : ℕ → List ℕ) (free : List ℕ) : Type 0 where
  pub files : (f : ℕ) → f < max_files → Chain fs.block_lists (fs.root f).first_block (chain f)
  pub lasts : (f : ℕ) → f < max_files → (fs.root f).last_block ≡ last_of (chain f)
  pub frees : Chain fs.block_lists fs.first_free_block free
  pub last_free : fs.last_free_block ≡ last_of free
  pub inside : (f b : ℕ) → f < max_files → has b (chain f) ≡ true → b < max_blocks
  pub free_inside : (b : ℕ) → has b free ≡ true → b < max_blocks
  pub distinct : (f : ℕ) → f < max_files → Distinct (chain f)
  pub free_distinct : Distinct free
  pub apart :
      (f g b : ℕ)
      → f < max_files
      → g < max_files
      → f ≢ g
      → has b (chain f) ≡ true
      → has b (chain g) ≡ false
  pub used : (f b : ℕ) → f < max_files → has b (chain f) ≡ true → has b free ≡ false
  pub covers : (f : ℕ) → f < max_files → (fs.root f).size ≤ block_size * length (chain f)

-- Where the n-th block of a chain is.
abbrev pub block_at : List ℕ → ℕ → ℤ
block_at [] n = eoc
block_at (x ∷ xs) zero = pos x
block_at (x ∷ xs) (suc n) = block_at xs n

follow-end : (links : ℕ → ℤ) (n : ℕ) → follow links eoc n ≡ eoc
unfolding follow
follow-end links zero = refl
follow-end links (suc n) = refl

follow-block_at :
    (links : ℕ → ℤ) (b : ℤ) (xs : List ℕ) (n : ℕ)
    → Chain links b xs
    → follow links b n ≡ block_at xs n
unfolding follow
follow-block_at links b [] n c = ap (λ z. follow links z n) c ∙ follow-end links n
follow-block_at links b (x ∷ xs) zero c = c.0
follow-block_at links b (x ∷ xs) (suc n) c =
    ap (λ z. follow links z (suc n)) c.0 ∙ follow-block_at links (links x) xs n c.1

-- On a valid file system and for a file number below 10, `fat_translate_block` answers the n-th
-- block of the file, and EOC at or behind its end.
pub translate-block_at :
    (fs : Fat) (chain : ℕ → List ℕ) (free : List ℕ) (f n : ℕ)
    → IsValid fs chain free
    → f < max_files
    → fat_translate_block fs f n ≡ block_at (chain f) n
unfolding fat_translate_block
translate-block_at fs chain free f n v lt =
    follow-block_at fs.block_lists (fs.root f).first_block (chain f) n (v.files f lt)

-- A chain survives a change of links that are not its own.
pub Chain-frame :
    (l m : ℕ → ℤ) (b : ℤ) (xs : List ℕ)
    → ((x : ℕ) → has x xs ≡ true → m x ≡ l x)
    → Chain l b xs
    → Chain m b xs
Chain-frame l m b [] same c = c
Chain-frame l m b (x ∷ xs) same c = (
  c.0,
  Chain-frame l m (m x) xs (λ y i. same y (ground arith))
      (subst (λ z. Chain l z xs) (sym (same x (ground arith))) c.1),
)

pub last_of-snoc : (xs : List ℕ) (b : ℕ) → last_of (xs ++ b ∷ []) ≡ pos b
last_of-snoc [] b = refl
last_of-snoc (x ∷ []) b = refl
last_of-snoc (x ∷ y ∷ xs) b = last_of-snoc (y ∷ xs) b

pub last_of-has :
    (x : ℕ) (xs : List ℕ) → (b : ℕ) × (last_of (x ∷ xs) ≡ pos b) × (has b (x ∷ xs) ≡ true)
last_of-has x [] = (x, refl, ground arith)
last_of-has x (y ∷ xs) = let (b, e, i) = last_of-has y xs in (b, e, ground arith)

-- Writing a link behind the last block of a chain joins another chain to it.
pub Chain-join :
    (l m : ℕ → ℤ) (b : ℤ) (x : ℕ) (xs : List ℕ) (c : ℤ) (ys : List ℕ)
    → Chain l b (x ∷ xs)
    → Distinct (x ∷ xs)
    → ((y : ℕ) → has y (x ∷ xs) ≡ true → last_of (x ∷ xs) ≢ pos y → m y ≡ l y)
    → ((y : ℕ) → last_of (x ∷ xs) ≡ pos y → m y ≡ c)
    → Chain m c ys
    → Chain m b ((x ∷ xs) ++ ys)
Chain-join l m b x [] c ys h d same at tail =
    (h.0, subst (λ z. Chain m z ys) (sym (at x refl)) tail)
Chain-join l m b x (x' ∷ xs) c ys h d same at tail = (
  h.0,
  subst (λ z. Chain m z ((x' ∷ xs) ++ ys)) (sym (same x (ground arith) first_ne))
      (Chain-join l m (l x) x' xs c ys h.1 d.1 (λ y i n. same y (ground arith) n) at tail),
)
  where
    first_ne : last_of (x ∷ x' ∷ xs) ≢ pos x
    first_ne e = let (b, e', i) = last_of-has x' xs in ground arith
