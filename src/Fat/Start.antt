-- ===== src/Fat/Start.antt =====
-- `initZeOSFAT` of fat.c, and the creation of a file in a file system without files.
use Prim.Native.Nat.{bit_and}
use s.Base.{
  ℕ, zero, suc, ◌+◌, ◌-◌, ◌<◌, ◌≡◌, refl, true, false, List, [], ◌∷◌, ℤ, pos, arith, ◌==◌,
  if◌then◌else◌, update, update_ne, inl, inr, Bool-cases, sym, ap, ◌∙◌, subst, loop, loop_inv, ltb,
  loop-update, lt→ltb, Option, none, some, minus, ◌=ℤ◌, find_below,
}
use s.ListHead.Links.{has, Distinct}
use s.Fat.{Fat, eoc, enospc, free_type, max_blocks, max_files, init_fat, reset_entry, with_entry}
use s.Fat.Calls.{fat_create, o_rdwr}
use s.Fat.Chain.{Chain, IsValid}

-- The blocks from `i` on, `n` of them.
abbrev pub blocks : ℕ → ℕ → List ℕ
blocks i zero = []
blocks i (suc n) = i ∷ blocks (suc i) n

-- What the two loops of `initZeOSFAT` leave.
init_root :
    (fs : Fat) (f : ℕ) → f < max_files → (init_fat fs).root f ≡ reset_entry [] free_type (fs.root f)
unfolding init_fat
init_root fs f lt =
    loop-update max_files (λ i e. reset_entry [] free_type e) fs.root f ∙ rw (lt→ltb f max_files lt)

init_link :
    (fs : Fat) (b : ℕ)
    → b < max_blocks
    → (init_fat fs).block_lists b ≡ (if b == max_blocks - 1 then eoc else pos (b + 1))
unfolding init_fat
init_link fs b lt = elim (Bool-cases (b == 29)) [
  | inl p ↦ unfold update in ground arith
  | inr p ↦ update_ne _ (max_blocks - 1) b eoc (λ e. ground arith) ∙ between ∙ ground arith
]
  where
    between :
        loop (max_blocks - 1) (λ i l. update l i (pos (i + 1))) fs.block_lists b
        ≡ (if ltb b (max_blocks - 1) then pos (b + 1) else fs.block_lists b)
    between =
        loop_inv (λ k l. l b ≡ (if ltb b k then pos (b + 1) else fs.block_lists b)) (max_blocks - 1)
          (λ i l. update l i (pos (i + 1))) fs.block_lists
          (λ i t l e. unfold update in ground arith) (ground arith)

blocks-Chain :
    (links : ℕ → ℤ) (i n : ℕ)
    → i + suc n ≡ max_blocks
    → ((b : ℕ) → b < max_blocks → links b ≡ (if b == max_blocks - 1 then eoc else pos (b + 1)))
    → Chain links (pos i) (blocks i (suc n))
blocks-Chain links i zero e h = (refl, h i (omega arith) ∙ ground arith)
blocks-Chain links i (suc n) e h = (
  refl,
  subst (λ z. Chain links z (blocks (suc i) (suc n))) (sym (h i (omega arith) ∙ next))
      (blocks-Chain links (suc i) n (omega arith) h),
)
  where
    next : (if i == max_blocks - 1 then eoc else pos (i + 1)) ≡ pos (suc i)
    next = ground arith

init_first :
    (fs : Fat) → ((init_fat fs).first_free_block ≡ pos 0) × ((init_fat fs).last_free_block ≡ pos 29)
unfolding init_fat
init_first fs = (refl, refl)

blocks-above : (i n b : ℕ) → b < i → has b (blocks i n) ≡ false
blocks-above i zero b lt = refl
blocks-above i (suc n) b lt = ground (arith, blocks-above (suc i) n b)

blocks-Distinct : (i n : ℕ) → Distinct (blocks i n)
blocks-Distinct i zero = tt
blocks-Distinct i (suc n) = (blocks-above (suc i) n i (omega arith), blocks-Distinct (suc i) n)

blocks-below : (i n b : ℕ) → has b (blocks i n) ≡ true → b < i + n
blocks-below i zero b m = cc
blocks-below i (suc n) b m = ground (arith, blocks-below (suc i) n b)

-- After `initZeOSFAT` the file system is valid, every file is free and empty, and all the blocks
-- are free, in order.
pub init_fat-IsValid :
    (fs : Fat)
    → IsValid (init_fat fs) (λ f. []) (blocks 0 max_blocks)
      × ((f : ℕ)
          → f < max_files
          → (((init_fat fs).root f).mode ≡ free_type) × (((init_fat fs).root f).size ≡ 0))
init_fat-IsValid fs =
    (valid, λ f lt. (ap (λ e. e.mode) (init_root fs f lt), ap (λ e. e.size) (init_root fs f lt)))
  where
    valid : IsValid (init_fat fs) (λ f. []) (blocks 0 max_blocks)
    valid = record {
      files = λ f lt. ap (λ e. e.first_block) (init_root fs f lt);
      lasts = λ f lt. ap (λ e. e.last_block) (init_root fs f lt);
      frees =
          subst (λ z. Chain (init_fat fs).block_lists z (blocks 0 30)) (sym (init_first fs).0)
            (blocks-Chain (init_fat fs).block_lists 0 29 (omega arith) (init_link fs));
      last_free = (init_first fs).1;
      inside = λ f b lt i. cc;
      free_inside = λ b i. blocks-below 0 max_blocks b i;
      distinct = λ f lt. tt;
      free_distinct = blocks-Distinct 0 max_blocks;
      apart = λ f g b lf lg ne i. cc;
      used = λ f b lt i. cc;
      covers = λ f lt. omega (arith, ap (λ e. e.size) (init_root fs f lt));
    }

-- A file system without files stays valid when one is created.
pub fat_create-IsValid :
    (fs : Fat) (free : List ℕ) (path : List ℕ) (flags : ℕ)
    → IsValid fs (λ f. []) free
    → IsValid (fat_create fs path flags).1 (λ f. []) free
unfolding fat_create
fat_create-IsValid fs free path flags v =
    go (find_below max_files (λ i. (fs.root i).mode =ℤ free_type))
  where
    result : Option ℕ → ℤ × Fat
    result r = elim r [
      | some i ↦ (pos i, with_entry fs i (reset_entry path (pos (bit_and flags o_rdwr))))
      | none ↦ (minus enospc, fs)
    ]

    go : (r : Option ℕ) → IsValid (result r).1 (λ f. []) free
    go (some i) = record {
      files = λ f lt. unfold update in ground (arith, v.files f lt);
      lasts = λ f lt. unfold update in ground (arith, v.lasts f lt);
      frees = v.frees;
      last_free = v.last_free;
      inside = v.inside;
      free_inside = v.free_inside;
      distinct = v.distinct;
      free_distinct = v.free_distinct;
      apart = v.apart;
      used = v.used;
      covers = λ f lt. unfold update in ground (arith, v.covers f lt);
    }
    go none = v
