-- ===== src/Fat/Tests.antt =====
-- A file system with two files of one block each, and the theorems on fat.c at it.
use s.Base.{
  update, loop, ℕ, ◌≡◌, refl, ◌≢◌, true, false, List, [], ◌∷◌, ◌++◌, ℤ, pos, minus, arith, ◌+◌, ◌-◌,
  min, if◌then◌else◌, ltb,
}
use s.ListHead.Links.{has}
use s.Kernutil.Compare.{NoNul}
use s.Fat.{Fat, init_fat, fat_add_block, fat_close}
use s.Fat.Calls.{fat_create, fat_unlink, fat_read, fat_write}
use s.Utils.Copy.{spliced}
use s.Fat.Bytes.{byte_at}
use s.Fat.Read.{SameFiles, fat_read-bytes}
use s.Fat.Written.{Written, fat_write-Written}
use s.Fat.Answers.{fat_read-fat_write}
use s.Fat.Chain.{Chain, IsValid}
use s.Fat.Grow.{Added, added, grown, fat_add_block-Added}
use s.Fat.Start.{blocks, init_fat-IsValid}
use s.Fat.Names.{Created, fat_create-Created}
use s.Fat.Opens.{here, next, create, fat_close-Reach}
use s.Fat.Unlink.{fat_unlink-free, fat_unlink-loses}

abbrev blank : Fat
blank = record {
  root = λ f. record {
    name = λ i. 0;
    size = 0;
    block_count = 0;
    mode = pos 0;
    first_block = pos 0;
    last_block = pos 0;
    opens = pos 0;
  };
  total_block_count = pos 0;
  used_block_count = pos 0;
  first_free_block = pos 0;
  last_free_block = pos 0;
  free_block_count = pos 0;
  block_lists = λ b. pos 0;
  contents = λ b i. 0;
  block_buffer = λ i. 0;
}

abbrev start : Fat
start = init_fat blank

abbrev one : Fat
one = (fat_add_block start 0).1

abbrev two : Fat
two = (fat_add_block one 1).1

abbrev none_used : ℕ → List ℕ
none_used f = []

abbrev one_used : ℕ → List ℕ
one_used = grown none_used 0 0

abbrev two_used : ℕ → List ℕ
two_used = grown one_used 1 1

abbrev ab : List ℕ
ab = 97 ∷ 98 ∷ []

ab-NoNul : NoNul ab
ab-NoNul = (λ e. omega arith, (λ e. omega arith, tt))

Added-IsValid :
    {fs : Fat} {chain : ℕ → List ℕ} {f b : ℕ} {free : List ℕ} {r : ℤ × Fat}
    → Added fs chain f (b ∷ free) r
    → IsValid r.1 (grown chain f b) free
Added-IsValid (added c o n u v) = v

one-IsValid : IsValid one one_used (blocks 1 29)
one-IsValid =
    Added-IsValid
      (fat_add_block-Added start none_used (blocks 0 30) 0 (init_fat-IsValid blank).0 (omega arith))

fat_add_block-Added_example : Added one one_used 1 (blocks 1 29) (fat_add_block one 1)
fat_add_block-Added_example =
    fat_add_block-Added one one_used (blocks 1 29) 1 one-IsValid (omega arith)

two-IsValid : IsValid two two_used (blocks 2 28)
two-IsValid =
    Added-IsValid (fat_add_block-Added one one_used (blocks 1 29) 1 one-IsValid (omega arith))

fat_create-Created_example : Created two ab 3 (fat_create two ab 3)
fat_create-Created_example = fat_create-Created two ab 3 ab-NoNul (omega arith)

fat_close-Reach_example : fat_close (fat_create start ab 3).1 (pos 0) ≡ minus 1
fat_close-Reach_example =
    fat_close-Reach blank (fat_create start ab 3).1 (pos 0) (λ f lt. refl)
      (next here (create start ab 3)) (λ e. ground arith)

closed : (f : ℕ) → (two.root f).opens ≡ pos 0
unfolding fat_add_block init_fat update loop
closed f = ground arith

fat_unlink-free_example :
    ((fat_unlink two 0).0 ≡ pos 0)
    × ((g : ℕ) → g ≢ 0 → (fat_unlink two 0).1.root g ≡ two.root g)
    × Chain
        (fat_unlink two 0).1.block_lists
        (fat_unlink two 0).1.first_free_block
        (blocks 2 28 ++ two_used 0)
fat_unlink-free_example =
    fat_unlink-free two two_used 2 (blocks 3 27) two-IsValid 0 (omega arith) (closed 0)

fat_unlink-loses_example :
    Chain
      (fat_unlink (fat_unlink two 0).1 1).1.block_lists
      (fat_unlink (fat_unlink two 0).1 1).1.first_free_block
      (blocks 2 28 ++ two_used 1)
    × ((b : ℕ) → has b (two_used 0) ≡ true → has b (blocks 2 28 ++ two_used 1) ≡ false)
fat_unlink-loses_example =
    fat_unlink-loses two two_used 2 (blocks 3 27) two-IsValid 0 (omega arith) (closed 0) 1
      (omega arith) (λ e. omega arith) (closed 1)

abbrev letters : ℕ → ℕ
letters i = 65 + i

fat_read-bytes_example :
    let r = fat_read two 0 letters 0 5 in
    (r.0 ≡ min 5 ((two.root 0).size - 0))
    × ((j : ℕ)
        → r.1 j
          ≡ spliced
              (byte_at two.contents (two_used 0))
              0
              letters
              0
              (min 5 ((two.root 0).size - 0))
              j)
    × SameFiles two r.2
fat_read-bytes_example =
    fat_read-bytes two two_used (blocks 2 28) 0 letters 0 5 two-IsValid (omega arith)

fat_write-Written_example :
    Written two two_used (blocks 2 28) 0 letters 0 255 3 (fat_write two 0 letters 255 3)
fat_write-Written_example =
    fat_write-Written two two_used (blocks 2 28) 0 letters 255 3 two-IsValid (omega arith)
      (λ ne. omega arith)

fat_read-fat_write_example :
    let w = fat_write two 0 letters 255 3 in
    let r = fat_read w.1 0 (λ i. 0) 255 3 in
    (w.0 ≡ pos 3) × (r.0 ≡ 3) × ((j : ℕ) → r.1 j ≡ (if ltb j 3 then letters j else 0))
fat_read-fat_write_example =
    fat_read-fat_write two two_used (blocks 2 28) 0 letters (λ i. 0) 255 3 two-IsValid (omega arith)
      (λ e. omega arith) (omega arith) (omega arith)
