-- ===== src/Build/Joined.antt =====
-- The output of build.c on a host without faults, as a sequence of writes.
use s.Base.{
  ℕ, zero, suc, ◌+◌, ◌-◌, ◌/◌, ◌%◌, ◌^◌, ◌≤◌, ◌<◌, ◌≡◌, refl, ap, ◌∙◌, some, List, [], ◌∷◌, ◌++◌,
  length, length-append, get_or, arith, subst,
}
use s.Utils.Placed.{placed}
use s.Build.{Host, Builder, build_image}
use s.Build.Disk.{Disk, Works, Ends, bind, weaken, Shows, written, moved}
use s.Build.Rounds.{
  ended, size_bytes, image_bytes, copy_file-Shows, write_size-Shows, write_image_size-Shows,
}
use s.Build.Sector.{minix_header, patched, copy_sector-Shows}

-- The output after the three files, and after the sizes.
abbrev pub three_files : (sector sys usr : List ℕ) → Disk → Disk
three_files sector sys usr d =
    ended (length usr)
      (written usr (ended (length sys) (written sys (ended 544 (written (patched sector) d)))))

abbrev pub with_sizes : (sys_size usr_size : ℕ) → Disk → Disk
with_sizes sys_size usr_size d = written (size_bytes 0x7DCA) (
    moved 520 (
      written (size_bytes usr_size) (
        moved 516 (
          written (size_bytes sys_size) (
            moved 512
              (written (image_bytes ((sys_size + usr_size + 15) % 2 ^ 32 / 16)) (moved 500 d)))))))

module _ {W : Type 0} (host : Host W) (view : W → Disk) (works : Works host view) where
  pub build_image-Shows :
      (d : Disk) (b : Builder W) (bootsect system user sector sys usr : List ℕ) (text total : ℕ → ℕ)
      → Shows view d b
      → d.files bootsect ≡ some (minix_header text total ++ sector)
      → d.files system ≡ some sys
      → d.files user ≡ some usr
      → length sector ≡ 512
      → get_or sector 510 0 ≡ 0x55
      → get_or sector 511 0 ≡ 0xaa
      → length sys < 2 ^ 32
      → length usr < 2 ^ 32
      → Ends
          (λ r b'.
            Shows view (with_sizes (length sys) (length usr) (three_files sector sys usr d)) b')
          (build_image host bootsect system user b)
  unfolding build_image
  build_image-Shows d b bootsect system user sector sys usr text total s f1 f2 f3 len flag flag'
        small small' =
      let d1 = ended 544 (written (patched sector) d) in
      let d2 = ended (length sys) (written sys d1) in
      let d3 = three_files sector sys usr d in
      bind (copy_sector-Shows host view works d b bootsect sector text total s f1 len flag flag')
        λ r b1 s1.
          bind (copy_file-Shows host view works d1 b1 system sys s1 f2 small) λ n b2 (e, s2).
            bind (copy_file-Shows host view works d2 b2 user usr s2 f3 small') λ m b3 (e', s3).
              let im_size = (n + m + 15) % 2 ^ 32 / 16 in
              let d4 = written (image_bytes im_size) (moved 500 d3) in
              let d5 = written (size_bytes n) (moved 512 d4) in
              let d6 = written (size_bytes m) (moved 516 d5) in
              bind (write_image_size-Shows host view works d3 b3 im_size s3) λ r4 b4 s4.
                bind (write_size-Shows host view works d4 b4 512 n _ s4) λ r5 b5 s5.
                  bind (write_size-Shows host view works d5 b5 516 m _ s5) λ r6 b6 s6.
                    weaken (write_size-Shows host view works d6 b6 520 0x7DCA _ s6) λ r7 b7 s7.
                      subst (λ x. Shows view (with_sizes x (length usr) d3) b7) e
                        (subst (λ x. Shows view (with_sizes n x d3) b7) e' s7)

pub get_or-append :
    (xs ys : List ℕ) (i : ℕ)
    → (i < length xs → get_or (xs ++ ys) i 0 ≡ get_or xs i 0)
      × (length xs ≤ i → get_or (xs ++ ys) i 0 ≡ get_or ys (i - length xs) 0)
get_or-append [] ys i = (λ lt. absurd (omega arith), λ le. ap (λ j. get_or ys j 0) (omega arith))
get_or-append (x ∷ xs) ys zero = (λ lt. refl, λ le. absurd (omega arith))
get_or-append (x ∷ xs) ys (suc i) =
    let (inside, behind) = get_or-append xs ys i in
    (λ lt. inside (omega arith), λ le. behind (omega arith) ∙ ap (λ j. get_or ys j 0) (omega arith))

pub placed-append :
    (xs ys : List ℕ) (a : ℕ → ℕ) (i j : ℕ)
    → placed ys (placed xs a i) (i + length xs) j ≡ placed (xs ++ ys) a i j
placed-append xs ys a i j =
    let (inside, behind) = get_or-append xs ys (j - i) in
    let behind' : length xs ≤ j - i
        → get_or (xs ++ ys) (j - i) 0 ≡ get_or ys (j - (i + length xs)) 0 =
      λ le. behind le ∙ ap (λ m. get_or ys m 0) (omega (arith, le)) in
    ground (arith, inside, behind', length-append xs ys)
