-- ===== src/Build/Image.antt =====
-- The image that build.c writes, byte by byte, and the start of the kernel in it.
use s.Base.{
  ℕ, ◌+◌, ◌*◌, ◌/◌, ◌%◌, ◌^◌, ◌≤◌, ◌<◌, ◌≡◌, refl, ap, ◌∙◌, ◌⊎◌, inl, inr, some, List, [], ◌∷◌,
  ◌++◌, length, length-append, get_or, arith, update, ◌≢◌,
}
use s.Utils.Placed.{placed}
use s.Build.{Host, Builder, main, word_at}
use s.Build.Disk.{Disk, Works, Ends, weaken, Shows}
use s.Build.Copies.{length-bytes_of, get_or-bytes_of, placed_at}
use s.Build.Rounds.{size_bytes, image_bytes}
use s.Build.Sector.{minix_header, patched}
use s.Build.Joined.{three_files, with_sizes, build_image-Shows, get_or-append, placed-append}

-- The places that the tool writes on its own: the size of the image, the root device, and the three
-- words at the start of the kernel.
abbrev pub Copied : ℕ → Type 0
Copied i = (i ≢ 500) × (i ≢ 501) × (i ≢ 508) × (i ≢ 509) × ((i < 512) ⊎ (524 ≤ i))

pub record Image (sector sys usr : List ℕ) (out : ℕ → ℕ) : Type 0 where
  pub copied :
      (i : ℕ)
      → i < 512 + length sys + length usr
      → Copied i
      → out i ≡ get_or (sector ++ (sys ++ usr)) i 0
  pub image_size : out 500 + 2 ^ 8 * out 501 ≡ (length sys + length usr + 15) / 16 % 2 ^ 16
  pub root : (out 508 ≡ 0) × (out 509 ≡ 0)
  pub sys_size : word_at out 512 ≡ length sys
  pub usr_size : word_at out 516 ≡ length usr
  pub rdtr : word_at out 520 ≡ 0x7DCA

-- Bytes elsewhere are left alone.
elsewhere :
    (bytes : List ℕ) (a : ℕ → ℕ) (at i : ℕ)
    → (at ≤ i → at + length bytes ≤ i)
    → placed bytes a at i ≡ a i
elsewhere bytes a at i behind = ground (arith, behind)

size_bytes_lem :
    (n : ℕ)
    → n < 2 ^ 24
    → n % 2 ^ 8 + 2 ^ 8 * (n / 2 ^ 8 % 2 ^ 8) + 2 ^ 16 * (n / 2 ^ 16 % 2 ^ 8) + 2 ^ 24 * 0 ≡ n
size_bytes_lem n lt = omega arith

patched_lem :
    (sector : List ℕ) (i : ℕ)
    → i < 512
    → i ≢ 508
    → i ≢ 509
    → get_or (patched sector) i 0 ≡ get_or sector i 0
unfolding update
patched_lem sector i lt a b = get_or-bytes_of _ 0 512 i lt ∙ ground arith

length-patched : (sector : List ℕ) → length (patched sector) ≡ 512
length-patched sector = length-bytes_of _ 0 512

three_files-joined :
    (sector sys usr : List ℕ) (d : Disk) (i : ℕ)
    → d.at ≡ 0
    → i < 512 + length sys + length usr
    → (three_files sector sys usr d).out i ≡ get_or (patched sector ++ (sys ++ usr)) i 0
three_files-joined sector sys usr d i start lt =
    let p = patched sector in
    placed-append sys usr (placed p d.out d.at) (d.at + length p) i
    ∙ placed-append p (sys ++ usr) d.out d.at i
    ∙ ap (λ a. placed (p ++ (sys ++ usr)) d.out a i) start
    ∙ placed_at (p ++ (sys ++ usr)) d.out i (
        omega
          (arith, lt, length-append p (sys ++ usr), length-append sys usr, length-patched sector))

-- But for the root device's numbers, the sector is as it was.
patched-joined :
    (sector rest : List ℕ) (i : ℕ)
    → length sector ≡ 512
    → i ≢ 508
    → i ≢ 509
    → get_or (patched sector ++ rest) i 0 ≡ get_or (sector ++ rest) i 0
patched-joined sector rest i len a b =
    let (inside, behind) = get_or-append (patched sector) rest i in
    let (inside', behind') = get_or-append sector rest i in
    let len' = length-patched sector in
    ground (arith, inside, behind, inside', behind', len, len', patched_lem sector i)

root_byte :
    (sector sys usr : List ℕ) (d : Disk) (i : ℕ)
    → d.at ≡ 0
    → (i ≡ 508) ⊎ (i ≡ 509)
    → (three_files sector sys usr d).out i ≡ 0
unfolding update
root_byte sector sys usr d i start which =
    three_files-joined sector sys usr d i start (ground (arith, which))
    ∙ (get_or-append (patched sector) (sys ++ usr) i).0
        (ground (arith, which, length-patched sector))
    ∙ get_or-bytes_of (update (update (λ j. get_or sector j 0) 508 0) 509 0) 0 512 i
        (ground (arith, which))
    ∙ ground (arith, which)

with_sizes-Image :
    (d : Disk) (sector sys usr : List ℕ)
    → d.at ≡ 0
    → length sector ≡ 512
    → length sys < 2 ^ 24
    → length usr < 2 ^ 24
    → Image sector sys usr (with_sizes (length sys) (length usr) (three_files sector sys usr d)).out
with_sizes-Image d sector sys usr start len small small' = record {
  copied = λ i lt c.
      let (a, b, a', b', side) = c in
      let im = image_bytes ((length sys + length usr + 15) % 2 ^ 32 / 16) in
      let o3 = (three_files sector sys usr d).out in
      let o4 = placed im o3 500 in
      let o5 = placed (size_bytes (length sys)) o4 512 in
      let o6 = placed (size_bytes (length usr)) o5 516 in
      elsewhere (size_bytes 0x7DCA) o6 520 i (λ le. ground (arith, side))
      ∙ elsewhere (size_bytes (length usr)) o5 516 i (λ le. ground (arith, side))
      ∙ elsewhere (size_bytes (length sys)) o4 512 i (λ le. ground (arith, side))
      ∙ elsewhere im o3 500 i (λ le. omega (arith, a, b))
      ∙ three_files-joined sector sys usr d i start lt
      ∙ patched-joined sector (sys ++ usr) i len a' b';
  image_size = omega (arith, small, small');
  root = (
    root_byte sector sys usr d 508 start (inl refl),
    root_byte sector sys usr d 509 start (inr refl),
  );
  sys_size = size_bytes_lem (length sys) small;
  usr_size = size_bytes_lem (length usr) small';
  rdtr = refl;
}

-- On a host without faults, and with standard output at its start, the tool ends well for a boot
-- sector of 512 bytes with the boot flag, behind a header of the Minix format, and two images below
-- 16 MB. The output is then the three one after the other, but for the places that the tool fills:
-- the size of the image in units of 16 bytes, modulo 2^16, the root device's two zeros, and, as the
-- first three words of the kernel, the kernel's size, the user program's size, and 0x7DCA.
pub main-Image :
    {W : Type 0} (host : Host W) (view : W → Disk) (d : Disk) (b : Builder W)
    (program bootsect system user sector sys usr : List ℕ) (text total : ℕ → ℕ)
    → Works host view
    → Shows view d b
    → d.at ≡ 0
    → d.files bootsect ≡ some (minix_header text total ++ sector)
    → d.files system ≡ some sys
    → d.files user ≡ some usr
    → length sector ≡ 512
    → get_or sector 510 0 ≡ 0x55
    → get_or sector 511 0 ≡ 0xaa
    → length sys < 2 ^ 24
    → length usr < 2 ^ 24
    → Ends
        (λ r b'. Image sector sys usr (view b'.world).out)
        (main host (program ∷ bootsect ∷ system ∷ user ∷ []) b)
unfolding main
main-Image host view d b program bootsect system user sector sys usr text total works s start f1 f2
      f3 len flag flag' small small' =
    weaken
      (build_image-Shows host view works d b bootsect system user sector sys usr text total s f1 f2
        f3 len flag flag' (omega (arith, small)) (omega (arith, small')))
      λ r b' s'. rw s' (with_sizes-Image d sector sys usr start len small small')
