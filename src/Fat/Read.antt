-- ===== src/Fat/Read.antt =====
-- `fat_read` of fat.c: which bytes it hands out.
use native.Mathlib.Nat.{zero-add}
use s.Base.{
  min, ℕ, zero, suc, ◌+◌, ◌-◌, ◌*◌, ◌/◌, ◌%◌, ◌<◌, ◌≤◌, ◌≡◌, refl, ◌≢◌, true, false, ◌&&◌, List,
  pos, arith, ◌==◌, leb, ltb, if◌then◌else◌, length, ap, ◌∙◌, Bool-cases, inl, inr,
}
use s.Utils.{copy_data}
use s.Utils.Copy.{spliced, spliced-join, copy_data-spliced}
use s.Fat.{Fat, max_files, block_size, fat_translate_block, fat_read_block}
use s.Fat.Calls.{block_part, read_loop, fat_read}
use s.Fat.Chain.{IsValid, translate-block_at}
use s.Fat.Bytes.{nth, byte_at, block_at-nth}

-- A state that differs in the block buffer alone.
abbrev pub SameFiles : Fat → Fat → Type 0
SameFiles fs fs' = fs' ≡ record fs { block_buffer = fs'.block_buffer }

-- The part of a block that a round copies, in the caller's buffer.
round-bytes :
    (fs : Fat) (xs : List ℕ) (buffer : ℕ → ℕ) (read lb bo part j : ℕ)
    → bo + part ≤ block_size
    → copy_data (fat_read_block fs (pos (nth xs lb))).block_buffer bo buffer read part j
      ≡ spliced (byte_at fs.contents xs) (lb * block_size + bo) buffer read part j
unfolding fat_read_block
round-bytes fs xs buffer read lb bo part j fits =
    copy_data-spliced (copy_data (fs.contents (nth xs lb)) 0 fs.block_buffer 0 block_size) bo buffer
      read part j
    ∙ elim (Bool-cases (leb read j && ltb j (read + part))) [
      | inl h ↦ rw h (
          copy_data-spliced (fs.contents (nth xs lb)) 0 fs.block_buffer 0 block_size
            (bo + (j - read))
          ∙ inside h)
      | inr h ↦ rw h
    ]
  where
    inside :
        leb read j && ltb j (read + part) ≡ true
        → spliced (fs.contents (nth xs lb)) 0 fs.block_buffer 0 block_size (bo + (j - read))
          ≡ byte_at fs.contents xs (lb * block_size + bo + (j - read))
    inside h =
        let small : bo + (j - read) < block_size = ground arith in
        let q : (lb * block_size + bo + (j - read)) / block_size ≡ lb = omega (arith, small) in
        let r : (lb * block_size + bo + (j - read)) % block_size ≡ bo + (j - read) =
          omega (arith, small) in
        rw (q, r) (ground (arith, small))

pub block_part_lem :
    (bo remain : ℕ)
    → bo < block_size
    → remain ≢ 0
    → (0 < block_part bo remain)
      × (block_part bo remain ≤ remain)
      × (bo + block_part bo remain ≤ block_size)
      × (remain - block_part bo remain ≢ 0 → bo + block_part bo remain ≡ block_size)
block_part_lem bo remain lo ne = (ground arith, ground arith, ground arith, λ h. ground arith)

-- What the loop of `fat_read` does, with enough fuel and within the blocks of the file.
read_loop-bytes :
    (fuel : ℕ) (fs : Fat) (xs : List ℕ) (file : ℕ) (buffer : ℕ → ℕ) (read remain lb bo : ℕ)
    → ((n : ℕ) → n < length xs → fat_translate_block fs file n ≡ pos (nth xs n))
    → bo < block_size
    → lb * block_size + bo + remain ≤ block_size * length xs
    → remain < fuel
    → ((read_loop fuel fs file buffer read remain lb bo).0 ≡ read + remain)
      × ((j : ℕ)
          → (read_loop fuel fs file buffer read remain lb bo).1 j
            ≡ spliced (byte_at fs.contents xs) (lb * block_size + bo) buffer read remain j)
      × SameFiles fs (read_loop fuel fs file buffer read remain lb bo).2
unfolding read_loop fat_read_block fat_translate_block
read_loop-bytes zero fs xs file buffer read remain lb bo at lo fits enough = absurd (omega arith)
read_loop-bytes (suc fuel) fs xs file buffer read remain lb bo at lo fits enough =
    elim (Bool-cases (remain == 0)) [
      | inl h ↦ rw h (ground arith, λ j. ground arith, refl)
      | inr h ↦
          let part = block_part bo remain in
          let fs' = fat_read_block fs (pos (nth xs lb)) in
          let buffer' = copy_data fs'.block_buffer bo buffer read part in
          let (p1, p2, p3, p4) = block_part_lem bo remain lo (ground arith) in
          let (n, bytes, same) =
            read_loop-bytes fuel fs' xs file buffer' (read + part) (remain - part) (lb + 1) 0 at
              (omega arith) (ground (arith, p1, p2, p4)) (omega (arith, p1)) in
          rw (h, at lb (ground arith))
            (
              omega (arith, n, p2),
              λ j.
                  bytes j ∙ join part p2 p4 buffer' (round-bytes fs xs buffer read lb bo part j p3),
              same,
            )
    ]
  where
    join :
        (part : ℕ)
        → part ≤ remain
        → (remain - part ≢ 0 → bo + part ≡ block_size)
        → (q : ℕ → ℕ) {j : ℕ}
        → q j ≡ spliced (byte_at fs.contents xs) (lb * block_size + bo) buffer read part j
        → spliced
            (byte_at fs.contents xs)
            ((lb + 1) * block_size + 0)
            q
            (read + part)
            (remain - part)
            j
          ≡ spliced (byte_at fs.contents xs) (lb * block_size + bo) buffer read remain j
    join part le full q {j} e =
        spliced-join (byte_at fs.contents xs) q buffer (lb * block_size + bo)
          ((lb + 1) * block_size + 0) read (read + part) part (remain - part) j e
          (λ ne. omega (arith, full ne)) (λ ne. refl)
        ∙ ap (λ n. spliced (byte_at fs.contents xs) (lb * block_size + bo) buffer read n j)
            (rejoin part le)
      where
        rejoin : (n : ℕ) → n ≤ remain → n + (remain - n) ≡ remain
        rejoin n l = omega arith

-- On a valid file system and for a file number below 10, `fat_read` copies the `count` bytes of the
-- file from `offset` on into the buffer, or as many as there are before the file's end, answers
-- their number, and changes neither the rest of the buffer nor anything of the file system but the
-- block buffer.
pub fat_read-bytes :
    (fs : Fat) (chain : ℕ → List ℕ) (free : List ℕ) (file : ℕ) (buffer : ℕ → ℕ) (offset count : ℕ)
    → IsValid fs chain free
    → file < max_files
    → let n = min count ((fs.root file).size - offset) in
      let r = fat_read fs file buffer offset count in
      (r.0 ≡ n)
      × ((j : ℕ) → r.1 j ≡ spliced (byte_at fs.contents (chain file)) offset buffer 0 n j)
      × SameFiles fs r.2
unfolding fat_read
fat_read-bytes fs chain free file buffer offset count v lt =
    let there : ltb max_files file ≡ false = ground (arith, lt) in
    elim (Bool-cases (leb (fs.root file).size offset)) [
      | inl h ↦ rw (there, h) (ground arith, λ j. ground arith, refl)
      | inr h ↦
          let size = (fs.root file).size in
          let remain = if ltb size (offset + count) then size - offset else count in
          let least : remain ≡ min count (size - offset) = ground arith in
          let (n, bytes, same) =
            read_loop-bytes (suc remain) fs (chain file) file buffer 0 remain (offset / block_size)
              (offset % block_size)
              (λ k l. translate-block_at fs chain free file k v lt ∙ block_at-nth (chain file) k l)
              (omega arith) (ground (arith, v.covers file lt)) (omega arith) in
          let whole : offset / block_size * block_size + offset % block_size ≡ offset =
            omega arith in
          rw (there, h, ← least)
            (
              n ∙ zero-add remain,
              λ j.
                  bytes j
                  ∙ ap (λ o. spliced (byte_at fs.contents (chain file)) o buffer 0 remain j) whole,
              same,
            )
    ]
