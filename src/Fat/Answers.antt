-- ===== src/Fat/Answers.antt =====
-- `fat_write` and `fat_read` of fat.c: what a caller sees of the calls.
use native.Mathlib.Nat.{zero-add}
use s.Base.{
  ℕ, ◌+◌, ◌-◌, ◌*◌, ◌/◌, ◌<◌, ◌≤◌, ◌≡◌, ◌≢◌, List, [], ◌++◌, ℤ, pos, minus, arith, leb, ltb, min,
  append-nil, if◌then◌else◌, length, length-append, ap, ◌∙◌, subst, Bool-cases, inl, inr,
}
use s.Fat.{Fat, enospc, max_files, block_size}
use s.Fat.Calls.{fat_write, fat_read}
use s.Fat.Chain.{IsValid}
use s.Fat.Bytes.{byte_at}
use s.Utils.Copy.{spliced}
use s.ListHead.Links.{Distinct}
use s.Fat.Read.{fat_read-bytes}
use s.Fat.Write.{Wrote}
use s.Fat.Written.{Written, done, no_space, fat_write-Written}

-- The bytes of the file's own blocks and of the free ones.
abbrev pub room : (ℕ → List ℕ) → List ℕ → ℕ → ℕ
room chain free file = block_size * (length (chain file) + length free)

-- What a call to write `count` bytes answers is seen before: it is `count` when they end within the
-- room of the file, and -ENOSPC otherwise, on a valid file system, for a file below 10, some bytes
-- to write, and a place that is not behind the block after the file's last.
pub fat_write-answer :
    (fs : Fat) (chain : ℕ → List ℕ) (free : List ℕ) (file : ℕ) (buffer : ℕ → ℕ) (offset count : ℕ)
    → IsValid fs chain free
    → file < max_files
    → count ≢ 0
    → offset / block_size ≤ length (chain file)
    → (fat_write fs file buffer offset count).0
      ≡ (if leb (offset + count) (room chain free file) then pos count else minus enospc)
fat_write-answer fs chain free file buffer offset count v lt ne le =
    answer _ (fat_write-Written fs chain free file buffer offset count v lt (λ m. le))
  where
    answer :
        (r : ℤ × Fat)
        → Written fs chain free file buffer 0 offset count r
        → r.0 ≡ (if leb (offset + count) (room chain free file) then pos count else minus enospc)
    answer r (done {free' = free'} e w) =
        let l : length free ≡ length w.taken + length free' =
          ap length w.uses ∙ length-append w.taken free' in
        let k = ap length w.grows ∙ length-append (chain file) w.taken in
        ground (arith, e, l, k, w.size, w.valid.covers file lt)
    answer r (no_space {m = m} w less full) =
        let l : length free ≡ length w.taken + 0 = ap length w.uses ∙ length-append w.taken [] in
        let k = ap length w.grows ∙ length-append (chain file) w.taken in
        ground (arith, l, k, full, less)

-- The bytes of the file after a write, its own blocks alone.
Wrote-bytes :
    {fs t : Fat} {chain chain' : ℕ → List ℕ} {free free' : List ℕ} {f : ℕ} {p : ℕ → ℕ}
    {s at n i : ℕ}
    → Wrote fs chain free f p s at n t chain' free'
    → i < block_size * length (chain' f)
    → Distinct (chain' f)
    → byte_at t.contents (chain' f) i ≡ spliced p s (byte_at fs.contents (chain' f)) at n i
Wrote-bytes {fs} {t} {chain' = chain'} {f = f} {p} {s} {at} {n} {i} w l d =
    let e : chain' f ++ [] ≡ chain' f = append-nil (chain' f) in
    let b = w.bytes [] i (rw e d) (rw e l) in
    subst (λ xs. byte_at t.contents xs i ≡ spliced p s (byte_at fs.contents xs) at n i) e b

-- What `fat_write` answered `count` for, `fat_read` of the same place and number of bytes gives
-- back, on a valid file system, for a file below 10, and a write that ends within the room of the
-- file and does not start behind the block after its last.
pub fat_read-fat_write :
    (fs : Fat) (chain : ℕ → List ℕ) (free : List ℕ) (file : ℕ) (buffer dest : ℕ → ℕ)
    (offset count : ℕ)
    → IsValid fs chain free
    → file < max_files
    → count ≢ 0
    → offset / block_size ≤ length (chain file)
    → offset + count ≤ room chain free file
    → let w = fat_write fs file buffer offset count in
      let r = fat_read w.1 file dest offset count in
      (w.0 ≡ pos count)
      × (r.0 ≡ count)
      × ((j : ℕ) → r.1 j ≡ (if ltb j count then buffer j else dest j))
fat_read-fat_write fs chain free file buffer dest offset count v lt ne le fits =
    back _ (fat_write-Written fs chain free file buffer offset count v lt (λ m. le))
  where
    back :
        (w : ℤ × Fat)
        → Written fs chain free file buffer 0 offset count w
        → let r = fat_read w.1 file dest offset count in
          (w.0 ≡ pos count)
          × (r.0 ≡ count)
          × ((j : ℕ) → r.1 j ≡ (if ltb j count then buffer j else dest j))
    back r (done {m} {t} {chain'} {free'} e w) =
        let (n, bytes, same) = fat_read-bytes t chain' free' file dest offset count w.valid lt in
        let all : min count ((t.root file).size - offset) ≡ count = ground (arith, w.size) in
        (
          ap pos (e ∙ zero-add count),
          n ∙ all,
          λ j.
              bytes j
              ∙ ap (λ k. spliced (byte_at t.contents (chain' file)) offset dest 0 k j) all
              ∙ elim (Bool-cases (ltb j count)) [
                | inl h ↦
                    let o : offset + j < block_size * length (chain' file) =
                      ground (arith, w.size, w.valid.covers file lt) in
                    let z : offset + (j - 0) ≡ offset + j = omega arith in
                    rw (z, h) (ground (arith, Wrote-bytes w o (w.valid.distinct file lt), h))
                | inr h ↦ rw h (ground arith)
              ],
        )
    back r (no_space {m = m} w less full) =
        let l : length free ≡ length w.taken + 0 = ap length w.uses ∙ length-append w.taken [] in
        let k = ap length w.grows ∙ length-append (chain file) w.taken in
        absurd (omega (arith, l, k, full, less, fits))
