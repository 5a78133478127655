-- ===== src/Fat/Written.antt =====
-- `fat_write` of fat.c: what the whole call writes, and what it answers.
use s.Base.{
  ℕ, zero, suc, ◌+◌, ◌-◌, ◌*◌, ◌/◌, ◌%◌, ◌<◌, ◌≤◌, ◌≡◌, ◌≢◌, false, ◌&&◌, List, [], ℤ, pos, minus,
  ◌=ℤ◌, is_neg, arith, ◌==◌, if◌then◌else◌, length, ap, ◌∙◌, subst, Bool-cases, inl, inr,
}
use s.Fat.{Fat, eoc, enospc, max_files, block_size, fat_translate_block}
use s.Fat.Calls.{block_part, write_block, write_round, write_loop, fat_write}
use s.Fat.Chain.{IsValid, translate-block_at, block_at}
use s.Fat.Bytes.{block_at-end}
use s.Fat.Read.{block_part_lem}
use s.Fat.Write.{
  Wrote, Wrote-none, Wrote-join, Wrote-first, Wrote-count, Chosen, no_room, chosen,
  write_block-Chosen, round-Wrote,
}
use s.Fat.Round.{wrote}

-- What a call leaves that is to write `n` bytes of `p` from `s` on: all of them are written, or
-- those that fit, after which no block is free.
pub data Written (fs : Fat) (chain : ℕ → List ℕ) (free : List ℕ) (f : ℕ) (p : ℕ → ℕ) (s at n : ℕ)
    : ℤ × Fat → Type 0 where
  done :
      {m : ℕ} {t : Fat} {chain' : ℕ → List ℕ} {free' : List ℕ}
      → m ≡ s + n
      → Wrote fs chain free f p s at n t chain' free'
      → Written fs chain free f p s at n (pos m, t)
  no_space :
      {m : ℕ} {t : Fat} {chain' : ℕ → List ℕ}
      → Wrote fs chain free f p s at m t chain' []
      → m < n
      → block_size * length (chain' f) ≤ at + m
      → Written fs chain free f p s at n (minus enospc, t)

Written-join :
    {fs t : Fat} {chain chain' : ℕ → List ℕ} {free free' : List ℕ} (f : ℕ) (p : ℕ → ℕ)
    (s at at' a m n : ℕ) {r : ℤ × Fat}
    → Wrote fs chain free f p s at a t chain' free'
    → Written t chain' free' f p (s + a) at' m r
    → (m ≢ 0 → at' ≡ at + a)
    → a + m ≡ n
    → Written fs chain free f p s at n r
Written-join f p s at at' a m n w (done e x) on sum =
    done (omega (arith, e, sum)) (Wrote-count f p s at sum (Wrote-join f p s at at' a m w x on))
Written-join f p s at at' a m n w (no_space {m = k} x lt fills) on sum =
    no_space (Wrote-join f p s at at' a k w x (λ ne. on (omega arith))) (omega (arith, sum))
      (omega (arith, fills, on (omega arith)))

module _ (f : ℕ) (p : ℕ → ℕ) (offset : ℕ) (lt : f < max_files) where
  -- The loop from its round with block `lb`, when the rest of it does what it is to do.
  round-Written :
      (fuel : ℕ) (fs : Fat) (chain : ℕ → List ℕ) (free : List ℕ) (s remain lb bo : ℕ)
      → IsValid fs chain free
      → bo < block_size
      → remain ≢ 0
      → lb * block_size + bo ≡ offset + s
      → let part = block_part bo remain in
        ((t : Fat) (chain' : ℕ → List ℕ) (free' : List ℕ)
          → IsValid t chain' free'
          → lb + 1 ≤ length (chain' f)
          → Written t chain' free' f p
              (s + part)
              ((lb + 1) * block_size + 0)
              (remain - part)
              (write_loop fuel t f p offset (s + part) (remain - part) (lb + 1) 0))
        → (r : ℤ × Fat) → Chosen fs chain free f p lb s (lb * block_size + bo) r
        → Written fs chain free f p s (lb * block_size + bo) remain (
            if (fat_translate_block fs f lb =ℤ eoc) && is_neg r.0
            then (minus enospc, r.1)
            else write_loop fuel
                (write_round r.1 f p r.0 offset s part bo)
                f
                p
                offset
                (s + part)
                (remain - part)
                (lb + 1)
                0)
  round-Written fuel fs chain free s remain lb bo v lo ne place rest r (no_room at_end none) =
      let e : fat_translate_block fs f lb ≡ eoc =
        translate-block_at fs chain free f lb v lt
        ∙ ap (block_at (chain f)) at_end
        ∙ block_at-end (chain f) in
      rw e (
        no_space {m = 0} {chain' = chain}
          (rw (← none) (Wrote-none fs chain free f p s (lb * block_size + bo) v)) (omega arith)
          (omega (arith, at_end)))
  round-Written fuel fs chain free s remain lb bo v lo ne place rest r
        (chosen {b} {t} {chain'} {free'} w l e) =
      let part = block_part bo remain in
      let (p1, p2, p3, p4) = block_part_lem bo remain lo ne in
      let u = wrote t f p b offset s part bo in
      let x = round-Wrote t chain' free' f p w.valid lt b lb offset s part bo l e p1 p3 place in
      let test : (fat_translate_block fs f lb =ℤ eoc) && false ≡ false = ground arith in
      rw test (
        Written-join f p s (lb * block_size + bo) ((lb + 1) * block_size + 0) part (remain - part)
          remain (Wrote-first f p s (lb * block_size + bo) part w x)
          (rest u chain' free' x.valid (omega arith)) (λ m. omega (arith, p4 m))
          (omega (arith, p2)))

  write_loop-Written :
      (fuel : ℕ) (fs : Fat) (chain : ℕ → List ℕ) (free : List ℕ) (s remain lb bo : ℕ)
      → IsValid fs chain free
      → remain < fuel
      → (remain ≢ 0 → lb ≤ length (chain f))
      → bo < block_size
      → (remain ≢ 0 → lb * block_size + bo ≡ offset + s)
      → Written fs chain free f p s
          (lb * block_size + bo)
          remain
          (write_loop fuel fs f p offset s remain lb bo)
  unfolding write_loop
  write_loop-Written zero fs chain free s remain lb bo v enough le lo place = absurd (omega arith)
  write_loop-Written (suc fuel) fs chain free s remain lb bo v enough le lo place =
      elim (Bool-cases (remain == 0)) [
        | inl h ↦
            let e : remain ≡ 0 = ground arith in
            rw e (done (omega arith) (Wrote-none fs chain free f p s (lb * block_size + bo) v))
        | inr h ↦
            let ne : remain ≢ 0 = ground arith in
            let (p1, p2, p3, p4) = block_part_lem bo remain lo ne in
            rw h (
              round-Written fuel fs chain free s remain lb bo v lo ne (place ne)
                (λ t chain' free' v' le'.
                  write_loop-Written fuel t chain' free' (s + block_part bo remain)
                    (remain - block_part bo remain) (lb + 1) 0 v' (omega (arith, p1)) (λ m. le')
                    (omega arith) (λ m. omega (arith, p4 m, place ne)))
                (write_block fs f lb)
                (write_block-Chosen fs chain free f p v lt lb s (lb * block_size + bo) (le ne)))
      ]

-- `fat_write` on a valid file system, into a file below 10 and not behind the file's last block and
-- the one after it, ends in one of two ways. It answers `count` and has written all the bytes. Or
-- it answers -ENOSPC, has written as many as fitted and leaves no block free. What it leaves is in
-- both cases the `Wrote` of the bytes written: a valid file system, in which the file has its old
-- blocks and the first free ones after them, the bytes at `offset` of the file are those of the
-- buffer and no other byte of it differs, the size covers them, and every other file is as it was.
pub fat_write-Written :
    (fs : Fat) (chain : ℕ → List ℕ) (free : List ℕ) (file : ℕ) (buffer : ℕ → ℕ) (offset count : ℕ)
    → IsValid fs chain free
    → file < max_files
    → (count ≢ 0 → offset / block_size ≤ length (chain file))
    → Written fs chain free file buffer 0 offset count (fat_write fs file buffer offset count)
unfolding fat_write
fat_write-Written fs chain free file buffer offset count v lt le =
    let whole : offset / block_size * block_size + offset % block_size ≡ offset = omega arith in
    let w =
      write_loop-Written file buffer offset lt (suc count) fs chain free 0 count
        (offset / block_size) (offset % block_size) v (omega arith) le (omega arith)
        (λ ne. omega arith) in
    subst
      (λ at. Written fs chain free file buffer 0 at count (fat_write fs file buffer offset count))
      whole w
