-- ===== src/Fat/Round.antt =====
-- A round of `fat_write` of fat.c: the block that it goes to, and what it changes.
use s.Base.{
  ℕ, ◌+◌, ◌-◌, ◌*◌, ◌<◌, ◌≤◌, ◌≡◌, refl, ◌≢◌, List, pos, arith, ◌==◌, ltb, length, ◌∙◌, Bool-cases,
  inl, inr, update, max,
}
use s.Utils.{copy_data}
use s.Utils.Copy.{spliced, copy_data-spliced}
use s.Fat.{Fat, max_files, block_size, fat_read_block, fat_write_block}
use s.Fat.Calls.{write_round}
use s.Fat.Chain.{IsValid}

module _ (fs : Fat) (f : ℕ) (buffer : ℕ → ℕ) (b offset written part bo : ℕ) where
  -- The state after the round.
  abbrev pub wrote : Fat
  wrote = write_round fs f buffer (pos b) offset written part bo

  pub round-own :
      (j : ℕ)
      → j < block_size
      → wrote.contents b j ≡ spliced buffer written (fs.contents b) bo part j
  unfolding write_round fat_read_block fat_write_block update
  round-own j lt =
      let old = copy_data (fs.contents b) 0 fs.block_buffer 0 block_size in
      let new = copy_data buffer written old bo part in
      ground (
        arith,
        copy_data-spliced new 0 (fs.contents b) 0 block_size j,
        copy_data-spliced buffer written old bo part j,
        copy_data-spliced (fs.contents b) 0 fs.block_buffer 0 block_size j,
        plus_zero j,
      )
    where
      plus_zero : (k : ℕ) → 0 + (k - 0) ≡ k
      plus_zero k = omega arith

  pub round-others : (c j : ℕ) → c ≢ b → wrote.contents c j ≡ fs.contents c j
  unfolding write_round fat_read_block fat_write_block update
  round-others c j ne = ground arith

  -- What the round leaves alone, and the file's size.
  pub round-links :
      (wrote.block_lists ≡ fs.block_lists)
      × (wrote.first_free_block ≡ fs.first_free_block)
      × (wrote.last_free_block ≡ fs.last_free_block)
      × (wrote.free_block_count ≡ fs.free_block_count)
      × (wrote.used_block_count ≡ fs.used_block_count)
  unfolding write_round fat_read_block fat_write_block
  round-links = elim (Bool-cases (ltb (fs.root f).size (offset + (written + part)))) [
    | inl h ↦ rw h (refl, refl, refl, refl, refl)
    | inr h ↦ rw h (refl, refl, refl, refl, refl)
  ]

  pub round-root :
      (g : ℕ)
      → ((wrote.root g).first_block ≡ (fs.root g).first_block)
        × ((wrote.root g).last_block ≡ (fs.root g).last_block)
        × ((wrote.root g).mode ≡ (fs.root g).mode)
        × ((wrote.root g).name ≡ (fs.root g).name)
        × (g ≢ f → (wrote.root g).size ≡ (fs.root g).size)
        × (g ≡ f → (wrote.root g).size ≡ max (fs.root f).size (offset + (written + part)))
  unfolding write_round fat_read_block fat_write_block update
  round-root g = (
    ground arith,
    ground arith,
    ground arith,
    ground arith,
    λ ne. ground arith,
    λ e. ground arith,
  )

  pub round-IsValid :
      (chain : ℕ → List ℕ) (free : List ℕ)
      → IsValid fs chain free
      → f < max_files
      → offset + (written + part) ≤ block_size * length (chain f)
      → IsValid wrote chain free
  round-IsValid chain free v lt fits = record {
    files = λ g lg. rw (round-links.0, (round-root g).0) (v.files g lg);
    lasts = λ g lg. (round-root g).1 ∙ v.lasts g lg;
    frees = rw (round-links.0, round-links.1) v.frees;
    last_free = round-links.2 ∙ v.last_free;
    inside = v.inside;
    free_inside = v.free_inside;
    distinct = v.distinct;
    free_distinct = v.free_distinct;
    apart = v.apart;
    used = v.used;
    covers = λ g lg. elim (Bool-cases (g == f)) [
      | inl h ↦
          let e : g ≡ f = ground arith in
          rw e (ground (arith, (round-root f).5 refl, v.covers f lt))
      | inr h ↦ omega (arith, (round-root g).4 (ground arith), v.covers g lg)
    ];
  }
