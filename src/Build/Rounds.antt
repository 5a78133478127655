-- ===== src/Build/Rounds.antt =====
-- The loop of build.c over a file, and the places that get a size, on a host without faults.
use s.Base.{
  ℕ, zero, suc, ◌+◌, ◌-◌, ◌/◌, ◌%◌, ◌^◌, ◌≤◌, ◌<◌, min, ◌≡◌, refl, sym, ap, ◌∙◌, fun_ext, some,
  List, [], ◌∷◌, length, take, drop, length-take, pos, is_neg, ◌=ℤ◌, not, arith, update, ◌==◌,
  Bool-cases, inl, inr, subst,
}
use s.Utils.Placed.{placed}
use s.Build.{
  Host, Builder, Failure, copy_rounds, copy_file, write_size, write_image_size, bytes_of, buf_size,
  low_byte, done, size_or_die,
}
use s.Build.Disk.{Disk, Works, Ends, ends, bind, Shows, left, written, moved}
use s.Build.Copies.{
  length-drop, placed-parts, bytes_of-placed, passes, goes_on, open_fd-Shows, read_buf-Shows,
  write_buf-Shows, close_fd-Shows, stat_fd-Shows, seek_out-Shows,
}

no_items : (xs : List ℕ) → length xs ≡ 0 → xs ≡ []
no_items [] e = refl
no_items (x ∷ xs) e = absurd (omega (arith, e))

empty-written : (d : Disk) → length d.input ≡ 0 → d ≡ left [] (written d.input d)
empty-written d e =
    let with : List ℕ → (ℕ → ℕ) → ℕ → Disk =
      λ input out at. record d { input = input; out = out; at = at } in
    let out : d.out ≡ placed d.input d.out d.at = fun_ext λ j. ground (arith, e) in
    let at : d.at ≡ d.at + length d.input = omega (arith, e) in
    ap (λ l. with l d.out d.at) (no_items d.input e)
    ∙ ap (λ o. with [] o d.at) out
    ∙ ap (λ a. with [] (placed d.input d.out d.at) a) at

parts-written :
    (d : Disk) (n : ℕ)
    → n ≤ length d.input
    → left [] (written (drop n d.input) (written (take n d.input) (left (drop n d.input) d)))
      ≡ left [] (written d.input d)
parts-written d n le =
    let taken = length-take n d.input le in
    let with : (ℕ → ℕ) → ℕ → Disk = λ out at. record d { input = []; out = out; at = at } in
    let at : d.at + n + length (drop n d.input) ≡ d.at + length d.input =
      omega (arith, length-drop n d.input, le) in
    rw taken (
      ap (λ o. with o (d.at + n + length (drop n d.input))) (placed-parts n d.input d.out d.at le)
      ∙ ap (λ a. with (placed d.input d.out d.at) a) at)

-- The file is read to its end.
abbrev pub ended : ℕ → Disk → Disk
ended size d = record d { input = []; size = size }

abbrev pub size_bytes : ℕ → List ℕ
size_bytes size = low_byte size ∷ low_byte (size / 2 ^ 8) ∷ low_byte (size / 2 ^ 16) ∷ 0 ∷ []

abbrev pub image_bytes : ℕ → List ℕ
image_bytes size = low_byte size ∷ low_byte (size / 2 ^ 8) ∷ []

module _ {W : Type 0} (host : Host W) (view : W → Disk) (works : Works host view) where
  copy_rounds-Shows :
      (fuel : ℕ) (d : Disk) (b : Builder W)
      → Shows view d b
      → length d.input ≤ fuel
      → Ends
          (λ r b'. Shows view (left [] (written d.input d)) b')
          (copy_rounds host fuel (length d.input) b)
  unfolding copy_rounds
  copy_rounds-Shows zero d b s le =
      ends (subst (λ v. Shows view v b) (empty-written d (omega arith)) s)
  copy_rounds-Shows (suc fuel) d b s le = elim (Bool-cases (length d.input == 0)) [
    | inl h ↦ rw h (ends (subst (λ v. Shows view v b) (empty-written d (ground (arith, h))) s))
    | inr h ↦
        rw h
          let n = min buf_size (length d.input) in
            let fits : n ≤ length d.input = omega arith in
            let taken = length-take n d.input fits in
            let rest = drop n d.input in
            let done' = written (take n d.input) (left rest d) in
            let e : length d.input - n ≡ length rest = sym (length-drop n d.input) in
            bind (read_buf-Shows host view works d b n s) λ count b1 (counted, s1, held).
              passes _ (goes_on _ (ap is_neg counted)) (
                passes _ (goes_on _ (ap (λ c. not (c =ℤ pos n)) counted ∙ ground (arith, fits))) (
                  bind (write_buf-Shows host view works (left rest d) b1 n s1)
                    λ short b2 (fine, s2, kept).
                      let all : bytes_of b1.buf 0 n ≡ take n d.input =
                        ap (λ a. bytes_of a 0 n) held
                        ∙ ap (λ m. bytes_of (placed (take n d.input) b.buf 0) 0 m) (sym taken)
                        ∙ bytes_of-placed (take n d.input) b.buf in
                      let finish : Ends (λ r b'. Shows view (left [] (written d.input d)) b')
                          (copy_rounds host fuel (length d.input - n) b2) =
                        rw e (
                          subst
                            (λ v.
                              Ends (λ r b'. Shows view v b')
                                (copy_rounds host fuel (length rest) b2))
                            (parts-written d n fits)
                            (copy_rounds-Shows fuel done' b2
                              (subst (λ l. Shows view (written l (left rest d)) b2) all s2)
                              (ground (arith, h, length-drop n d.input)))) in
                      passes _ (goes_on _ fine) finish))
  ]

  -- A file whose size fits 32 bits goes to the output as it is.
  pub copy_file-Shows :
      (d : Disk) (b : Builder W) (name bytes : List ℕ)
      → Shows view d b
      → d.files name ≡ some bytes
      → length bytes < 2 ^ 32
      → Ends
          (λ sz b'. (sz ≡ length bytes) × Shows view (ended (length bytes) (written bytes d)) b')
          (copy_file host name b)
  unfolding copy_file size_or_die
  copy_file-Shows d b name bytes s found small =
      let opened = record d { input = bytes; size = length bytes } in
      let size : length bytes % 2 ^ 32 ≡ length bytes = omega arith in
      bind (open_fd-Shows host view works d b name bytes s found) λ fd b1 (fine, s1, same).
        passes _ (goes_on _ fine) (
          bind (stat_fd-Shows host view works opened b1 s1) λ st b2 (stated, s2, same').
            passes _ (ap (λ o. size_or_die host o b2) stated ∙ ap (λ n. done (n, b2)) size) (
              bind (copy_rounds-Shows (length bytes) opened b2 s2 (omega arith)) λ r b3 s3.
                bind (close_fd-Shows host view works (ended (length bytes) (written bytes d)) b3 s3)
                  λ r' b4 p. ends (refl, p.0)))

  -- The four bytes of a size.
  pub write_size-Shows :
      (d : Disk) (b : Builder W) (at size : ℕ) (e : Failure)
      → Shows view d b
      → Ends
          (λ r b'. Shows view (written (size_bytes size) (moved at d)) b')
          (write_size host at size e b)
  unfolding write_size bytes_of update
  write_size-Shows d b at size e s =
      bind (seek_out-Shows host view works d b at s) λ lost b1 (fine, s1, same).
        passes _ (goes_on _ fine) (
          bind
            (write_buf-Shows host view works (moved at d)
              (record b1 {
                buf =
                    update
                      (update (update (update b1.buf 0 (low_byte size)) 1 (low_byte (size / 2 ^ 8)))
                        2 (low_byte (size / 2 ^ 16)))
                      3 0;
              })
              4 s1)
            λ short b2 (fine', s2, same'). subst (Ends _) (sym (goes_on e fine')) (ends s2))

  pub write_image_size-Shows :
      (d : Disk) (b : Builder W) (im_size : ℕ)
      → Shows view d b
      → Ends
          (λ r b'. Shows view (written (image_bytes im_size) (moved 500 d)) b')
          (write_image_size host im_size b)
  unfolding write_image_size bytes_of update
  write_image_size-Shows d b im_size s =
      bind (seek_out-Shows host view works d b 500 s) λ lost b1 (fine, s1, same).
        passes _ (goes_on _ fine) (
          bind
            (write_buf-Shows host view works (moved 500 d)
              (record b1 {
                buf = update (update b1.buf 0 (low_byte im_size)) 1 (low_byte (im_size / 2 ^ 8));
              })
              2 s1)
            λ short b2 (fine', s2, same'). subst (Ends _) (sym (goes_on _ fine')) (ends s2))
