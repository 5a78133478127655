-- ===== src/Build/Sector.antt =====
-- The boot sector of build.c, on a host without faults.
use s.Base.{
  ℕ, zero, suc, ◌+◌, ◌≤◌, ◌<◌, ◌≡◌, refl, sym, ap, ◌∙◌, some, List, [], ◌∷◌, ◌++◌, length, drop,
  replicate, get_or, take_all, pos, ◌=ℤ◌, not, ◌||◌, ◌==◌, arith, update, subst, if◌then◌else◌,
}
use s.Utils.Placed.{placed}
use s.Build.{
  Host, Builder, minix_open, copy_sector, bytes_of, buf_size, minix_header_len, hdr, same_bytes, lb,
}
use s.Build.Disk.{Disk, Works, Ends, ends, bind, weaken, Shows, written}
use s.Build.Copies.{
  passes, goes_on, placed_at, open_fd-Shows, read_buf-Shows, write_buf-Shows, close_fd-Shows,
}
use s.Build.Rounds.{ended}

-- A header of the Minix format without data, without a stack segment and without symbols; `text` is
-- the bytes of the size of its code, and `total` those of its memory.
abbrev pub minix_header : (text total : ℕ → ℕ) → List ℕ
minix_header text total =
    hdr ++ bytes_of text 0 4 ++ replicate 12 0 ++ bytes_of total 0 4 ++ replicate 4 0

-- The sector as it is written.
abbrev pub patched : List ℕ → List ℕ
patched sector = bytes_of (update (update (λ i. get_or sector i 0) 508 0) 509 0) 0 512

drop_all : (n : ℕ) (xs : List ℕ) → length xs ≤ n → drop n xs ≡ []
drop_all zero [] le = refl
drop_all zero (x ∷ xs) le = absurd (omega arith)
drop_all (suc n) [] le = refl
drop_all (suc n) (x ∷ xs) le = drop_all n xs (omega arith)

bytes_of-same :
    (a c : ℕ → ℕ) (i n : ℕ) → ((j : ℕ) → j < i + n → a j ≡ c j) → bytes_of a i n ≡ bytes_of c i n
unfolding bytes_of
bytes_of-same a c i zero same = refl
bytes_of-same a c i (suc n) same =
    ap (λ x. x ∷ bytes_of a (suc i) n) (same i (omega arith))
    ∙ ap (λ l. c i ∷ l) (bytes_of-same a c (suc i) n λ j lt. same j (omega arith))

same_patched :
    (sector : List ℕ) (a : ℕ → ℕ)
    → length sector ≡ 512
    → (j : ℕ) → j < 0 + 512
    → update (update (placed sector a 0) 508 0) 509 0 j
      ≡ update (update (λ i. get_or sector i 0) 508 0) 509 0 j
unfolding update
same_patched sector a len j lt =
    ap (λ c. if j == 509 then 0 else if j == 508 then 0 else c)
      (placed_at sector a j (omega (arith, len, lt)))

module _ {W : Type 0} (host : Host W) (view : W → Disk) (works : Works host view) where
  minix_open-Shows :
      (d : Disk) (b : Builder W) (name rest : List ℕ) (text total : ℕ → ℕ)
      → Shows view d b
      → d.files name ≡ some (minix_header text total ++ rest)
      → Ends
          (λ r b'. Shows view (record d { input = rest; size = 32 + length rest }) b')
          (minix_open host name b)
  unfolding minix_open bytes_of
  minix_open-Shows d b name rest text total s found =
      let file = minix_header text total ++ rest in
      let opened = record d { input = file; size = length file } in
      bind (open_fd-Shows host view works d b name file s found) λ fd b1 (fine, s1, same).
        passes _ (goes_on _ fine) (
          bind (read_buf-Shows host view works opened b1 minix_header_len s1)
            λ n b2 (counted, s2, held).
              passes _ (goes_on _ (ap (λ c. not (c =ℤ pos 32)) counted ∙ ground arith)) (
                passes _ (goes_on _ (ap (λ a. not (same_bytes a 0 hdr) || not (lb a 5 == 0)) held))
                  (passes _ (goes_on _ (ap (λ a. not (lb a 3 == 0)) held)) (
                    passes _ (goes_on _ (ap (λ a. not (lb a 4 == 0)) held)) (
                      subst (Ends _) (sym (goes_on _ (ap (λ a. not (lb a 7 == 0)) held))) (
                        ends (
                          subst (λ z. Shows view (record d { input = rest; size = z }) b2)
                            (omega arith) s2)))))))

  -- The boot sector goes to the output with the root device's numbers.
  pub copy_sector-Shows :
      (d : Disk) (b : Builder W) (name sector : List ℕ) (text total : ℕ → ℕ)
      → Shows view d b
      → d.files name ≡ some (minix_header text total ++ sector)
      → length sector ≡ 512
      → get_or sector 510 0 ≡ 0x55
      → get_or sector 511 0 ≡ 0xaa
      → Ends
          (λ r b'. Shows view (ended 544 (written (patched sector) d)) b')
          (copy_sector host name b)
  unfolding copy_sector
  copy_sector-Shows d b name sector text total s found len flag flag' =
      let opened = record d { input = sector; size = 32 + length sector } in
      bind (minix_open-Shows d b name sector text total s found) λ r b1 s1.
        bind (read_buf-Shows host view works opened b1 buf_size s1) λ i b2 (counted, s2, held).
          let read =
            held ∙ ap (λ l. placed l b1.buf 0) (take_all buf_size sector (omega (arith, len))) in
          passes _ (goes_on _ (ap (λ c. not (c =ℤ pos 512)) counted ∙ ground (arith, len))) (
            let first =
              ap (λ a. a 510) read ∙ placed_at sector b1.buf 510 (omega (arith, len)) ∙ flag in
            let second =
              ap (λ a. a 511) read ∙ placed_at sector b1.buf 511 (omega (arith, len)) ∙ flag' in
            passes _
              (goes_on _ (
                ap (λ c. not (c == 0x55) || not (b2.buf 511 == 0xaa)) first
                ∙ ap (λ c. not (c == 0xaa)) second))
              (bind
                (write_buf-Shows host view works (record opened { input = drop buf_size sector })
                  (record b2 { buf = update (update b2.buf 508 0) 509 0 }) 512 s2)
                λ short b3 (fine, s3, same). passes _ (goes_on _ fine) (
                  let all : bytes_of (update (update b2.buf 508 0) 509 0) 0 512 ≡ patched sector =
                    ap (λ a. bytes_of (update (update a 508 0) 509 0) 0 512) read
                    ∙ bytes_of-same (update (update (placed sector b1.buf 0) 508 0) 509 0)
                        (update (update (λ j. get_or sector j 0) 508 0) 509 0) 0 512
                        (same_patched sector b1.buf len) in
                  let with : List ℕ → List ℕ → ℕ → Disk =
                    λ bytes input size. written bytes (record d { input = input; size = size }) in
                  let shown : with (bytes_of (update (update b2.buf 508 0) 509 0) 0 512)
                        (drop buf_size sector) (32 + length sector)
                      ≡ ended 544 (written (patched sector) d) =
                    ap (λ l. with l (drop buf_size sector) (32 + length sector)) all
                    ∙ ap (λ l. with (patched sector) l (32 + length sector))
                        (drop_all buf_size sector (omega (arith, len)))
                    ∙ ap (λ z. with (patched sector) [] z) (omega (arith, len)) in
                  weaken
                    (close_fd-Shows host view works (ended 544 (written (patched sector) d)) b3
                      (subst (λ v. Shows view v b3) shown s3))
                    λ r' b4 p. p.0)))
