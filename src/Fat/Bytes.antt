-- ===== src/Fat/Bytes.antt =====
-- The bytes of a file, in order, as its chain of blocks holds them.
use s.Base.{
  ℕ, zero, suc, ◌+◌, ◌-◌, ◌*◌, ◌/◌, ◌%◌, ◌<◌, ◌≡◌, refl, ◌≢◌, true, false, ◌&&◌, List, [], ◌∷◌,
  ◌++◌, pos, arith, ◌==◌, leb, ltb, if◌then◌else◌, length, get_or, ap, ◌∙◌, Bool-cases, inl, inr,
}
use s.ListHead.Links.{has, Distinct}
use s.Utils.Copy.{spliced}
use s.Fat.{block_size, eoc}
use s.Fat.Chain.{block_at}

abbrev pub nth : List ℕ → ℕ → ℕ
nth xs n = get_or xs n 0

-- The i-th byte of the blocks `xs`.
abbrev pub byte_at : (ℕ → ℕ → ℕ) → List ℕ → ℕ → ℕ
byte_at contents xs i = contents (nth xs (i / block_size)) (i % block_size)

pub block_at-nth : (xs : List ℕ) (n : ℕ) → n < length xs → block_at xs n ≡ pos (nth xs n)
block_at-nth [] n lt = absurd (omega arith)
block_at-nth (x ∷ xs) zero lt = refl
block_at-nth (x ∷ xs) (suc n) lt = block_at-nth xs n (omega arith)

pub block_at-end : (xs : List ℕ) → block_at xs (length xs) ≡ eoc
block_at-end [] = refl
block_at-end (x ∷ xs) = block_at-end xs

pub nth-has : (xs : List ℕ) (n : ℕ) → n < length xs → has (nth xs n) xs ≡ true
nth-has [] n lt = absurd (omega arith)
nth-has (x ∷ xs) zero lt = ground arith
nth-has (x ∷ xs) (suc n) lt = ground (arith, nth-has xs n)

pub nth-append : (xs ys : List ℕ) (n : ℕ) → n < length xs → nth (xs ++ ys) n ≡ nth xs n
nth-append [] ys n lt = absurd (omega arith)
nth-append (x ∷ xs) ys zero lt = refl
nth-append (x ∷ xs) ys (suc n) lt = nth-append xs ys n (omega arith)

pub nth-snoc : (xs : List ℕ) (b : ℕ) → nth (xs ++ b ∷ []) (length xs) ≡ b
nth-snoc [] b = refl
nth-snoc (x ∷ xs) b = nth-snoc xs b

-- Different places of a chain hold different blocks.
pub nth-Distinct :
    (xs : List ℕ) (m n : ℕ)
    → Distinct xs
    → m < length xs
    → n < length xs
    → m ≢ n
    → nth xs m ≢ nth xs n
nth-Distinct [] m n d lm ln ne = absurd (omega arith)
nth-Distinct (x ∷ xs) zero zero d lm ln ne = absurd (ne refl)
nth-Distinct (x ∷ xs) zero (suc n) d lm ln ne = λ e. ground (arith, nth-has xs n, d.0)
nth-Distinct (x ∷ xs) (suc m) zero d lm ln ne = λ e. ground (arith, nth-has xs m, d.0)
nth-Distinct (x ∷ xs) (suc m) (suc n) d lm ln ne =
    nth-Distinct xs m n d.1 (omega arith) (omega arith) (λ e. ne (ap suc e))

-- Bytes put into one block of a chain are bytes put into the file.
pub write-bytes :
    (c c' : ℕ → ℕ → ℕ) (xs : List ℕ) (k bo size : ℕ) (p : ℕ → ℕ) (s i : ℕ)
    → Distinct xs
    → k < length xs
    → bo + size < block_size + 1
    → ((j : ℕ) → j < block_size → c' (nth xs k) j ≡ spliced p s (c (nth xs k)) bo size j)
    → ((b j : ℕ) → b ≢ nth xs k → c' b j ≡ c b j)
    → i < block_size * length xs
    → byte_at c' xs i ≡ spliced p s (byte_at c xs) (k * block_size + bo) size i
write-bytes c c' xs k bo size p s i d lt fits own other li =
    elim (Bool-cases (i / block_size == k)) [
      | inl h ↦
          let e : i / block_size ≡ k = ground arith in
          let m : i ≡ k * block_size + i % block_size = omega (arith, e) in
          rw e (own (i % block_size) (omega arith) ∙ shift (i % block_size) m)
      | inr h ↦
          let ne : i / block_size ≢ k = ground arith in
          other (nth xs (i / block_size)) (i % block_size)
            (nth-Distinct xs (i / block_size) k d (omega arith) lt ne)
          ∙ outside ne
    ]
  where
    shift :
        (r : ℕ)
        → i ≡ k * block_size + r
        → spliced p s (c (nth xs k)) bo size r ≡ (
            if leb (k * block_size + bo) i && ltb i (k * block_size + bo + size)
            then p (s + (i - (k * block_size + bo)))
            else c (nth xs k) r)
    shift r m =
        let e : leb (k * block_size + bo) i && ltb i (k * block_size + bo + size)
            ≡ leb bo r && ltb r (bo + size) =
          ground arith in
        let g : i - (k * block_size + bo) ≡ r - bo = omega (arith, m) in rw (e, g) refl

    outside :
        i / block_size ≢ k
        → byte_at c xs i ≡ spliced p s (byte_at c xs) (k * block_size + bo) size i
    outside ne =
        let e : leb (k * block_size + bo) i && ltb i (k * block_size + bo + size) ≡ false =
          ground arith in
        rw e refl
