-- ===== src/Utils/Copy.antt =====
-- The copy of utils.c does what a copy byte by byte does.
use s.Base.{
  true, ◌≤◌, ◌≢◌, ℕ, zero, suc, ◌+◌, ◌-◌, ◌≡◌, refl, ◌∙◌, ◌&&◌, arith, update, leb, ltb, ◌==◌,
  if◌then◌else◌, ap, Bool-cases, inl, inr,
}
use s.Utils.{copy_bytes, copy_word, copy_data}

-- `size` bytes of `p` from `s` on, put into `q` from `d` on.
abbrev pub spliced : (ℕ → ℕ) → ℕ → (ℕ → ℕ) → ℕ → ℕ → ℕ → ℕ
spliced p s q d size j = if leb d j && ltb j (d + size) then p (s + (j - d)) else q j

-- A byte written first and a splice behind it are a longer splice.
spliced-step :
    (p : ℕ → ℕ) (s : ℕ) (q : ℕ → ℕ) (d size s' d' j : ℕ)
    → s' ≡ s + 1
    → d' ≡ d + 1
    → spliced p s' (update q d (p s)) d' size j ≡ spliced p s q d (suc size) j
unfolding update
spliced-step p s q d size s' d' j es ed = elim (Bool-cases (ltb d j)) [
  | inl h ↦ let e : s' + (j - d') ≡ s + (j - d) = ground arith in ground (arith, ap p e)
  | inr h ↦ elim (Bool-cases (j == d)) [
    | inl k ↦ let e : s ≡ s + (j - d) = ground arith in ground (arith, ap p e)
    | inr k ↦ ground arith
  ]
]

copy_bytes-spliced :
    (p : ℕ → ℕ) (s : ℕ) (q : ℕ → ℕ) (d size j : ℕ)
    → copy_bytes p s q d size j ≡ spliced p s q d size j
unfolding copy_bytes
copy_bytes-spliced p s q d zero j = ground arith
copy_bytes-spliced p s q d (suc size) j =
    copy_bytes-spliced p (suc s) (update q d (p s)) (suc d) size j
    ∙ spliced-step p s q d size (suc s) (suc d) j (omega arith) (omega arith)

word-spliced :
    (p : ℕ → ℕ) (s : ℕ) (q : ℕ → ℕ) (d size j : ℕ)
    → spliced p (s + 4) (copy_word p s q d) (d + 4) size j
      ≡ spliced p s q d (suc (suc (suc (suc size)))) j
unfolding copy_word
word-spliced p s q d size j =
    spliced-step p (s + 3)
      (update (update (update q d (p s)) (d + 1) (p (s + 1))) (d + 2) (p (s + 2))) (d + 3) size
      (s + 4) (d + 4) j (omega arith) (omega arith)
    ∙ spliced-step p (s + 2) (update (update q d (p s)) (d + 1) (p (s + 1))) (d + 2) (suc size)
        (s + 3) (d + 3) j (omega arith) (omega arith)
    ∙ spliced-step p (s + 1) (update q d (p s)) (d + 1) (suc (suc size)) (s + 2) (d + 2) j
        (omega arith) (omega arith)
    ∙ spliced-step p s q d (suc (suc (suc size))) (s + 1) (d + 1) j refl refl

-- `copy_data`, which copies in words and then in bytes, copies the same bytes as a copy byte by
-- byte, and no others.
pub copy_data-spliced :
    (p : ℕ → ℕ) (s : ℕ) (q : ℕ → ℕ) (d size j : ℕ)
    → copy_data p s q d size j ≡ spliced p s q d size j
unfolding copy_data
copy_data-spliced p s q d (suc (suc (suc (suc (suc n))))) j =
    copy_data-spliced p (s + 4) (copy_word p s q d) (d + 4) (suc n) j
    ∙ word-spliced p s q d (suc n) j
copy_data-spliced p s q d size j = copy_bytes-spliced p s q d size j

le_of_leb : (a b : ℕ) → leb a b ≡ true → a ≤ b
le_of_leb a b h = ground arith

-- A splice over a splice that ends where it begins is one splice.
pub spliced-join :
    (p q r : ℕ → ℕ) (s s' d d' size m j : ℕ)
    → q j ≡ spliced p s r d size j
    → (m ≢ 0 → s' ≡ s + size)
    → (m ≢ 0 → d' ≡ d + size)
    → spliced p s' q d' m j ≡ spliced p s r d (size + m) j
spliced-join p q r s s' d d' size m j e es ed = elim (Bool-cases (m == 0)) [
  | inl h ↦ ground arith
  | inr h ↦ elim (Bool-cases (leb (d + size) j)) [
    | inl k ↦
        let t : s' + (j - d') ≡ s + (j - d) =
          omega (arith, es (ground arith), ed (ground arith), le_of_leb (d + size) j k) in
        ground (arith, ap p t, ed (ground arith))
    | inr k ↦ ground (arith, ed (ground arith))
  ]
]
