-- ===== src/Kernutil/Text.antt =====
-- `itoa` and `itoap` of kernutil.c read back.
use s.Base.{
  ℕ, zero, suc, ◌+◌, ◌-◌, ◌*◌, ◌/◌, ◌%◌, ◌≡◌, refl, ◌<◌, ◌≤◌, arith, sym, ◌∙◌, update, update_self,
  update_ne, ◌==◌, Bool-cases, inl, inr, ==→≡, ap, leb, true, false, max, if◌then◌else◌,
}
use native.Mathlib.Nat.{div-add-mod}
use s.Kernutil.{digit_char, count_digits, write_digits, write_padded, itoa, itoap}

-- The number that the first `n` characters of a buffer stand for.
pub parse : ℕ → (ℕ → ℕ) → ℕ → ℕ
parse base str zero = 0
parse base str (suc n) = parse base str n * base + (str n - b'0')

parse-same :
    (base : ℕ) (a b : ℕ → ℕ) (n : ℕ)
    → ((j : ℕ) → j < n → b j ≡ a j)
    → parse base b n ≡ parse base a n
unfolding parse
parse-same base a b zero same = refl
parse-same base a b (suc n) same =
    ground (arith, parse-same base a b n (λ j lt. same j (omega arith)), same n (omega arith))

-- `l` digits are enough for `v`.
abbrev Fits : ℕ → ℕ → ℕ → Type 0
Fits base zero v = v ≡ 0
Fits base (suc l) v = Fits base l (v / base)

write_digits-after :
    (base l v : ℕ) (str : ℕ → ℕ) (j : ℕ) → l ≤ j → write_digits base l v str j ≡ str j
unfolding write_digits
write_digits-after base zero v str j le = refl
write_digits-after base (suc i) v str j le =
    write_digits-after base i (v / base) (update str i (digit_char v base)) j (omega arith)
    ∙ update_ne str i j (digit_char v base) (λ e. omega arith)

-- The characters of a base up to 80 fit 7 bits.
digit_char_lem : (v base : ℕ) → 2 ≤ base → base ≤ 80 → digit_char v base ≡ b'0' + v % base
unfolding digit_char
digit_char_lem v base b small = grind arith

parse-write :
    (base l v : ℕ) (str : ℕ → ℕ)
    → 2 ≤ base
    → base ≤ 80
    → Fits base l v
    → parse base (write_digits base l v str) l ≡ v
unfolding parse write_digits
parse-write base zero v str b small fits = sym fits
parse-write base (suc i) v str b small fits = grind (
  arith,
  parse-write base i (v / base) (update str i (digit_char v base)) b small fits,
  write_digits-after base i (v / base) (update str i (digit_char v base)) i (omega arith),
  update_self str i (digit_char v base),
  digit_char_lem v base b small,
  div-add-mod v base,
)

count-Fits : (fuel v base : ℕ) → 2 ≤ base → v ≤ fuel → Fits base (count_digits fuel v base) v
unfolding count_digits
count-Fits zero v base b le = omega arith
count-Fits (suc fuel) v base b le = elim (Bool-cases (v / base == 0)) [
  | inl p ↦ rw p (==→≡ (v / base) 0 p)
  | inr p ↦ rw p (count-Fits fuel (v / base) base b (grind arith))
]

-- For a base from 2 to 80, `itoa` writes a text that reads back as the number, ends it by a '\0',
-- and writes nothing behind that.
parse-itoa :
    (value : ℕ) (str : ℕ → ℕ) (base : ℕ)
    → 2 ≤ base
    → base ≤ 80
    → let l = count_digits value value base in
      (parse base (itoa value str base) l ≡ value)
      × (itoa value str base l ≡ 0)
      × ((j : ℕ) → l < j → itoa value str base j ≡ str j)
unfolding itoa
parse-itoa value str base b small = (
  parse-same base (write_digits base l value str) (update (write_digits base l value str) l 0) l
        (λ j lt. update_ne (write_digits base l value str) l j 0 (λ e. omega arith))
      ∙ parse-write base l value str b small (count-Fits value value base b (omega arith)),
  update_self (write_digits base l value str) l 0,
  λ j lt.
      update_ne (write_digits base l value str) l j 0 (λ e. omega arith)
      ∙ write_digits-after base l value str j (omega arith),
)
  where
    l : ℕ
    l = count_digits value value base

padded-after :
    (base n i v : ℕ) (str : ℕ → ℕ) (j : ℕ) → i ≤ j → write_padded base n i v str j ≡ str j
unfolding write_padded
padded-after base n zero v str j le = refl
padded-after base n (suc i) v str j le =
    padded-after base n i _ (update str i (if leb n i then digit_char v base else b'0')) j
      (omega arith)
    ∙ update_ne str i j _ (λ e. omega arith)

padded-zero :
    (base n i v : ℕ) (str : ℕ → ℕ)
    → leb n i ≡ false
    → write_padded base n (suc i) v str ≡ write_padded base n i v (update str i b'0')
unfolding write_padded
padded-zero base n i v str h =
    ap
      (λ t.
        write_padded base n i (if t then v / base else v)
          (update str i (if t then digit_char v base else b'0')))
      h

padded-digit :
    (base n i v : ℕ) (str : ℕ → ℕ)
    → leb n i ≡ true
    → write_padded base n (suc i) v str
      ≡ write_padded base n i (v / base) (update str i (digit_char v base))
unfolding write_padded
padded-digit base n i v str h =
    ap
      (λ t.
        write_padded base n i (if t then v / base else v)
          (update str i (if t then digit_char v base else b'0')))
      h

-- The characters before the number are zeros.
padded-zeros :
    (base n i v : ℕ) (str : ℕ → ℕ) → i ≤ n → parse base (write_padded base n i v str) i ≡ 0
unfolding parse
padded-zeros base n zero v str le = refl
padded-zeros base n (suc i) v str le =
    ap (λ a. parse base a (suc i)) (padded-zero base n i v str (ground arith))
    ∙ grind (
      arith,
      padded-zeros base n i v (update str i b'0') (omega arith),
      padded-after base n i v (update str i b'0') i (omega arith),
      update_self str i b'0',
    )

parse-padded :
    (base n i d v : ℕ) (str : ℕ → ℕ)
    → 2 ≤ base
    → base ≤ 80
    → i ≡ n + d
    → Fits base d v
    → parse base (write_padded base n i v str) i ≡ v
unfolding parse
parse-padded base n zero zero v str b small e fits = sym fits
parse-padded base n zero (suc d) v str b small e fits = absurd (omega (arith, e))
parse-padded base n (suc i) zero v str b small e fits =
    padded-zeros base n (suc i) v str (omega (arith, e)) ∙ sym fits
parse-padded base n (suc i) (suc d) v str b small e fits =
    ap (λ a. parse base a (suc i)) (padded-digit base n i v str (ground (arith, e)))
    ∙ grind (
      arith,
      parse-padded base n i d (v / base) (update str i (digit_char v base)) b small
          (omega (arith, e)) fits,
      padded-after base n i (v / base) (update str i (digit_char v base)) i (omega arith),
      update_self str i (digit_char v base),
      digit_char_lem v base b small,
      div-add-mod v base,
    )

itoap-short :
    (value : ℕ) (str : ℕ → ℕ) (base minlengh : ℕ)
    → minlengh ≤ count_digits value value base
    → itoap value str base minlengh ≡ itoa value str base
unfolding itoap
itoap-short value str base minlengh le =
    let none : minlengh - count_digits value value base == 0 ≡ true = ground (arith, le) in
    rw none refl

itoap-padded :
    (value : ℕ) (str : ℕ → ℕ) (base minlengh : ℕ)
    → count_digits value value base < minlengh
    → itoap value str base minlengh
      ≡ update
          (write_padded base (minlengh - count_digits value value base) minlengh value str)
          minlengh
          0
unfolding itoap
itoap-padded value str base minlengh lt =
    let c = count_digits value value base in
    let some : minlengh - c == 0 ≡ false = ground (arith, lt) in
    let width : c + (minlengh - c) ≡ minlengh = omega (arith, lt) in rw (some, width) refl

-- For a base from 2 to 80, whose characters all fit a `char`, `itoap` writes a text that reads back
-- as the number, of its digits or of `minlengh` characters, whichever are more, ends it by a '\0',
-- and writes nothing behind that. With a `minlengh` of 0 it is `itoa`.
pub parse-itoap :
    (value : ℕ) (str : ℕ → ℕ) (base minlengh : ℕ)
    → 2 ≤ base
    → base ≤ 80
    → let width = max (count_digits value value base) minlengh in
      let text = itoap value str base minlengh in
      (parse base text width ≡ value)
      × (text width ≡ 0)
      × ((j : ℕ) → width < j → text j ≡ str j)
      × (itoap value str base 0 ≡ itoa value str base)
parse-itoap value str base minlengh b small =
    let c = count_digits value value base in
    let n = minlengh - c in
    let padded = write_padded base n minlengh value str in
    let zero_lem = itoap-short value str base 0 (omega arith) in
    elim (Bool-cases (leb minlengh c)) [
      | inl h ↦
          let le : minlengh ≤ c = ground (arith, h) in
          let (number, end, behind) = parse-itoa value str base b small in
          let e : max c minlengh ≡ c = omega (arith, le) in
          rw (itoap-short value str base minlengh le, e) (number, end, behind, zero_lem)
      | inr h ↦
          let lt : c < minlengh = ground (arith, h) in
          let e : max c minlengh ≡ minlengh = omega (arith, lt) in
          rw (itoap-padded value str base minlengh lt, e)
            (
              parse-same base padded (update padded minlengh 0) minlengh
                    (λ j below. update_ne padded minlengh j 0 (λ f. omega (arith, below, f)))
                  ∙ parse-padded base n minlengh c value str b small (omega (arith, lt))
                      (count-Fits value value base b (omega arith)),
              update_self padded minlengh 0,
              λ j above.
                  update_ne padded minlengh j 0 (λ f. omega (arith, above, f))
                  ∙ padded-after base n minlengh value str j (omega (arith, above)),
              zero_lem,
            )
    ]
