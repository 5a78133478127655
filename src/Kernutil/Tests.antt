-- ===== src/Kernutil/Tests.antt =====
-- Runs of kernutil.c, and its theorems at concrete strings.
use s.Base.{pos, update, ℕ, ◌≡◌, refl, ◌<◌, [], ◌∷◌, List, arith, max}
use s.Kernutil.{
  digit_char, strcmp, string_at, count_digits, write_digits, write_padded, itoa, itoap,
}
use s.Kernutil.Text.{parse, parse-itoap}

abbrev blank : ℕ → ℕ
blank i = 35

abbrev ab : List ℕ
ab = 97 ∷ 98 ∷ []

same_run : strcmp ab ab ≡ pos 0
unfolding strcmp
same_run = refl

prefix_run : strcmp ab (97 ∷ []) ≡ pos 98
unfolding strcmp
prefix_run = refl

parse-itoap_example :
    let width = max (count_digits 407 407 10) 5 in
    let text = itoap 407 blank 10 5 in
    (parse 10 text width ≡ 407)
    × (text width ≡ 0)
    × ((j : ℕ) → width < j → text j ≡ blank j)
    × (itoap 407 blank 10 0 ≡ itoa 407 blank 10)
parse-itoap_example = parse-itoap 407 blank 10 5 (omega arith) (omega arith)

itoap_run : string_at (itoap 407 blank 10 5) 0 10 ≡ 48 ∷ 48 ∷ 52 ∷ 48 ∷ 55 ∷ []
unfolding itoap string_at update count_digits write_padded digit_char
itoap_run = refl

itoa_run : string_at (itoa 407 blank 10) 0 10 ≡ 52 ∷ 48 ∷ 55 ∷ []
unfolding itoa string_at update count_digits write_digits digit_char
itoa_run = refl
