-- ===== src/Kernutil.antt =====
-- kernutil.c: numbers to text, and C strings. A `char` is its code. A string that is only read is
-- the list of its characters before the '\0'; a buffer that is written is an array.
pub mod Text
pub mod Compare
mod Tests
use s.Base.{
  ℕ, zero, suc, ◌+◌, ◌-◌, ◌/◌, ◌%◌, ◌^◌, Bool, true, false, List, [], ◌∷◌, ℤ, pos, sub_ℕ, update,
  ◌==◌, leb, if◌then◌else◌, length,
}

-- The string in an array, from index `i` on: up to the first '\0', and at most `n` characters.
unfoldable pub string_at : (ℕ → ℕ) → ℕ → ℕ → List ℕ
string_at str i zero = []
string_at str i (suc n) =
    let rest = string_at str (suc i) n in if str i == 0 then [] else str i ∷ rest

-- `for (l=1; v /= base; l++)`, on fuel; `v` has `l` digits and what is left of it.
unfoldable pub count_digits : ℕ → ℕ → ℕ → ℕ
count_digits zero v base = 1
count_digits (suc fuel) v base =
    let more = count_digits fuel (v / base) base in if v / base == 0 then 1 else suc more

-- `'0' + (v % base)` stored in a `char`
unfoldable pub digit_char : ℕ → ℕ → ℕ
digit_char v base = (b'0' + v % base) % 2 ^ 8

-- `for (i=l-1; i > -1; i--) { str[i] = '0' + (v % base); v /= base; }`
unfoldable pub write_digits : ℕ → ℕ → ℕ → (ℕ → ℕ) → ℕ → ℕ
write_digits base zero v str = str
write_digits base (suc i) v str = write_digits base i (v / base) (update str i (digit_char v base))

-- For a `value` that is not negative, as every caller's is. The fuel is enough since a base is at
-- least 2.
unfoldable pub itoa : ℕ → (ℕ → ℕ) → ℕ → ℕ → ℕ
itoa value str base =
    let l = count_digits value value base in update (write_digits base l value str) l 0

-- `for (i=l-1+n; i > -1; i--) { str[i] = '0'; if (i >= n) { ... } }`
unfoldable pub write_padded : ℕ → ℕ → ℕ → ℕ → (ℕ → ℕ) → ℕ → ℕ
write_padded base n zero v str = str
write_padded base n (suc i) v str =
    write_padded base n i (if leb n i then v / base else v)
      (update str i (if leb n i then digit_char v base else b'0'))

unfoldable pub itoap : ℕ → (ℕ → ℕ) → ℕ → ℕ → ℕ → ℕ
unfolding count_digits write_padded
itoap value str base minlengh =
    let l = count_digits value value base in
    let n = minlengh - l in
    if n == 0 then itoa value str base else update (write_padded base n (l + n) value str) (l + n) 0

-- `for (; first[i]; i++) dst[i] = first[i]` from index `i` of the target on.
unfoldable pub copy_chars : (ℕ → ℕ) → ℕ → List ℕ → ℕ → ℕ
copy_chars dst i [] = dst
copy_chars dst i (c ∷ cs) = copy_chars (update dst i c) (suc i) cs

unfoldable pub strcat : (ℕ → ℕ) → List ℕ → List ℕ → ℕ → ℕ
unfolding copy_chars
strcat dst first second =
    update (copy_chars (copy_chars dst 0 first) (length first) second)
      (length first + length second) 0

-- The loop ends at the end of `s1` or at the first difference; past its end a string reads '\0'.
unfoldable pub strcmp : List ℕ → List ℕ → ℤ
strcmp [] [] = pos 0
strcmp [] (d ∷ ds) = sub_ℕ 0 d
strcmp (c ∷ cs) [] = pos c
strcmp (c ∷ cs) (d ∷ ds) = let rest = strcmp cs ds in if c == d then rest else sub_ℕ c d
