-- ===== src/Kernutil/Compare.antt =====
-- `strcmp` and `strcat` of kernutil.c.
use s.Base.{
  ℕ, zero, suc, ◌+◌, ◌≡◌, refl, ◌≢◌, ◌↔◌, ◌<◌, ◌≤◌, List, [], ◌∷◌, pos, arith, ap, ◌∙◌, update,
  update_self, update_ne, length,
}
use s.Kernutil.{string_at, copy_chars, strcat, strcmp}

-- A C string: no '\0' inside.
abbrev pub NoNul : List ℕ → Type 0
NoNul [] = Unit
NoNul (c ∷ cs) = (c ≢ 0) × NoNul cs

strcmp-eq : (s t : List ℕ) → NoNul s → NoNul t → strcmp s t ≡ pos 0 → s ≡ t
unfolding strcmp
strcmp-eq [] [] ns nt e = refl
strcmp-eq [] (d ∷ ds) ns nt e = ground arith
strcmp-eq (c ∷ cs) [] ns nt e = ground arith
strcmp-eq (c ∷ cs) (d ∷ ds) ns nt e = ground (arith, strcmp-eq cs ds ns.1 nt.1)

strcmp_refl : (s : List ℕ) → strcmp s s ≡ pos 0
unfolding strcmp
strcmp_refl [] = refl
strcmp_refl (c ∷ cs) = ground (arith, strcmp_refl cs)

-- For strings without '\0' inside, `strcmp` answers 0 exactly when they are the same.
pub strcmp_iff : (s t : List ℕ) → NoNul s → NoNul t → (strcmp s t ≡ pos 0) ↔ (s ≡ t)
strcmp_iff s t ns nt = (strcmp-eq s t ns nt, λ e. rw e (strcmp_refl t))

-- What stands at an index after a copy.
copy_chars-before :
    (dst : ℕ → ℕ) (i : ℕ) (cs : List ℕ) (j : ℕ) → j < i → copy_chars dst i cs j ≡ dst j
unfolding copy_chars
copy_chars-before dst i [] j lt = refl
copy_chars-before dst i (c ∷ cs) j lt =
    copy_chars-before (update dst i c) (suc i) cs j (omega arith)
    ∙ update_ne dst i j c (λ e. omega arith)

copy_chars-after :
    (dst : ℕ → ℕ) (i : ℕ) (cs : List ℕ) (j : ℕ) → i + length cs ≤ j → copy_chars dst i cs j ≡ dst j
unfolding copy_chars
copy_chars-after dst i [] j le = refl
copy_chars-after dst i (c ∷ cs) j le =
    copy_chars-after (update dst i c) (suc i) cs j (omega arith)
    ∙ update_ne dst i j c (λ e. omega arith)

-- The string in an array that has been copied into, and ended.
abbrev pub Holds : (ℕ → ℕ) → ℕ → List ℕ → Type 0
Holds a i [] = Unit
Holds a i (c ∷ cs) = (a i ≡ c) × Holds a (suc i) cs

Holds-copy : (dst : ℕ → ℕ) (i : ℕ) (cs : List ℕ) → Holds (copy_chars dst i cs) i cs
unfolding copy_chars
Holds-copy dst i [] = tt
Holds-copy dst i (c ∷ cs) = (
  copy_chars-before (update dst i c) (suc i) cs i (omega arith) ∙ update_self dst i c,
  Holds-copy (update dst i c) (suc i) cs,
)

Holds-same :
    (a b : ℕ → ℕ) (i : ℕ) (cs : List ℕ)
    → ((j : ℕ) → j < i + length cs → b j ≡ a j)
    → Holds a i cs
    → Holds b i cs
Holds-same a b i [] same h = tt
Holds-same a b i (c ∷ cs) same h =
    (same i (omega arith) ∙ h.0, Holds-same a b (suc i) cs (λ j lt. same j (omega arith)) h.1)

string_at-Holds :
    (a : ℕ → ℕ) (i : ℕ) (cs : List ℕ) (n : ℕ)
    → NoNul cs
    → Holds a i cs
    → a (i + length cs) ≡ 0
    → length cs < n
    → string_at a i n ≡ cs
unfolding string_at
string_at-Holds a i cs zero nn h z lt = absurd (omega arith)
string_at-Holds a i [] (suc n) nn h z lt = ground (arith, ap a (i_zero i))
  where
    i_zero : (k : ℕ) → k + 0 ≡ k
    i_zero k = omega arith
string_at-Holds a i (c ∷ cs) (suc n) nn h z lt = ground (
  arith,
  string_at-Holds a (suc i) cs n nn.1 h.1 (ap a (shift i (length cs)) ∙ z) (omega arith),
  h.0,
  nn.0,
)
  where
    shift : (k m : ℕ) → suc k + m ≡ k + suc m
    shift k m = omega arith

-- `strcat(dst, path, "")` copies a string without '\0' inside: with room for the '\0', the array
-- then holds it, and nothing behind the '\0' has changed.
pub strcat-copy :
    (dst : ℕ → ℕ) (path : List ℕ) (n : ℕ)
    → NoNul path
    → length path < n
    → (string_at (strcat dst path []) 0 n ≡ path)
      × ((j : ℕ) → length path < j → strcat dst path [] j ≡ dst j)
unfolding strcat
strcat-copy dst path n nn lt = (
  string_at-Holds whole 0 path n nn held ended lt,
  λ j g.
      update_ne (copy_chars dst 0 path) (length path + 0) j 0 (λ e. omega arith)
      ∙ copy_chars-after dst 0 path j (omega arith),
)
  where
    whole : ℕ → ℕ
    whole = update (copy_chars dst 0 path) (length path + 0) 0

    held : Holds whole 0 path
    held =
        Holds-same (copy_chars dst 0 path) whole 0 path
          (λ j g. update_ne (copy_chars dst 0 path) (length path + 0) j 0 (λ e. omega arith))
          (Holds-copy dst 0 path)

    ended : whole (0 + length path) ≡ 0
    ended = unfold update in ground arith
