-- ===== src/Utils/Placed.antt =====
-- Characters that are put into an array, by `strcat` or by way of the kernel's buffer.
use s.Base.{
  ℕ, suc, ◌+◌, ◌-◌, ◌≡◌, refl, ◌∙◌, ◌&&◌, List, [], ◌∷◌, arith, update, leb, ltb, ◌==◌,
  if◌then◌else◌, Bool-cases, inl, inr, length, get_or,
}
use s.Kernutil.{copy_chars}
use s.Utils.{copy_data}
use s.Utils.Copy.{copy_data-spliced}

-- The array `a` with the characters from index `i` on.
abbrev pub placed : List ℕ → (ℕ → ℕ) → ℕ → ℕ → ℕ
placed cs a i j = if leb i j && ltb j (i + length cs) then get_or cs (j - i) 0 else a j

pub copy_chars-placed : (cs : List ℕ) (a : ℕ → ℕ) (i j : ℕ) → copy_chars a i cs j ≡ placed cs a i j
unfolding copy_chars
copy_chars-placed [] a i j = ground arith
copy_chars-placed (c ∷ cs) a i j = elim (Bool-cases (j == i)) [
  | inl h ↦
      let e : j - i ≡ 0 = ground arith in
      rw e (copy_chars-placed cs (update a i c) (suc i) j ∙ unfold update in ground arith)
  | inr h ↦ elim (Bool-cases (leb i j)) [
    | inl above ↦
        let e : j - i ≡ suc (j - suc i) = ground arith in
        rw e (copy_chars-placed cs (update a i c) (suc i) j ∙ unfold update in ground arith)
    | inr below ↦ copy_chars-placed cs (update a i c) (suc i) j ∙ unfold update in ground arith
  ]
]

-- Characters that `get_character` hands out go to `sysbuff` first, and from there to the reader.
pub delivered :
    (cs : List ℕ) (sysbuff memory : ℕ → ℕ) (addr j : ℕ)
    → copy_data (copy_chars sysbuff 0 cs) 0 memory addr (length cs) j ≡ placed cs memory addr j
delivered cs sysbuff memory addr j =
    copy_data-spliced (copy_chars sysbuff 0 cs) 0 memory addr (length cs) j
    ∙ elim (Bool-cases (leb addr j && ltb j (addr + length cs))) [
      | inl h ↦
          let e : 0 + (j - addr) ≡ j - addr = omega arith in
          rw (h, e) (copy_chars-placed cs sysbuff 0 (j - addr) ∙ ground arith)
      | inr h ↦ rw h refl
    ]
