-- ===== src/Screen/Cursor.antt =====
-- `printc` of io.c: the cursor and the cells after a character.
use s.Base.{
  ℕ, zero, suc, ◌+◌, ◌-◌, ◌*◌, ◌%◌, ◌<◌, ◌≤◌, ◌≡◌, refl, ◌≢◌, true, false, ◌&&◌, arith, leb, ltb,
  ◌==◌, if◌then◌else◌, update, Bool-cases, inl, inr, List, [], ◌∷◌, ◌∙◌,
}
use s.Screen.{
  Screen, num_columns, num_rows, word, blank, cell, newline, do_scroll, fill_line, next_line,
  advance, printc, printk,
}

abbrev pub IsOn : Screen → Type 0
IsOn s = (s.x < num_columns) × (s.y < num_rows)

-- The loop of a newline in the last column runs until the byte `x` is 0.
fill_line-wraps :
    (n : ℕ) (s : Screen)
    → num_columns - 1 ≤ s.x
    → s.x < 256
    → s.y < num_rows
    → 256 ≤ s.x + n
    → ((fill_line n s).x ≡ 0)
      × ((fill_line n s).y ≡ s.y)
      × ((k : ℕ)
          → (fill_line n s).video k ≡ (
              if leb (s.y * num_columns + s.x + 1) k && ltb k (s.y * num_columns + 256)
              then blank
              else s.video k))
unfolding fill_line
fill_line-wraps zero s from byte on enough = absurd (omega arith)
fill_line-wraps (suc n) s from byte on enough = elim (Bool-cases (s.x == 255)) [
  | inl h ↦ let e : (s.x + 1) % 256 ≡ 0 = ground arith in rw e (refl, refl, λ k. ground arith)
  | inr h ↦
      let e : (s.x + 1) % 256 ≡ s.x + 1 = ground arith in
      let b : leb num_columns (s.x + 1) ≡ true = ground arith in
      let t : Screen = record s {
        x = s.x + 1;
        video = update s.video (cell (s.x + 1) s.y) blank;
      } in
      let (ex, ey, ev) = fill_line-wraps n t (omega arith) (ground arith) on (omega arith) in
      rw (e, b) (ex, ey, λ k. ev k ∙ (unfold update in ground arith))
]

-- What printing `c` may leave.
pub data Printed (s : Screen) (c : ℕ) : Screen → Type 0 where
  -- A character in a line that goes on, and one in the last column of a line that is not the last.
  in_line :
      {t : Screen}
      → c ≢ newline
      → s.x < num_columns - 1
      → t.x ≡ s.x + 1
      → t.y ≡ s.y
      → ((k : ℕ) → t.video k ≡ (if k == s.y * num_columns + s.x then word c else s.video k))
      → Printed s c t
  wraps :
      {t : Screen}
      → c ≢ newline
      → s.x ≡ num_columns - 1
      → s.y < num_rows - 1
      → t.x ≡ 0
      → t.y ≡ s.y + 1
      → ((k : ℕ) → t.video k ≡ (if k == s.y * num_columns + s.x then word c else s.video k))
      → Printed s c t
  -- At the screen's last place the screen scrolls first: the character stays in the last line.
  scrolls :
      {t : Screen}
      → c ≢ newline
      → s.x ≡ num_columns - 1
      → s.y ≡ num_rows - 1
      → t.x ≡ 0
      → t.y ≡ s.y
      → ((k : ℕ)
          → t.video k ≡ (if k == num_columns * num_rows - 1 then word c else do_scroll s.video k))
      → Printed s c t
  -- A new line, which scrolls in the last line; `filled` is what the loop over the columns left.
  breaks :
      {t : Screen} {filled : ℕ → ℕ}
      → c ≡ newline
      → ((k : ℕ)
          → filled k ≡ (
              if (s.x == num_columns - 1)
                && (leb (s.y * num_columns + num_columns) k && ltb k (s.y * num_columns + 256))
              then blank
              else s.video k))
      → t.x ≡ 0
      → t.y ≡ (if ltb s.y (num_rows - 1) then s.y + 1 else s.y)
      → t.video ≡ (if ltb s.y (num_rows - 1) then filled else do_scroll filled)
      → Printed s c t

next_line_lem :
    (s : Screen)
    → s.y < num_rows
    → ((next_line s).x ≡ 0)
      × ((next_line s).y ≡ (if ltb s.y (num_rows - 1) then s.y + 1 else s.y))
      × ((next_line s).video ≡ (if ltb s.y (num_rows - 1) then s.video else do_scroll s.video))
unfolding next_line
next_line_lem s on = elim (Bool-cases (ltb s.y (num_rows - 1))) [
  | inl h ↦
      let e : leb num_rows ((s.y + 1) % 256) ≡ false = ground arith in
      rw (e, h) (refl, omega arith, refl)
  | inr h ↦
      let e : leb num_rows ((s.y + 1) % 256) ≡ true = ground arith in
      rw (e, h) (refl, ground arith, refl)
]

fill_line-stops :
    (n : ℕ) (s : Screen)
    → leb num_columns ((s.x + 1) % 256) ≡ false
    → fill_line (suc n) s ≡ record s { x = (s.x + 1) % 256 }
unfolding fill_line
fill_line-stops n s e = rw e refl

fill_line_lem :
    (s : Screen)
    → IsOn s
    → ((fill_line 256 s).y ≡ s.y)
      × ((k : ℕ)
          → (fill_line 256 s).video k ≡ (
              if (s.x == num_columns - 1)
                && (leb (s.y * num_columns + num_columns) k && ltb k (s.y * num_columns + 256))
              then blank
              else s.video k))
fill_line_lem s on = elim (Bool-cases (s.x == num_columns - 1)) [
  | inl h ↦
      let (ex, ey, ev) =
        fill_line-wraps 256 s (ground arith) (omega (arith, on.0)) on.1 (omega arith) in
      rw h (ey, λ k. ev k ∙ ground arith)
  | inr h ↦
      let e : leb num_columns ((s.x + 1) % 256) ≡ false = ground arith in
      rw (h, fill_line-stops 255 s e) (refl, λ k. refl)
]

-- From a cursor on the screen, `printc` does what the four cases of `Printed` say: an ordinary
-- character goes to the cursor's cell and the cursor moves on, at the end of a line to the next one
-- and at the end of the screen with a scroll before the character is written; a newline takes the
-- cursor to the next line, and in the last column first blanks the 176 cells behind the line.
pub printc-Printed : (s : Screen) (c : ℕ) → IsOn s → Printed s c (printc s c)
unfolding printc advance
printc-Printed s c on = elim (Bool-cases (c == newline)) [
  | inl h ↦
      let (fy, fv) = fill_line_lem s on in
      let (nx, ny, nv) = next_line_lem (fill_line 256 s) (rw fy on.1) in
      rw h (breaks (ground arith) fv nx (ny ∙ rw fy refl) (nv ∙ rw fy refl))
  | inr h ↦ elim (Bool-cases (s.x == num_columns - 1)) [
    | inl last ↦
        let e : leb num_columns ((s.x + 1) % 256) ≡ true = ground arith in
        let n = next_line (record s { x = (s.x + 1) % 256 }) in
        let (nx, ny, nv) = next_line_lem (record s { x = (s.x + 1) % 256 }) on.1 in
        let t : Screen = record n { video = update n.video (cell s.x s.y) (word c) } in
        rw (h, e)
          (elim (Bool-cases (ltb s.y (num_rows - 1))) [
            | inl up ↦
                wraps {t = t} (ground arith) (ground arith) (ground arith) nx (ny ∙ rw up refl)
                  (λ k. unfold update in rw (nv, up) (ground (arith, on.0, on.1)))
            | inr low ↦
                scrolls {t = t} (ground arith) (ground arith) (ground (arith, on.1)) nx
                  (ny ∙ rw low refl)
                  (λ k. unfold update in rw (nv, low) (ground (arith, on.0, on.1)))
          ])
    | inr more ↦
        let e : leb num_columns ((s.x + 1) % 256) ≡ false = ground (arith, on.0) in
        let t : Screen = record s {
          x = (s.x + 1) % 256;
          video = update s.video (cell s.x s.y) (word c);
        } in
        rw (h, e)
          (in_line {t = t} (ground arith) (ground (arith, on.0)) (omega (arith, on.0)) refl
            (λ k. unfold update in ground (arith, on.0, on.1)))
  ]
]

pub Printed-IsOn : (s : Screen) (c : ℕ) (t : Screen) → IsOn s → Printed s c t → IsOn t
Printed-IsOn s c t on (in_line ne a x y v) = (omega (arith, x, a), omega (arith, y, on.1))
Printed-IsOn s c t on (wraps ne a b x y v) = (omega (arith, x), omega (arith, y, b))
Printed-IsOn s c t on (scrolls ne a b x y v) = (omega (arith, x), omega (arith, y, b))
Printed-IsOn s c t on (breaks e f x y v) = (omega (arith, x), ground (arith, y, on.1))

-- Whatever is printed, a cursor that is on the screen stays on it.
pub printk-IsOn : (s : Screen) (cs : List ℕ) → IsOn s → IsOn (printk s cs)
unfolding printk
printk-IsOn s [] on = on
printk-IsOn s (c ∷ cs) on =
    printk-IsOn (printc s c) cs (Printed-IsOn s c (printc s c) on (printc-Printed s c on))
