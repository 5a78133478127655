-- ===== src/Screen/Print.antt =====
-- `printk` of io.c: where the characters of a text stand.
use s.Base.{
  ℕ, suc, ◌+◌, ◌-◌, ◌*◌, ◌<◌, ◌≤◌, ◌≡◌, refl, ◌≢◌, false, ◌&&◌, arith, leb, ltb, ◌==◌,
  if◌then◌else◌, Bool-cases, inl, inr, List, [], ◌∷◌, ◌∙◌, length, get_or, update_ne, ◌%◌, ◌^◌,
}
use s.ListHead.Links.{has}
use s.Screen.{
  Screen, num_columns, num_rows, word, cell, newline, past, printc, printk, printc_xy, printk_xy,
}
use s.Screen.Cursor.{IsOn, Printed, in_line, wraps, scrolls, breaks, printc-Printed, Printed-IsOn}

-- The cells that hold a text, `v` being what the cell `k` held.
abbrev pub texted : ℕ → List ℕ → ℕ → ℕ → ℕ
texted first cs k v =
    if leb first k && ltb k (first + length cs) then word (get_or cs (k - first) 0) else v

texted-cons :
    (first c : ℕ) (cs : List ℕ) (k v : ℕ)
    → texted (first + 1) cs k (if k == first then word c else v) ≡ texted first (c ∷ cs) k v
texted-cons first c cs k v = elim (Bool-cases (k == first)) [
  | inl h ↦ let e : k - first ≡ 0 = ground arith in rw e (ground arith)
  | inr h ↦ elim (Bool-cases (leb first k)) [
    | inl above ↦ let e : k - first ≡ suc (k - (first + 1)) = ground arith in rw e (ground arith)
    | inr below ↦ ground arith
  ]
]

-- A text without a newline that ends before the last column of its line, or at its end, stands in
-- the cells from the cursor on, in order. No other cell changes, and the cursor is behind the text.
pub printk-in_line :
    (s : Screen) (cs : List ℕ)
    → IsOn s
    → has newline cs ≡ false
    → s.x + length cs ≤ num_columns - 1
    → ((printk s cs).x ≡ s.x + length cs)
      × ((printk s cs).y ≡ s.y)
      × ((k : ℕ) → (printk s cs).video k ≡ texted (s.y * num_columns + s.x) cs k (s.video k))
unfolding printk
printk-in_line s [] on plain fits = (omega arith, refl, λ k. ground arith)
printk-in_line s (c ∷ cs) on plain fits = go (printc s c) (printc-Printed s c on) (
    printk-in_line (printc s c) cs (Printed-IsOn s c (printc s c) on (printc-Printed s c on))
      (ground arith))
  where
    go :
        (t : Screen)
        → Printed s c t
        → (t.x + length cs ≤ num_columns - 1
            → ((printk t cs).x ≡ t.x + length cs)
              × ((printk t cs).y ≡ t.y)
              × ((k : ℕ)
                  → (printk t cs).video k ≡ texted (t.y * num_columns + t.x) cs k (t.video k)))
        → ((printk t cs).x ≡ s.x + suc (length cs))
          × ((printk t cs).y ≡ s.y)
          × ((k : ℕ)
              → (printk t cs).video k ≡ texted (s.y * num_columns + s.x) (c ∷ cs) k (s.video k))
    go t (in_line ne a x y v) rest =
        let (ex, ey, ev) = rest (omega (arith, x, fits)) in
        (
          omega (arith, ex, x),
          ey ∙ y,
          λ k.
              let at : t.y * num_columns + t.x ≡ s.y * num_columns + s.x + 1 =
                omega (arith, x, y) in
              ev k ∙ rw (at, v k) (texted-cons (s.y * num_columns + s.x) c cs k (s.video k)),
        )
    go t (wraps ne a b x y v) rest = absurd (omega (arith, fits, a))
    go t (scrolls ne a b x y v) rest = absurd (omega (arith, fits, a))
    go t (breaks e f x y v) rest = absurd (ground (arith, plain, e))

-- A text that `printk_xy` starts on the screen changes no cell behind the screen.
pub printk_xy-inside :
    (s : Screen) (xx yy : ℕ) (cs : List ℕ) (k : ℕ)
    → xx < num_columns
    → yy < num_rows
    → num_columns * num_rows ≤ k
    → (printk_xy s xx yy cs).video k ≡ s.video k
unfolding printk_xy printc_xy
printk_xy-inside s xx yy [] k lx ly out = refl
printk_xy-inside s xx yy (c ∷ cs) k lx ly out =
    let right = (xx + 1) % 2 ^ 32 in
    let down = (yy + 1) % 2 ^ 32 in
    let xx' = if past num_columns right then 0 else right in
    let yy' = if past num_columns right then (if past num_rows down then 0 else down) else yy in
    let x_in : xx' < num_columns = ground arith in
    let y_in : yy' < num_rows = ground arith in
    let far : k ≢ cell xx' yy' = λ e. omega (arith, e, x_in, y_in) in
    printk_xy-inside (printc_xy s xx' yy' c) xx' yy' cs k x_in y_in out
    ∙ update_ne s.video (cell xx' yy') k (word c) far
