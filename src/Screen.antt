-- ===== src/Screen.antt =====
-- io.c and include/io.h: the text screen. Cell `n` is the word at address 0xb8000 + 2 * n; the
-- addresses are modulo 2 ^ 32, so the cells are modulo 2 ^ 31. A coordinate is a 32-bit `int` kept
-- as its pattern, and the cursor's are bytes. What goes to the ports 0xe9 and 0x60 is left out.
pub mod Scroll
pub mod Cursor
pub mod Print
mod Tests
use s.Base.{
  ℕ, zero, suc, ◌+◌, ◌-◌, ◌*◌, ◌%◌, ◌^◌, ◌&&◌, Bool, List, [], ◌∷◌, update, ◌==◌, leb, ltb,
  if◌then◌else◌, loop, length, get_or,
}

abbrev pub num_columns : ℕ
num_columns = 80

abbrev pub num_rows : ℕ
num_rows = 25

abbrev pub newline : ℕ
newline = 10

pub record Screen : Type 0 where
  pub x : ℕ
  pub y : ℕ
  pub video : ℕ → ℕ

-- `(Word) (c & 0x00FF) | 0x0200`: the two parts have no bit in common.
abbrev pub word : ℕ → ℕ
word c = c % 256 + 0x200

abbrev pub blank : ℕ
blank = word 32

-- The cell of `0xb8000 + (y * NUM_COLUMNS + x) * 2`.
abbrev pub cell : ℕ → ℕ → ℕ
cell x y = (y * num_columns + x) % 2 ^ 31

-- A round of the inner loop of `do_scroll`, for the row `yy = row + 2`. The first `asm` is read as
-- an assignment to `ch`, the register of which it loads.
abbrev pub scroll_cell : ℕ → ℕ → (ℕ → ℕ) → ℕ → ℕ
scroll_cell row xx video = update video (cell xx (row + 1)) (word (video (cell xx (row + 2))))

unfoldable pub do_scroll : (ℕ → ℕ) → ℕ → ℕ
do_scroll video =
    loop num_columns (λ xx v. update v (cell xx (num_rows - 1)) blank)
      (loop (num_rows - 2) (λ row v. loop num_columns (scroll_cell row) v) video)

-- `while (++x >= NUM_COLUMNS)`, on fuel. `x` is a byte: it comes back to 0 after 256 steps at most.
unfoldable pub fill_line : ℕ → Screen → Screen
fill_line zero s = s
fill_line (suc n) s =
    let x = (s.x + 1) % 256 in
    let rest = fill_line n (record s { x = x; video = update s.video (cell x s.y) blank }) in
    if leb num_columns x then rest else record s { x = x }

-- `x = 0; if (++y >= NUM_ROWS) { y--; do_scroll(); }`
unfoldable pub next_line : Screen → Screen
next_line s =
    let y = (s.y + 1) % 256 in
    if leb num_rows y
    then record { x = 0; y = (y + 255) % 256; video = do_scroll s.video }
    else record s { x = 0; y = y }

-- `if (++x >= NUM_COLUMNS)` and its body
unfoldable pub advance : Screen → Screen
advance s =
    let x = (s.x + 1) % 256 in
    if leb num_columns x then next_line (record s { x = x }) else record s { x = x }

-- The character is written last, at the place that was the cursor's before.
unfoldable pub printc : Screen → ℕ → Screen
printc s c =
    let t = advance s in
    if c == newline
    then next_line (fill_line 256 s)
    else record t { video = update t.video (cell s.x s.y) (word c) }

unfoldable pub printc_xy : Screen → ℕ → ℕ → ℕ → Screen
printc_xy s xx yy c = record s { video = update s.video (cell xx yy) (word c) }

-- A string is the list of its characters before the '\0'.
unfoldable pub printk : Screen → List ℕ → Screen
printk s [] = s
printk s (c ∷ cs) = printk (printc s c) cs

-- `++xx >= NUM_COLUMNS` on an `int`
abbrev pub past : ℕ → ℕ → Bool
past bound xx = leb bound xx && ltb xx (2 ^ 31)

unfoldable pub printk_xy : Screen → ℕ → ℕ → List ℕ → Screen
printk_xy s xx yy [] = s
printk_xy s xx yy (c ∷ cs) =
    let right = (xx + 1) % 2 ^ 32 in
    let down = (yy + 1) % 2 ^ 32 in
    let xx' = if past num_columns right then 0 else right in
    let yy' = if past num_columns right then (if past num_rows down then 0 else down) else yy in
    printk_xy (printc_xy s xx' yy' c) xx' yy' cs

-- `xx` is not used. The first round prints the '\0', and the last the first character.
unfoldable pub printk_xyr : Screen → ℕ → ℕ → List ℕ → Screen
printk_xyr s xx yy str =
    loop (length str + 1)
      (λ i t. printc_xy t ((num_columns + 2 ^ 32 - i) % 2 ^ 32) yy (get_or str (length str - i) 0))
      s

unfoldable pub clean_screen : Screen → Screen
clean_screen s = loop num_rows (λ rw t. loop num_columns (λ cl u. printc_xy u cl rw 32) t) s
