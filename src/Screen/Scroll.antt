-- ===== src/Screen/Scroll.antt =====
-- `do_scroll` and `clean_screen` of io.c: what every cell holds afterwards.
use s.Base.{
  ℕ, suc, ◌+◌, ◌-◌, ◌*◌, ◌<◌, ◌≡◌, refl, ◌&&◌, arith, leb, ltb, if◌then◌else◌, update, loop,
  loop_inv, ap, ◌∙◌,
}
use s.Screen.{
  Screen, num_columns, num_rows, word, blank, cell, scroll_cell, do_scroll, printc_xy, clean_screen,
}

-- The cells below `n` of the rows from the second on have got what stood a row below them.
abbrev moved : (ℕ → ℕ) → ℕ → ℕ → ℕ
moved video n k =
    if leb num_columns k && ltb k (num_columns + n) then word (video (k + num_columns)) else video k

row-moved :
    (video v : ℕ → ℕ) (row : ℕ)
    → row < num_rows - 2
    → ((k : ℕ) → v k ≡ moved video (row * num_columns) k)
    → (k : ℕ)
    → loop num_columns (scroll_cell row) v k ≡ moved video (row * num_columns + num_columns) k
row-moved video v row lt h k =
    loop_inv (λ j u. (n : ℕ) → u n ≡ moved video (row * num_columns + j) n) num_columns
      (scroll_cell row) v
      (λ j t lj e n.
        let to : cell j (row + 1) ≡ row * num_columns + j + num_columns = omega arith in
        let from : cell j (row + 2) ≡ row * num_columns + j + num_columns + num_columns =
          omega arith in
        unfold update in
        rw (to, from) (ground (arith, e n, e (row * num_columns + j + num_columns + num_columns))))
      (λ n. ground (arith, h n)) k

-- `do_scroll` gives each cell of the second row to the last but one the character of the cell below
-- it, in green, and fills the last row with blanks. The first row stays as it is, and so does every
-- cell behind the screen.
pub do_scroll_lem :
    (video : ℕ → ℕ) (k : ℕ)
    → do_scroll video k ≡ (
        if leb num_columns k && ltb k (num_columns * (num_rows - 1))
        then word (video (k + num_columns))
        else if leb (num_columns * (num_rows - 1)) k && ltb k (num_columns * num_rows)
        then blank
        else video k)
unfolding do_scroll
do_scroll_lem video k =
    loop_inv
      (λ j u.
        (n : ℕ)
        → u n ≡ (
            if leb (num_columns * (num_rows - 1)) n && ltb n (num_columns * (num_rows - 1) + j)
            then blank
            else moved video (num_columns * (num_rows - 2)) n))
      num_columns (λ xx v. update v (cell xx (num_rows - 1)) blank) _
      (λ j t lj e n. unfold update in ground (arith, e n)) (λ n. ground (arith, rows n)) k
    ∙ ground arith
  where
    rows :
        (n : ℕ)
        → loop (num_rows - 2) (λ row v. loop num_columns (scroll_cell row) v) video n
          ≡ moved video (num_columns * (num_rows - 2)) n
    rows n =
        loop_inv (λ row u. (n : ℕ) → u n ≡ moved video (row * num_columns) n) (num_rows - 2)
          (λ row v. loop num_columns (scroll_cell row) v) video
          (λ row t lr e m. row-moved video t row lr e m ∙ next row m) (λ m. ground arith) n
      where
        next :
            (row m : ℕ)
            → moved video (row * num_columns + num_columns) m
              ≡ moved video (suc row * num_columns) m
        next row m = ap (λ q. moved video q m) (omega arith)

-- The cells below `n` are blank.
abbrev Cleared : Screen → Screen → ℕ → Type 0
Cleared s t n =
    (t.x ≡ s.x) × (t.y ≡ s.y) × ((k : ℕ) → t.video k ≡ (if ltb k n then blank else s.video k))

-- `clean_screen` fills the screen with blanks, and changes nothing behind it.
pub clean_screen_lem :
    (s : Screen) (k : ℕ)
    → ((clean_screen s).x ≡ s.x)
      × ((clean_screen s).y ≡ s.y)
      × ((clean_screen s).video k ≡ (if ltb k (num_columns * num_rows) then blank else s.video k))
unfolding clean_screen printc_xy
clean_screen_lem s k =
    let (ex, ey, ev) =
      loop_inv (λ rw t. Cleared s t (rw * num_columns)) num_rows
        (λ rw t. loop num_columns (λ cl u. printc_xy u cl rw 32) t) s
        (λ row t lr h.
          let (a, b, c) =
            loop_inv (λ cl u. Cleared s u (row * num_columns + cl)) num_columns
              (λ cl u. printc_xy u cl row 32) t
              (λ cl u lc e.
                let to : cell cl row ≡ row * num_columns + cl = omega arith in
                (e.0, e.1, λ n. unfold update in rw to (ground (arith, e.2 n))))
              (h.0, h.1, λ n. ground (arith, h.2 n)) in
          (a, b, λ n. c n ∙ ground arith))
        (refl, refl, λ n. ground arith) in
    (ex, ey, ev k)
