-- ===== src/Screen/Tests.antt =====
-- The screen, and the theorems on io.c at it.
use s.Base.{ℕ, ◌≡◌, refl, List, [], ◌∷◌, arith, loop, update}
use s.Screen.{Screen, advance, printc_xy, word, printc, printk, printk_xyr}
use s.Screen.Cursor.{Printed, printc-Printed}

-- The cursor in the screen's last place.
abbrev last : Screen
last = record { x = 79; y = 24; video = λ k. word 46 }

abbrev top : Screen
top = record { x = 0; y = 15; video = λ k. word 46 }

abbrev hi : List ℕ
hi = 72 ∷ 105 ∷ []

printk_run : (printk top hi).x ≡ 2
unfolding printk printc advance
printk_run = refl

printk_run_cell : (printk top hi).video 1201 ≡ word 105
unfolding printk printc advance update
printk_run_cell = refl

-- The corner's text ends in the last column, with the '\0' in the cell behind it.
printk_xyr_run : (printk_xyr top 79 0 hi).video 79 ≡ word 105
unfolding printk_xyr loop update printc_xy
printk_xyr_run = refl

printc-Printed_example : Printed last 65 (printc last 65)
printc-Printed_example = printc-Printed last 65 (omega arith, omega arith)
