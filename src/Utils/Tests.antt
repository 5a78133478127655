-- ===== src/Utils/Tests.antt =====
-- The theorems on utils.c at concrete blocks.
use s.Base.{ℕ, ◌+◌, ◌≡◌, ◌↔◌, true, arith}
use s.Utils.{write, access_ok, copy_data}
use s.Utils.Copy.{spliced, copy_data-spliced}
use s.Utils.Access.{Allowed, access_ok-Allowed, access_ok-wraps}

abbrev source : ℕ → ℕ
source i = i + 100

abbrev target : ℕ → ℕ
target i = i

copy_data-spliced_example : copy_data source 3 target 10 9 14 ≡ spliced source 3 target 10 9 14
copy_data-spliced_example = copy_data-spliced source 3 target 10 9 14

access_ok-Allowed_example : (access_ok write 0x109000 16 ≡ true) ↔ Allowed write 0x109000 16
access_ok-Allowed_example = access_ok-Allowed write 0x109000 16 (omega arith)

access_ok-wraps_example : access_ok write 0xFFFFF000 0x2000 ≡ true
access_ok-wraps_example =
    access_ok-wraps 0xFFFFF000 0x2000 (omega arith) (omega arith) (omega arith) (omega arith)
