-- ===== src/Utils/Access.antt =====
-- `access_ok` of utils.c.
use s.Base.{ℕ, ◌+◌, ◌^◌, ◌≤◌, ◌<◌, ◌≡◌, ◌↔◌, true, arith}
use s.Utils.{AccessType, read, write, access_ok, user_end, data_start}
use s.Mm.{l_user_start}

-- What a block must satisfy: it lies in the user's pages, and starts behind the first byte of the
-- data pages if it is to be written.
abbrev pub Allowed : AccessType → ℕ → ℕ → Type 0
Allowed read addr size = (l_user_start ≤ addr) × (addr + size ≤ user_end)
Allowed write addr size = (data_start < addr) × (addr + size ≤ user_end)

-- For a block that does not run past the end of the 32-bit address space, `access_ok` answers yes
-- exactly when the block lies in the user's pages, and behind the first byte of the data pages if
-- it is to be written.
pub access_ok-Allowed :
    (type : AccessType) (addr size : ℕ)
    → addr + size < 2 ^ 32
    → (access_ok type addr size ≡ true) ↔ Allowed type addr size
unfolding access_ok
access_ok-Allowed read addr size small = (λ h. ground arith, λ h. ground arith)
access_ok-Allowed write addr size small = (λ h. ground arith, λ h. ground arith)

-- A block that starts at or above the user's end, runs past the end of the address space and
-- comes back to the user's end or below it is accepted for writing.
pub access_ok-wraps :
    (addr size : ℕ)
    → user_end ≤ addr
    → addr < 2 ^ 32
    → 2 ^ 32 ≤ addr + size
    → addr + size ≤ 2 ^ 32 + user_end
    → access_ok write addr size ≡ true
unfolding access_ok
access_ok-wraps addr size a b c d = ground arith
