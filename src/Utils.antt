-- ===== src/Utils.antt =====
-- utils.c: the copies between buffers, and the check of a user's pointer. `copy_data`,
-- `copy_from_user` and `copy_to_user` are one text three times; buffers do not overlap.
pub mod Copy
pub mod Access
pub mod Placed
mod Tests
use s.Base.{ℕ, zero, suc, ◌+◌, ◌*◌, ◌%◌, ◌^◌, Bool, true, false, ◌||◌, update, ltb, if◌then◌else◌}
use s.Mm.{l_user_start, num_pag_code, num_pag_data, page_size}

-- The loop over single bytes, `*q1++ = *p1++`, with the buffers and the indices in them.
unfoldable pub copy_bytes : (ℕ → ℕ) → ℕ → (ℕ → ℕ) → ℕ → ℕ → ℕ → ℕ
copy_bytes p s q d zero = q
copy_bytes p s q d (suc size) = copy_bytes p (suc s) (update q d (p s)) (suc d) size

-- `*q++ = *p++` on a `DWord`
unfoldable pub copy_word : (ℕ → ℕ) → ℕ → (ℕ → ℕ) → ℕ → ℕ → ℕ
copy_word p s q d =
    update (update (update (update q d (p s)) (d + 1) (p (s + 1))) (d + 2) (p (s + 2))) (d + 3)
      (p (s + 3))

-- `while (size > 4)` over words, and then the bytes that are left.
unfoldable pub copy_data : (ℕ → ℕ) → ℕ → (ℕ → ℕ) → ℕ → ℕ → ℕ → ℕ
copy_data p s q d (suc (suc (suc (suc (suc n))))) =
    copy_data p (s + 4) (copy_word p s q d) (d + 4) (suc n)
copy_data p s q d size = copy_bytes p s q d size

-- `type`
pub data AccessType : Type 0 where
  read write : AccessType

-- The end of the user's data pages.
abbrev pub user_end : ℕ
user_end = l_user_start + (num_pag_code + num_pag_data) * page_size

abbrev pub data_start : ℕ
data_start = l_user_start + num_pag_code * page_size

-- A 32-bit address and size; the sum wraps.
unfoldable pub access_ok : AccessType → ℕ → ℕ → Bool
access_ok type addr size =
    if ltb addr l_user_start || ltb user_end ((addr + size) % 2 ^ 32)
    then false
    else elim type [ read ↦ true | write ↦ ltb data_start addr ]
