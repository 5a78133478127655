-- ===== src/CircBuff/Full.antt =====
-- circbuff.c when the buffer is full: `is_empty` compares the two indices, which agree when 80
-- characters are held as well as when none is.
use s.Base.{ℕ, zero, suc, ◌≡◌, refl, ◌⊎◌, List, [], ◌∷◌, arith, true}
use s.CircBuff.{CircBuff, circ_buff_size, get_character, save_character, is_empty}
use s.CircBuff.Queue.{IsValid}

-- A valid buffer tests as empty exactly when it holds 0 or 80 characters.
pub is_empty-count :
    (cb : CircBuff) → IsValid cb → is_empty cb ≡ true → (cb.count ≡ 0) ⊎ (cb.count ≡ circ_buff_size)
is_empty-count cb v e = ground arith

-- What the interrupt handler and the readers can do to the buffer.
pub data Op : Type 0 where
  save : ℕ → Op
  get : ℕ → Op

unfoldable pub run : List Op → CircBuff → CircBuff
run [] cb = cb
run (save c ∷ ops) cb = run ops (save_character cb c).1
run (get size ∷ ops) cb = run ops (get_character cb size).2

pub get_character-full :
    (size : ℕ) (cb : CircBuff)
    → IsValid cb
    → cb.count ≡ circ_buff_size
    → get_character cb size ≡ ([], 0, cb)
unfolding get_character
get_character-full zero cb v full = refl
get_character-full (suc size) cb v full = ground arith

save_character-full :
    (cb : CircBuff) (c : ℕ) → cb.count ≡ circ_buff_size → (save_character cb c).1 ≡ cb
unfolding save_character
save_character-full cb c full = ground arith

-- A full buffer is stuck for good: whatever sequence of saves and gets follows, the buffer stays
-- as it is, and a get of any size at that point returns no character.
pub run-full :
    (ops : List Op) (size : ℕ) (cb : CircBuff)
    → IsValid cb
    → cb.count ≡ circ_buff_size
    → (run ops cb ≡ cb) × (get_character (run ops cb) size ≡ ([], 0, cb))
unfolding run
run-full [] size cb v full = (refl, get_character-full size cb v full)
run-full (save c ∷ ops) size cb v full =
    ground (arith, save_character-full cb c, run-full ops size cb v full)
run-full (get n ∷ ops) size cb v full =
    ground (arith, get_character-full n cb v full, run-full ops size cb v full)
