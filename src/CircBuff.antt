-- ===== src/CircBuff.antt =====
-- circbuff.c and include/circbuff.h: the ring of characters between the keyboard interrupt and the
-- readers. A function that updates `*cb` returns the new buffer beside its result.
pub mod Queue
pub mod Full
mod Tests
use s.Base.{
  ℕ, zero, suc, ◌+◌, ◌-◌, ◌%◌, Bool, not, ◌&&◌, List, [], ◌∷◌, ℤ, pos, minus, update, ◌==◌,
  if◌then◌else◌,
}

abbrev pub circ_buff_size : ℕ
circ_buff_size = 80

pub record CircBuff : Type 0 where
  pub mem : ℕ → ℕ
  pub head : ℕ
  pub tail : ℕ
  pub count : ℕ

unfoldable pub init_circ_buff : CircBuff → CircBuff
init_circ_buff cb = record cb { head = 0; tail = 0; count = 0 }

abbrev pub is_empty : CircBuff → Bool
is_empty cb = cb.head == cb.tail

abbrev pub is_full : CircBuff → Bool
is_full cb = cb.count == circ_buff_size

abbrev pub get_size : CircBuff → ℕ
get_size cb = cb.count

-- One round of the loop of `get_character`, without the write to `dest_buf`. `count--` of a C
-- `int`: the truncated `-` differs only at a count of 0, which `IsValid` rules out.
abbrev pub advance : CircBuff → CircBuff
advance cb = record cb { head = (cb.head + 1) % circ_buff_size; count = cb.count - 1 }

-- The loop with `size` rounds left: the characters written to `dest_buf`, their number, and the
-- buffer left.
unfoldable pub get_character : CircBuff → ℕ → List ℕ × ℕ × CircBuff
get_character cb zero = ([], 0, cb)
get_character cb (suc size) =
    let (cs, i, cb') = get_character (advance cb) size in
    if not (is_empty cb) then (cb.mem cb.head ∷ cs, i + 1, cb') else ([], 0, cb)

unfoldable pub save_character : CircBuff → ℕ → ℤ × CircBuff
save_character cb c = if is_full cb then (minus 1, cb) else (
  pos 0,
  record cb {
    mem = update cb.mem cb.tail c;
    tail = (cb.tail + 1) % circ_buff_size;
    count = cb.count + 1;
  },
)
