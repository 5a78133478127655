-- ===== src/Fat/Calls.antt =====
-- The calls of fat.c that create, read, write and remove a file.
use Prim.Native.Nat.{bit_and}
use s.Base.{
  ℕ, zero, suc, ◌+◌, ◌-◌, ◌/◌, ◌%◌, Bool, none, some, List, ℤ, pos, negsuc, minus, is_neg, ◌+ℤ◌,
  ◌-ℤ◌, ◌=ℤ◌, ◌==◌, leb, ltb, if◌then◌else◌, find_below, not, [], ◌&&◌,
}
use s.Kernutil.{strcat}
use s.Utils.{copy_data}
use s.Fat.{
  Fat, DirEntry, eoc, free_type, enospc, max_files, block_size, with_entry, with_link, reset_entry,
  fat_translate_block, fat_add_block, fat_read_block, fat_write_block,
}

abbrev pub o_rdonly : ℕ
o_rdonly = 0x1

abbrev pub o_wronly : ℕ
o_wronly = 0x2

abbrev pub o_rdwr : ℕ
o_rdwr = 0x3

-- `x & y` on an `int` that may be -1, all of whose bits are set.
abbrev pub and_int : ℤ → ℕ → ℕ
and_int (pos n) y = bit_and n y
and_int (negsuc n) y = y - bit_and n y

unfoldable pub fat_access_ok : Fat → ℕ → ℕ → Bool
fat_access_ok fs file flags = and_int (fs.root file).mode o_rdwr == bit_and flags o_rdwr

unfoldable pub fat_create : Fat → List ℕ → ℕ → ℤ × Fat
fat_create fs path flags = elim (find_below max_files (λ i. (fs.root i).mode =ℤ free_type)) [
  | some i ↦ (pos i, with_entry fs i (reset_entry path (pos (bit_and flags o_rdwr))))
  | none ↦ (minus enospc, fs)
]

-- How much of `remain` bytes the block at hand takes.
abbrev pub block_part : ℕ → ℕ → ℕ
block_part block_offset remain =
    if ltb block_size (block_offset + remain) then block_size - block_offset else remain

-- The loop of `fat_read`, on fuel: the buffer, the bytes read and the file system left.
unfoldable pub read_loop :
    ℕ → Fat → ℕ → (ℕ → ℕ) → (read remain logic_block block_offset : ℕ) → ℕ × (ℕ → ℕ) × Fat
read_loop zero fs file buffer read remain logic_block block_offset = (read, buffer, fs)
read_loop (suc fuel) fs file buffer read remain logic_block block_offset =
    let ph_block = fat_translate_block fs file logic_block in
    let block_remain = block_part block_offset remain in
    let fs' = fat_read_block fs ph_block in
    let buffer' = copy_data fs'.block_buffer block_offset buffer read block_remain in
    let rest =
      read_loop fuel fs' file buffer' (read + block_remain) (remain - block_remain)
        (logic_block + 1) 0 in
    if remain == 0 then (read, buffer, fs) else if ph_block =ℤ eoc then (read, buffer, fs) else rest

-- `fat_get_size` answers -1 for a number above 10, and no offset is below that. Every round takes
-- at least one byte, so `remain` rounds are enough and one more ends the loop.
unfoldable pub fat_read : Fat → ℕ → (ℕ → ℕ) → ℕ → ℕ → ℕ × (ℕ → ℕ) × Fat
fat_read fs file buffer offset count =
    let size = (fs.root file).size in
    let remain = if ltb size (offset + count) then size - offset else count in
    if ltb max_files file
    then (0, buffer, fs)
    else if leb size offset
    then (0, buffer, fs)
    else read_loop (suc remain) fs file buffer 0 remain (offset / block_size) (offset % block_size)

-- The block that a round of `fat_write` goes to: the file's, or a new one.
abbrev pub write_block : Fat → ℕ → ℕ → ℤ × Fat
write_block fs file logic_block =
    let ph_block = fat_translate_block fs file logic_block in
    if ph_block =ℤ eoc then fat_add_block fs file else (ph_block, fs)

-- A round of `fat_write` once it has its block: the block is read, changed and written back, and
-- the file's size grows if the round ends behind it.
unfoldable pub write_round : Fat → ℕ → (ℕ → ℕ) → ℤ → (offset written part block_offset : ℕ) → Fat
unfolding fat_read_block fat_write_block
write_round fs file buffer ph_block offset written part block_offset =
    let r = fat_read_block fs ph_block in
    let w =
      fat_write_block
        (record r { block_buffer = copy_data buffer written r.block_buffer block_offset part })
        ph_block in
    if ltb (w.root file).size (offset + (written + part))
    then with_entry w file (λ e. record e { size = offset + (written + part) })
    else w

-- The loop of `fat_write`, on fuel.
unfoldable pub write_loop :
    ℕ → Fat → ℕ → (ℕ → ℕ) → (offset written remain logic_block block_offset : ℕ) → ℤ × Fat
write_loop zero fs file buffer offset written remain logic_block block_offset = (pos written, fs)
write_loop (suc fuel) fs file buffer offset written remain logic_block block_offset =
    let (ph_block, fs') = write_block fs file logic_block in
    let part = block_part block_offset remain in
    let rest =
      write_loop fuel (write_round fs' file buffer ph_block offset written part block_offset) file
        buffer offset (written + part) (remain - part) (logic_block + 1) 0 in
    if remain == 0
    then (pos written, fs)
    else if (fat_translate_block fs file logic_block =ℤ eoc) && is_neg ph_block
    then (minus enospc, fs')
    else rest

unfoldable pub fat_write : Fat → ℕ → (ℕ → ℕ) → ℕ → ℕ → ℤ × Fat
fat_write fs file buffer offset count =
    write_loop (suc count) fs file buffer offset 0 count (offset / block_size) (offset % block_size)

-- The number of blocks that a file of that size takes off the counters.
abbrev pub block_count_of : ℕ → ℕ
block_count_of size = size / block_size + (if size % block_size == 0 then 0 else 1)

-- `file > MAX_FILES` only: a negative `file` is not refused. The loop at the end, which follows the
-- free list and keeps nothing, is left out.
unfoldable pub fat_unlink : Fat → ℕ → ℤ × Fat
fat_unlink fs file =
    if ltb max_files file
    then (minus 1, fs)
    else if not ((fs.root file).opens =ℤ pos 0)
    then (minus 1, fs)
    else (pos 0, with_entry counted file clear)
  where
    clear : DirEntry → DirEntry
    clear e = record e {
      name = strcat e.name [] [];
      mode = free_type;
      size = 0;
      first_block = eoc;
      last_block = eoc;
    }

    chained : Fat
    chained =
        if not (fs.last_free_block =ℤ eoc)
        then with_link fs fs.last_free_block (fs.root file).first_block
        else record fs {
          first_free_block = (fs.root file).first_block;
          last_free_block = (fs.root file).last_block;
        }

    counted : Fat
    counted = record chained {
      free_block_count = chained.free_block_count +ℤ pos (block_count_of (fs.root file).size);
      used_block_count = chained.used_block_count -ℤ pos (block_count_of (fs.root file).size);
    }
