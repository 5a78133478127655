-- ===== src/Sys/Devices.antt =====
-- The device drivers of devices.c, and the calls through `struct file_operations`.
use s.Base.{
  ℕ, zero, suc, ◌+◌, ◌-◌, not, ◌&&◌, List, [], ◌∷◌, ◌++◌, ℤ, pos, minus, is_neg, pos_part, ◌+ℤ◌,
  ◌-ℤ◌, ◌=ℤ◌, ◌==◌, leb, ltb, if◌then◌else◌,
}
use s.CircBuff.{get_character}
use s.Kernutil.{copy_chars}
use s.ListHead.{list_empty}
use s.Utils.{copy_data}
use s.Sched.{modify, keyboardqueue, sched_block, sched_continue, sched_select_next}
use s.Sem.{eperm}
use s.Channel.{Fops, null, dev_file, dev_console, dev_keyboard}
use s.Fat.{Fat, index, fat_open, fat_close}
use s.Fat.Calls.{fat_read, fat_write, fat_unlink}
use s.Sys.Memory.{view, put}
use s.Sys.{Kernel, Outcome, returned, switched, undefined, sched_of, with_sched, current}

abbrev pub sysbuff_size : ℕ
sysbuff_size = 102400

-- `copy_from_user(addr, sysbuff, size)`
abbrev pub from_user : Kernel → (addr size : ℕ) → Kernel
from_user k addr size = record k {
  sysbuff = copy_data (view k.memory (current k).phpages) addr k.sysbuff 0 size;
}

-- `copy_to_user(sysbuff, addr, size)`
abbrev pub to_user : Kernel → (addr size : ℕ) → Kernel
to_user k addr size = record k { memory = put k.sysbuff k.memory (current k).phpages addr size }

-- The `n` characters of a buffer from `i` on.
unfoldable pub chars_from : (ℕ → ℕ) → ℕ → ℕ → List ℕ
chars_from buf i zero = []
chars_from buf i (suc n) = buf i ∷ chars_from buf (suc i) n

-- The inner loop runs to `size`, not to `chuck`: the first round prints everything and ends the
-- outer loop, and a size above that of `sysbuff` reads past its end.
unfoldable pub sys_write_console : Kernel → (buffer size : ℕ) → Outcome × Kernel
sys_write_console k buffer size =
    let chuck = if ltb size sysbuff_size then size else sysbuff_size in
    let k' = from_user k buffer chuck in
    if size == 0
    then (returned (pos 0), k)
    else if ltb sysbuff_size size
    then (undefined, k)
    else (returned (pos size), record k' { console = k'.console ++ chars_from k'.sysbuff 0 size })

-- A reader that has to wait stands in `keyboardqueue`; the interrupt handler serves it.
unfoldable pub sys_read_keyboard : Kernel → (buffer size : ℕ) → Outcome × Kernel
unfolding modify
sys_read_keyboard k buffer size =
    if (current k).pid == 0
    then (returned (minus eperm), k)
    else if leb size k.circular_buffer.count && list_empty (sched_of k).heap keyboardqueue
    then (let (cs, n, cb) = get_character k.circular_buffer size in
        let k' = record k { circular_buffer = cb; sysbuff = copy_chars k.sysbuff 0 cs } in
        (returned (pos n), to_user k' buffer size))
    else (let s = sched_of k in
        let m =
          modify s s.current λ t. record t { offset = pos 0; remain = pos size; buff = buffer } in
        let b = sched_block m m.current keyboardqueue in
        (switched, with_sched k (sched_continue b (sched_select_next b))))

abbrev pub chunk : ℕ → ℕ
chunk remain = if ltb sysbuff_size remain then sysbuff_size else remain

-- The loop of `sys_write_file`, on fuel: what it has written, and the kernel.
unfoldable pub write_file_loop : ℕ → Kernel → ℕ → (buffer offset written remain : ℕ) → ℤ × Kernel
write_file_loop zero k file buffer offset written remain = (pos written, k)
write_file_loop (suc fuel) k file buffer offset written remain =
    let k' = from_user k (buffer + written) (chunk remain) in
    let (wrote, fs) = fat_write k'.fs file k'.sysbuff (offset + written) (chunk remain) in
    let k'' = record k' { fs = fs } in
    let rest =
      write_file_loop fuel k'' file buffer offset (pos_part (pos written +ℤ wrote))
        (pos_part (pos remain -ℤ wrote)) in
    if remain == 0
    then (pos written, k)
    else if not (wrote =ℤ pos (chunk remain))
    then (pos written +ℤ wrote, k'')
    else rest

unfoldable pub sys_write_file : Kernel → ℕ → (buffer offset count : ℕ) → ℤ × Kernel
sys_write_file k file buffer offset count = write_file_loop (suc count) k file buffer offset 0 count

-- The loop of `sys_read_file`, on fuel.
unfoldable pub read_file_loop : ℕ → Kernel → ℕ → (buffer offset read remain : ℕ) → ℕ × Kernel
read_file_loop zero k file buffer offset read remain = (read, k)
read_file_loop (suc fuel) k file buffer offset read remain =
    let (fs_read, sysbuff, fs) = fat_read k.fs file k.sysbuff (offset + read) (chunk remain) in
    let k' = to_user (record k { sysbuff = sysbuff; fs = fs }) (buffer + read) fs_read in
    let rest = read_file_loop fuel k' file buffer offset (read + fs_read) (remain - fs_read) in
    if remain == 0
    then (read, k)
    else if not (fs_read == chunk remain)
    then (read + fs_read, k')
    else rest

unfoldable pub sys_read_file : Kernel → ℕ → (buffer offset count : ℕ) → ℕ × Kernel
sys_read_file k file buffer offset count = read_file_loop (suc count) k file buffer offset 0 count

-- `fops->f_read(file, buffer, offset, count)`. A null pointer is called where a device has no such
-- operation; a negative offset makes fat.c read outside its buffer.
unfoldable pub f_read : Kernel → Fops → (file : ℤ) → ℕ → (offset : ℤ) → ℕ → Outcome × Kernel
f_read k null file buffer offset count = (undefined, k)
f_read k dev_console file buffer offset count = (undefined, k)
f_read k dev_keyboard file buffer offset count = sys_read_keyboard k buffer count
f_read k dev_file file buffer offset count =
    let (n, k') = sys_read_file k (index file) buffer (pos_part offset) count in
    if is_neg offset then (undefined, k) else (returned (pos n), k')

-- `fops->f_write(file, buffer, offset, count)`
unfoldable pub f_write : Kernel → Fops → (file : ℤ) → ℕ → (offset : ℤ) → ℕ → Outcome × Kernel
f_write k null file buffer offset count = (undefined, k)
f_write k dev_console file buffer offset count = sys_write_console k buffer count
f_write k dev_keyboard file buffer offset count = (undefined, k)
f_write k dev_file file buffer offset count =
    let (n, k') = sys_write_file k (index file) buffer (pos_part offset) count in
    if is_neg offset then (undefined, k) else (returned n, k')

-- `if (fops->f_open != NULL) error = fops->f_open(f);`, with 0 where the device has no such
-- operation. Where `fops` itself is null, the field is read through a null pointer.
unfoldable pub f_open : Fops → ℤ → Outcome
f_open dev_file file = returned (fat_open file)
f_open null file = undefined
f_open dev_console file = returned (pos 0)
f_open dev_keyboard file = returned (pos 0)

unfoldable pub f_close : Fat → Fops → ℤ → Outcome
f_close fs dev_file file = returned (fat_close fs file)
f_close fs null file = undefined
f_close fs dev_console file = returned (pos 0)
f_close fs dev_keyboard file = returned (pos 0)

unfoldable pub f_unlink : Fat → Fops → ℤ → Outcome × Fat
f_unlink fs dev_file file = let (error, fs') = fat_unlink fs (index file) in (returned error, fs')
f_unlink fs null file = (undefined, fs)
f_unlink fs dev_console file = (returned (pos 0), fs)
f_unlink fs dev_keyboard file = (returned (pos 0), fs)
