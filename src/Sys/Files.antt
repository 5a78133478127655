-- ===== src/Sys/Files.antt =====
-- The calls of sys.c on files and channels. A path is an address in the caller's memory.
use Prim.Native.Nat.{bit_and}
use s.Base.{
  ℕ, ◌+◌, Bool, true, false, not, ◌&&◌, ◌||◌, none, some, List, ℤ, pos, minus, is_neg, pos_part,
  ◌+ℤ◌, ◌-ℤ◌, ◌=ℤ◌, ◌==◌, ltb, if◌then◌else◌, find_below,
}
use s.Kernutil.{string_at}
use s.Utils.{read, write}
use s.Sched.{num_channels, free_channel}
use s.Sem.{einval, ebusy}
use s.Channel.{dev_file, find_free_channel, find_free_dyn_channel, file_is_in_use}
use s.Fat.{enoent, enospc, enametoolong, file_name_size, fat_check_path, fat_find_path}
use s.Fat.Calls.{o_rdonly, o_wronly, o_rdwr, fat_access_ok, fat_create}
use s.Sys.Memory.{view}
use s.Sys.{
  Kernel, Outcome, returned, switched, undefined, current, set_channel, set_dyn, bad_fd, dynamic_of,
  fd_access_ok, buffer_ok,
}
use s.Sys.Devices.{f_read, f_write, f_open, f_close, f_unlink}

abbrev pub o_creat : ℕ
o_creat = 0x4

abbrev pub o_excl : ℕ
o_excl = 0x8

abbrev pub ebadf : ℕ
ebadf = 9

abbrev pub eacces : ℕ
eacces = 13

abbrev pub efault : ℕ
efault = 14

abbrev pub eexist : ℕ
eexist = 17

abbrev pub emfile : ℕ
emfile = 24

-- `dyn_channels[dynamic].offset += n`, where the call has come back.
abbrev pub move_offset : ℕ → Outcome × Kernel → Outcome × Kernel
move_offset d (returned n, k) = (returned n, set_dyn k d (λ c. record c { offset = c.offset +ℤ n }))
move_offset d (switched, k) = (switched, k)
move_offset d (undefined, k) = (undefined, k)

unfoldable pub sys_read : Kernel → (fd : ℤ) → (buffer : ℕ) → (count : ℤ) → Outcome × Kernel
sys_read k fd buffer count =
    let d = dynamic_of k fd in
    let c = k.dyn_channels d in
    if not (fd_access_ok k fd o_rdonly)
    then (returned (minus ebadf), k)
    else if not (buffer_ok write buffer count)
    then (returned (minus efault), k)
    else if is_neg count
    then (returned (minus einval), k)
    else move_offset d (f_read k c.fops c.file buffer c.offset (pos_part count))

unfoldable pub sys_write : Kernel → (fd : ℤ) → (buffer : ℕ) → (count : ℤ) → Outcome × Kernel
sys_write k fd buffer count =
    let d = dynamic_of k fd in
    let c = k.dyn_channels d in
    if not (fd_access_ok k fd o_wronly)
    then (returned (minus ebadf), k)
    else if not (buffer_ok write buffer count)
    then (returned (minus efault), k)
    else if is_neg count
    then (returned (minus einval), k)
    else move_offset d (f_write k c.fops c.file buffer c.offset (pos_part count))

-- The caller's memory from an address on.
abbrev pub path_memory : Kernel → ℕ → ℕ → ℕ
path_memory k path i = view k.memory (current k).phpages (path + i)

abbrev pub path_of : Kernel → ℕ → List ℕ
path_of k path = string_at (path_memory k path) 0 file_name_size

-- What `sys_open` writes once the device has opened the file.
abbrev pub opened : Kernel → (f fd dynamic : ℕ) → (flags : ℕ) → Kernel
opened k f fd dynamic flags = set_dyn (set_channel k fd (pos dynamic)) dynamic λ c. record c {
  file = pos f;
  mode = pos (bit_and flags o_rdwr);
  offset = pos 0;
  opens = c.opens +ℤ pos 1;
}

-- `if (error < 0) return error;`, and what follows it.
abbrev pub unless_error : Outcome → Kernel → ℤ → Kernel → Outcome × Kernel
unless_error (returned error) k answer k' =
    if is_neg error then (returned error, k) else (returned answer, k')
unless_error switched k answer k' = (switched, k)
unless_error undefined k answer k' = (undefined, k)

-- The end of `sys_open`, with the file, the channel and the entry that it has chosen.
unfoldable pub open_channel : Kernel → (f fd dynamic : ℕ) → (flags : ℕ) → Outcome × Kernel
open_channel k f fd dynamic flags =
    unless_error (f_open (k.dyn_channels dynamic).fops (pos f)) k (pos fd)
      (opened k f fd dynamic flags)

-- `if (!fat_access_ok(..)) return -EACCES`, and the device of a file that was created.
abbrev pub checked_open :
    Kernel → (created : Bool) → (f fd dynamic : ℕ) → (flags : ℕ) → Outcome × Kernel
checked_open k created f fd dynamic flags =
    if not (fat_access_ok k.fs f (bit_and flags o_rdwr))
    then (returned (minus eacces), k)
    else open_channel (if created then set_dyn k dynamic (λ c. record c { fops = dev_file }) else k)
        f fd dynamic flags

-- The search for the file, and its creation.
unfoldable pub find_or_create : Kernel → List ℕ → (fd dynamic : ℕ) → (flags : ℕ) → Outcome × Kernel
unfolding open_channel
find_or_create k path fd dynamic flags =
    let f = fat_find_path k.fs path in
    let (made, fs) = fat_create k.fs path (bit_and flags o_rdwr) in
    if is_neg f
    then (if bit_and flags o_creat == o_creat
        then (if is_neg made
            then (returned (minus enospc), k)
            else checked_open (record k { fs = fs }) true (pos_part made) fd dynamic flags)
        else (returned (minus enoent), k))
    else if bit_and flags (o_excl + o_creat) == o_excl + o_creat
    then (returned (minus eexist), k)
    else checked_open k false (pos_part f) fd dynamic flags

unfoldable pub sys_open : Kernel → (path : ℕ) → (flags : ℤ) → Outcome × Kernel
sys_open k path flags =
    let fd = find_free_channel (current k).channels in
    let dynamic = find_free_dyn_channel k.dyn_channels in
    if ltb 0x15 (pos_part flags) || is_neg flags
    then (returned (minus einval), k)
    else if not (buffer_ok read path (pos 1))
    then (returned (minus efault), k)
    else if is_neg (fat_check_path (path_memory k path))
    then (returned (minus enametoolong), k)
    else if is_neg fd || is_neg dynamic
    then (returned (minus emfile), k)
    else find_or_create k (path_of k path) (pos_part fd) (pos_part dynamic) (pos_part flags)

-- Another channel of the task that leads to the same entry.
abbrev pub duped : Kernel → ℤ → Bool
duped k fd =
    elim (find_below num_channels
      λ i. ((current k).channels i =ℤ (current k).channels (pos_part fd)) && not (pos i =ℤ fd)) [
        | some i ↦ true
        | none ↦ false
      ]

-- What `sys_close` writes once the device has closed the file.
abbrev pub closed : Kernel → (fd : ℤ) → Kernel
closed k fd =
    set_channel
      (set_dyn k (dynamic_of k fd) λ c. record c {
        mode = if duped k fd then c.mode else free_channel;
        opens = c.opens -ℤ pos 1;
      })
      (pos_part fd) free_channel

unfoldable pub sys_close : Kernel → (fd : ℤ) → Outcome × Kernel
sys_close k fd =
    let c = k.dyn_channels (dynamic_of k fd) in
    if bad_fd k fd
    then (returned (minus ebadf), k)
    else unless_error (f_close k.fs c.fops c.file) k (pos 0) (closed k fd)

unfoldable pub sys_unlink : Kernel → (path : ℕ) → Outcome × Kernel
sys_unlink k path =
    let f = fat_find_path k.fs (path_of k path) in
    let d = file_is_in_use k.dyn_channels f in
    let (r, fs) = f_unlink k.fs (k.dyn_channels (pos_part d)).fops f in
    if not (buffer_ok read path (pos 1))
    then (returned (minus efault), k)
    else if is_neg (fat_check_path (path_memory k path))
    then (returned (minus enametoolong), k)
    else if is_neg f
    then (returned (minus enoent), k)
    else if is_neg d
    then (returned (minus ebusy), k)
    else (r, record k { fs = fs })

unfoldable pub sys_dup : Kernel → (fd : ℤ) → ℤ × Kernel
sys_dup k fd =
    let new_fd = find_free_channel (current k).channels in
    if bad_fd k fd
    then (minus ebadf, k)
    else if is_neg new_fd
    then (minus emfile, k)
    else (new_fd, set_channel k (pos_part new_fd) ((current k).channels (pos_part fd)))
