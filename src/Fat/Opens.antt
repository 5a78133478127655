-- ===== src/Fat/Opens.antt =====
-- The count of opens of fat.c: no function changes it.
use s.Base.{
  ◌<◌, ◌≢◌, ℕ, zero, suc, ◌+◌, ◌-◌, ◌/◌, ◌%◌, ◌≡◌, refl, List, [], ℤ, pos, minus, pos_part, arith,
  if◌then◌else◌, update, ap, ◌∙◌, loop-update, ltb,
}
use s.Fat.{
  Fat, max_files, block_size, init_fat, reset_entry, free_type, fat_close, fat_add_block,
  fat_read_block, fat_translate_block,
}
use s.Utils.{copy_data}
use s.Fat.Calls.{
  fat_create, fat_read, fat_write, fat_unlink, read_loop, write_loop, write_round, write_block,
  block_part,
}

abbrev pub SameOpens : Fat → Fat → Type 0
SameOpens fs fs' = (f : ℕ) → (fs'.root f).opens ≡ (fs.root f).opens

create-SameOpens :
    (fs : Fat) (path : List ℕ) (flags : ℕ) → SameOpens fs (fat_create fs path flags).1
unfolding fat_create update
create-SameOpens fs path flags f = ground arith

add_block-SameOpens : (fs : Fat) (file : ℕ) → SameOpens fs (fat_add_block fs file).1
unfolding fat_add_block
add_block-SameOpens fs file f = ground arith

unlink-SameOpens : (fs : Fat) (file : ℕ) → SameOpens fs (fat_unlink fs file).1
unfolding fat_unlink update
unlink-SameOpens fs file f = ground arith

write_block-SameOpens : (fs : Fat) (file lb : ℕ) → SameOpens fs (write_block fs file lb).1
write_block-SameOpens fs file lb f = ground (arith, add_block-SameOpens fs file f)

write_round-SameOpens :
    (fs : Fat) (file : ℕ) (buffer : ℕ → ℕ) (b : ℤ) (offset written part bo : ℕ)
    → SameOpens fs (write_round fs file buffer b offset written part bo)
unfolding write_round update
write_round-SameOpens fs file buffer b offset written part bo f = ground arith

write_loop-SameOpens :
    (fuel : ℕ) (fs : Fat) (file : ℕ) (buffer : ℕ → ℕ) (offset written remain lb bo : ℕ)
    → SameOpens fs (write_loop fuel fs file buffer offset written remain lb bo).1
unfolding write_loop
write_loop-SameOpens zero fs file buffer offset written remain lb bo f = refl
write_loop-SameOpens (suc fuel) fs file buffer offset written remain lb bo f =
    let (b, fs') = write_block fs file lb in
    let part = block_part bo remain in
    let r = write_round fs' file buffer b offset written part bo in
    ground (
      arith,
      write_block-SameOpens fs file lb f,
      write_round-SameOpens fs' file buffer b offset written part bo f,
      write_loop-SameOpens fuel r file buffer offset (written + part) (remain - part) (lb + 1) 0 f,
    )

read_loop-SameOpens :
    (fuel : ℕ) (fs : Fat) (file : ℕ) (buffer : ℕ → ℕ) (read remain lb bo : ℕ)
    → SameOpens fs (read_loop fuel fs file buffer read remain lb bo).2
unfolding read_loop fat_read_block
read_loop-SameOpens zero fs file buffer read remain lb bo f = refl
read_loop-SameOpens (suc fuel) fs file buffer read remain lb bo f =
    let fs' = fat_read_block fs (fat_translate_block fs file lb) in
    let part = block_part bo remain in
    let rest =
      read_loop-SameOpens fuel fs' file (copy_data fs'.block_buffer bo buffer read part)
        (read + part) (remain - part) (lb + 1) 0 f in
    ground arith

read-SameOpens :
    (fs : Fat) (file : ℕ) (buffer : ℕ → ℕ) (offset count : ℕ)
    → SameOpens fs (fat_read fs file buffer offset count).2
unfolding fat_read
read-SameOpens fs file buffer offset count f =
    let size = (fs.root file).size in
    let remain = if ltb size (offset + count) then size - offset else count in
    ground (
      arith,
      read_loop-SameOpens (suc remain) fs file buffer 0 remain (offset / block_size)
          (offset % block_size) f,
    )

-- The calls that the rest of the kernel makes.
pub data Step : Fat → Fat → Type 0 where
  create : (fs : Fat) (path : List ℕ) (flags : ℕ) → Step fs (fat_create fs path flags).1
  read :
      (fs : Fat) (file : ℕ) (buffer : ℕ → ℕ) (offset count : ℕ)
      → Step fs (fat_read fs file buffer offset count).2
  write :
      (fs : Fat) (file : ℕ) (buffer : ℕ → ℕ) (offset count : ℕ)
      → Step fs (fat_write fs file buffer offset count).1
  unlink : (fs : Fat) (file : ℕ) → Step fs (fat_unlink fs file).1

pub data Reach (fs : Fat) : Fat → Type 0 where
  here : Reach fs (init_fat fs)
  next : {t u : Fat} → Reach fs t → Step t u → Reach fs u

Step-SameOpens : {t u : Fat} → Step t u → SameOpens t u
unfolding fat_read fat_write
Step-SameOpens (create fs path flags) = create-SameOpens fs path flags
Step-SameOpens (read fs file buffer offset count) = read-SameOpens fs file buffer offset count
Step-SameOpens (write fs file buffer offset count) =
    write_loop-SameOpens (suc count) fs file buffer offset 0 count (offset / block_size)
      (offset % block_size)
Step-SameOpens (unlink fs file) = unlink-SameOpens fs file

init-SameOpens : (fs : Fat) → SameOpens fs (init_fat fs)
unfolding init_fat
init-SameOpens fs f =
    ap (λ e. e.opens) (loop-update max_files (λ i e. reset_entry [] free_type e) fs.root f)
    ∙ ground arith

Reach-SameOpens : {fs t : Fat} → Reach fs t → SameOpens fs t
Reach-SameOpens {fs} here = init-SameOpens fs
Reach-SameOpens (next r st) = λ f. Step-SameOpens st f ∙ Reach-SameOpens r f

-- Started with every count of opens at 0, as the kernel's memory is, the file system can close no
-- file, whatever calls of `fat_create`, `fat_read`, `fat_write` and `fat_unlink` have been made:
-- `fat_close` answers -1 for every file number but 10, which its test lets through and which is not
-- an entry of the directory.
pub fat_close-Reach :
    (fs t : Fat) (file : ℤ)
    → ((f : ℕ) → f < max_files → (fs.root f).opens ≡ pos 0)
    → Reach fs t
    → file ≢ pos max_files
    → fat_close t file ≡ minus 1
unfolding fat_close
fat_close-Reach fs t file zeros r other =
    ground (arith, Reach-SameOpens r (pos_part file), zeros (pos_part file), other)
