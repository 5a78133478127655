-- ===== src/Mm.antt =====
-- mm.c, include/mm.h, include/mm_address.h and the page table entry of include/types.h: frames of
-- physical memory and the kernel's one page table. `set_cr3` reloads the page directory, which
-- flushes the TLB; translation is read from the table here, so it is left out.
pub mod Frames
pub mod Init
pub mod Segments
mod Tests
use s.Base.{
  ℕ, zero, suc, ◌+◌, ◌-◌, ◌*◌, ◌/◌, ◌%◌, ◌^◌, Bool, true, false, Option, none, some, ℤ, pos, negsuc,
  minus, update, ◌==◌, if◌then◌else◌, find_below, loop,
}

abbrev pub total_pages : ℕ
total_pages = 1024

abbrev pub num_pag_kernel : ℕ
num_pag_kernel = 256

abbrev pub num_pag_code : ℕ
num_pag_code = 8

abbrev pub num_pag_data : ℕ
num_pag_data = 20

abbrev pub page_size : ℕ
page_size = 0x1000

abbrev pub l_user_start : ℕ
l_user_start = 0x100000

-- `L_USER_START>>12`
abbrev pub pag_log_init_code_p0 : ℕ
pag_log_init_code_p0 = l_user_start / 2 ^ 12

abbrev pub pag_log_init_data_p0 : ℕ
pag_log_init_data_p0 = pag_log_init_code_p0 + num_pag_code

abbrev pub free_frame_mark : ℕ
free_frame_mark = 0

abbrev pub used_frame_mark : ℕ
used_frame_mark = 1

-- `page_table_entry`; `other` holds the flags that the kernel only ever clears.
pub record PageTableEntry : Type 0 where
  pub present : ℕ
  pub rw : ℕ
  pub user : ℕ
  pub other : ℕ
  pub pbase_addr : ℕ

-- `entry = 0`
abbrev pub zero_entry : PageTableEntry
zero_entry = record { present = 0; rw = 0; user = 0; other = 0; pbase_addr = 0 }

pub record Mm : Type 0 where
  pub phys_mem : ℕ → ℕ
  pub pagusr_table : ℕ → PageTableEntry
  pub dir_pages : ℕ → PageTableEntry
  pub paging : Bool

-- A value stored in the 20 bits of `pbase_addr`, or passed to an `unsigned`.
abbrev pub bits_of : ℕ → ℤ → ℕ
bits_of w (pos n) = n % 2 ^ w
bits_of w (negsuc n) = 2 ^ w - 1 - n % 2 ^ w

-- The scan of `alloc_frame` tries every second frame from the first that is not the kernel's.
abbrev pub scan_frame : ℕ → ℕ
scan_frame k = num_pag_kernel + 2 * k

abbrev pub scan_rounds : ℕ
scan_rounds = (total_pages - num_pag_kernel) / 2

unfoldable pub alloc_frame : Mm → ℤ × Mm
alloc_frame m = elim (find_below scan_rounds (λ k. m.phys_mem (scan_frame k) == free_frame_mark)) [
  | some k ↦
      (pos (scan_frame k), record m { phys_mem = update m.phys_mem (scan_frame k) used_frame_mark })
  | none ↦ (minus 1, m)
]

unfoldable pub free_frame : Mm → ℕ → Mm
free_frame m frame = record m { phys_mem = update m.phys_mem frame free_frame_mark }

abbrev pub user_entry : ℕ → PageTableEntry
user_entry frame = record { present = 1; rw = 1; user = 1; other = 0; pbase_addr = frame % 2 ^ 20 }

unfoldable pub set_ss_pag : Mm → ℕ → ℕ → Mm
set_ss_pag m page frame = record m { pagusr_table = update m.pagusr_table page (user_entry frame) }

unfoldable pub del_ss_pag : Mm → ℕ → Mm
del_ss_pag m page = record m { pagusr_table = update m.pagusr_table page zero_entry }

unfoldable pub init_frames : Mm → Mm
unfolding loop
init_frames m =
    let freed = loop total_pages (λ i p. update p i free_frame_mark) m.phys_mem in
    record m { phys_mem = loop num_pag_kernel (λ i p. update p i used_frame_mark) freed }
