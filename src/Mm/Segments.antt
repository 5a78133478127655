-- ===== src/Mm/Segments.antt =====
-- The segments of mm.c: the descriptor of the task state segment, and that segment. The addresses
-- of `tss`, and of the first task's stack, are the linker's: parameters.
use s.Base.{ℕ, ◌+◌, ◌-◌, ◌*◌, ◌/◌, ◌%◌, ◌^◌, ◌<◌, ◌≡◌, refl, ◌≢◌, Bool, true, update, arith}
use s.Mm.{l_user_start, num_pag_code, num_pag_data, page_size}

abbrev pub kernel_ds : ℕ
kernel_ds = 0x18

abbrev pub user_cs : ℕ
user_cs = 0x23

abbrev pub user_ds : ℕ
user_ds = 0x2B

abbrev pub kernel_tss : ℕ
kernel_tss = 0x30

abbrev pub gdt_start : ℕ
gdt_start = 0x901b3

abbrev pub initial_eflags : ℕ
initial_eflags = 0x00000200

abbrev pub user_esp : ℕ
user_esp = l_user_start + (num_pag_code + num_pag_data) * page_size - 16

pub record Descriptor : Type 0 where
  pub limit : ℕ
  pub low_base : ℕ
  pub mid_base : ℕ
  pub flags1 : ℕ
  pub flags2 : ℕ
  pub high_base : ℕ

-- `gdt` and `gdtR`; `loaded` is the table that `set_gdt_reg` has given to the processor.
pub record Gdt : Type 0 where
  pub gdt : ℕ → Descriptor
  pub base : ℕ
  pub limit : ℕ
  pub loaded : Bool

-- `TSS`, without its unused halves of words.
pub record Tss : Type 0 where
  pub previous_task_link : ℕ
  pub esp0 : ℕ
  pub ss0 : ℕ
  pub esp1 : ℕ
  pub ss1 : ℕ
  pub esp2 : ℕ
  pub ss2 : ℕ
  pub cr3 : ℕ
  pub eip : ℕ
  pub e_flags : ℕ
  pub eax : ℕ
  pub ecx : ℕ
  pub edx : ℕ
  pub ebx : ℕ
  pub esp : ℕ
  pub ebp : ℕ
  pub esi : ℕ
  pub edi : ℕ
  pub es : ℕ
  pub cs : ℕ
  pub ss : ℕ
  pub ds : ℕ
  pub fs : ℕ
  pub gs : ℕ
  pub ldt_segment_selector : ℕ
  pub debug_trap : ℕ
  pub io_map_base_address : ℕ

abbrev pub mid_byte : ℕ → ℕ
mid_byte address = address / 2 ^ 16 % 2 ^ 8

abbrev pub high_byte : ℕ → ℕ
high_byte address = address / 2 ^ 24 % 2 ^ 8

-- `KERNEL_TSS>>3`
abbrev pub tss_entry : ℕ
tss_entry = kernel_tss / 2 ^ 3

-- A descriptor has 8 bytes; `limit` is a `Word`.
unfoldable pub set_gdt : (tss_address : ℕ) → Gdt → Gdt
set_gdt tss_address g = record {
  gdt = update g.gdt tss_entry (record (g.gdt tss_entry) {
    low_base = tss_address % 2 ^ 16;
    mid_base = mid_byte tss_address;
    high_base = high_byte tss_address;
  });
  base = gdt_start;
  limit = 256 * 8 % 2 ^ 16;
  loaded = true;
}

unfoldable pub set_tss : (kernel_esp : ℕ) → Tss
set_tss kernel_esp = record {
  previous_task_link = 0;
  esp0 = kernel_esp;
  ss0 = kernel_ds;
  esp1 = 0;
  ss1 = 0;
  esp2 = 0;
  ss2 = 0;
  cr3 = 0;
  eip = 0;
  e_flags = initial_eflags;
  eax = 0;
  ecx = 0;
  edx = 0;
  ebx = 0;
  esp = user_esp;
  ebp = user_esp;
  esi = 0;
  edi = 0;
  es = user_ds;
  cs = user_cs;
  ss = user_ds;
  ds = user_ds;
  fs = 0;
  gs = 0;
  ldt_segment_selector = kernel_tss;
  debug_trap = 0;
  io_map_base_address = 0;
}

-- The base that the processor reads in a descriptor.
abbrev pub base_of : Descriptor → ℕ
base_of d = d.high_base * 2 ^ 24 + d.mid_base * 2 ^ 16 + d.low_base

-- After `setGdt` the descriptor at KERNEL_TSS leads to the task state segment, for an address of
-- 32 bits, its limit and flags are as before, and so are all other descriptors.
pub set_gdt_lem :
    (tss_address : ℕ) (g : Gdt)
    → tss_address < 2 ^ 32
    → let d = (set_gdt tss_address g).gdt in
      (base_of (d tss_entry) ≡ tss_address)
      × ((d tss_entry).limit ≡ (g.gdt tss_entry).limit)
      × ((d tss_entry).flags1 ≡ (g.gdt tss_entry).flags1)
      × ((i : ℕ) → i ≢ tss_entry → d i ≡ g.gdt i)
unfolding set_gdt update
set_gdt_lem tss_address g lt = (omega arith, refl, refl, λ i ne. ground arith)
