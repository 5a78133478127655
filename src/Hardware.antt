-- ===== src/Hardware.antt =====
-- hardware.c, `set_seg_regs` of system.c, and `set_cr3` and `set_pe_flag` of mm.c: what their
-- instructions do to the processor. The flags are those that the instructions here set; those that
-- compiled code changes are not followed.
pub mod Gate
use Prim.Native.Nat.{bit_and, bit_or}
use s.Base.{ℕ, ◌+◌, ◌-◌, ◌*◌, ◌%◌, update, ltb, if◌then◌else◌}

-- `Register`
pub record Register : Type 0 where
  pub limit : ℕ
  pub base : ℕ

-- The registers, the mask of the interrupt controller (port 0x21), and the words of memory by their
-- addresses, which the stacks are in.
pub record Cpu : Type 0 where
  pub eflags : ℕ
  pub eip : ℕ
  pub esp : ℕ
  pub cs : ℕ
  pub ds : ℕ
  pub es : ℕ
  pub fs : ℕ
  pub gs : ℕ
  pub ss : ℕ
  pub ldtr : ℕ
  pub tr : ℕ
  pub idtr : Register
  pub gdtr : Register
  pub cr0 : ℕ
  pub cr3 : ℕ
  pub int_mask : ℕ
  pub words : ℕ → ℕ

abbrev pub direction_flag : ℕ
direction_flag = 0x400

abbrev pub interrupt_flag : ℕ
interrupt_flag = 0x200

-- The flags that `popfl` can write; bit 1 is always set.
abbrev pub writable_flags : ℕ
writable_flags = 0x247FD5

abbrev pub pushl : ℕ → Cpu → Cpu
pushl value c = record c { esp = c.esp - 4; words = update c.words (c.esp - 4) value }

abbrev pub top : Cpu → ℕ
top c = c.words c.esp

-- The end of a pop, whose value is `top`.
abbrev pub drop_top : Cpu → Cpu
drop_top c = record c { esp = c.esp + 4 }

abbrev pub popfl : Cpu → Cpu
popfl c = record (drop_top c) { eflags = bit_or (bit_and (top c) writable_flags) 2 }

unfoldable pub get_eflags : Cpu → ℕ × Cpu
get_eflags c = let pushed = pushl c.eflags c in (top pushed, drop_top pushed)

unfoldable pub set_eflags : Cpu → Cpu
set_eflags c = popfl (pushl 0 c)

unfoldable pub set_idt_reg : Register → Cpu → Cpu
set_idt_reg idt c = record c { idtr = idt }

unfoldable pub set_gdt_reg : Register → Cpu → Cpu
set_gdt_reg gdt c = record c { gdtr = gdt }

unfoldable pub set_ldt_reg : ℕ → Cpu → Cpu
set_ldt_reg ldt c = record c { ldtr = ldt }

unfoldable pub set_task_reg : ℕ → Cpu → Cpu
set_task_reg tr c = record c { tr = tr }

abbrev pub paging_flag : ℕ
paging_flag = 0x80000000

unfoldable pub set_cr3 : (dir_pages : ℕ) → Cpu → Cpu
set_cr3 dir_pages c = record c { cr3 = dir_pages }

unfoldable pub set_pe_flag : Cpu → Cpu
set_pe_flag c = record c { cr0 = bit_or c.cr0 paging_flag }

-- The privilege level that a selector asks for.
abbrev pub requested_level : ℕ → ℕ
requested_level selector = selector % 4

-- On a return to code of a lower privilege, the processor clears a data segment register whose
-- segment, of the privilege `level selector`, that code may not use.
abbrev pub still_usable : (level : ℕ → ℕ) → (cpl selector : ℕ) → ℕ
still_usable level cpl selector = if ltb (level selector) cpl then 0 else selector

-- `lret`: to code of a lower privilege, it takes the stack from the stack too.
abbrev pub lret : (level : ℕ → ℕ) → Cpu → Cpu
lret level c =
    let at_cs = record (drop_top c) { eip = top c } in
    let near = record (drop_top at_cs) { cs = top at_cs } in
    let at_ss = drop_top near in
    let cpl = requested_level near.cs in
    if ltb (requested_level c.cs) cpl
    then record near {
      esp = top near;
      ss = top at_ss;
      ds = still_usable level cpl near.ds;
      es = still_usable level cpl near.es;
      fs = still_usable level cpl near.fs;
      gs = still_usable level cpl near.gs;
    }
    else near

-- `rdtr` is `*p_rdtr`, which goes above the new stack's top.
unfoldable pub return_gate : (level : ℕ → ℕ) → (rdtr ds ss esp cs eip : ℕ) → Cpu → Cpu
return_gate level rdtr ds ss esp cs eip c =
    let written = record c { es = ds; ds = ds; words = update c.words (esp + 12) rdtr } in
    lret level (pushl eip (pushl cs (pushl esp (pushl ss written))))

-- A jump to the next instruction.
unfoldable pub delay : Cpu → Cpu
delay c = c

-- The clock and the keyboard are let through, and then all interrupts.
unfoldable pub enable_int : Cpu → Cpu
enable_int c =
    let c' = delay (record c { int_mask = 0xfc }) in
    record c' { eflags = bit_or c'.eflags interrupt_flag }

-- `cld` clears the direction flag. The stack starts 5 words below `esp`.
unfoldable pub set_seg_regs : (data_sel stack_sel esp : ℕ) → Cpu → Cpu
set_seg_regs data_sel stack_sel esp c = record c {
  eflags = bit_and c.eflags (0xFFFFFFFF - direction_flag);
  ds = data_sel;
  es = data_sel;
  fs = data_sel;
  gs = data_sel;
  ss = stack_sel;
  esp = esp - 5 * 4;
}
