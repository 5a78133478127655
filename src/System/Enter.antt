-- ===== src/System/Enter.antt =====
-- How `main` reaches the user's program.
use Prim.Native.Nat.{bit_and, bit_or}
use s.Base.{ℕ, ◌+◌, ◌≡◌, ◌/◌, List, [], ◌∷◌, ◌++◌}
use s.Mm.{l_user_start}
use s.Mm.Segments.{kernel_ds, user_cs, user_ds, user_esp, kernel_tss, base_of, gdt_start}
use s.Hardware.{
  Cpu, paging_flag, set_cr3, set_pe_flag, interrupt_flag, set_eflags, set_seg_regs, enable_int,
}
use s.Sys.{Kernel}
use s.Sys.Trap.{print}
use s.System.{boot}
use s.System.Main.{Layout, Machine, messages, load_tables}

-- The texts one after the other.
abbrev pub joined : List (List ℕ) → List ℕ
joined [] = []
joined (text ∷ texts) = text ++ joined texts

print_all : Kernel → List (List ℕ) → Kernel
print_all k [] = k
print_all k (text ∷ texts) = print_all (print k text) texts

-- The processor in `main` just before it leaves the kernel.
enabled : Layout → Machine → Cpu
unfolding load_tables
enabled layout m =
    let cpu = set_seg_regs kernel_ds kernel_ds layout.kernel_esp (set_eflags m.cpu) in
    enable_int
      (set_pe_flag (set_cr3 layout.dir_pages (load_tables layout (record m { cpu = cpu })).cpu))

-- What `main` has made of the machine when the user's program starts.
pub record Entered (layout : Layout) (m m' : Machine) : Type 0 where
  pub kernel :
      m'.kernel
      ≡ record (boot layout.image m.kernel) { console = m.kernel.console ++ joined messages }
  pub code : (m'.cpu.cs ≡ user_cs) × (m'.cpu.eip ≡ l_user_start)
  pub stack : (m'.cpu.ss ≡ user_ds) × (m'.cpu.esp ≡ user_esp)
  pub segments : (m'.cpu.ds ≡ user_ds) × (m'.cpu.es ≡ user_ds) × (m'.cpu.fs ≡ 0) × (m'.cpu.gs ≡ 0)
  pub word : m'.cpu.words (user_esp + 12) ≡ layout.rdtr
  pub interrupts :
      (bit_and m'.cpu.eflags interrupt_flag ≡ interrupt_flag) × (m'.cpu.int_mask ≡ 0xfc)
  pub paging : (m'.cpu.cr3 ≡ layout.dir_pages) × (m'.cpu.cr0 ≡ bit_or m.cpu.cr0 paging_flag)
  pub task : m'.cpu.tr ≡ kernel_tss
  pub task_segment : base_of (m'.gdt.gdt (m'.cpu.tr / 8)) ≡ layout.tss_address
  pub gdtr : (m'.cpu.gdtr.base ≡ gdt_start) × (m'.cpu.gdtr.limit ≡ m'.gdt.limit)
  pub idtr : (m'.cpu.idtr.base ≡ layout.idt_address) × (m'.cpu.idtr.limit ≡ m'.idt.limit)
