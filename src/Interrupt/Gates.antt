-- ===== src/Interrupt/Gates.antt =====
-- The descriptor table of interrupt.c, and its exception routines. The addresses of the handlers
-- of entry.S, each of which calls the routine of its name, are the linker's: a parameter.
pub mod Routes
use Prim.Native.Nat.{bit_or}
use s.Base.{
  ℕ, ◌+◌, ◌-◌, ◌*◌, ◌/◌, ◌%◌, ◌^◌, Bool, true, List, [], ◌∷◌, ◌++◌, pos, update, ◌==◌,
  if◌then◌else◌, codes,
}
use s.Kernutil.{itoa, strcat, string_at}
use s.Sys.{Kernel, Outcome, current}
use s.Sys.Process.{sys_exit}
use s.Sys.Trap.{print}

abbrev pub idt_entries : ℕ
idt_entries = 256

abbrev pub kernel_lvl : ℕ
kernel_lvl = 0

abbrev pub user_lvl : ℕ
user_lvl = 3

abbrev pub kernel_cs : ℕ
kernel_cs = 0x10

pub data Handler : Type 0 where
  divide_error_handler : Handler
  debug_handler : Handler
  nm1_handler : Handler
  breakpoint_handler : Handler
  overflow_handler : Handler
  bounds_check_handler : Handler
  invalid_opcode_handler : Handler
  device_not_available_handler : Handler
  double_fault_handler : Handler
  coprocessor_segment_overrun_handler : Handler
  invalid_tss_handler : Handler
  segment_not_present_handler : Handler
  stack_exception_handler : Handler
  general_protection_handler : Handler
  page_fault_handler : Handler
  intel_reserved_handler : Handler
  floatin_point_error_handler : Handler
  alignment_check_handler : Handler
  clock_handler keyboard_handler system_call_handler : Handler

pub record Gate : Type 0 where
  pub low_offset : ℕ
  pub segment_selector : ℕ
  pub flags : ℕ
  pub high_offset : ℕ

-- `idt` and `idtR`; `loaded` is the table that `set_idt_reg` has given to the processor.
pub record Idt : Type 0 where
  pub idt : ℕ → Gate
  pub base : ℕ
  pub limit : ℕ
  pub loaded : Bool

abbrev pub low_word : ℕ → ℕ
low_word address = address % 2 ^ 16

abbrev pub high_word : ℕ → ℕ
high_word address = address / 2 ^ 16 % 2 ^ 16

-- `(Word)(maxAccessibleFromPL << 13) | 0x8E00`
abbrev pub gate_flags : ℕ → ℕ
gate_flags level = bit_or (level * 2 ^ 13 % 2 ^ 16) 0x8E00

-- The handler is its address. `setTrapHandler` has the same body.
unfoldable pub set_interrupt_handler : Idt → (vector handler level : ℕ) → Idt
set_interrupt_handler t vector handler level = record t {
  idt = update t.idt vector (record {
    low_offset = low_word handler;
    segment_selector = kernel_cs;
    flags = gate_flags level;
    high_offset = high_word handler;
  });
}

unfoldable pub set_trap_handler : Idt → (vector handler level : ℕ) → Idt
set_trap_handler t vector handler level = set_interrupt_handler t vector handler level

-- A call of `setInterruptHandler` in `setIdt`.
pub record Entry : Type 0 where
  pub vector : ℕ
  pub handler : Handler
  pub level : ℕ

abbrev pub entry : ℕ → Handler → ℕ → Entry
entry vector handler level = record { vector = vector; handler = handler; level = level }

abbrev pub interrupt_entries : List Entry
interrupt_entries =
    entry 0 divide_error_handler kernel_lvl
    ∷ entry 1 debug_handler kernel_lvl
    ∷ entry 2 nm1_handler kernel_lvl
    ∷ entry 3 breakpoint_handler user_lvl
    ∷ entry 4 overflow_handler user_lvl
    ∷ entry 5 bounds_check_handler user_lvl
    ∷ entry 6 invalid_opcode_handler kernel_lvl
    ∷ entry 7 device_not_available_handler kernel_lvl
    ∷ entry 8 double_fault_handler kernel_lvl
    ∷ entry 9 coprocessor_segment_overrun_handler kernel_lvl
    ∷ entry 10 invalid_tss_handler kernel_lvl
    ∷ entry 11 segment_not_present_handler kernel_lvl
    ∷ entry 12 stack_exception_handler kernel_lvl
    ∷ entry 13 general_protection_handler kernel_lvl
    ∷ entry 14 page_fault_handler kernel_lvl
    ∷ entry 15 intel_reserved_handler kernel_lvl
    ∷ entry 16 floatin_point_error_handler kernel_lvl
    ∷ entry 17 alignment_check_handler kernel_lvl
    ∷ entry 32 clock_handler kernel_lvl
    ∷ entry 33 keyboard_handler kernel_lvl
    ∷ []

abbrev pub install : (Handler → ℕ) → List Entry → Idt → Idt
install address [] t = t
install address (e ∷ es) t =
    install address es (set_interrupt_handler t e.vector (address e.handler) e.level)

-- `idt_address` is `&idt`, and an entry has 8 bytes.
unfoldable pub set_idt : (Handler → ℕ) → (idt_address : ℕ) → Idt → Idt
set_idt address idt_address t =
    let t' = record t { base = idt_address; limit = idt_entries * 8 - 1 } in
    record (set_trap_handler (install address interrupt_entries t') 0x80
      (address system_call_handler) user_lvl) { loaded = true }

-- How a routine ends: the processor stops in `while(1)`, or a call has ended.
pub data Ending : Type 0 where
  halted : Ending
  ended : Outcome → Ending

unfoldable pub divide_error_routine : Kernel → Ending × Kernel
divide_error_routine k = (halted, print k (codes "Exception found\n"))

unfoldable pub debug_routine : Kernel → Ending × Kernel
debug_routine k = (halted, print k (codes "Debug exception found\n"))

unfoldable pub nm1_routine : Kernel → Ending × Kernel
nm1_routine k = (halted, print k (codes "NM1 exception found\n"))

unfoldable pub breakpoint_routine : Kernel → Ending × Kernel
breakpoint_routine k = (halted, print k (codes "Breakpoint exception found\n"))

unfoldable pub overflow_routine : Kernel → Ending × Kernel
overflow_routine k = (halted, print k (codes "Overflow exception found"))

unfoldable pub bounds_check_routine : Kernel → Ending × Kernel
bounds_check_routine k = (halted, print k (codes "Bounds Check exception found"))

unfoldable pub invalid_opcode_routine : Kernel → Ending × Kernel
invalid_opcode_routine k = (halted, print k (codes "Invalid Opcode exception found"))

unfoldable pub device_not_available_routine : Kernel → Ending × Kernel
device_not_available_routine k = (halted, print k (codes "Device not avaliable exception found"))

unfoldable pub double_fault_routine : Kernel → Ending × Kernel
double_fault_routine k = (halted, print k (codes "Exception found"))

unfoldable pub coprocessor_segment_overrun_routine : Kernel → Ending × Kernel
coprocessor_segment_overrun_routine k =
    (halted, print k (codes "Coprocessor segment overrun exception found"))

unfoldable pub invalid_tss_routine : Kernel → Ending × Kernel
invalid_tss_routine k = (halted, print k (codes "Invalid tss exception found"))

unfoldable pub segment_not_present_routine : Kernel → Ending × Kernel
segment_not_present_routine k = (halted, print k (codes "Segment not present exception found"))

unfoldable pub stack_exception_routine : Kernel → Ending × Kernel
stack_exception_routine k = (halted, print k (codes "Stack exception found"))

unfoldable pub general_protection_routine : Kernel → Ending × Kernel
general_protection_routine k = (halted, print k (codes "General protection Exception found"))

unfoldable pub intel_reserved_routine : Kernel → Ending × Kernel
intel_reserved_routine k = (halted, print k (codes "Intel reserved exception found"))

unfoldable pub floatin_point_error_routine : Kernel → Ending × Kernel
floatin_point_error_routine k = (halted, print k (codes "Floatin point endefxception found"))

unfoldable pub alignment_check_routine : Kernel → Ending × Kernel
alignment_check_routine k = (halted, print k (codes "Alignment check exception found"))

-- The three arrays of `page_fault_routine`.
abbrev pub emsg_txt : List ℕ
emsg_txt = codes "Page fault exeption al process "

-- A first process that faults stops the processor; any other one is ended, and is told of by a
-- line. `emsg` has 36 places.
unfoldable pub page_fault_routine : (emsg_pid emsg : ℕ → ℕ) → Kernel → Ending × Kernel
page_fault_routine emsg_pid emsg k =
    let text = strcat emsg emsg_txt (string_at (itoa (current k).pid emsg_pid 10) 0 16) in
    let (r, k') = sys_exit (print k (string_at text 0 36 ++ codes "\n")) in
    if (current k).pid == 0
    then (halted, print k (codes "Page fault exception found at init process, system is dead."))
    else (ended r, k')
