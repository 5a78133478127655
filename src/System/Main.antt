-- ===== src/System/Main.antt =====
-- `main` of system.c, on the processor, the tables and the kernel's data.
use s.Base.{◌+◌, ℕ, ◌/◌, ◌%◌, ◌^◌, List, [], ◌∷◌, ◌++◌, codes}
use s.Mm.{l_user_start}
use s.Mm.Init.{init_mm}
use s.Mm.Segments.{Gdt, Tss, kernel_ds, user_cs, user_ds, user_esp, kernel_tss, set_gdt, set_tss}
use s.Sched.{init_queues, init_task_structs}
use s.Sem.{init_sems}
use s.Channel.{init_dynamic_channels}
use s.Hardware.{
  Cpu, set_eflags, set_seg_regs, set_idt_reg, set_gdt_reg, set_task_reg, enable_int, return_gate,
  set_cr3, set_pe_flag,
}
use s.Interrupt.Gates.{Handler, Idt, set_idt}
use s.Sys.Memory.{view, put}
use s.Sys.{Kernel, sched_of, with_sched}
use s.Sys.Trap.{print}
use s.System.{Image, init_devices, init_task0}

-- What the linker decides besides `Image`: the addresses of the handlers, of `idt`, of `tss`, of
-- `dir_pages` and of the end of the first task's stack; and the word at `p_rdtr`, which the image
-- builder writes.
pub record Layout : Type 0 where
  pub image : Image
  pub handlers : Handler → ℕ
  pub idt_address : ℕ
  pub tss_address : ℕ
  pub kernel_esp : ℕ
  pub dir_pages : ℕ
  pub rdtr : ℕ

pub record Machine : Type 0 where
  pub cpu : Cpu
  pub gdt : Gdt
  pub idt : Idt
  pub tss : Tss
  pub kernel : Kernel

abbrev pub os_startup_logo : List ℕ
os_startup_logo =
    codes "      :::::::   :::::::: \n"
    ++ codes "    :+:   :+: :+:    :+: \n"
    ++ codes "   +:+   +:+ +:+        \n"
    ++ codes "  +#+   +:+ +#++:++#++ \n"
    ++ codes " +#+   +#+        +#+ \n"
    ++ codes "#+#   #+# #+#    #+# \n"
    ++ codes "#######   ########  \n"
    ++ codes "\n"
    ++ codes "by Alberto Esteban && Bartomeu Miro \n"
    ++ codes "              ProSO UPC autunn 2011\n\n"

-- The messages of `main`, in order.
abbrev pub messages : List (List ℕ)
messages =
    os_startup_logo
    ∷ codes "Kernel Loaded!\n"
    ∷ codes "Init Queues... done!\n"
    ∷ codes "Init task structs... done!\n"
    ∷ codes "Init dynamic channels... done!\n"
    ∷ codes "Init memory... done!\n"
    ∷ codes "Init semaphores... done!\n"
    ∷ codes "Init init process... done!\n"
    ∷ codes "Moving user data after page table init... done!\n"
    ∷ codes "0s OS loaded.\n"
    ∷ codes "Entering user mode...\n\n"
    ∷ []

-- The privilege level in the flags of the descriptor that a selector names.
abbrev pub descriptor_level : Gdt → ℕ → ℕ
descriptor_level g selector = (g.gdt (selector / 8)).flags1 / 2 ^ 5 % 4

-- `setGdt`, `setIdt` and `setTSS` with the registers that they load.
unfoldable pub load_tables : Layout → Machine → Machine
load_tables layout m =
    let gdt = set_gdt layout.tss_address m.gdt in
    let idt = set_idt layout.handlers layout.idt_address m.idt in
    let with_gdt = set_gdt_reg (record { limit = gdt.limit; base = gdt.base }) m.cpu in
    let with_idt = set_idt_reg (record { limit = idt.limit; base = idt.base }) with_gdt in
    record m {
      cpu = set_task_reg kernel_tss with_idt;
      gdt = gdt;
      idt = idt;
      tss = set_tss layout.kernel_esp;
    }

-- The two messages before the tables are loaded.
abbrev pub greet : Kernel → Kernel
greet k = print (print k os_startup_logo) (codes "Kernel Loaded!\n")

-- From `init_queues` to the end of `init_task0`, with the messages.
unfoldable pub init_kernel : Image → Kernel → Kernel
init_kernel image k =
    let queues = print (with_sched k (init_queues (sched_of k))) (codes "Init Queues... done!\n") in
    let structs =
      print (with_sched queues (init_task_structs (sched_of queues)))
        (codes "Init task structs... done!\n") in
    let channels =
      print (record structs { dyn_channels = init_dynamic_channels structs.dyn_channels })
        (codes "Init dynamic channels... done!\n") in
    let s = sched_of channels in
    let memory =
      print (with_sched channels (record s { mm = init_mm image.table_page image.task_page s.mm }))
        (codes "Init memory... done!\n") in
    let sems =
      print (record memory { sems = init_sems memory.sems }) (codes "Init semaphores... done!\n") in
    print (init_task0 image.stray (init_devices sems)) (codes "Init init process... done!\n")

-- The move of the user's code, with its message.
unfoldable pub move_user : Image → Kernel → Kernel
move_user image k =
    print
      (record k {
        memory =
            put (λ i. view k.memory ((sched_of k).task 0).phpages (image.user_code + i)) k.memory
              ((sched_of k).task 0).phpages image.user_start image.user_size;
      })
      (codes "Moving user data after page table init... done!\n")

-- `main`, up to the first instruction of the user's program.
unfoldable pub main : Layout → Machine → Machine
main layout m =
    let cpu = set_seg_regs kernel_ds kernel_ds layout.kernel_esp (set_eflags m.cpu) in
    let loaded = load_tables layout (record m { cpu = cpu; kernel = greet m.kernel }) in
    let kernel = move_user layout.image (init_kernel layout.image loaded.kernel) in
    let enabled = enable_int (set_pe_flag (set_cr3 layout.dir_pages loaded.cpu)) in
    let told = print (print kernel (codes "0s OS loaded.\n")) (codes "Entering user mode...\n\n") in
    record loaded {
      kernel = told;
      cpu =
          return_gate (descriptor_level loaded.gdt) layout.rdtr user_ds user_ds user_esp user_cs
            l_user_start enabled;
    }
