-- ===== src/System/Tests.antt =====
-- The kernel's start from a memory of zeros, and the theorems on it.
use s.Base.{◌*◌, ltb, ◌==◌, if◌then◌else◌, ℕ, ◌+◌, refl, List, [], pos, false}
use s.Mm.{zero_entry}
use s.Sched.{running}
use s.Sem.Inv.{IsValid}
use s.Channel.{null}
use s.Sched.{Sched}
use s.Sys.{Kernel, sched_of, with_sched}
use s.Sem.Sample.{kernel}
use s.Sys.Process.{sys_fork}
use s.System.{Image, boot}
use s.Mm.Segments.{set_tss}
use s.System.Main.{Layout, Machine}
use s.System.Boot.{Booted, boot-Booted}
use s.System.Run.{Run, start, step, fork, boot-Run}

abbrev image : Image
image = record {
  table_page = 20;
  task_page = λ i. 30 + i;
  stray = 0;
  user_code = 0x20000;
  user_start = 0x100000;
  user_size = 16;
}

abbrev zeros : Kernel
zeros = record {
  sems = record {
    sched = record {
      heap = record { next = λ a. 0; prev = λ a. 0 };
      task = λ i. record {
        pid = 0;
        state = running;
        st = record { tics = 0; cs = 0; remaining_quantum = 0 };
        quantum = 0;
        phpages = λ j. 0;
        buff = 0;
        remain = pos 0;
        offset = pos 0;
        channels = λ j. pos 0;
        eax = pos 0;
      };
      current = 0;
      roundtics = pos 0;
      eoi_from_interrupt = false;
      tss_esp0 = 0;
      mm = record {
        phys_mem = λ i. 0;
        pagusr_table = λ i. zero_entry;
        dir_pages = λ i. zero_entry;
        paging = false;
      };
    };
    sems = λ i. record { owner = 0; value = pos 0 };
  };
  dyn_channels =
      λ i. record { fops = null; file = pos 0; mode = pos 0; offset = pos 0; opens = pos 0 };
  fs = record {
    root = λ f. record {
      name = λ i. 0;
      size = 0;
      block_count = 0;
      mode = pos 0;
      first_block = pos 0;
      last_block = pos 0;
      opens = pos 0;
    };
    total_block_count = pos 0;
    used_block_count = pos 0;
    first_free_block = pos 0;
    last_free_block = pos 0;
    free_block_count = pos 0;
    block_lists = λ b. pos 0;
    contents = λ b i. 0;
    block_buffer = λ i. 0;
  };
  circular_buffer = record { mem = λ i. 0; head = 0; tail = 0; count = 0 };
  sysbuff = λ i. 0;
  memory = λ t a. 0;
  console = [];
  pid_counter = 0;
}

boot-Booted_example : Booted (boot image zeros)
boot-Booted_example = boot-Booted image zeros refl

forked_twice : Run (boot image zeros) (sys_fork (sys_fork (boot image zeros)).1).1
forked_twice = step (step start fork) fork

boot-Run_example : (q : ℕ → List ℕ) × IsValid (sys_fork (sys_fork (boot image zeros)).1).1.sems q
boot-Run_example =
    boot-Run image zeros (sys_fork (sys_fork (boot image zeros)).1).1 refl forked_twice

-- The first task has the frames 264, 266, ..., 302, and those from 310 on are free.
abbrev framed : Sched
framed =
    let s = sched_of (boot image zeros) in
    record s {
      task = λ t. record (s.task t) { phpages = λ i. 264 + 2 * i };
      mm = record (s.mm) { phys_mem = λ f. if ltb f 310 then 1 else 0 };
    }

abbrev forking : Kernel
forking = with_sched (boot image zeros) framed

-- The process 5 of the sample, which owns a semaphore that another task waits for, ends.
abbrev busy : Kernel
busy = record zeros { sems = kernel }

abbrev layout : Layout
layout = record {
  image = image;
  handlers = λ h. 0x12340;
  idt_address = 0x14000;
  tss_address = 0x15000;
  kernel_esp = 0x13000;
  dir_pages = 0x16000;
  rdtr = 0x7DCA;
}

-- The flags of a present data segment of the privilege that the selector asks for.
abbrev flags_of : ℕ → ℕ
flags_of i = if i == 5 then 0xf2 else 0x92

-- The processor as the boot sector leaves it, in the kernel's code.
abbrev machine : Machine
machine = record {
  cpu = record {
    eflags = 0x46;
    eip = 0x10010;
    esp = 0x3ff4;
    cs = 0x10;
    ds = 0x18;
    es = 0x18;
    fs = 0x18;
    gs = 0x18;
    ss = 0x18;
    ldtr = 0;
    tr = 0;
    idtr = record { limit = 0; base = 0 };
    gdtr = record { limit = 0x8000; base = 0x901b3 };
    cr0 = 0x11;
    cr3 = 0;
    int_mask = 0xff;
    words = λ a. 0;
  };
  gdt = record {
    gdt = λ i. record {
      limit = 0xffff;
      low_base = 0;
      mid_base = 0;
      flags1 = flags_of i;
      flags2 = 0xcf;
      high_base = 0;
    };
    base = 0;
    limit = 0;
    loaded = false;
  };
  idt = record {
    idt = λ v. record { low_offset = 0; segment_selector = 0; flags = 0; high_offset = 0 };
    base = 0;
    limit = 0;
    loaded = false;
  };
  tss = set_tss 0;
  kernel = zeros;
}
