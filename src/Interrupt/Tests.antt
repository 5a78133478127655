-- ===== src/Interrupt/Tests.antt =====
-- Runs of interrupt.c, and its theorems at a concrete clock and kernel.
use s.Interrupt.Gates.{Handler, Idt, set_idt, user_lvl, kernel_lvl}
use s.Interrupt.Gates.Routes.{level_of, set_idt-level}
use s.Base.{
  ◌<◌, ◌*◌, ◌+◌, ◌≢◌, ℕ, ◌||◌, ◌==◌, if◌then◌else◌, true, false, ◌-◌, ◌/◌, ◌%◌, ◌^◌, ◌≡◌, refl,
  List, [], ◌∷◌, update, pos, minus, arith,
}
use s.CircBuff.Queue.{IsValid}
use s.Utils.Placed.{placed}
use s.Sys.Memory.{view, InData}
use s.Mm.{zero_entry, num_pag_data}
use s.Sched.{running, free_channel}
use s.Sem.{free_sem}
use s.Channel.{dev_keyboard}
use s.Sem.Sample
use s.Sys.{Kernel, switched}
use s.Sys.Devices.{sys_read_keyboard}
use s.Interrupt.Waiting.{Served}
use s.Interrupt.Events.{Event, tick, key, react_all, typed}
use s.Interrupt.Typing.{keyboard_read}
use s.Interrupt.{Clock, translate_key, keyboard_routine}
use s.Interrupt.Seconds.{ticks, ticks_lem}
use s.Interrupt.Keys.{Typed, keyboard_routine-Typed}

abbrev clock : Clock
clock = record {
  tics = 0;
  tacs = 18;
  secs = 0;
  m_str = λ i. 0;
  s_str = λ i. 0;
  str = λ i. 0;
  corner = [];
}

ticks_lem_example :
    ((ticks 100 clock).tics ≡ 100 % 2 ^ 32)
    × ((ticks 100 clock).secs ≡ (100 - 1) / 18)
    × ((ticks 100 clock).secs / 60 < 10000)
ticks_lem_example = ticks_lem 100 clock refl refl refl (omega arith)

abbrev kernel : Kernel
kernel = record {
  sems = record {
    sched = record {
      heap = record { next = λ a. a; prev = λ a. a };
      task = λ i. record {
        pid = 0;
        state = running;
        st = record { tics = 0; cs = 0; remaining_quantum = 10 };
        quantum = 10;
        phpages = λ j. 264;
        buff = 0;
        remain = pos 0;
        offset = pos 0;
        channels = λ j. free_channel;
        eax = pos 0;
      };
      current = 0;
      roundtics = pos 1;
      eoi_from_interrupt = false;
      tss_esp0 = 0;
      mm = record {
        phys_mem = λ i. 1;
        pagusr_table = λ i. zero_entry;
        dir_pages = λ i. zero_entry;
        paging = true;
      };
    };
    sems = λ i. record { owner = free_sem; value = pos 0 };
  };
  dyn_channels = λ i. record {
    opens = pos 0;
    mode = pos 3;
    fops = dev_keyboard;
    file = pos 0;
    offset = pos 0;
  };
  fs = record {
    root = λ f. record {
      name = λ i. 0;
      size = 0;
      block_count = 0;
      mode = pos 0;
      first_block = pos 0;
      last_block = pos 0;
      opens = pos 0;
    };
    total_block_count = pos 0;
    used_block_count = pos 0;
    first_free_block = pos 0;
    last_free_block = pos 0;
    free_block_count = pos 0;
    block_lists = λ b. pos 0;
    contents = λ b i. 0;
    block_buffer = λ i. 0;
  };
  circular_buffer = record { mem = λ i. 0; head = 0; tail = 0; count = 0 };
  sysbuff = λ i. 0;
  memory = λ t a. 0;
  console = [];
  pid_counter = 5;
}

buffer-IsValid : IsValid kernel.circular_buffer
buffer-IsValid = omega arith

keyboard_routine-Typed_example : Typed kernel 16 (keyboard_routine kernel 16)
keyboard_routine-Typed_example = keyboard_routine-Typed kernel 16 buffer-IsValid refl

-- The kernel of Sem.Sample, whose task 1 runs.
abbrev reading : Kernel
reading = record kernel { sems = Sample.kernel }

-- The keys q and w, with a tick and the release of q in between.
abbrev events : List Event
events = key 16 ∷ tick ∷ key 0x90 ∷ key 17 ∷ []

keyboard_read_example :
    ((sys_read_keyboard reading 0x110000 2).0 ≡ switched)
    × Served reading.memory
        (λ i. 264 + 2 * i)
        1
        2
        0x110000
        (113 ∷ 119 ∷ [])
        (react_all (sys_read_keyboard reading 0x110000 2).1 events)
    × ((j : ℕ)
        → InData j 1
        → view
            (react_all (sys_read_keyboard reading 0x110000 2).1 events).memory
            (λ i. 264 + 2 * i)
            j
          ≡ placed (113 ∷ 119 ∷ []) (view reading.memory (λ i. 264 + 2 * i)) 0x110000 j)
    × ((f : ℕ)
        → ((i : ℕ) → i < num_pag_data → 264 + 2 * i ≢ f)
        → (react_all (sys_read_keyboard reading 0x110000 2).1 events).memory f ≡ reading.memory f)
unfolding typed translate_key
keyboard_read_example =
    keyboard_read reading Sample.queues 0x110000 2 events Sample.kernel-IsValid buffer-IsValid
      (omega arith) (unfold update in refl) (λ i j li lj e. omega (arith, e))
      (omega arith, omega arith) (omega arith) (omega arith) refl

q_run : translate_key 16 ≡ pos 113
unfolding translate_key
q_run = refl

control_run : translate_key 14 ≡ minus 1
unfolding translate_key
control_run = refl

abbrev no_gates : Idt
no_gates = record {
  idt = λ v. record { low_offset = 0; segment_selector = 0; flags = 0; high_offset = 0 };
  base = 0;
  limit = 0;
  loaded = false;
}

abbrev at_one_place : Handler → ℕ
at_one_place h = 0x12345678

set_idt-level_example :
    level_of ((set_idt at_one_place 0x9000 no_gates).idt 14)
    ≡ (if (14 == 3) || (14 == 4) || (14 == 5) || (14 == 0x80) then user_lvl else kernel_lvl)
set_idt-level_example = set_idt-level at_one_place 0x9000 no_gates (λ v. refl) 14
