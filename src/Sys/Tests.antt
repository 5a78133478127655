-- ===== src/Sys/Tests.antt =====
-- A kernel with one process, whose file is open on channel 3, and the theorems on sys.c at it.
use s.Base.{
  ◌+◌, ◌*◌, ◌≡◌, refl, true, false, [], ◌∷◌, pos, minus, is_neg, ◌==◌, if◌then◌else◌, update, loop,
  find_below, arith,
}
use s.Kernutil.{strcmp, strcat, string_at, copy_chars}
use s.Mm.{zero_entry, free_frame_mark}
use s.Utils.{read, access_ok}
use s.Sched.{Sched, Task, running, free_channel}
use s.Sem.{free_sem, ebusy}
use s.Channel.{dev_file, find_free_channel}
use s.Fat.{Fat, init_fat, fat_check_path, fat_find_path}
use s.Fat.Calls.{fat_create}
use s.Sys.{Kernel, returned, sched_of, current, bad_fd}
use s.Sys.Memory.{view, frame_of}
use s.Sys.Files.{path_memory, path_of, sys_dup, sys_unlink}
use s.Sys.Process.{sys_fork, sys_nice, enomem}
use s.Sys.Dup.{Duped, sys_dup-Duped}
use s.Sys.Faults.{sys_unlink-idle, sys_fork-frees}

abbrev a_task : Task
a_task = record {
  pid = 5;
  state = running;
  st = record { tics = 0; cs = 0; remaining_quantum = 10 };
  quantum = 10;
  phpages = λ i. 264 + 2 * i;
  buff = 0;
  remain = pos 0;
  offset = pos 0;
  channels = λ i. if i == 3 then pos 4 else free_channel;
  eax = pos 0;
}

-- The task 1 is in the free queue, and no frame is free.
abbrev scheduler : Sched
scheduler = record {
  heap = record { next = λ a. if a == 12 then 2 else 12; prev = λ a. if a == 12 then 2 else 12 };
  task = λ i. a_task;
  current = 0;
  roundtics = pos 1;
  eoi_from_interrupt = false;
  tss_esp0 = 0;
  mm = record {
    phys_mem = λ i. 1;
    pagusr_table = λ i. zero_entry;
    dir_pages = λ i. zero_entry;
    paging = true;
  };
}

abbrev blank : Fat
blank = record {
  root = λ f. record {
    name = λ i. 0;
    size = 0;
    block_count = 0;
    mode = pos 0;
    first_block = pos 0;
    last_block = pos 0;
    opens = pos 0;
  };
  total_block_count = pos 0;
  used_block_count = pos 0;
  first_free_block = pos 0;
  last_free_block = pos 0;
  free_block_count = pos 0;
  block_lists = λ b. pos 0;
  contents = λ b i. 0;
  block_buffer = λ i. 0;
}

-- The file system with one file, named "ab".
abbrev with_file : Fat
with_file = (fat_create (init_fat blank) (97 ∷ 98 ∷ []) 3).1

abbrev kernel : Kernel
kernel = record {
  sems = record { sched = scheduler; sems = λ i. record { owner = free_sem; value = pos 0 } };
  dyn_channels = λ i. record {
    opens = if i == 4 then pos 1 else pos 0;
    mode = pos 3;
    fops = dev_file;
    file = pos 7;
    offset = pos 0;
  };
  fs = with_file;
  circular_buffer = record { mem = λ i. 0; head = 0; tail = 0; count = 0 };
  sysbuff = λ i. 0;
  memory = λ f o. if f == 256 then (if o == 0 then 97 else if o == 1 then 98 else 0) else 0;
  console = [];
  pid_counter = 5;
}

sys_dup-Duped_example : Duped kernel (pos 3) (sys_dup kernel (pos 3))
sys_dup-Duped_example = sys_dup-Duped kernel (pos 3) (λ e. ground arith)

dup_run : (sys_dup kernel (pos 3)).0 ≡ pos 0
unfolding sys_dup bad_fd find_free_channel find_below
dup_run = refl

fits : is_neg (fat_check_path (path_memory kernel 0x100000)) ≡ false
unfolding fat_check_path find_below view frame_of
fits = refl

found_at : fat_find_path with_file (path_of kernel 0x100000) ≡ pos 0
unfolding fat_find_path find_below string_at fat_create init_fat loop update strcat copy_chars
    strcmp view frame_of
found_at = refl

there : is_neg (fat_find_path with_file (path_of kernel 0x100000)) ≡ false
unfolding fat_find_path find_below string_at fat_create init_fat loop update strcat copy_chars
    strcmp view frame_of
there = refl

readable : access_ok read 0x100000 1 ≡ true
unfolding access_ok
readable = refl

sys_unlink-idle_example : sys_unlink kernel 0x100000 ≡ (returned (minus ebusy), kernel)
sys_unlink-idle_example =
    sys_unlink-idle kernel 0x100000 readable fits there (λ i lt h. ground (arith, found_at))

open_fd : bad_fd kernel (pos 3) ≡ false
unfolding bad_fd
open_fd = refl

sys_fork-frees_example :
    ((sys_fork kernel).0 ≡ minus enomem)
    × ((sched_of (sys_fork kernel).1).mm.phys_mem ((current kernel).phpages 0) ≡ free_frame_mark)
    × ((current (sys_fork kernel).1).phpages ≡ (current kernel).phpages)
    × ((sched_of (sys_fork kernel).1).mm.pagusr_table ≡ (sched_of kernel).mm.pagusr_table)
sys_fork-frees_example = sys_fork-frees kernel refl (λ g u e. ground arith)

nice_run : (sys_nice kernel (pos 3)).0 ≡ pos 10
unfolding sys_nice
nice_run = refl
