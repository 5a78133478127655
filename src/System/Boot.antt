-- ===== src/System/Boot.antt =====
-- The state in which the kernel starts.
use s.Base.{ℕ, ◌-◌, ◌<◌, ◌≡◌, refl, false, [], pos, arith, update, ap, ◌∙◌, loop-update, loop_inv}
use s.ListHead.{init_list_head, list_add}
use s.ListHead.Queues.{weaken-IsQueues}
use s.Sched.{
  free_channel, modify, task_node, runqueue, keyboardqueue, init_queues, init_task_structs,
  init_task_struct, nr_tasks,
}
use s.Sched.Inv.{is_node, is_head}
use s.Sem.{free_sem, nr_sem, init_sems}
use s.Sem.Inv as SemInv
use s.Sem.Inv.{live}
use s.Fat.{max_blocks, init_fat}
use s.Fat.Calls.{fat_create, o_rdonly, o_wronly}
use s.Fat.Chain as Chain
use s.Fat.Start.{blocks, init_fat-IsValid, fat_create-IsValid}
use s.CircBuff.Queue as Queue
use s.Channel.{Fops, dev_console, dev_keyboard, num_dynamic_channels, init_dynamic_channels}
use s.CircBuff.{init_circ_buff}
use s.Sys.{Kernel, sched_of, with_sched}
use s.Mm.Init.{init_mm}
use s.System.{
  Image, keyboard_path, console_path, std_channel, boot, init_devices, init_task0, start_task0,
  set_default_std_in_out_err,
}
use s.System.Queues.{none_live, boot_queues, boot-IsQueues}

boot-heap :
    (image : Image) (k : Kernel)
    → (sched_of (boot image k)).heap
      ≡ list_add
          (init_list_head (init_task_structs (init_queues (sched_of k))).heap keyboardqueue)
          (task_node 0)
          runqueue
unfolding boot init_devices init_task0 start_task0 set_default_std_in_out_err modify init_sems
boot-heap image k = refl

boot-current :
    (image : Image) (k : Kernel) → (sched_of (boot image k)).current ≡ (sched_of k).current
unfolding boot init_devices init_task0 start_task0 set_default_std_in_out_err modify init_sems
    init_task_structs init_queues
boot-current image k =
    loop_inv (λ i t. t.current ≡ (sched_of k).current) (nr_tasks - 1) init_task_struct
      (init_queues (sched_of k)) (λ i t lt e. e) refl

boot-idle_pid : (image : Image) (k : Kernel) → ((sched_of (boot image k)).task 0).pid ≡ 0
unfolding boot init_devices init_task0 start_task0 set_default_std_in_out_err modify init_sems
    update
boot-idle_pid image k = ground arith

boot-live : (image : Image) (k : Kernel) (i : ℕ) → i < nr_sem → live (boot image k).sems i ≡ false
unfolding boot init_devices init_task0 set_default_std_in_out_err init_sems
boot-live image k i lt =
    ground (arith, loop-update nr_sem (λ j m. record m { owner = free_sem }) k.sems.sems i)

boot-files :
    (image : Image) (k : Kernel) → Chain.IsValid (boot image k).fs (λ f. []) (blocks 0 max_blocks)
unfolding boot init_devices init_task0 set_default_std_in_out_err
boot-files image k =
    let fs = init_fat k.fs in
    fat_create-IsValid (fat_create fs keyboard_path o_rdonly).1 (blocks 0 max_blocks) console_path
      o_wronly
      (fat_create-IsValid fs (blocks 0 max_blocks) keyboard_path o_rdonly (init_fat-IsValid k.fs).0)

boot-keys :
    (image : Image) (k : Kernel)
    → Queue.IsValid (boot image k).circular_buffer
      × (Queue.contents (boot image k).circular_buffer ≡ [])
unfolding boot init_devices init_task0 set_default_std_in_out_err init_circ_buff
boot-keys image k = (record { head_in = omega arith; count_in = omega arith; tail_at = refl }, refl)

std_channel-opens :
    (tsk std : ℕ) (fops : Fops) (mode : ℕ) (k : Kernel) (i : ℕ)
    → ((std_channel tsk std fops mode k).dyn_channels i).opens ≡ (k.dyn_channels i).opens
unfolding update
std_channel-opens tsk std fops mode k i = ground arith

set_default-opens :
    (tsk : ℕ) (k : Kernel) (i : ℕ)
    → ((set_default_std_in_out_err tsk k).dyn_channels i).opens ≡ (k.dyn_channels i).opens
unfolding set_default_std_in_out_err
set_default-opens tsk k i =
    let k' = std_channel tsk 0 dev_keyboard o_rdonly k in
    std_channel-opens tsk 2 dev_console o_wronly (std_channel tsk 1 dev_console o_wronly k') i
    ∙ std_channel-opens tsk 1 dev_console o_wronly k' i
    ∙ std_channel-opens tsk 0 dev_keyboard o_rdonly k i

-- The state when `init_task0` makes the three channels.
ready : Image → Kernel → Kernel
unfolding init_sems
ready image k =
    let s = init_task_structs (init_queues (sched_of k)) in
    let mm = init_mm image.table_page image.task_page s.mm in
    let sems = init_sems (record (k.sems) { sched = record s { mm = mm } }) in
    let started =
      init_devices
        (record k { sems = sems; dyn_channels = init_dynamic_channels k.dyn_channels }) in
    with_sched started (start_task0 (sched_of started))

boot-opens :
    (image : Image) (k : Kernel) (i : ℕ)
    → i < num_dynamic_channels
    → ((boot image k).dyn_channels i).opens ≡ pos 0
unfolding boot init_task0 ready init_devices init_dynamic_channels
boot-opens image k i lt =
    set_default-opens image.stray (ready image k) i
    ∙ ap (λ d. d.opens)
        (loop-update num_dynamic_channels (λ j d. record d { mode = free_channel; opens = pos 0 })
          k.dyn_channels i)
    ∙ ground arith

-- What `main` has made when the first program starts.
pub record Booted (k : Kernel) : Type 0 where
  pub sems : SemInv.IsValid k.sems boot_queues
  pub unused : (i : ℕ) → i < nr_sem → live k.sems i ≡ false
  pub files : Chain.IsValid k.fs (λ f. []) (blocks 0 max_blocks)
  pub keys : Queue.IsValid k.circular_buffer × (Queue.contents k.circular_buffer ≡ [])
  pub entries : (i : ℕ) → i < num_dynamic_channels → (k.dyn_channels i).opens ≡ pos 0

-- Started on the first task's stack, `main` leaves the kernel in a state that meets the invariants
-- of the scheduler, the semaphores, the file system and the keyboard's buffer, whatever its memory
-- held before: the first task stands in the run queue, all other task structures are free, no
-- semaphore is in use, all the blocks of the file system are free, the buffer is empty, and no
-- channel has been counted as open.
pub boot-Booted : (image : Image) (k : Kernel) → (sched_of k).current ≡ 0 → Booted (boot image k)
boot-Booted image k first = record {
  sems = record {
    sched = record {
      queues =
          weaken-IsQueues is_node (is_head none_live) (is_head (live (boot image k).sems))
            (sched_of (boot image k)).heap boot_queues
            (λ a m. ground (arith, boot-live image k (a - 14)))
            (rw (boot-heap image k) (boot-IsQueues (sched_of k)));
      current_in = rw (boot-current image k, first) refl;
      idle_in = refl;
    };
    idle_pid = boot-idle_pid image k;
    stocked = λ i lt on. absurd (ground (arith, boot-live image k i lt));
  };
  unused = boot-live image k;
  files = boot-files image k;
  keys = boot-keys image k;
  entries = boot-opens image k;
}
