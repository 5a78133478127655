-- ===== src/System.antt =====
-- The start of the kernel: `main` of system.c, `init_devices` of devices.c and `init_task0` of
-- sched.c. The devices' tables of operations are constants of Sys.Devices.
pub mod Queues
pub mod Boot
pub mod Run
pub mod Main
pub mod Enter
mod Tests
use s.Base.{ℕ, ◌+◌, List, ℤ, pos, update, loop, codes}
use s.ListHead.{init_list_head, list_add}
use s.CircBuff.{init_circ_buff}
use s.Utils.{copy_data}
use s.Mm.Init.{set_user_pages, init_mm}
use s.Sched.{
  Sched, modify, num_channels, free_channel, keyboardqueue, runqueue, task_node, init_queues,
  init_task_structs,
}
use s.Sem.{init_sems}
use s.Channel.{Fops, dev_keyboard, dev_console, init_dynamic_channels, find_free_dyn_channel}
use s.Fat.{index, init_fat}
use s.Fat.Calls.{fat_create, o_rdonly, o_wronly}
use s.Sys.Memory.{view, put}
use s.Sys.{Kernel, sched_of, with_sched, set_dyn}

abbrev pub default_quantum : ℕ
default_quantum = 10

abbrev pub keyboard_path : List ℕ
keyboard_path = codes "KEYBOARD"

abbrev pub console_path : List ℕ
console_path = codes "DISPLAY"

-- What the linker and the image builder decide: where the page table and the tasks' guard pages
-- are, and where the user's program is and how long it is; and the task that `stray` names,
-- the argument that the call of `set_default_std_in_out_err` does not pass.
pub record Image : Type 0 where
  pub table_page : ℕ
  pub task_page : ℕ → ℕ
  pub stray : ℕ
  pub user_code : ℕ
  pub user_start : ℕ
  pub user_size : ℕ

unfoldable pub init_devices : Kernel → Kernel
init_devices k =
    let s = sched_of k in
    let fs = (fat_create (init_fat k.fs) keyboard_path o_rdonly).1 in
    record (with_sched k (record s { heap = init_list_head s.heap keyboardqueue })) {
      fs = (fat_create fs console_path o_wronly).1;
      circular_buffer = init_circ_buff k.circular_buffer;
    }

-- One of the three parts of `set_default_std_in_out_err`.
abbrev pub std_channel : (tsk std : ℕ) → Fops → ℕ → Kernel → Kernel
std_channel tsk std fops mode k =
    let dynamic = find_free_dyn_channel k.dyn_channels in
    set_dyn
      (with_sched k
        (modify (sched_of k) tsk λ t. record t { channels = update t.channels std dynamic }))
      (index dynamic) λ c. record c { fops = fops; mode = pos mode; offset = pos 0 }

unfoldable pub set_default_std_in_out_err : ℕ → Kernel → Kernel
set_default_std_in_out_err tsk k =
    std_channel tsk 2 dev_console o_wronly
      (std_channel tsk 1 dev_console o_wronly (std_channel tsk 0 dev_keyboard o_rdonly k))

-- `init_task0` up to the loop over the channels.
unfoldable pub start_task0 : Sched → Sched
start_task0 s =
    let (m, pages) = set_user_pages s.mm (s.task 0).phpages in
    modify (record s { mm = m; heap = list_add s.heap (task_node 0) runqueue }) 0
      λ t. record t {
        pid = 0;
        quantum = default_quantum;
        st = record { tics = 0; cs = 0; remaining_quantum = default_quantum };
        phpages = pages;
        channels = loop num_channels (λ i c. update c i free_channel) t.channels;
      }

unfoldable pub init_task0 : ℕ → Kernel → Kernel
init_task0 stray k =
    let k' = set_default_std_in_out_err stray (with_sched k (start_task0 (sched_of k))) in
    let s = sched_of k' in
    let t = modify s 0 (λ t. record t { offset = pos 0; remain = pos 0; buff = 0 }) in
    with_sched k' (record t { roundtics = pos (t.task 0).quantum })

-- `main` from `init_queues` to the move of the user's code, without its messages.
unfoldable pub boot : Image → Kernel → Kernel
boot image k =
    let s = init_task_structs (init_queues (sched_of k)) in
    let mm = init_mm image.table_page image.task_page s.mm in
    let sems = init_sems (record (k.sems) { sched = record s { mm = mm } }) in
    let started = record k { sems = sems; dyn_channels = init_dynamic_channels k.dyn_channels } in
    let ready = init_task0 image.stray (init_devices started) in
    record ready {
      memory =
          put (λ i. view ready.memory ((sched_of ready).task 0).phpages (image.user_code + i))
            ready.memory ((sched_of ready).task 0).phpages image.user_start image.user_size;
    }
