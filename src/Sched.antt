-- ===== src/Sched.antt =====
-- sched.c, include/sched.h and include/stats.h: tasks, their queues and the round-robin scheduler.
-- The task that runs, which `current()` reads off the stack pointer, is a field; `task_switch` sets
-- it. What `task_switch` does to the registers is the machine's.
pub mod Inv
pub mod Tick
pub mod Turns
pub mod Moves
pub mod Wake
pub mod Block
pub mod Structs
use s.Base.{
  ℕ, zero, suc, ◌+◌, ◌-◌, ◌%◌, ◌^◌, Bool, true, false, Option, none, some, ℤ, pos, negsuc, minus,
  ◌-ℤ◌, ◌=ℤ◌, update, ◌==◌, if◌then◌else◌, find_below, loop,
}
use s.ListHead.{Heap, init_list_head, list_add, list_add_tail, list_del, list_empty, list_first}
use s.Mm.{Mm, set_ss_pag, num_pag_data, pag_log_init_data_p0}

abbrev pub nr_tasks : ℕ
nr_tasks = 10

abbrev pub num_channels : ℕ
num_channels = 10

-- -1 as an `unsigned int`
abbrev pub null_pid : ℕ
null_pid = 2 ^ 32 - 1

-- FREE_CHANNEL
abbrev pub free_channel : ℤ
free_channel = minus 1

pub data State : Type 0 where
  running ready blocked waiting free : State

pub record Stats : Type 0 where
  pub tics : ℕ
  pub cs : ℕ
  pub remaining_quantum : ℕ

-- `task_struct`. `channels i` is `channels[i].dynamic`, and `eax` the word of the task's stack at
-- `KERNEL_STACK_SIZE-EAX_POS`, which the task finds in its register when it runs again.
pub record Task : Type 0 where
  pub pid : ℕ
  pub state : State
  pub st : Stats
  pub quantum : ℕ
  pub phpages : ℕ → ℕ
  pub buff : ℕ
  pub remain : ℤ
  pub offset : ℤ
  pub channels : ℕ → ℤ
  pub eax : ℤ

-- `task i` is `task[i].t.task`, without its `queue`: the list nodes are in `heap`.
pub record Sched : Type 0 where
  pub heap : Heap
  pub task : ℕ → Task
  pub current : ℕ
  pub roundtics : ℤ
  pub eoi_from_interrupt : Bool
  pub tss_esp0 : ℕ
  pub mm : Mm

-- The addresses of the list nodes: `&task[i].t.task.queue`, and the heads of the queues.
abbrev pub task_node : ℕ → ℕ
task_node i = suc i

abbrev pub runqueue : ℕ
runqueue = 11

abbrev pub freequeue : ℕ
freequeue = 12

abbrev pub keyboardqueue : ℕ
keyboardqueue = 13

-- `&sems[i].queue`
abbrev pub sem_queue : ℕ → ℕ
sem_queue i = 14 + i

-- `list_entry`: the task that holds the node. At an address that is no task's the answer is past
-- the array.
abbrev pub list_head_to_task_struct : ℕ → ℕ
list_head_to_task_struct zero = 2 ^ 20
list_head_to_task_struct (suc i) = i

unfoldable pub modify : Sched → ℕ → (Task → Task) → Sched
modify s t f = record s { task = update s.task t (f (s.task t)) }

abbrev pub current_task : Sched → Task
current_task s = s.task s.current

unfoldable pub init_queues : Sched → Sched
init_queues s = record s { heap = init_list_head (init_list_head s.heap runqueue) freequeue }

-- A round of `init_task_structs`; `i` counts from 0 here and from 1 in the source.
abbrev pub init_task_struct : ℕ → Sched → Sched
init_task_struct i s =
    modify (record s { heap = list_add s.heap (task_node (suc i)) freequeue }) (suc i)
      λ t. record t { channels = loop num_channels (λ j c. update c j free_channel) t.channels }

unfoldable pub init_task_structs : Sched → Sched
unfolding loop modify
init_task_structs s = loop (nr_tasks - 1) init_task_struct s

unfoldable pub pid_to_task_struct : Sched → ℕ → Option ℕ
unfolding find_below
pid_to_task_struct s pid = find_below nr_tasks (λ i. (s.task i).pid == pid)

-- NULL_TSK is `none`.
unfoldable pub get_new_task_struct : Sched → Option ℕ × Sched
get_new_task_struct s =
    if list_empty s.heap freequeue
    then (none, s)
    else let tsk = list_head_to_task_struct (list_first s.heap freequeue) in
      (some tsk, record s { heap = list_del s.heap (task_node tsk) })

unfoldable pub free_task_struct : Sched → ℕ → Sched
unfolding modify
free_task_struct s tsk =
    modify (record s { heap = list_add s.heap (task_node tsk) freequeue }) tsk
      λ t. record t { pid = null_pid }

-- The data pages of the task that is to run, from page `pag_log_init_data_p0` on.
unfoldable pub map_pages : Mm → (ℕ → ℕ) → Mm
unfolding loop
map_pages m phpages =
    loop num_pag_data (λ i n. set_ss_pag n (pag_log_init_data_p0 + i) (phpages i)) m

unfoldable pub task_switch : Sched → ℕ → Sched
task_switch s t = record s {
  tss_esp0 = t;
  mm = map_pages s.mm (s.task t).phpages;
  current = t;
  eoi_from_interrupt = false;
}

unfoldable pub sched_update_status : Sched → Sched
unfolding modify
sched_update_status s =
    modify (record s { roundtics = s.roundtics -ℤ pos 1 }) s.current
      λ t. record t {
        st = record (t.st) {
          tics = (t.st.tics + 1) % 2 ^ 32;
          remaining_quantum = (t.st.remaining_quantum + 2 ^ 32 - 1) % 2 ^ 32;
        };
      }

abbrev pub sched_switch_needed : Sched → Bool
sched_switch_needed s = s.roundtics =ℤ pos 0

abbrev pub sched_select_next : Sched → ℕ
sched_select_next s = list_head_to_task_struct (list_first s.heap runqueue)

-- `list_del(&tsk->queue); list_add_tail(&tsk->queue, queue);`
abbrev pub requeue : Heap → ℕ → ℕ → Heap
requeue h tsk queue = list_add_tail (list_del h (task_node tsk)) (task_node tsk) queue

unfoldable pub sched_pause : Sched → ℕ → Sched
unfolding modify
sched_pause s tsk =
    modify (record s { heap = requeue s.heap tsk runqueue }) tsk λ t. record t { state = ready }

unfoldable pub sched_continue : Sched → ℕ → Sched
unfolding modify task_switch
sched_continue s tsk =
    let quantum = (s.task tsk).quantum in
    task_switch
      (modify (record s { roundtics = pos quantum }) tsk
        λ t. record t {
          st = record (t.st) { cs = (t.st.cs + 1) % 2 ^ 32; remaining_quantum = quantum };
          state = running;
        })
      tsk

unfoldable pub sched_block : Sched → ℕ → ℕ → Sched
unfolding modify
sched_block s tsk queue =
    modify (record s { heap = requeue s.heap tsk queue }) tsk λ t. record t { state = blocked }

unfoldable pub sched_unblock : Sched → ℕ → Sched
unfolding modify
sched_unblock s tsk =
    modify (record s { heap = requeue s.heap tsk runqueue }) tsk
      λ t. record t { state = ready; remain = pos 0; offset = pos 0 }

-- The clock interrupt's scheduler.
unfoldable pub sched : Sched → Sched
unfolding sched_update_status
sched s =
    let s' = sched_update_status (record s { eoi_from_interrupt = true }) in
    if sched_switch_needed s'
    then (let p = sched_pause s' s'.current in sched_continue p (sched_select_next p))
    else s'
