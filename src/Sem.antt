-- ===== src/Sem.antt =====
-- sem.c, include/sem.h and the semaphore calls of sys.c. A call returns its number, or `none` where
-- the task that called it has been switched out: then the number is the `eax` that the task finds
-- when it runs again.
pub mod Inv
pub mod Steps
pub mod Wait
pub mod Signal
pub mod Destroy
pub mod Start
pub mod Sample
mod Tests
use s.Base.{
  ℕ, zero, suc, ◌+◌, ◌-◌, ◌^◌, Bool, true, false, not, ◌&&◌, ◌||◌, Option, none, some, ℤ, pos,
  negsuc, minus, is_neg, is_pos, pos_part, ◌+ℤ◌, ◌-ℤ◌, ◌=ℤ◌, update, ◌==◌, ltb, if◌then◌else◌, loop,
}
use s.ListHead.{init_list_head, list_empty, list_first}
use s.Sched.{
  Sched, Task, modify, current_task, sem_queue, nr_tasks, list_head_to_task_struct,
  sched_select_next, sched_continue, sched_block, sched_unblock,
}

abbrev pub nr_sem : ℕ
nr_sem = 10

-- -1, compared with a pid as an `unsigned int`
abbrev pub free_sem : ℕ
free_sem = 2 ^ 32 - 1

abbrev pub eperm : ℕ
eperm = 1

abbrev pub ebusy : ℕ
ebusy = 16

abbrev pub einval : ℕ
einval = 22

-- `sem_struct`, without its `queue`: the list nodes are in the scheduler's heap. The owner is a
-- pid, or `free_sem`.
pub record SemStruct : Type 0 where
  pub owner : ℕ
  pub value : ℤ

pub record Sems : Type 0 where
  pub sched : Sched
  pub sems : ℕ → SemStruct

unfoldable pub init_sems : Sems → Sems
unfolding loop
init_sems k = record k {
  sems = loop nr_sem (λ i m. update m i (record (m i) { owner = free_sem })) k.sems;
}

-- `n_sem < 0 || n_sem >= NR_SEM`
abbrev pub bad_sem : ℤ → Bool
bad_sem n = is_neg n || not (ltb (pos_part n) nr_sem)

-- An `unsigned int` stored in an `int`.
abbrev pub to_int : ℕ → ℤ
to_int n = if ltb n (2 ^ 31) then pos n else negsuc (2 ^ 32 - 1 - n)

-- `value < 0` is tested on an `unsigned int`, so it never holds.
unfoldable pub sys_sem_init : Sems → ℤ → ℕ → ℤ × Sems
sys_sem_init k n value =
    if bad_sem n
    then (minus einval, k)
    else if not ((k.sems i).owner == free_sem)
    then (minus ebusy, k)
    else (
      pos 0,
      record {
        sched = record s { heap = init_list_head s.heap (sem_queue i) };
        sems = update k.sems i (record { owner = (current_task s).pid; value = to_int value });
      },
    )
  where
    i : ℕ
    i = pos_part n

    s : Sched
    s = k.sched

unfoldable pub sys_sem_wait : Sems → ℤ → Option ℤ × Sems
sys_sem_wait k n =
    if bad_sem n
    then (some (minus einval), k)
    else if (k.sems i).owner == free_sem
    then (some (minus einval), k)
    else if (current_task k.sched).pid == 0
    then (some (minus eperm), k)
    else if is_pos (k.sems i).value
    then (
      some (pos 0),
      record k { sems = update k.sems i (record (k.sems i) { value = (k.sems i).value -ℤ pos 1 }) },
    )
    else let b = sched_block k.sched k.sched.current (sem_queue i) in
      (none, record k { sched = sched_continue b (sched_select_next b) })
  where
    i : ℕ
    i = pos_part n

-- The first waiting task gets `r` as the number that its call returns, and can run again.
unfoldable pub wake_first : Sched → ℕ → ℤ → Sched
unfolding modify
wake_first s head r =
    let tsk = list_head_to_task_struct (list_first s.heap head) in
    sched_unblock (modify s tsk (λ t. record t { eax = r })) tsk

abbrev pub int_max : ℕ
int_max = 2 ^ 31 - 1

-- `value++` on an `int`, which wraps around.
unfoldable pub increment : ℤ → ℤ
increment value = if value =ℤ pos int_max then negsuc int_max else value +ℤ pos 1

unfoldable pub sys_sem_signal : Sems → ℤ → ℤ × Sems
sys_sem_signal k n =
    if bad_sem n
    then (minus einval, k)
    else if (k.sems i).owner == free_sem
    then (minus einval, k)
    else if list_empty k.sched.heap (sem_queue i)
    then (
      pos 0,
      record k {
        sems = update k.sems i (record (k.sems i) { value = increment (k.sems i).value });
      },
    )
    else (pos 0, record k { sched = wake_first k.sched (sem_queue i) (pos 0) })
  where
    i : ℕ
    i = pos_part n

-- The loop of `sys_sem_destroy`, on fuel.
unfoldable pub wake_all : ℕ → Sched → ℕ → Sched
wake_all zero s head = s
wake_all (suc k) s head = elim (list_empty s.heap head) [
  | true ↦ s
  | false ↦ wake_all k (wake_first s head (minus 1)) head
]

-- No more than `nr_tasks` tasks wait, so this fuel is enough.
unfoldable pub sys_sem_destroy : Sems → ℤ → ℤ × Sems
sys_sem_destroy k n =
    if bad_sem n
    then (minus einval, k)
    else if (k.sems i).owner == free_sem
    then (minus einval, k)
    else if not ((current_task k.sched).pid == (k.sems i).owner)
    then (minus eperm, k)
    else (
      pos 0,
      record {
        sched = wake_all (suc nr_tasks) k.sched (sem_queue i);
        sems = update k.sems i (record (k.sems i) { owner = free_sem });
      },
    )
  where
    i : ℕ
    i = pos_part n
