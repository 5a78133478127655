-- ===== src/Sys/Process.antt =====
-- The calls of sys.c on processes. The code pages are the same frames for every task, so a child's
-- pages differ from its parent's in the data pages at most.
use s.Base.{
  ℕ, zero, suc, ◌+◌, ◌%◌, ◌^◌, Bool, true, false, not, Option, none, some, ℤ, pos, minus, is_neg,
  is_pos, ◌/◌, pos_part, ◌=ℤ◌, update, ◌==◌, ltb, if◌then◌else◌, loop,
}
use s.ListHead.{list_del, list_add, set_next, set_prev}
use s.Mm.{
  Mm, num_pag_data, page_size, alloc_frame, free_frame, set_ss_pag, del_ss_pag,
  pag_log_init_data_p0,
}
use s.Utils.{write, copy_data}
use s.Sched.{
  Sched, Stats, State, running, ready, blocked, waiting, task_node, runqueue, modify, current_task,
  num_channels, free_channel, pid_to_task_struct, get_new_task_struct, free_task_struct,
  sched_select_next, sched_continue,
}
use s.Sem.{nr_sem, einval, to_int, sys_sem_destroy}
use s.Sys.Memory.{put}
use s.Sys.{Kernel, Outcome, returned, switched, undefined, sched_of, with_sched, current, buffer_ok}
use s.Sys.Files.{efault, sys_close}

abbrev pub esrch : ℕ
esrch = 3

abbrev pub eagain : ℕ
eagain = 11

abbrev pub enomem : ℕ
enomem = 12

-- The page behind the data pages, where `sys_fork` puts a frame while it copies.
abbrev pub spare_page : ℕ
spare_page = pag_log_init_data_p0 + num_pag_data

abbrev pub with_mm : Sched → Mm → Sched
with_mm s m = record s { mm = m }

unfoldable pub get_new_pid : Kernel → ℕ × Kernel
get_new_pid k = let pid = (k.pid_counter + 1) % 2 ^ 32 in (pid, record k { pid_counter = pid })

-- The loop of `sys_exit` over the data pages.
unfoldable pub free_pages : Mm → (ℕ → ℕ) → Mm
unfolding loop
free_pages m phpages =
    loop num_pag_data (λ i n. free_frame (del_ss_pag n (spare_page + i)) (phpages i)) m

-- The loop of `sys_exit` over the semaphores, with `pid` the process that ends.
unfoldable pub destroy_owned : Kernel → ℕ → Kernel
destroy_owned k pid = record k {
  sems =
      loop nr_sem (λ i s. if (s.sems i).owner == pid then (sys_sem_destroy s (pos i)).1 else s)
        k.sems;
}

-- The loop of `sys_exit` over the channels, from `i` on with `n` to go. It ends where a call is
-- undefined.
unfoldable pub close_from : ℕ → ℕ → Kernel → Outcome × Kernel
close_from i zero k = (returned (pos 0), k)
close_from i (suc n) k =
    let (r, k') = sys_close k (pos i) in
    let skipped = close_from (suc i) n k in
    let closed = close_from (suc i) n k' in
    if (current k).channels i =ℤ free_channel
    then skipped
    else elim r [ returned e ↦ closed | switched ↦ (switched, k') | undefined ↦ (undefined, k') ]

-- The end of `sys_exit`: the structure goes to the free queue, and the next task runs.
unfoldable pub leave : Kernel → ℕ → Kernel
leave k tsk =
    let s = sched_of k in
    let f = free_task_struct (record s { heap = list_del s.heap (task_node tsk) }) tsk in
    with_sched k (sched_continue f (sched_select_next f))

-- The first process does not end: the call comes back.
unfoldable pub sys_exit : Kernel → Outcome × Kernel
sys_exit k =
    let tsk = (sched_of k).current in
    let freed =
      with_sched k (with_mm (sched_of k) (free_pages (sched_of k).mm (current k).phpages)) in
    let (r, k') = close_from 0 num_channels (destroy_owned freed (current k).pid) in
    if (current k).pid == 0 then (returned (pos 0), k) else elim r [
      | returned e ↦ (switched, leave k' tsk)
      | switched ↦ (switched, k')
      | undefined ↦ (undefined, k')
    ]

-- `copy_data(current(), &child->task, KERNEL_STACK_SIZE*4)`: the links of the queue are copied too.
abbrev pub copy_task : Sched → ℕ → Sched
copy_task s child =
    let own = task_node s.current in
    let h = s.heap in
    modify
      (record s {
        heap = set_prev (set_next h (task_node child) (h.next own)) (task_node child) (h.prev own);
      })
      child λ t. current_task s

-- `for (j = i; j >= 0; j--) free_frame(child->task.phpages[j])`: the frame at `i` is still the
-- parent's own.
unfoldable pub free_down : Mm → (ℕ → ℕ) → ℕ → Mm
free_down m phpages zero = free_frame m (phpages 0)
free_down m phpages (suc j) = free_down (free_frame m (phpages (suc j))) phpages j

-- A round of the loop of `sys_fork` that has got frame `f` for page `i`. The copy goes from the
-- frame behind the parent's page to the one that `spare_page` leads to.
abbrev pub copy_page : Kernel → (child i f : ℕ) → Mm → Kernel
copy_page k child i f m =
    let s = sched_of k in
    let mapped = with_mm s (del_ss_pag (set_ss_pag m (spare_page + i) f) (spare_page + i)) in
    record (with_sched k (modify mapped child λ t. record t { phpages = update t.phpages i f })) {
      memory =
          update k.memory f
            (copy_data (k.memory ((current k).phpages i)) 0 (k.memory f) 0 page_size);
    }

-- The loop of `sys_fork` from page `i` on, with `n` to go: whether all frames were found.
unfoldable pub copy_pages : ℕ → (child i : ℕ) → Kernel → Bool × Kernel
unfolding modify
copy_pages zero child i k = (true, k)
copy_pages (suc n) child i k =
    let s = sched_of k in
    let (f, m) = alloc_frame s.mm in
    let rest = copy_pages n child (suc i) (copy_page k child i (pos_part f) m) in
    if f =ℤ minus 1
    then (false, with_sched k (with_mm s (free_down m (s.task child).phpages i)))
    else rest

-- The end of `sys_fork`: the child's numbers, the answer as an `int`, and its place at the front of
-- the run queue.
unfoldable pub start_child : Kernel → ℕ → ℤ × Kernel
unfolding modify
start_child k child =
    let (pid, k') = get_new_pid k in
    let s = sched_of k' in
    let quantum = (current k').quantum in
    (
      to_int pid,
      with_sched k' (
          modify (record s { heap = list_add s.heap (task_node child) runqueue }) child
            λ t. record t {
              pid = pid;
              quantum = quantum;
              st = record { tics = 0; cs = 0; remaining_quantum = quantum };
              channels = λ i. if ltb i num_channels then (current k').channels i else t.channels i;
              eax = pos 0;
            }),
    )

-- What `sys_fork` does after its loop. Where memory ran out, the child's structure is not given
-- back.
abbrev pub after_pages : ℕ → Bool × Kernel → ℤ × Kernel
after_pages child (true, k) = start_child k child
after_pages child (false, k) = (minus enomem, k)

-- What `sys_fork` does with the structure that it has got.
abbrev pub fork_into : Kernel → Option ℕ × Sched → ℤ × Kernel
fork_into k (none, s) = (minus eagain, with_sched k s)
fork_into k (some child, s) =
    after_pages child (copy_pages num_pag_data child 0 (with_sched k (copy_task s child)))

unfoldable pub sys_fork : Kernel → ℤ × Kernel
sys_fork k = fork_into k (get_new_task_struct (sched_of k))

abbrev pub sys_getpid : Kernel → ℕ
sys_getpid k = (current k).pid

-- The answer is the quantum that the process had.
unfoldable pub sys_nice : Kernel → ℤ → ℤ × Kernel
unfolding modify
sys_nice k quantum =
    let s = sched_of k in
    if not (is_pos quantum) then (minus einval, k) else (
      to_int (current k).quantum,
      with_sched k (modify s s.current λ t. record t { quantum = pos_part quantum }),
    )

-- `struct stats` as bytes in memory: three words, the lowest byte first.
abbrev pub stats_word : Stats → ℕ → ℕ
stats_word st i = if i == 0 then st.tics else if i == 1 then st.cs else st.remaining_quantum

abbrev pub stats_bytes : Stats → ℕ → ℕ
stats_bytes st i = stats_word st (i / 4) / 256 ^ (i % 4) % 256

-- `copy_to_user(&tsk->st, st, sizeof(struct stats))`
abbrev pub store_stats : Kernel → ℕ → Stats → Kernel
store_stats k addr st = record k {
  memory = put (stats_bytes st) k.memory (current k).phpages addr 12;
}

abbrev pub is_alive : State → Bool
is_alive running = true
is_alive ready = true
is_alive blocked = true
is_alive waiting = false
is_alive State.free = false

unfoldable pub sys_get_stats : Kernel → (pid : ℤ) → (st : ℕ) → ℤ × Kernel
sys_get_stats k pid st =
    if not (buffer_ok write st (pos 12))
    then (minus efault, k)
    else if is_neg pid
    then (minus einval, k)
    else elim (pid_to_task_struct (sched_of k) (pos_part pid)) [
      | none ↦ (minus esrch, k)
      | some tsk ↦
          let t = (sched_of k).task tsk in
          if is_alive t.state then (pos 0, store_stats k st t.st) else (minus esrch, k)
    ]
