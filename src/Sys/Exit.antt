-- ===== src/Sys/Exit.antt =====
-- `sys_exit` of sys.c on every branch.
use s.Base.{
  ℕ, ◌<◌, ◌≡◌, refl, ◌≢◌, true, false, inl, inr, List, ◌∷◌, pos, ◌==◌, arith, update, ap, sym, ◌∙◌,
  subst, Bool-cases,
}
use s.ListHead.{list_del}
use s.ListHead.Links.{has}
use s.ListHead.Move.{has-erase, without, del-IsQueues}
use s.Sched.{
  Sched, running, modify, task_node, runqueue, freequeue, null_pid, num_channels, free_task_struct,
  sched_continue, sched_select_next,
}
use s.Sched.Inv.{is_node, is_head}
use s.Sched.Moves.{resume-Resumed}
use s.Sched.Structs.{free_task_struct-IsQueues}
use s.Sem.{nr_sem, free_sem}
use s.Sched.Block.{has-nonempty}
use s.Sem.Inv.{live, IsValid}
use s.Sys.{Kernel, Outcome, returned, switched, undefined, sched_of, with_sched, current}
use s.Sys.Process.{with_mm, free_pages, destroy_owned, close_from, leave, sys_exit}
use s.Sys.Loops.{
  LostDevice, LostDevice-back, destroy_owned-LostDevice, Quiet-IsValid, Closed, all_closed, crashed,
  close_from-Closed, Destroying, destroy_owned-Destroying,
}

-- What `sys_exit` may do, with `q` the queues before.
pub data Exited (k : Kernel) : Outcome × Kernel → Type 0 where
  -- The first process does not end.
  first : (current k).pid ≡ 0 → Exited k (returned (pos 0), k)
  -- A channel of the process leads to an entry of the shared table that has no device.
  no_device : {k' : Kernel} → LostDevice k → Exited k (undefined, k')
  -- The process is gone: the kernel is valid, its structure is the first of the free queue, it owns
  -- no semaphore, and the first task of the run queue runs.
  left :
      {k' : Kernel} {xs : List ℕ} (q : ℕ → List ℕ)
      → IsValid k'.sems q
      → q freequeue ≡ task_node (sched_of k).current ∷ xs
      → has (task_node (sched_of k).current) (q runqueue) ≡ false
      → ((sched_of k').task (sched_of k).current).pid ≡ null_pid
      → ((j : ℕ) → j < nr_sem → (k'.sems.sems j).owner ≢ (current k).pid)
      → ((sched_of k').task (sched_of k').current).state ≡ running
      → Exited k (switched, k')

-- The end of `sys_exit` on a valid kernel.
record Left (k : Kernel) (tsk : ℕ) (k' : Kernel) : Type 0 where
  q : ℕ → List ℕ
  rest : List ℕ
  valid : IsValid k'.sems q
  free_first : q freequeue ≡ task_node tsk ∷ rest
  not_runs : has (task_node tsk) (q runqueue) ≡ false
  no_pid : ((sched_of k').task tsk).pid ≡ null_pid
  same_sems : k'.sems.sems ≡ k.sems.sems
  runs : ((sched_of k').task (sched_of k').current).state ≡ running

continue-pid : (s : Sched) (t u : ℕ) → ((sched_continue s t).task u).pid ≡ (s.task u).pid
unfolding sched_continue modify update
continue-pid s t u = ground arith

leave-Left :
    (k : Kernel) (q : ℕ → List ℕ) (tsk : ℕ)
    → IsValid k.sems q
    → tsk ≢ 0
    → has (task_node tsk) (q runqueue) ≡ true
    → Left k tsk (leave k tsk)
unfolding leave update
leave-Left k q tsk v ne in' =
    let e = task_node tsk in
    let l = live k.sems in
    let (queues, out) =
      del-IsQueues is_node (is_head l) (sched_of k).heap q v.sched.queues runqueue e refl in' in
    let s : Sched = record (sched_of k) { heap = list_del (sched_of k).heap e } in
    let f = free_task_struct s tsk in
    let (queues', pid, others) =
      free_task_struct-IsQueues l s (without q runqueue e) queues tsk out in
    let q' : ℕ → List ℕ =
      update (without q runqueue e) freequeue (e ∷ without q runqueue e freequeue) in
    let idle : has (task_node 0) (q' runqueue) ≡ true =
      ground (arith, has-erase (task_node 0) e (q runqueue), v.sched.idle_in, ne) in
    let (x, xs, some_task) = has-nonempty (task_node 0) (q' runqueue) idle in
    let r = resume-Resumed l f q' x xs queues' idle some_task in
    record {
      q = q';
      rest = q freequeue;
      valid = record {
        sched = r.valid;
        idle_pid =
            continue-pid f (sched_select_next f) 0
            ∙ ap (λ t. t.pid) (others 0 (λ z. ne (sym z)))
            ∙ v.idle_pid;
        stocked = λ i lt on. ground (arith, v.stocked i lt on);
      };
      free_first = refl;
      not_runs = out.1 runqueue refl;
      no_pid = continue-pid f (sched_select_next f) tsk ∙ pid;
      same_sems = refl;
      runs = r.runs;
    }

-- The end of a process, once its channels are closed.
abbrev finish : Kernel → ℕ → Outcome × Kernel → Outcome × Kernel
finish k tsk r = elim (r.0) [
  | returned e ↦ (switched, leave r.1 tsk)
  | switched ↦ (switched, r.1)
  | undefined ↦ (undefined, r.1)
]

module _ (k : Kernel) (q : ℕ → List ℕ) (v : IsValid k.sems q) (ne : (current k).pid ≢ 0)
    (some_pid : (current k).pid ≢ free_sem) where
  abbrev unmapped : Kernel
  unmapped = with_sched k (with_mm (sched_of k) (free_pages (sched_of k).mm (current k).phpages))

  unmapped-IsValid : IsValid unmapped.sems q
  unmapped-IsValid =
      Quiet-IsValid k.sems q (with_mm (sched_of k) (free_pages (sched_of k).mm (current k).phpages))
        v (record { heap = refl; current = refl; pids = λ u. refl })

  owned :
      Destroying unmapped.sems (current k).pid nr_sem (destroy_owned unmapped (current k).pid).sems
  owned = destroy_owned-Destroying unmapped q (current k).pid unmapped-IsValid some_pid refl

  not_first : (sched_of k).current ≢ 0
  not_first e = ne (ap (λ t. ((sched_of k).task t).pid) e ∙ v.idle_pid)

  finish-Exited :
      (r : Outcome × Kernel)
      → Closed (destroy_owned unmapped (current k).pid) r
      → Exited k (finish k (sched_of k).current r)
  unfolding destroy_owned
  finish-Exited r (crashed bad) = no_device (
      LostDevice-back {k = k} {l = unmapped} (λ d. refl) (λ i taken. refl)
        (destroy_owned-LostDevice unmapped (current k).pid owned.current bad))
  finish-Exited r (all_closed {k'} e f g h) =
      let w : IsValid k'.sems owned.q =
        subst (λ m. IsValid (record { sched = sched_of k'; sems = m }) owned.q) (sym f)
          (Quiet-IsValid (destroy_owned unmapped (current k).pid).sems owned.q (sched_of k')
            owned.valid e) in
      let cur : (sched_of k').current ≡ (sched_of k).current = e.current ∙ owned.current in
      let x =
        leave-Left k' owned.q (sched_of k).current w not_first
          (ap (λ t. has (task_node t) (owned.q runqueue)) (sym cur) ∙ w.sched.current_in) in
      left x.q x.valid x.free_first x.not_runs x.no_pid
        (λ j lt. rw (x.same_sems, f) (owned.freed j lt)) x.runs

pub sys_exit-Exited :
    (k : Kernel) (q : ℕ → List ℕ)
    → IsValid k.sems q
    → (current k).pid ≢ free_sem
    → Exited k (sys_exit k)
unfolding sys_exit
sys_exit-Exited k q v some_pid = elim (Bool-cases ((current k).pid == 0)) [
  | inl h ↦ rw h (first (ground arith))
  | inr h ↦
      let ne : (current k).pid ≢ 0 = ground arith in
      rw h (
        finish-Exited k q v ne some_pid
          (close_from 0 num_channels (destroy_owned (unmapped k q v ne some_pid) (current k).pid))
          (close_from-Closed num_channels 0
            (destroy_owned (unmapped k q v ne some_pid) (current k).pid) (omega arith)))
]
