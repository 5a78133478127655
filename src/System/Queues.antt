-- ===== src/System/Queues.antt =====
-- The queues of sched.c and devices.c as the kernel's start leaves them.
use s.Base.{
  ℕ, zero, suc, ◌+◌, ◌<◌, ◌≡◌, refl, Bool, false, ◌||◌, ◌&&◌, List, [], ◌∷◌, arith, ◌==◌, leb,
  update, fun_ext, subst, loop_inv, if◌then◌else◌, ◌-◌,
}
use s.ListHead.{Heap, init_list_head, list_add}
use s.ListHead.Links.{has}
use s.ListHead.Queues.{IsQueues, Out, init-IsQueues, list_add-IsQueues}
use s.Sched.{
  Sched, task_node, runqueue, freequeue, keyboardqueue, nr_tasks, init_queues, init_task_structs,
  init_task_struct,
}
use s.Sched.Inv.{is_node, is_head}

-- No semaphore is in use.
abbrev pub none_live : ℕ → Bool
none_live i = false

abbrev two_heads : ℕ → Bool
two_heads a = (a == freequeue) || (a == runqueue)

-- The structures 1 to `n`, the last one added first.
abbrev pub free_nodes : ℕ → List ℕ
free_nodes zero = []
free_nodes (suc n) = task_node (suc n) ∷ free_nodes n

has-free_nodes : (a n : ℕ) → has a (free_nodes n) ≡ leb 2 a && leb a (n + 1)
has-free_nodes a zero = ground arith
has-free_nodes a (suc n) = ground (arith, has-free_nodes a n)

abbrev free_queue : ℕ → ℕ → List ℕ
free_queue n = update (λ i. []) freequeue (free_nodes n)

-- Queues are the same when they hold the same everywhere.
same-IsQueues :
    (is_head : ℕ → Bool) (h : Heap) (q q' : ℕ → List ℕ)
    → IsQueues is_node is_head h q
    → ((a : ℕ) → q a ≡ q' a)
    → IsQueues is_node is_head h q'
same-IsQueues is_head h q q' v same = subst (IsQueues is_node is_head h) (fun_ext same) v

no-IsQueues : (h : Heap) → IsQueues is_node (λ a. false) h (λ i. [])
no-IsQueues h = record {
  each = λ i e. cc;
  heads = λ i e. cc;
  nodes = λ i a e m. cc;
  apart = λ i j a e f ne m. cc;
}

init_queues-IsQueues : (s : Sched) → IsQueues is_node two_heads (init_queues s).heap (free_queue 0)
unfolding init_queues update
init_queues-IsQueues s =
    subst (IsQueues is_node two_heads (init_list_head (init_list_head s.heap runqueue) freequeue))
      (fun_ext (λ i. ground arith))
      (init-IsQueues is_node (λ a. a == runqueue) two_heads (init_list_head s.heap runqueue)
        (update (λ i. []) runqueue []) freequeue (λ j h ne. ground arith) refl
        (init-IsQueues is_node (λ a. false) (λ a. a == runqueue) s.heap (λ i. []) runqueue
          (λ j h ne. ground arith) refl (no-IsQueues s.heap)))

init_task_structs-IsQueues :
    (s : Sched)
    → IsQueues is_node two_heads s.heap (free_queue 0)
    → IsQueues is_node two_heads (init_task_structs s).heap (free_queue (nr_tasks - 1))
unfolding init_task_structs update
init_task_structs-IsQueues s v =
    loop_inv (λ n t. IsQueues is_node two_heads t.heap (free_queue n)) (nr_tasks - 1)
      init_task_struct s
      (λ i t lt q.
        same-IsQueues two_heads (list_add t.heap (task_node (suc i)) freequeue)
          (update (free_queue i) freequeue (free_nodes (suc i))) (free_queue (suc i))
          (list_add-IsQueues is_node two_heads t.heap (free_queue i) q freequeue (task_node (suc i))
            refl (out i lt))
          (λ j. unfold update in ground arith))
      v
  where
    out : (i : ℕ) → i < nr_tasks - 1 → Out is_node two_heads (free_queue i) (task_node (suc i))
    out i lt =
        (ground arith, λ j h. unfold update in ground (arith, has-free_nodes (task_node (suc i)) i))

-- The first task stands in the run queue, and all the other structures are free.
abbrev pub boot_queues : ℕ → List ℕ
boot_queues a =
    if a == runqueue
    then task_node 0 ∷ []
    else if a == freequeue
    then free_nodes (nr_tasks - 1)
    else []

-- The list of the keyboard is made, and the first task is added to the run queue.
pub boot-IsQueues :
    (s : Sched)
    → IsQueues is_node
        (is_head none_live)
        (list_add
          (init_list_head (init_task_structs (init_queues s)).heap keyboardqueue)
          (task_node 0)
          runqueue)
        boot_queues
boot-IsQueues s =
    let h = (init_task_structs (init_queues s)).heap in
    let k =
      init-IsQueues is_node two_heads (is_head none_live) h (free_queue (nr_tasks - 1))
        keyboardqueue (λ j h ne. ground arith) refl
        (init_task_structs-IsQueues (init_queues s) (init_queues-IsQueues s)) in
    let q : ℕ → List ℕ = update (free_queue (nr_tasks - 1)) keyboardqueue [] in
    same-IsQueues (is_head none_live)
      (list_add (init_list_head h keyboardqueue) (task_node 0) runqueue)
      (update q runqueue (task_node 0 ∷ q runqueue)) boot_queues
      (list_add-IsQueues is_node (is_head none_live) (init_list_head h keyboardqueue) q k runqueue
        (task_node 0) refl
        (refl, λ j h. unfold update in ground (arith, has-free_nodes (task_node 0) (nr_tasks - 1))))
      (λ a. unfold update in ground arith)
