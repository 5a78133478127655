-- ===== src/Sched/Inv.antt =====
-- The scheduler's invariant: every queue is a well-formed list, no task stands in two of them, and
-- the current task and the first task, which is never taken off, stand in the run queue.
use s.Base.{
  ℕ, zero, suc, ◌-◌, ◌≡◌, refl, Bool, true, ◌&&◌, ◌||◌, List, ◌∷◌, arith, ◌==◌, leb, ltb, ap, ◌∙◌,
}
use s.ListHead.{list_first}
use s.ListHead.Links.{has}
use s.ListHead.Queue.{list_first-cons}
use s.ListHead.Queues.{IsQueues}
use s.Sched.{
  Sched, task_node, runqueue, freequeue, keyboardqueue, list_head_to_task_struct, sched_select_next,
  nr_tasks,
}

-- `&task[i].t.task.queue` for a task of the array
abbrev pub is_node : ℕ → Bool
is_node a = leb 1 a && leb a nr_tasks

-- The heads of the initialised lists; `live i` says that semaphore `i` is in use.
abbrev pub is_head : (ℕ → Bool) → ℕ → Bool
is_head live a =
    (a == runqueue)
    || (a == freequeue)
    || (a == keyboardqueue)
    || (leb 14 a && ltb a 24 && live (a - 14))

pub record IsValid (live : ℕ → Bool) (s : Sched) (q : ℕ → List ℕ) : Type 0 where
  pub queues : IsQueues is_node (is_head live) s.heap q
  pub current_in : has (task_node s.current) (q runqueue) ≡ true
  pub idle_in : has (task_node 0) (q runqueue) ≡ true

-- The first node of a list is that of the task which `list_head_to_task_struct` finds.
pub first-node :
    (live : ℕ → Bool) (s : Sched) (q : ℕ → List ℕ) (i x : ℕ) (xs : List ℕ)
    → IsQueues is_node (is_head live) s.heap q
    → is_head live i ≡ true
    → q i ≡ x ∷ xs
    → task_node (list_head_to_task_struct (list_first s.heap i)) ≡ x
first-node live s q i x xs v hi e =
    ap (λ a. suc (list_head_to_task_struct a)) first ∙ node x (v.nodes i x hi (rw e (ground arith)))
  where
    first : list_first s.heap i ≡ x
    first = list_first-cons s.heap i x xs (rw (← e) (v.each i hi))

    node : (a : ℕ) → is_node a ≡ true → suc (list_head_to_task_struct a) ≡ a
    node zero h = absurd (ground arith)
    node (suc a) h = refl

-- The next task to run is the first of the run queue.
pub select-first :
    (live : ℕ → Bool) (s : Sched) (q : ℕ → List ℕ) (x : ℕ) (xs : List ℕ)
    → IsQueues is_node (is_head live) s.heap q
    → q runqueue ≡ x ∷ xs
    → task_node (sched_select_next s) ≡ x
select-first live s q x xs v e = first-node live s q runqueue x xs v refl e
