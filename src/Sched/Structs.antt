-- ===== src/Sched/Structs.antt =====
-- `get_new_task_struct` and `free_task_struct` of sched.c: what they do to the free queue.
use s.Base.{
  ℕ, ◌≡◌, refl, ◌≢◌, Bool, Option, none, some, List, [], ◌∷◌, inl, inr, update, update_self,
  update_ne, List-cases, sym, ap, ◌∙◌,
}
use s.ListHead.{list_first}
use s.ListHead.Queue.{list_empty-nil, list_empty-cons}
use s.ListHead.Queues.{IsQueues, Out, list_del-IsQueues, list_add-IsQueues}
use s.Sched.{
  Sched, modify, task_node, freequeue, null_pid, list_head_to_task_struct, get_new_task_struct,
  free_task_struct,
}
use s.Sched.Inv.{is_node, is_head, first-node}

-- What `get_new_task_struct` may do, with `q` the queues before.
pub data Given (live : ℕ → Bool) (s : Sched) (q : ℕ → List ℕ) : Option ℕ × Sched → Type 0 where
  none_left : q freequeue ≡ [] → Given live s q (none, s)
  given :
      {t : ℕ} {xs : List ℕ} {s' : Sched}
      → q freequeue ≡ task_node t ∷ xs
      → IsQueues is_node (is_head live) s'.heap (update q freequeue xs)
      → Out is_node (is_head live) (update q freequeue xs) (task_node t)
      → (s'.task ≡ s.task) × (s'.current ≡ s.current) × (s'.mm ≡ s.mm)
      → Given live s q (some t, s')

module _ (live : ℕ → Bool) (s : Sched) (q : ℕ → List ℕ)
    (v : IsQueues is_node (is_head live) s.heap q) where
  -- On well-formed queues `get_new_task_struct` answers NULL_TSK and changes nothing if the free
  -- queue is empty, and otherwise takes the first structure off it: that structure then stands in
  -- no queue, the queues are well-formed, and no task has changed.
  pub get_new_task_struct-Given : Given live s q (get_new_task_struct s)
  unfolding get_new_task_struct
  get_new_task_struct-Given = elim (List-cases (q freequeue)) [
    | inl e ↦ rw (list_empty-nil s.heap freequeue (rw (← e) (v.each freequeue refl))) (none_left e)
    | inr (x, xs, e) ↦
        let node = first-node live s q freequeue x xs v refl e in
        let head = e ∙ ap (λ y. y ∷ xs) (sym node) in
        let t = task_node (list_head_to_task_struct (list_first s.heap freequeue)) in
        let d = list_del-IsQueues is_node (is_head live) s.heap q v freequeue [] t xs refl head in
        rw (list_empty-cons s.heap freequeue x xs (rw (← e) (v.each freequeue refl)))
          (given head d.0 d.1 (refl, refl, refl))
  ]

  -- On well-formed queues, `free_task_struct` of a structure that stands in no queue puts it in
  -- front of the free queue and takes its process number; the queues stay well-formed, and no other
  -- task has changed.
  pub free_task_struct-IsQueues :
      (t : ℕ)
      → Out is_node (is_head live) q (task_node t)
      → IsQueues is_node
          (is_head live)
          (free_task_struct s t).heap
          (update q freequeue (task_node t ∷ q freequeue))
        × (((free_task_struct s t).task t).pid ≡ null_pid)
        × ((i : ℕ) → i ≢ t → (free_task_struct s t).task i ≡ s.task i)
  unfolding free_task_struct modify
  free_task_struct-IsQueues t out = (
    list_add-IsQueues is_node (is_head live) s.heap q v freequeue (task_node t) refl out,
    ap (λ k. k.pid) (update_self s.task t (record (s.task t) { pid = null_pid })),
    λ i ne. update_ne s.task t i (record (s.task t) { pid = null_pid }) ne,
  )
