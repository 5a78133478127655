-- ===== src/Sched/Block.antt =====
-- How the running task blocks: it goes to the end of a queue, and the first task of the run queue
-- goes on.
use s.Base.{ℕ, ◌≡◌, refl, ◌≢◌, Bool, true, false, List, [], ◌∷◌, arith, update, ◌∙◌, subst}
use s.ListHead.Links.{has}
use s.ListHead.Move.{move, requeue-IsQueues, del-IsQueues}
use s.Sched.{Sched, runqueue, task_node, sched_block, sched_continue, sched_select_next}
use s.Sched.Inv.{is_node, is_head, IsValid}
use s.Sched.Moves.{Resumed, resume-Resumed, has-move}

-- `sched_block(current(), &queue); sched_continue(sched_select_next());`
abbrev pub after_block : Sched → ℕ → Sched
after_block s queue =
    let b = sched_block s s.current queue in sched_continue b (sched_select_next b)

pub has-nonempty : (a : ℕ) (xs : List ℕ) → has a xs ≡ true → (x : ℕ) × (ys : List ℕ) × (xs ≡ x ∷ ys)
has-nonempty a [] m = cc
has-nonempty a (x ∷ xs) m = (x, xs, refl)

module _ (live : ℕ → Bool) (s : Sched) (q : ℕ → List ℕ) (v : IsValid live s q) (queue : ℕ)
    (hq : is_head live queue ≡ true) (apart : queue ≢ runqueue) (busy : s.current ≢ 0) where
  -- `t` is `s` but for its tasks.
  pub block-Resumed :
      (t : Sched)
      → t.heap ≡ s.heap
      → t.current ≡ s.current
      → Resumed live
          (sched_block t t.current queue)
          (move q runqueue queue (task_node s.current))
          (after_block t queue)
  unfolding sched_block
  block-Resumed t heap current =
      let idle : has (task_node 0) (move q runqueue queue (task_node s.current) runqueue) ≡ true =
        has-move q runqueue queue (task_node s.current) (task_node 0) runqueue
          (λ e. busy (omega arith))
        ∙ v.idle_in in
      let (x, xs, e) =
        has-nonempty (task_node 0) (move q runqueue queue (task_node s.current) runqueue) idle in
      resume-Resumed live (sched_block t t.current queue)
        (move q runqueue queue (task_node s.current)) x xs
        (rw (heap, current)
          (requeue-IsQueues is_node (is_head live) s.heap q v.queues runqueue queue
            (task_node s.current) refl hq v.current_in))
        idle e

  -- The blocked task does not run next.
  pub block_ne :
      (t : Sched)
      → t.heap ≡ s.heap
      → t.current ≡ s.current
      → (after_block t queue).current ≢ s.current
  block_ne t heap current e =
      let r = block-Resumed t heap current in
      let out : has (task_node s.current) (move q runqueue queue (task_node s.current) runqueue)
          ≡ false =
        unfold update in
        ground (
          arith,
          (del-IsQueues is_node (is_head live) s.heap q v.queues runqueue (task_node s.current) refl
                v.current_in).1.1
              runqueue refl,
        ) in
      let at : has (task_node s.current) (task_node (after_block t queue).current ∷ r.rest)
          ≡ false =
        subst (λ l. has (task_node s.current) l ≡ false) r.first out in
      ground arith
