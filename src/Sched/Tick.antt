-- ===== src/Sched/Tick.antt =====
-- `sched` of sched.c, the scheduler of the clock interrupt: round robin over the run queue.
use s.Base.{
  ℕ, ◌≡◌, refl, Bool, true, false, List, [], ◌∷◌, ◌++◌, arith, ◌==◌, ap, sym, ◌∙◌, subst, ◌≢◌, pos,
  ◌-ℤ◌, ◌=ℤ◌, update, inl, inr, Bool-cases, ℤ,
}
use s.ListHead.Links.{has, has-append}
use s.ListHead.Queues.{IsQueues}
use s.ListHead.Move.{erase, has-erase, move, requeue-IsQueues}
use s.Sched.{
  Sched, task_node, runqueue, sched_select_next, sched_pause, sched_continue, sched_update_status,
  sched,
}
use s.Sched.Inv.{is_node, is_head, IsValid}
use s.Sched.Moves.{resume-Resumed}

-- A list that ends in a node has a first one.
snoc-first : (xs : List ℕ) (e : ℕ) → (x : ℕ) × (ys : List ℕ) × (xs ++ e ∷ [] ≡ x ∷ ys)
snoc-first [] e = (e, [], refl)
snoc-first (x ∷ xs) e = (x, xs ++ e ∷ [], refl)

-- What one clock tick does. `rotated` is the run queue with the current task taken to its end.
pub data Tick (live : ℕ → Bool) (s : Sched) (q : ℕ → List ℕ) : Sched → Type 0 where
  -- The quantum is not over: the same task goes on, in the same queues, with one round less.
  goes_on :
      {t : Sched}
      → s.roundtics ≢ pos 1
      → t.current ≡ s.current
      → t.roundtics ≡ s.roundtics -ℤ pos 1
      → IsValid live t q
      → Tick live s q t
  -- The quantum is over: the task goes to the end, and the first of the queue that is left runs,
  -- for its own quantum.
  switches :
      {t : Sched} {rest : List ℕ}
      → s.roundtics ≡ pos 1
      → erase (task_node s.current) (q runqueue) ++ task_node s.current ∷ []
        ≡ task_node t.current ∷ rest
      → t.roundtics ≡ pos (s.task t.current).quantum
      → IsValid live t (move q runqueue runqueue (task_node s.current))
      → Tick live s q t

last_round : (r : ℤ) → (r -ℤ pos 1 =ℤ pos 0) ≡ true → r ≡ pos 1
unfolding ◌-ℤ◌
last_round r h = ground arith

more_rounds : (r : ℤ) → (r -ℤ pos 1 =ℤ pos 0) ≡ false → r ≢ pos 1
unfolding ◌-ℤ◌
more_rounds r h = ground arith

-- The state after the current task, its time over, has gone to the end of the run queue.
abbrev paused : Sched → Sched
paused s =
    let s' = sched_update_status (record s { eoi_from_interrupt = true }) in
    sched_pause s' s'.current

sched-more :
    (s : Sched)
    → (s.roundtics -ℤ pos 1 =ℤ pos 0) ≡ false
    → sched s ≡ sched_update_status (record s { eoi_from_interrupt = true })
unfolding sched
sched-more s h = rw h

sched-over :
    (s : Sched)
    → (s.roundtics -ℤ pos 1 =ℤ pos 0) ≡ true
    → sched s ≡ sched_continue (paused s) (sched_select_next (paused s))
unfolding sched
sched-over s h = rw h

rotated :
    (live : ℕ → Bool) (s : Sched) (q : ℕ → List ℕ)
    → IsValid live s q
    → IsQueues is_node
        (is_head live)
        (paused s).heap
        (move q runqueue runqueue (task_node s.current))
unfolding sched_pause sched_update_status
rotated live s q v =
    requeue-IsQueues is_node (is_head live) s.heap q v.queues runqueue runqueue
      (task_node s.current) refl refl v.current_in

-- The quantum of a task is its own.
quantum-paused : (s : Sched) (t : ℕ) → ((paused s).task t).quantum ≡ (s.task t).quantum
unfolding sched_pause sched_update_status update
quantum-paused s t = ground arith

-- Whoever stands in the run queue still does when it has been turned.
pub has-rotated : (a e : ℕ) (xs : List ℕ) → has a xs ≡ true → has a (erase e xs ++ e ∷ []) ≡ true
has-rotated a e xs m = elim (Bool-cases (a == e)) [
  | inl p ↦ ground (arith, has-append a (erase e xs) (e ∷ []))
  | inr p ↦ ground (arith, has-append a (erase e xs) (e ∷ []), has-erase a e xs)
]

-- A clock tick keeps the scheduler's invariant. It takes one round off the current task's quantum;
-- if that was the last, the task goes to the end of the run queue and the first of the queue runs,
-- with its own quantum, and otherwise the same task goes on in unchanged queues.
pub sched-Tick :
    (live : ℕ → Bool) (s : Sched) (q : ℕ → List ℕ) → IsValid live s q → Tick live s q (sched s)
unfolding update
sched-Tick live s q v = elim (Bool-cases (s.roundtics -ℤ pos 1 =ℤ pos 0)) [
  | inl p ↦ subst (Tick live s q) (sym (sched-over s p)) (switched p)
  | inr p ↦ subst (Tick live s q) (sym (sched-more s p)) (
      unfold sched_update_status in
      goes_on (more_rounds s.roundtics p) refl refl
        (record { queues = v.queues; current_in = v.current_in; idle_in = v.idle_in }))
]
  where
    c : ℕ
    c = task_node s.current

    switched :
        (s.roundtics -ℤ pos 1 =ℤ pos 0) ≡ true
        → Tick live s q (sched_continue (paused s) (sched_select_next (paused s)))
    switched p =
        let q' : ℕ → List ℕ = move q runqueue runqueue c in
        let (x, xs, e) = snoc-first (erase c (q runqueue)) c in
        let queue : q' runqueue ≡ erase c (q runqueue) ++ c ∷ [] = refl in
        let idle : has (task_node 0) (q' runqueue) ≡ true =
          rw queue (has-rotated (task_node 0) c (q runqueue) v.idle_in) in
        let r = resume-Resumed live (paused s) q' x xs (rotated live s q v) idle (queue ∙ e) in
        switches (last_round s.roundtics p) (sym queue ∙ r.first)
          (r.quantum
            ∙ ap pos (
                quantum-paused s
                  (sched_continue (paused s) (sched_select_next (paused s))).current))
          r.valid
