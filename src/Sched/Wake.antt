-- ===== src/Sched/Wake.antt =====
-- How a waiting task is woken: from the front of its queue to the end of the run queue.
use s.Base.{ℕ, ◌≡◌, refl, ◌≢◌, Bool, true, List, [], ◌∷◌, ◌++◌, arith, ℤ, update}
use s.ListHead.Links.{has, has-append}
use s.ListHead.Move.{move, erase, requeue-IsQueues}
use s.Sched.{Sched, runqueue, task_node, ready, sched_unblock}
use s.Sched.Inv.{is_node, is_head, IsValid}

-- The task `tsk`, first of the list at `head`, has been woken: it stands at the end of the run
-- queue, is ready, and finds `r` as the number that its call returns.
pub record Woken (l : ℕ → Bool) (s : Sched) (q : ℕ → List ℕ) (head : ℕ) (r : ℤ) (xs : List ℕ)
    (tsk : ℕ) (t : Sched) : Type 0 where
  pub q' : ℕ → List ℕ
  pub valid : IsValid l t q'
  pub left : q' head ≡ xs
  pub runs : q' runqueue ≡ q runqueue ++ task_node tsk ∷ []
  pub same : (i : ℕ) → i ≢ head → i ≢ runqueue → q' i ≡ q i
  pub eax : (t.task tsk).eax ≡ r
  pub state : (t.task tsk).state ≡ ready
  pub others : (u : ℕ) → u ≢ tsk → t.task u ≡ s.task u
  pub pids : (u : ℕ) → (t.task u).pid ≡ (s.task u).pid
  pub current : t.current ≡ s.current

-- `t` is `s` but for the task that is woken.
pub unblock-Woken :
    (l : ℕ → Bool) (s t : Sched) (q : ℕ → List ℕ) (head : ℕ) (r : ℤ) (tsk : ℕ) (xs : List ℕ)
    → IsValid l s q
    → is_head l head ≡ true
    → head ≢ runqueue
    → q head ≡ task_node tsk ∷ xs
    → t.heap ≡ s.heap
    → t.current ≡ s.current
    → (t.task tsk).eax ≡ r
    → ((u : ℕ) → u ≢ tsk → t.task u ≡ s.task u)
    → ((u : ℕ) → (t.task u).pid ≡ (s.task u).pid)
    → Woken l s q head r xs tsk (sched_unblock t tsk)
unfolding sched_unblock
unblock-Woken l s t q head r tsk xs v hh ne e heap current eax others pids = record {
  q' = move q head runqueue (task_node tsk);
  valid = record {
    queues = rw heap (
        requeue-IsQueues is_node (is_head l) s.heap q v.queues head runqueue (task_node tsk) hh refl
          (rw e (ground arith)));
    current_in = rw current (stays (task_node s.current) v.current_in);
    idle_in = stays (task_node 0) v.idle_in;
  };
  left = unfold update erase in ground arith;
  runs = unfold update in ground arith;
  same = λ i a b. unfold update in ground arith;
  eax = unfold update in ground arith;
  state = unfold update in ground arith;
  others = λ u n. unfold update in ground (arith, others u n);
  pids = λ u. unfold update in ground (arith, pids u);
  current = current;
}
  where
    stays :
        (a : ℕ)
        → has a (q runqueue) ≡ true
        → has a (move q head runqueue (task_node tsk) runqueue) ≡ true
    stays a m = unfold update in ground (arith, has-append a (q runqueue) (task_node tsk ∷ []))
