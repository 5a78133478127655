-- ===== src/Sem/Steps.antt =====
-- The invariant of the semaphores through a clock tick, and through a call that moves no task.
use s.Base.{ℕ, ◌≡◌, List, arith, update, ◌∙◌}
use s.ListHead.Move.{move}
use s.Sched.{
  Sched, modify, task_node, runqueue, sched, sched_continue, sched_pause, sched_update_status,
}
use s.Sched.Tick.{Tick, goes_on, switches}
use s.Sem.{Sems}
use s.Sem.Inv.{live, IsValid}

pub sched-pid : (s : Sched) (t : ℕ) → ((sched s).task t).pid ≡ (s.task t).pid
unfolding sched sched_continue sched_pause sched_update_status modify update
sched-pid s t = ground arith

pub tick-IsValid :
    (m : Sems) (q : ℕ → List ℕ) (t : Sched)
    → IsValid m q
    → (t.task 0).pid ≡ 0
    → Tick (live m) m.sched q t
    → (q' : ℕ → List ℕ) × IsValid (record m { sched = t }) q'
tick-IsValid m q t v pid (goes_on a b c w) =
    (q, record { sched = w; idle_pid = pid; stocked = v.stocked })
tick-IsValid m q t v pid (switches a b c w) = (
  move q runqueue runqueue (task_node m.sched.current),
  record {
    sched = w;
    idle_pid = pid;
    stocked = λ i lt on. unfold update in ground (arith, v.stocked i lt on);
  },
)

-- A call that changes no queue, no semaphore and no process number.
pub quiet-IsValid :
    (m : Sems) (q : ℕ → List ℕ) (s : Sched)
    → IsValid m q
    → s.heap ≡ m.sched.heap
    → s.current ≡ m.sched.current
    → (s.task 0).pid ≡ (m.sched.task 0).pid
    → IsValid (record m { sched = s }) q
quiet-IsValid m q s v heap current pid = record {
  sched = record {
    queues = rw heap v.sched.queues;
    current_in = rw current v.sched.current_in;
    idle_in = v.sched.idle_in;
  };
  idle_pid = pid ∙ v.idle_pid;
  stocked = v.stocked;
}
