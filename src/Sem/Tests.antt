-- ===== src/Sem/Tests.antt =====
-- The theorems on the scheduler and the semaphores at the kernel of Sem.Sample.
use s.Base.{ℕ, suc, true, ◌≢◌, ◌≡◌, refl, arith, pos, minus, update}
use s.ListHead.{init_list_head, list_add_tail, list_del}
use s.ListHead.Links.{has}
use s.Sched.{task_node, runqueue, sched, sched_block, sched_continue, sched_unblock}
use s.Sched.Tick.{Tick, sched-Tick}
use s.Sched.Turns.{ticks, sched-Reached}
use s.Sem.{sys_sem_wait, sys_sem_signal, sys_sem_destroy, wake_all, wake_first}
use s.Sem.Inv.{live}
use s.Sem.Wait.{Waited, sys_sem_wait-Waited}
use s.Sem.Signal.{Signalled, sys_sem_signal-Signalled}
use s.Sem.Destroy.{Destroyed, sys_sem_destroy-Destroyed}
use s.Sem.Sample.{scheduler, kernel, queues, scheduler-IsValid, kernel-IsValid}

has_quantum : (i : ℕ) → has (task_node i) (queues runqueue) ≡ true → (scheduler.task i).quantum ≢ 0
has_quantum i m = ground arith

sched-Tick_example : Tick (live kernel) scheduler queues (sched scheduler)
sched-Tick_example = sched-Tick (live kernel) scheduler queues scheduler-IsValid

sched-Reached_example : (n : ℕ) × ((ticks (suc n) scheduler).current ≡ 0)
unfolding update
sched-Reached_example =
    sched-Reached (live kernel) scheduler queues 0 0 scheduler-IsValid refl has_quantum refl

sys_sem_wait-Waited_example : Waited kernel (pos 0) queues (sys_sem_wait kernel (pos 0))
sys_sem_wait-Waited_example = sys_sem_wait-Waited kernel (pos 0) queues kernel-IsValid

sys_sem_signal-Signalled_example : Signalled kernel (pos 0) queues (sys_sem_signal kernel (pos 0))
sys_sem_signal-Signalled_example =
    sys_sem_signal-Signalled kernel (pos 0) queues kernel-IsValid (λ good e. ground arith)

sys_sem_destroy-Destroyed_example : Destroyed kernel (pos 0) queues (sys_sem_destroy kernel (pos 0))
sys_sem_destroy-Destroyed_example = sys_sem_destroy-Destroyed kernel (pos 0) queues kernel-IsValid

-- The caller blocks, and the first task runs.
wait_run : (sys_sem_wait kernel (pos 0)).1.sched.current ≡ 0
unfolding sys_sem_wait sched_block sched_continue list_add_tail list_del init_list_head update
wait_run = refl

-- The waiting task is woken with -1.
destroy_run : ((sys_sem_destroy kernel (pos 0)).1.sched.task 2).eax ≡ minus 1
unfolding sys_sem_destroy wake_all wake_first sched_unblock list_add_tail list_del init_list_head
    update
destroy_run = refl
