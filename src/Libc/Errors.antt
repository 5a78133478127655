-- ===== src/Libc/Errors.antt =====
-- The semaphore calls of libc.c: what a program is told, and what it leaves.
use s.Base.{
  ℕ, ◌<◌, ◌^◌, ◌≡◌, refl, true, false, ◌≢◌, pos_part, Option, List, [], ◌∷◌, ℤ, pos, minus,
}
use s.ListHead.Links.{has}
use s.Sem.{
  Sems, bad_sem, int_max, eperm, ebusy, einval, to_int, sys_sem_init, sys_sem_wait, sys_sem_signal,
  sys_sem_destroy,
}
use s.Sem.Inv.{IsValid}
use s.Sem.Start
use s.Sem.Start.{Started, sys_sem_init-Started}
use s.Sem.Wait
use s.Sem.Wait.{Waited, sys_sem_wait-Waited}
use s.Sem.Signal
use s.Sem.Signal.{Signalled, sys_sem_signal-Signalled}
use s.Sem.Destroy
use s.Sem.Destroy.{Destroyed, sys_sem_destroy-Destroyed}
use s.Sys.{Outcome, returned, switched}
use s.Sys.Trap.{on_sems, on_wait, call_table, system_call}
use s.Libc.{Process, report, sem_init, sem_wait, sem_signal, sem_destroy}

-- How a call ends that can fail with the given errors: it answers -1 and the error is one of them,
-- and nothing else has changed; or it answers 0; or another task has the processor. Where it has
-- not failed, the semaphores and the scheduler are valid.
pub data Tried (p : Process) (errors : List ℕ) : Outcome × Process → Type 0 where
  failed :
      {e : ℕ}
      → has e errors ≡ true
      → Tried p errors (returned (minus 1), record { kernel = p.kernel; errno = e })
  went :
      {m : Sems} (q : ℕ → List ℕ)
      → IsValid m q
      → Tried p errors
          (returned (pos 0), record { kernel = record (p.kernel) { sems = m }; errno = p.errno })
  left :
      {m : Sems} (q : ℕ → List ℕ)
      → IsValid m q
      → Tried p errors
          (switched, record { kernel = record (p.kernel) { sems = m }; errno = p.errno })

module _ (p : Process) (n : ℤ) (q : ℕ → List ℕ) where
  Started-Tried :
      (value : ℕ) (r : ℤ × Sems)
      → Started p.kernel.sems n value q r
      → Tried p (einval ∷ ebusy ∷ []) (report p.errno (on_sems p.kernel r))
  unfolding report
  Started-Tried value r (Start.no_sem e) = failed refl
  Started-Tried value r (Start.in_use e) = failed refl
  Started-Tried value r (Start.made a b c v) = went _ v

  Waited-Tried :
      (r : Option ℤ × Sems)
      → Waited p.kernel.sems n q r
      → Tried p (einval ∷ eperm ∷ []) (report p.errno (on_wait p.kernel r))
  unfolding report
  Waited-Tried r (Wait.no_sem e) = failed refl
  Waited-Tried r (Wait.idle e) = failed refl
  Waited-Tried r (Wait.took a b c d v) = went _ v
  Waited-Tried r (Wait.blocks a b c d v) = left _ v

  Signalled-Tried :
      (r : ℤ × Sems)
      → Signalled p.kernel.sems n q r
      → Tried p (einval ∷ []) (report p.errno (on_sems p.kernel r))
  unfolding report
  Signalled-Tried r (Signal.no_sem e) = failed refl
  Signalled-Tried r (Signal.gave a b c d v) = went _ v
  Signalled-Tried r (Signal.woke a b w v) = went _ v

  Destroyed-Tried :
      (r : ℤ × Sems)
      → Destroyed p.kernel.sems n q r
      → Tried p (einval ∷ eperm ∷ []) (report p.errno (on_sems p.kernel r))
  unfolding report
  Destroyed-Tried r (Destroy.no_sem e) = failed refl
  Destroyed-Tried r (Destroy.not_owner e) = failed refl
  Destroyed-Tried r (Destroy.gone a b w v) = went _ v

-- From a valid kernel, for an initial value that fits an `int`, and where the semaphore's own value
-- is not the greatest `int`, the four semaphore calls of a user program leave a valid kernel. Each
-- fails with an error of its own few only, which is in `errno` then and has changed nothing: EINVAL
-- or EBUSY for `sem_init`, EINVAL or EPERM for `sem_wait` and `sem_destroy`, EINVAL for
-- `sem_signal`.
pub sem_calls-Tried :
    (junk : ℕ) (p : Process) (n_sem value : ℕ) (q : ℕ → List ℕ)
    → IsValid p.kernel.sems q
    → value < 2 ^ 31
    → (bad_sem (to_int n_sem) ≡ false
        → (p.kernel.sems.sems (pos_part (to_int n_sem))).value ≢ pos int_max)
    → Tried p (einval ∷ ebusy ∷ []) (sem_init junk p n_sem value)
      × Tried p (einval ∷ eperm ∷ []) (sem_wait junk p n_sem)
      × Tried p (einval ∷ []) (sem_signal junk p n_sem)
      × Tried p (einval ∷ eperm ∷ []) (sem_destroy junk p n_sem)
unfolding system_call call_table sem_init sem_wait sem_signal sem_destroy
sem_calls-Tried junk p n_sem value q v small room =
    let k = p.kernel.sems in
    let n = to_int n_sem in
    (
      Started-Tried p n q value (sys_sem_init k n value) (sys_sem_init-Started k n value q v small),
      Waited-Tried p n q (sys_sem_wait k n) (sys_sem_wait-Waited k n q v),
      Signalled-Tried p n q (sys_sem_signal k n) (sys_sem_signal-Signalled k n q v room),
      Destroyed-Tried p n q (sys_sem_destroy k n) (sys_sem_destroy-Destroyed k n q v),
    )
