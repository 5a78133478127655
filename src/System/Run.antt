-- ===== src/System/Run.antt =====
-- The kernel at work: sequences of clock ticks and calls from the state that `main` leaves.
use s.Base.{
  ℕ, ◌<◌, ◌^◌, ◌≡◌, refl, ◌≢◌, List, ℤ, arith, update, Bool-cases, inl, inr, ◌∙◌, Option, is_pos,
  pos, pos_part, false, is_neg,
}
use s.Sched.{modify, sched}
use s.Sched.Tick.{sched-Tick}
use s.Sem.{
  bad_sem, int_max, free_sem, Sems, sys_sem_init, sys_sem_wait, sys_sem_signal, sys_sem_destroy,
}
use s.Sem.Inv.{live, IsValid}
use s.Sem.Steps.{sched-pid, tick-IsValid, quiet-IsValid}
use s.Sem.Start
use s.Sem.Start.{Started, sys_sem_init-Started}
use s.Sem.Wait
use s.Sem.Wait.{Waited, sys_sem_wait-Waited}
use s.Sem.Signal
use s.Sem.Signal.{Signalled, sys_sem_signal-Signalled}
use s.Sem.Destroy
use s.Sem.Destroy.{Destroyed, sys_sem_destroy-Destroyed}
use s.Channel.{find_free_channel}
use s.System.Queues.{boot_queues}
use s.Sys.{Outcome, switched, bad_fd, current, Kernel, sched_of, with_sched}
use s.Sys.Files.{sys_dup}
use s.Sys.Process.{sys_fork, sys_exit, sys_nice}
use s.Sys.Exit
use s.Sys.Exit.{Exited, sys_exit-Exited}
use s.Sys.Fork
use s.Sys.Fork.{Forked, Any, sys_fork-Any}
use s.Sys.Devices.{sys_read_keyboard}
use s.Sys.Keyboard.{sys_read_keyboard-IsSound}
use s.Interrupt.{keyboard_routine}
use s.Interrupt.Serve.{keyboard_routine-IsSound}
use s.System.{Image, boot}
use s.System.Boot.{boot-Booted}

abbrev with_sems : Kernel → Sems → Kernel
with_sems k m = record k { sems = m }

-- The queues hold what they should for some lists.
abbrev pub IsSound : Kernel → Type 0
IsSound k = (q : ℕ → List ℕ) × IsValid k.sems q

-- One interrupt of the clock or the keyboard, or one call of the running program.
pub data Step (k : Kernel) : Kernel → Type 0 where
  tick : Step k (with_sched k (sched (sched_of k)))
  sem_init :
      (n : ℤ) (value : ℕ) → value < 2 ^ 31 → Step k (with_sems k (sys_sem_init k.sems n value).1)
  sem_wait : (n : ℤ) → Step k (with_sems k (sys_sem_wait k.sems n).1)
  -- A value of the greatest `int` would overflow.
  sem_signal :
      (n : ℤ)
      → (bad_sem n ≡ false → (k.sems.sems (pos_part n)).value ≢ pos int_max)
      → Step k (with_sems k (sys_sem_signal k.sems n).1)
  sem_destroy : (n : ℤ) → Step k (with_sems k (sys_sem_destroy k.sems n).1)
  -- A key that is pressed or released.
  key : (code : ℕ) → Step k (keyboard_routine k code)
  read_keyboard : (buffer size : ℕ) → Step k (sys_read_keyboard k buffer size).1
  fork : Step k (sys_fork k).1
  exit : (current k).pid ≢ free_sem → (sys_exit k).0 ≡ switched → Step k (sys_exit k).1
  nice : (quantum : ℤ) → Step k (sys_nice k quantum).1
  dup : (fd : ℤ) → Step k (sys_dup k fd).1

pub data Run (k : Kernel) : Kernel → Type 0 where
  start : Run k k
  step : {l m : Kernel} → Run k l → Step l m → Run k m

nice-IsSound : (k : Kernel) (q : ℕ → List ℕ) (n : ℤ) → IsValid k.sems q → IsSound (sys_nice k n).1
unfolding sys_nice modify update
nice-IsSound k q n v = elim (Bool-cases (is_pos n)) [
  | inl h ↦ rw h (q, quiet-IsValid k.sems q _ v refl refl (ground arith))
  | inr h ↦ rw h (q, v)
]

dup-IsSound : (k : Kernel) (q : ℕ → List ℕ) (fd : ℤ) → IsValid k.sems q → IsSound (sys_dup k fd).1
unfolding sys_dup modify update
dup-IsSound k q fd v = elim (Bool-cases (bad_fd k fd)) [
  | inl h ↦ rw h (q, v)
  | inr h ↦ elim (Bool-cases (is_neg (find_free_channel (current k).channels))) [
    | inl h' ↦ rw (h, h') (q, v)
    | inr h' ↦ rw (h, h') (q, quiet-IsValid k.sems q _ v refl refl (ground arith))
  ]
]

Started-IsSound :
    (k : Kernel) (q : ℕ → List ℕ) (n : ℤ) (value : ℕ) (r : ℤ × Sems)
    → IsValid k.sems q
    → Started k.sems n value q r
    → IsSound (with_sems k r.1)
Started-IsSound k q n value r v (Start.no_sem e) = (q, v)
Started-IsSound k q n value r v (Start.in_use e) = (q, v)
Started-IsSound k q n value r v (Start.made a b c w) = (_, w)

Waited-IsSound :
    (k : Kernel) (q : ℕ → List ℕ) (n : ℤ) (r : Option ℤ × Sems)
    → IsValid k.sems q
    → Waited k.sems n q r
    → IsSound (with_sems k r.1)
Waited-IsSound k q n r v (Wait.no_sem e) = (q, v)
Waited-IsSound k q n r v (Wait.idle e) = (q, v)
Waited-IsSound k q n r v (Wait.took a b c d w) = (_, w)
Waited-IsSound k q n r v (Wait.blocks a b c d w) = (_, w)

Signalled-IsSound :
    (k : Kernel) (q : ℕ → List ℕ) (n : ℤ) (r : ℤ × Sems)
    → IsValid k.sems q
    → Signalled k.sems n q r
    → IsSound (with_sems k r.1)
Signalled-IsSound k q n r v (Signal.no_sem e) = (q, v)
Signalled-IsSound k q n r v (Signal.gave a b c d w) = (_, w)
Signalled-IsSound k q n r v (Signal.woke a b c w) = (_, w)

Destroyed-IsSound :
    (k : Kernel) (q : ℕ → List ℕ) (n : ℤ) (r : ℤ × Sems)
    → IsValid k.sems q
    → Destroyed k.sems n q r
    → IsSound (with_sems k r.1)
Destroyed-IsSound k q n r v (Destroy.no_sem e) = (q, v)
Destroyed-IsSound k q n r v (Destroy.not_owner e) = (q, v)
Destroyed-IsSound k q n r v (Destroy.gone a b c w) = (_, w)

Forked-IsSound :
    (k : Kernel) (q : ℕ → List ℕ) (r : ℤ × Kernel)
    → IsValid k.sems q
    → Forked k q Any r
    → IsSound r.1
Forked-IsSound k q r v (Fork.no_task e) = (q, v)
Forked-IsSound k q r v (Fork.no_frame e w) = (_, w)
Forked-IsSound k q r v (Fork.forked e p w c b) = (_, w)

Exited-IsSound : (k : Kernel) (r : Outcome × Kernel) → r.0 ≡ switched → Exited k r → IsSound r.1
Exited-IsSound k r e (Exit.first z) = cc
Exited-IsSound k r e (Exit.no_device z) = cc
Exited-IsSound k r e (Exit.left q v a b c d f) = (q, v)

Step-IsSound : {k l : Kernel} → Step k l → IsSound k → IsSound l
Step-IsSound {k} tick (q, v) =
    tick-IsValid k.sems q (sched (sched_of k)) v (sched-pid (sched_of k) 0 ∙ v.idle_pid)
      (sched-Tick (live k.sems) (sched_of k) q v.sched)
Step-IsSound {k} (sem_init n value lt) (q, v) =
    Started-IsSound k q n value (sys_sem_init k.sems n value) v
      (sys_sem_init-Started k.sems n value q v lt)
Step-IsSound {k} (sem_wait n) (q, v) =
    Waited-IsSound k q n (sys_sem_wait k.sems n) v (sys_sem_wait-Waited k.sems n q v)
Step-IsSound {k} (sem_signal n room) (q, v) =
    Signalled-IsSound k q n (sys_sem_signal k.sems n) v (sys_sem_signal-Signalled k.sems n q v room)
Step-IsSound {k} (sem_destroy n) (q, v) =
    Destroyed-IsSound k q n (sys_sem_destroy k.sems n) v (sys_sem_destroy-Destroyed k.sems n q v)
Step-IsSound {k} fork (q, v) = Forked-IsSound k q (sys_fork k) v (sys_fork-Any k q v)
Step-IsSound {k} (exit some_pid ends) (q, v) =
    Exited-IsSound k (sys_exit k) ends (sys_exit-Exited k q v some_pid)
Step-IsSound {k} (key code) (q, v) = keyboard_routine-IsSound k q code v
Step-IsSound {k} (read_keyboard buffer size) (q, v) = sys_read_keyboard-IsSound k q buffer size v
Step-IsSound {k} (nice n) (q, v) = nice-IsSound k q n v
Step-IsSound {k} (dup fd) (q, v) = dup-IsSound k q fd v

Run-IsSound : {k l : Kernel} → Run k l → IsSound k → IsSound l
Run-IsSound start v = v
Run-IsSound (step r s) v = Step-IsSound s (Run-IsSound r v)

-- Started on the first task's stack, the kernel meets the invariants of the scheduler and the
-- semaphores after any sequence of clock ticks, of keys that are pressed and released, and of calls
-- of `sem_init`, with a value that fits an `int`, `sem_wait`, `sem_signal` where the value is not
-- the greatest `int`, `sem_destroy`, `fork`, `nice` and `dup`, reads of the keyboard, and ends of
-- processes that do not call through a null pointer and whose number is not the mark of a free
-- semaphore: no task ever stands in two queues, the running one is in the run queue, and no task
-- waits at a semaphore that has a value.
pub boot-Run :
    (image : Image) (k l : Kernel)
    → (sched_of k).current ≡ 0
    → Run (boot image k) l
    → (q : ℕ → List ℕ) × IsValid l.sems q
boot-Run image k l first r = Run-IsSound r (boot_queues, (boot-Booted image k first).sems)
