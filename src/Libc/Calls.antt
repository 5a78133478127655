-- ===== src/Libc/Calls.antt =====
-- The calls of libc.c and the functions of sys.c that they reach.
use s.Base.{ℕ, ◌+◌, pos, negsuc, minus}
use s.Sem.{to_int, sys_sem_init, sys_sem_wait, sys_sem_signal, sys_sem_destroy}
use s.Sys.{Kernel, Outcome, returned, switched, undefined}
use s.Sys.Files.{sys_read, sys_write, sys_open, sys_close, sys_unlink, sys_dup}
use s.Sys.Process.{sys_exit, sys_fork, sys_getpid, sys_nice, sys_get_stats}
use s.Sys.Trap.{answered, on_sems, on_wait, call_table, system_call}
use s.Libc.{
  Process, report, exit, fork, read, write, open_path, close, unlink, getpid, sem_init, sem_wait,
  sem_signal, sem_destroy, nice, get_stats, dup,
}

-- What a program is told, with `errno` its own before, where a function of sys.c has ended in some
-- way: an answer that is not negative is passed on, and a negative one becomes -1 and sets `errno`.
pub data Told (errno : ℕ) : Outcome × Kernel → Outcome × Process → Type 0 where
  worked :
      {n : ℕ} {k : Kernel}
      → Told errno (returned (pos n), k) (returned (pos n), record { kernel = k; errno = errno })
  failed :
      {n : ℕ} {k : Kernel}
      → Told errno
          (returned (negsuc n), k)
          (returned (minus 1), record { kernel = k; errno = n + 1 })
  left : {k : Kernel} → Told errno (switched, k) (switched, record { kernel = k; errno = errno })
  lost : {k : Kernel} → Told errno (undefined, k) (undefined, record { kernel = k; errno = errno })

report-Told : (errno : ℕ) (r : Outcome × Kernel) → Told errno r (report errno r)
unfolding report
report-Told errno (returned (pos n), k) = worked
report-Told errno (returned (negsuc n), k) = failed
report-Told errno (switched, k) = left
report-Told errno (undefined, k) = lost

-- Every call of libc.c reaches the function of sys.c of its name, through its number, the trap and
-- the table, with its own arguments in the places where that function takes them, whatever
-- stands in the other registers. What comes back is that function's answer: a negative one
-- becomes -1 and goes to `errno`.
pub calls_lem :
    (junk : ℕ) (p : Process) (a b c : ℕ)
    → Told p.errno (sys_exit p.kernel) (exit junk p)
      × Told p.errno (answered (sys_fork p.kernel)) (fork junk p)
      × Told p.errno (sys_read p.kernel (to_int a) b (to_int c)) (read junk p a b c)
      × Told p.errno (sys_write p.kernel (to_int a) b (to_int c)) (write junk p a b c)
      × Told p.errno (sys_open p.kernel a (to_int b)) (open_path junk p a b)
      × Told p.errno (sys_close p.kernel (to_int a)) (close junk p a)
      × Told p.errno (sys_unlink p.kernel a) (unlink junk p a)
      × Told p.errno ((returned (to_int (sys_getpid p.kernel)), p.kernel)) (getpid junk p)
      × Told p.errno
          (on_sems p.kernel (sys_sem_init p.kernel.sems (to_int a) b))
          (sem_init junk p a b)
      × Told p.errno (on_wait p.kernel (sys_sem_wait p.kernel.sems (to_int a))) (sem_wait junk p a)
      × Told p.errno
          (on_sems p.kernel (sys_sem_signal p.kernel.sems (to_int a)))
          (sem_signal junk p a)
      × Told p.errno
          (on_sems p.kernel (sys_sem_destroy p.kernel.sems (to_int a)))
          (sem_destroy junk p a)
      × Told p.errno (answered (sys_nice p.kernel (to_int a))) (nice junk p a)
      × Told p.errno (answered (sys_get_stats p.kernel (to_int a) b)) (get_stats junk p a b)
      × Told p.errno (answered (sys_dup p.kernel (to_int a))) (dup junk p a)
unfolding system_call call_table exit fork read write open_path close unlink getpid sem_init
    sem_wait sem_signal sem_destroy nice get_stats dup
calls_lem junk p a b c = (
  report-Told p.errno (sys_exit p.kernel),
  report-Told p.errno (answered (sys_fork p.kernel)),
  report-Told p.errno (sys_read p.kernel (to_int a) b (to_int c)),
  report-Told p.errno (sys_write p.kernel (to_int a) b (to_int c)),
  report-Told p.errno (sys_open p.kernel a (to_int b)),
  report-Told p.errno (sys_close p.kernel (to_int a)),
  report-Told p.errno (sys_unlink p.kernel a),
  report-Told p.errno (returned (to_int (sys_getpid p.kernel)), p.kernel),
  report-Told p.errno (on_sems p.kernel (sys_sem_init p.kernel.sems (to_int a) b)),
  report-Told p.errno (on_wait p.kernel (sys_sem_wait p.kernel.sems (to_int a))),
  report-Told p.errno (on_sems p.kernel (sys_sem_signal p.kernel.sems (to_int a))),
  report-Told p.errno (on_sems p.kernel (sys_sem_destroy p.kernel.sems (to_int a))),
  report-Told p.errno (answered (sys_nice p.kernel (to_int a))),
  report-Told p.errno (answered (sys_get_stats p.kernel (to_int a) b)),
  report-Told p.errno (answered (sys_dup p.kernel (to_int a))),
)
