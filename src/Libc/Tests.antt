-- ===== src/Libc/Tests.antt =====
-- A program on the kernel of Sem.Sample, and the theorems on libc.c at it.
use s.Base.{◌≡◌, refl, pos, arith}
use s.Sem.{to_int, sys_sem_init, sys_sem_wait, sys_sem_signal, sys_sem_destroy}
use s.Sys.{returned}
use s.Sys.Files.{sys_read, sys_write, sys_open, sys_close, sys_unlink, sys_dup}
use s.Sys.Process.{sys_exit, sys_fork, sys_getpid, sys_nice, sys_get_stats}
use s.Sys.Trap.{answered, on_sems, on_wait}
use s.Libc.{
  Process, exit, fork, read, write, open_path, close, unlink, getpid, sem_init, sem_wait,
  sem_signal, sem_destroy, nice, get_stats, dup,
}
use s.Libc.Calls.{Told, calls_lem}
use s.Libc.Errors.{Tried, sem_calls-Tried}
use s.Libc.{message}
use s.Sem.Sample.{kernel, queues, kernel-IsValid}
use s.Sem.{einval, eperm, ebusy}
use s.Channel.{null}
use s.Base.{[], ◌∷◌, codes}

abbrev process : Process
process = record {
  kernel = record {
    sems = kernel;
    dyn_channels =
        λ i. record { fops = null; file = pos 0; mode = pos 0; offset = pos 0; opens = pos 0 };
    fs = record {
      root = λ f. record {
        name = λ i. 0;
        size = 0;
        block_count = 0;
        mode = pos 0;
        first_block = pos 0;
        last_block = pos 0;
        opens = pos 0;
      };
      total_block_count = pos 0;
      used_block_count = pos 0;
      first_free_block = pos 0;
      last_free_block = pos 0;
      free_block_count = pos 0;
      block_lists = λ b. pos 0;
      contents = λ b i. 0;
      block_buffer = λ i. 0;
    };
    circular_buffer = record { mem = λ i. 0; head = 0; tail = 0; count = 0 };
    sysbuff = λ i. 0;
    memory = λ t a. 0;
    console = [];
    pid_counter = 0;
  };
  errno = 0;
}

calls_lem_example :
    Told process.errno (sys_exit process.kernel) (exit 7 process)
    × Told process.errno (answered (sys_fork process.kernel)) (fork 7 process)
    × Told process.errno (sys_read process.kernel (to_int 1) 2 (to_int 3)) (read 7 process 1 2 3)
    × Told process.errno (sys_write process.kernel (to_int 1) 2 (to_int 3)) (write 7 process 1 2 3)
    × Told process.errno (sys_open process.kernel 1 (to_int 2)) (open_path 7 process 1 2)
    × Told process.errno (sys_close process.kernel (to_int 1)) (close 7 process 1)
    × Told process.errno (sys_unlink process.kernel 1) (unlink 7 process 1)
    × Told process.errno
        ((returned (to_int (sys_getpid process.kernel)), process.kernel))
        (getpid 7 process)
    × Told process.errno
        (on_sems process.kernel (sys_sem_init process.kernel.sems (to_int 1) 2))
        (sem_init 7 process 1 2)
    × Told process.errno
        (on_wait process.kernel (sys_sem_wait process.kernel.sems (to_int 1)))
        (sem_wait 7 process 1)
    × Told process.errno
        (on_sems process.kernel (sys_sem_signal process.kernel.sems (to_int 1)))
        (sem_signal 7 process 1)
    × Told process.errno
        (on_sems process.kernel (sys_sem_destroy process.kernel.sems (to_int 1)))
        (sem_destroy 7 process 1)
    × Told process.errno (answered (sys_nice process.kernel (to_int 1))) (nice 7 process 1)
    × Told process.errno
        (answered (sys_get_stats process.kernel (to_int 1) 2))
        (get_stats 7 process 1 2)
    × Told process.errno (answered (sys_dup process.kernel (to_int 1))) (dup 7 process 1)
calls_lem_example = calls_lem 7 process 1 2 3

sem_calls-Tried_example :
    Tried process (einval ∷ ebusy ∷ []) (sem_init 7 process 3 2)
    × Tried process (einval ∷ eperm ∷ []) (sem_wait 7 process 3)
    × Tried process (einval ∷ []) (sem_signal 7 process 3)
    × Tried process (einval ∷ eperm ∷ []) (sem_destroy 7 process 3)
sem_calls-Tried_example =
    sem_calls-Tried 7 process 3 2 queues kernel-IsValid (omega arith) (λ good e. ground arith)

message_run : message 9 ≡ codes "[perror] Bad file number.\n"
unfolding message
message_run = refl
