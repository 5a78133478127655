-- ===== src/Libc.antt =====
-- libc.c and include/libc.h: the calls that user programs make. A trap is `system_call` of entry.S;
-- an argument is the 32-bit pattern in its register. A register that a call does not set is `junk`,
-- a parameter. A call that ends with another task on the processor has no answer here: the program
-- finds it in its register when it runs again.
pub mod Calls
pub mod Errors
mod Tests
use s.Base.{ℕ, ◌+◌, List, ℤ, pos, negsuc, minus, is_neg, ◌==◌, if◌then◌else◌, codes, length}
use s.Sem.{eperm, ebusy, einval, to_int}
use s.Fat.{enoent, enospc, enametoolong}
use s.Sys.{Kernel, Outcome, returned, switched, undefined}
use s.Sys.Files.{ebadf, eacces, efault, eexist, emfile}
use s.Sys.Process.{esrch, eagain, enomem}
use s.Sys.Trap.{
  system_call, enosys, sys_exit_id, sys_fork_id, sys_read_id, sys_write_id, sys_open_id,
  sys_close_id, sys_unlink_id, sys_getpid_id, sys_sem_init_id, sys_sem_wait_id, sys_sem_signal_id,
  sys_sem_destroy_id, sys_debug_id, sys_nice_id, sys_get_stats_id, sys_dup_id,
}

abbrev pub stderr : ℕ
stderr = 2

-- What a program sees: the kernel through its calls, and its own `errno`.
pub record Process : Type 0 where
  pub kernel : Kernel
  pub errno : ℕ

-- `-error` of a negative number
abbrev pub negated : ℤ → ℕ
negated (pos n) = 0
negated (negsuc n) = n + 1

-- `if (error < 0) { errno = -error; return -1; } else return error;`
unfoldable pub report : ℕ → Outcome × Kernel → Outcome × Process
report errno (returned error, k) =
    if is_neg error
    then (returned (minus 1), record { kernel = k; errno = negated error })
    else (returned error, record { kernel = k; errno = errno })
report errno (switched, k) = (switched, record { kernel = k; errno = errno })
report errno (undefined, k) = (undefined, record { kernel = k; errno = errno })

-- The texts of `perror`, without the '\0' that `sizeof` counts too.
unfoldable pub message : ℕ → List ℕ
message errno =
    if errno == eperm
    then codes "[perror] Operation not permitted.\n"
    else if errno == enoent
    then codes "[perror] No such file or directory.\n"
    else if errno == esrch
    then codes "[perror] No such process.\n"
    else if errno == ebadf
    then codes "[perror] Bad file number.\n"
    else if errno == eagain
    then codes "[perror] Try again.\n"
    else if errno == enomem
    then codes "[perror] Out of memory.\n"
    else if errno == eacces
    then codes "[perror] Permission denied.\n"
    else if errno == efault
    then codes "[perror] Bad address.\n"
    else if errno == ebusy
    then codes "[perror] Device or resource busy.\n"
    else if errno == eexist
    then codes "[perror] File exists.\n"
    else if errno == einval
    then codes "[perror] Invalid argument.\n"
    else if errno == emfile
    then codes "[perror] Too many open files.\n"
    else if errno == enospc
    then codes "[perror] No space left on device.\n"
    else if errno == enametoolong
    then codes "[perror] File name too long.\n"
    else if errno == enosys
    then codes "[perror] Function not implemented.\n"
    else codes "[perror] Unknown error, fuck off!\n"

-- `return errno;` comes after the write, which may have set it. `address` says where the linker
-- puts a text.
abbrev pub last_errno : Outcome × Process → Outcome × Process
last_errno (returned n, p) = (returned (to_int p.errno), p)
last_errno (switched, p) = (switched, p)
last_errno (undefined, p) = (undefined, p)

module _ (junk : ℕ) where
  abbrev pub no_arg_syscall : Process → (id : ℕ) → Outcome × Process
  no_arg_syscall p id = report p.errno (system_call p.kernel id junk junk junk)

  abbrev pub one_arg_syscall : Process → (id arg0 : ℕ) → Outcome × Process
  one_arg_syscall p id arg0 = report p.errno (system_call p.kernel id arg0 junk junk)

  abbrev pub two_arg_syscall : Process → (id arg0 arg1 : ℕ) → Outcome × Process
  two_arg_syscall p id arg0 arg1 = report p.errno (system_call p.kernel id arg0 arg1 junk)

  abbrev pub three_arg_syscall : Process → (id arg0 arg1 arg2 : ℕ) → Outcome × Process
  three_arg_syscall p id arg0 arg1 arg2 = report p.errno (system_call p.kernel id arg0 arg1 arg2)

  unfoldable pub exit : Process → Outcome × Process
  exit p = no_arg_syscall p sys_exit_id

  unfoldable pub fork : Process → Outcome × Process
  fork p = no_arg_syscall p sys_fork_id

  unfoldable pub read : Process → (fd buffer size : ℕ) → Outcome × Process
  read p fd buffer size = three_arg_syscall p sys_read_id fd buffer size

  unfoldable pub write : Process → (fd buffer size : ℕ) → Outcome × Process
  write p fd buffer size = three_arg_syscall p sys_write_id fd buffer size

  unfoldable pub open_path : Process → (path flags : ℕ) → Outcome × Process
  open_path p path flags = two_arg_syscall p sys_open_id path flags

  unfoldable pub close : Process → (fd : ℕ) → Outcome × Process
  close p fd = one_arg_syscall p sys_close_id fd

  unfoldable pub unlink : Process → (path : ℕ) → Outcome × Process
  unlink p path = one_arg_syscall p sys_unlink_id path

  unfoldable pub getpid : Process → Outcome × Process
  getpid p = no_arg_syscall p sys_getpid_id

  unfoldable pub sem_init : Process → (n_sem value : ℕ) → Outcome × Process
  sem_init p n_sem value = two_arg_syscall p sys_sem_init_id n_sem value

  unfoldable pub sem_wait : Process → (n_sem : ℕ) → Outcome × Process
  sem_wait p n_sem = one_arg_syscall p sys_sem_wait_id n_sem

  unfoldable pub sem_signal : Process → (n_sem : ℕ) → Outcome × Process
  sem_signal p n_sem = one_arg_syscall p sys_sem_signal_id n_sem

  unfoldable pub sem_destroy : Process → (n_sem : ℕ) → Outcome × Process
  sem_destroy p n_sem = one_arg_syscall p sys_sem_destroy_id n_sem

  unfoldable pub nice : Process → (quantum : ℕ) → Outcome × Process
  nice p quantum = one_arg_syscall p sys_nice_id quantum

  unfoldable pub get_stats : Process → (pid st : ℕ) → Outcome × Process
  get_stats p pid st = two_arg_syscall p sys_get_stats_id pid st

  unfoldable pub dup : Process → (fd : ℕ) → Outcome × Process
  dup p fd = one_arg_syscall p sys_dup_id fd

  unfoldable pub debug : Process → Outcome × Process
  debug p = no_arg_syscall p sys_debug_id

  unfoldable pub perror : (List ℕ → ℕ) → Process → Outcome × Process
  perror address p =
      let text = message p.errno in last_errno (write p stderr (address text) (length text + 1))
