-- ===== src/Sys/Trap.antt =====
-- `system_call` and `sys_call_table` of entry.S: which call a trap runs. A register is a 32-bit
-- pattern. Also the calls of sys.c that only print.
use s.Base.{
  ℕ, Option, none, some, List, ◌++◌, ℤ, pos, minus, ◌==◌, ltb, if◌then◌else◌, codes, is_neg,
}
use s.Sem.{Sems, to_int, sys_sem_init, sys_sem_wait, sys_sem_signal, sys_sem_destroy}
use s.Sys.{Kernel, Outcome, returned, switched}
use s.Sys.Files.{sys_read, sys_write, sys_open, sys_close, sys_unlink, sys_dup}
use s.Sys.Process.{sys_exit, sys_fork, sys_getpid, sys_nice, sys_get_stats}

abbrev pub enosys : ℕ
enosys = 38

abbrev pub sys_exit_id : ℕ
sys_exit_id = 1

abbrev pub sys_fork_id : ℕ
sys_fork_id = 2

abbrev pub sys_read_id : ℕ
sys_read_id = 3

abbrev pub sys_write_id : ℕ
sys_write_id = 4

abbrev pub sys_open_id : ℕ
sys_open_id = 5

abbrev pub sys_close_id : ℕ
sys_close_id = 6

abbrev pub sys_unlink_id : ℕ
sys_unlink_id = 10

abbrev pub sys_getpid_id : ℕ
sys_getpid_id = 20

abbrev pub sys_sem_init_id : ℕ
sys_sem_init_id = 21

abbrev pub sys_sem_wait_id : ℕ
sys_sem_wait_id = 22

abbrev pub sys_sem_signal_id : ℕ
sys_sem_signal_id = 23

abbrev pub sys_sem_destroy_id : ℕ
sys_sem_destroy_id = 24

abbrev pub sys_debug_id : ℕ
sys_debug_id = 32

abbrev pub sys_nice_id : ℕ
sys_nice_id = 34

abbrev pub sys_get_stats_id : ℕ
sys_get_stats_id = 35

abbrev pub sys_dup_id : ℕ
sys_dup_id = 41

-- The greatest number of a call, which `system_call` compares with.
abbrev pub syscall_table_size : ℕ
syscall_table_size = 41

-- Calls of functions that answer a number.
abbrev pub answered : ℤ × Kernel → Outcome × Kernel
answered (n, k) = (returned n, k)

abbrev pub on_sems : Kernel → ℤ × Sems → Outcome × Kernel
on_sems k (n, m) = (returned n, record k { sems = m })

abbrev pub on_wait : Kernel → Option ℤ × Sems → Outcome × Kernel
on_wait k (some n, m) = (returned n, record k { sems = m })
on_wait k (none, m) = (switched, record k { sems = m })

-- `printk`, seen from the characters alone.
abbrev pub print : Kernel → List ℕ → Kernel
print k text = record k { console = k.console ++ text }

unfoldable pub sys_ni_syscall : Kernel → ℤ × Kernel
sys_ni_syscall k = (minus enosys, print k (codes "Not implemented yet!\n"))

unfoldable pub sys_debug : Kernel → ℤ × Kernel
sys_debug k = (pos 0, print k (codes "Debug syscall!\n"))

-- `call *sys_call_table(, %eax, 0x04)`, with the arguments that the function takes from the stack.
unfoldable pub call_table : Kernel → (eax ebx ecx edx : ℕ) → Outcome × Kernel
call_table k eax ebx ecx edx =
    if eax == 1
    then sys_exit k
    else if eax == 2
    then answered (sys_fork k)
    else if eax == 3
    then sys_read k (to_int ebx) ecx (to_int edx)
    else if eax == 4
    then sys_write k (to_int ebx) ecx (to_int edx)
    else if eax == 5
    then sys_open k ebx (to_int ecx)
    else if eax == 6
    then sys_close k (to_int ebx)
    else if eax == 10
    then sys_unlink k ebx
    else if eax == 20
    then (returned (to_int (sys_getpid k)), k)
    else if eax == 21
    then on_sems k (sys_sem_init k.sems (to_int ebx) ecx)
    else if eax == 22
    then on_wait k (sys_sem_wait k.sems (to_int ebx))
    else if eax == 23
    then on_sems k (sys_sem_signal k.sems (to_int ebx))
    else if eax == 24
    then on_sems k (sys_sem_destroy k.sems (to_int ebx))
    else if eax == 32
    then answered (sys_debug k)
    else if eax == 34
    then answered (sys_nice k (to_int ebx))
    else if eax == 35
    then answered (sys_get_stats k (to_int ebx) ecx)
    else if eax == 41
    then answered (sys_dup k (to_int ebx))
    else answered (sys_ni_syscall k)

-- `system_call`: a number below 0 or above the table's answers -ENOSYS without a call.
unfoldable pub system_call : Kernel → (eax ebx ecx edx : ℕ) → Outcome × Kernel
system_call k eax ebx ecx edx =
    if is_neg (to_int eax)
    then (returned (minus enosys), k)
    else if ltb syscall_table_size eax
    then (returned (minus enosys), k)
    else call_table k eax ebx ecx edx
