-- ===== src/Sys.antt =====
-- The state that the system calls of sys.c share, the checks they begin with, and the device
-- drivers of devices.c.
pub mod Memory
pub mod Devices
pub mod Files
pub mod Process
pub mod Keyboard
pub mod Stored
pub mod Ends
pub mod Dup
pub mod Faults
pub mod Trap
pub mod Pages
pub mod Clone
pub mod Fork
pub mod Loops
pub mod Exit
mod Tests
use Prim.Native.Nat.{bit_and}
use s.Base.{
  ℕ, ◌+◌, ◌-◌, Bool, true, false, not, ◌&&◌, ◌||◌, Option, none, some, List, ℤ, pos, negsuc, minus,
  is_neg, pos_part, ◌=ℤ◌, update, ◌==◌, ltb, if◌then◌else◌,
}
use s.CircBuff.{CircBuff}
use s.Mm.{bits_of}
use s.Utils.{AccessType, access_ok}
use s.Sched.{Sched, Task, current_task, modify, num_channels, free_channel}
use s.Sem.{Sems}
use s.Channel.{DynChannel}
use s.Fat.{Fat}
use s.Fat.Calls.{and_int}

-- `memory f` is what frame `f` of physical memory holds, by the place in the frame, beside the
-- variables of the kernel, which are fields of their own; `console` the characters printed.
pub record Kernel : Type 0 where
  pub sems : Sems
  pub dyn_channels : ℕ → DynChannel
  pub fs : Fat
  pub circular_buffer : CircBuff
  pub sysbuff : ℕ → ℕ
  pub memory : ℕ → ℕ → ℕ
  pub console : List ℕ
  pub pid_counter : ℕ

-- How a call ends: with a number; with another task on the processor; or in behaviour that C leaves
-- undefined, a call through a null pointer or an access outside a buffer.
pub data Outcome : Type 0 where
  returned : ℤ → Outcome
  switched undefined : Outcome

abbrev pub sched_of : Kernel → Sched
sched_of k = k.sems.sched

abbrev pub with_sched : Kernel → Sched → Kernel
with_sched k s = record k { sems = record (k.sems) { sched = s } }

abbrev pub current : Kernel → Task
current k = current_task (sched_of k)

-- `current()->channels[fd].dynamic = v`
abbrev pub set_channel : Kernel → ℕ → ℤ → Kernel
set_channel k fd v =
    with_sched k
      (modify (sched_of k) (sched_of k).current λ t. record t { channels = update t.channels fd v })

-- `dyn_channels[d]` changed
abbrev pub set_dyn : Kernel → ℕ → (DynChannel → DynChannel) → Kernel
set_dyn k d f = record k { dyn_channels = update k.dyn_channels d (f (k.dyn_channels d)) }

-- `fd > NUM_CHANNELS`: the number 10 is not refused.
unfoldable pub bad_fd : Kernel → ℤ → Bool
bad_fd k fd =
    if is_neg fd || ltb num_channels (pos_part fd)
    then true
    else (current k).channels (pos_part fd) =ℤ free_channel

-- The entry of the shared table behind a channel of the current task.
abbrev pub dynamic_of : Kernel → ℤ → ℕ
dynamic_of k fd = pos_part ((current k).channels (pos_part fd))

unfoldable pub fd_access_ok : Kernel → ℤ → ℕ → Bool
unfolding bad_fd
fd_access_ok k fd mode =
    if bad_fd k fd then false else and_int (k.dyn_channels (dynamic_of k fd)).mode mode == mode

-- `access_ok` with an `int` size, which is passed as an `unsigned long`.
abbrev pub buffer_ok : AccessType → ℕ → ℤ → Bool
buffer_ok type addr count = access_ok type addr (bits_of 32 count)
