-- ===== src/Channel.antt =====
-- channel.c and include/channel.h: the table of open channels that all tasks share. A task's own
-- channels are numbers of entries of it.
pub mod Search
mod Tests
use s.Base.{
  ℕ, ◌*◌, Bool, true, false, ◌&&◌, Option, none, some, ℤ, pos, minus, is_pos, ◌=ℤ◌, update,
  if◌then◌else◌, find_below, loop,
}
use s.Sched.{num_channels, free_channel}

abbrev pub num_dynamic_channels : ℕ
num_dynamic_channels = num_channels * 10

-- What `fops` points to: nothing yet, or one of the three devices of devices.c.
pub data Fops : Type 0 where
  null dev_file dev_console dev_keyboard : Fops

pub record DynChannel : Type 0 where
  pub fops : Fops
  pub file : ℤ
  pub mode : ℤ
  pub offset : ℤ
  pub opens : ℤ

unfoldable pub init_dynamic_channels : (ℕ → DynChannel) → ℕ → DynChannel
unfolding loop
init_dynamic_channels dyn_channels =
    loop num_dynamic_channels
      (λ i d. update d i (record (d i) { mode = free_channel; opens = pos 0 })) dyn_channels

abbrev pub or_minus_one : Option ℕ → ℤ
or_minus_one (some i) = pos i
or_minus_one none = minus 1

unfoldable pub find_free_channel : (ℕ → ℤ) → ℤ
find_free_channel chs = or_minus_one (find_below num_channels (λ i. chs i =ℤ free_channel))

-- The loop runs to NUM_CHANNELS, not to NUM_DYNAMIC_CHANNELS.
unfoldable pub find_free_dyn_channel : (ℕ → DynChannel) → ℤ
find_free_dyn_channel dyn_channels =
    or_minus_one (find_below num_channels (λ i. (dyn_channels i).mode =ℤ free_channel))

unfoldable pub file_is_in_use : (ℕ → DynChannel) → ℤ → ℤ
file_is_in_use dyn_channels file = or_minus_one (
    find_below num_dynamic_channels
      λ i. ((dyn_channels i).file =ℤ file) && is_pos (dyn_channels i).opens)
