-- ===== src/Channel/Tests.antt =====
-- The searches of channel.c at concrete tables.
use s.Base.{◌≡◌, refl, find_below, ℕ, ℤ, pos, minus, ltb, if◌then◌else◌}
use s.Sched.{free_channel}
use s.Channel.{DynChannel, dev_file, find_free_channel, find_free_dyn_channel, file_is_in_use}

-- The channels 0, 1 and 2 are in use.
abbrev channels : ℕ → ℤ
channels i = if ltb i 3 then pos i else minus 1

-- The entries below 10 have the file of their own number open.
abbrev entries : ℕ → DynChannel
entries i = record {
  opens = if ltb i 10 then pos 1 else pos 0;
  mode = if ltb i 10 then pos 3 else free_channel;
  fops = dev_file;
  file = pos i;
  offset = pos 0;
}

channel_run : find_free_channel channels ≡ pos 3
unfolding find_free_channel find_below
channel_run = refl

in_use_run : file_is_in_use entries (pos 7) ≡ pos 7
unfolding file_is_in_use find_below
in_use_run = refl

-- The entries from 10 on are free, and are not looked at.
dyn_channel_run : find_free_dyn_channel entries ≡ minus 1
unfolding find_free_dyn_channel find_below
dyn_channel_run = refl
