-- ===== src/Channel/Search.antt =====
-- The searches of channel.c.
use s.Base.{
  ℕ, ◌<◌, ◌≡◌, ◌≢◌, refl, Bool, true, ◌&&◌, Option, none, some, ℤ, pos, minus, is_pos, ◌=ℤ◌, =ℤ→≡,
  arith, find_below, find_below-Least, Least,
}
use s.Sched.{num_channels, free_channel}
use s.Channel.{
  DynChannel, find_free_channel, find_free_dyn_channel, file_is_in_use, num_dynamic_channels,
  or_minus_one,
}

-- The answer of a search below `n`: the least number with the property, or -1 if there is none.
pub data Answer (P : ℕ → Type 0) (n : ℕ) : ℤ → Type 0 where
  found : {i : ℕ} → i < n → P i → ((j : ℕ) → j < i → ¬ P j) → Answer P n (pos i)
  missing : ((j : ℕ) → j < n → ¬ P j) → Answer P n (minus 1)

-- A test that decides a property makes a search for it.
Least-Answer :
    (P : ℕ → Type 0) (test : ℕ → Bool) (n : ℕ) (r : Option ℕ)
    → ((i : ℕ) → test i ≡ true → P i)
    → ((i : ℕ) → P i → test i ≡ true)
    → Least test 0 n r
    → Answer P n (or_minus_one r)
Least-Answer P test n (some i) sound complete l =
    found l.1 (sound i l.2) (λ j lt p. ground (arith, l.3 j (omega arith) lt, complete j p))
Least-Answer P test n none sound complete l =
    missing (λ j lt p. ground (arith, l j (omega arith) lt, complete j p))

-- `find_free_channel` answers the lowest free channel of a task, and -1 only if none is free.
pub find_free_channel-Answer :
    (chs : ℕ → ℤ) → Answer (λ i. chs i ≡ free_channel) num_channels (find_free_channel chs)
unfolding find_free_channel
find_free_channel-Answer chs =
    Least-Answer (λ i. chs i ≡ free_channel) (λ i. chs i =ℤ free_channel) num_channels
      (find_below num_channels (λ i. chs i =ℤ free_channel)) (λ i h. =ℤ→≡ _ _ h)
      (λ i h. ground arith) (find_below-Least num_channels (λ i. chs i =ℤ free_channel))

-- `file_is_in_use` answers the lowest entry that has the file open, and -1 only if none has.
pub file_is_in_use-Answer :
    (dyn_channels : ℕ → DynChannel) (file : ℤ)
    → Answer
        (λ i. ((dyn_channels i).file ≡ file) × (is_pos (dyn_channels i).opens ≡ true))
        num_dynamic_channels
        (file_is_in_use dyn_channels file)
unfolding file_is_in_use
file_is_in_use-Answer d file =
    Least-Answer (λ i. ((d i).file ≡ file) × (is_pos (d i).opens ≡ true))
      (λ i. ((d i).file =ℤ file) && is_pos (d i).opens) num_dynamic_channels
      (find_below num_dynamic_channels (λ i. ((d i).file =ℤ file) && is_pos (d i).opens))
      (λ i h. (=ℤ→≡ _ _ (ground arith), ground arith)) (λ i h. ground arith)
      (find_below-Least num_dynamic_channels (λ i. ((d i).file =ℤ file) && is_pos (d i).opens))

-- Only the first 10 of the 100 entries are searched: with those in use, `find_free_dyn_channel`
-- answers -1 whatever the others hold.
pub find_free_dyn_channel-busy :
    (dyn_channels : ℕ → DynChannel)
    → ((i : ℕ) → i < num_channels → (dyn_channels i).mode ≢ free_channel)
    → find_free_dyn_channel dyn_channels ≡ minus 1
unfolding find_free_dyn_channel
find_free_dyn_channel-busy d busy =
    go (find_below num_channels test) (find_below-Least num_channels test)
  where
    test : ℕ → Bool
    test i = (d i).mode =ℤ free_channel

    go : (r : Option ℕ) → Least test 0 num_channels r → or_minus_one r ≡ minus 1
    go (some i) l = absurd (busy i l.1 (=ℤ→≡ _ _ l.2))
    go none l = refl
