-- ===== src/Sys/Dup.antt =====
-- `sys_dup` of sys.c on every branch.
use s.Base.{
  ℕ, ◌<◌, ◌≡◌, refl, ◌≢◌, true, false, arith, ℤ, pos, minus, pos_part, is_neg, update, update_self,
  update_ne, if◌then◌else◌, Bool-cases, inl, inr, ap, ◌∙◌,
}
use s.Sched.{num_channels, free_channel, modify}
use s.Channel.{find_free_channel}
use s.Channel.Search.{Answer, found, missing, find_free_channel-Answer}
use s.Sys.{Kernel, sched_of, current, set_channel, bad_fd}
use s.Sys.Files.{ebadf, emfile, sys_dup}

-- The descriptor is one of a process's ten, and is in use.
abbrev pub IsOpen : Kernel → ℤ → Type 0
IsOpen k fd =
    (is_neg fd ≡ false)
    × (pos_part fd < num_channels)
    × ((current k).channels (pos_part fd) ≢ free_channel)

bad_fd-IsOpen : (k : Kernel) (fd : ℤ) → fd ≢ pos num_channels → bad_fd k fd ≡ false → IsOpen k fd
unfolding bad_fd
bad_fd-IsOpen k fd ne h = (ground (arith, h), ground (arith, h, ne), λ e. ground (arith, h, e))

bad_fd-shut : (k : Kernel) (fd : ℤ) → bad_fd k fd ≡ true → ¬ IsOpen k fd
unfolding bad_fd
bad_fd-shut k fd h (a, b, c) = ground (arith, h, a, b, c)

-- What `sys_dup` may do.
pub data Duped (k : Kernel) (fd : ℤ) : ℤ × Kernel → Type 0 where
  refused : ¬ IsOpen k fd → Duped k fd (minus ebadf, k)
  full :
      ((i : ℕ) → i < num_channels → (current k).channels i ≢ free_channel)
      → Duped k fd (minus emfile, k)
  -- The lowest free channel leads to the same entry; the other channels, the shared table, with its
  -- counts of opens, and the files stay as they are.
  duped :
      {n : ℕ} {k' : Kernel}
      → IsOpen k fd
      → n < num_channels
      → (current k).channels n ≡ free_channel
      → ((i : ℕ) → i < n → (current k).channels i ≢ free_channel)
      → (current k').channels n ≡ (current k).channels (pos_part fd)
      → ((i : ℕ) → i ≢ n → (current k').channels i ≡ (current k).channels i)
      → k'.dyn_channels ≡ k.dyn_channels
      → k'.fs ≡ k.fs
      → Duped k fd (pos n, k')

-- The answer of the search decides the rest of the call.
Answer-Duped :
    (k : Kernel) (fd r : ℤ)
    → IsOpen k fd
    → Answer (λ i. (current k).channels i ≡ free_channel) num_channels r
    → Duped k fd (
        if is_neg r
        then (minus emfile, k)
        else (r, set_channel k (pos_part r) ((current k).channels (pos_part fd))))
unfolding modify
Answer-Duped k fd r good (found {i = n} lt free least) =
    let chs = (current k).channels in
    let now =
      ap (λ t. t.channels)
        (update_self (sched_of k).task (sched_of k).current
          (record (current k) { channels = update chs n (chs (pos_part fd)) })) in
    duped good lt free least (ap (λ c. c n) now ∙ update_self chs n (chs (pos_part fd)))
      (λ i ne. ap (λ c. c i) now ∙ update_ne chs n i (chs (pos_part fd)) ne) refl refl
Answer-Duped k fd r good (missing none_free) = full none_free

-- For any descriptor but 10, which the code lets through, `sys_dup` refuses one that is not a
-- channel in use of the process, answers -EMFILE and changes nothing if the process has no free
-- channel, and otherwise answers the lowest free channel, which leads to the same entry of the
-- shared table from then on. The process's other channels, the shared table and the files stay as
-- they are.
pub sys_dup-Duped : (k : Kernel) (fd : ℤ) → fd ≢ pos num_channels → Duped k fd (sys_dup k fd)
unfolding sys_dup
sys_dup-Duped k fd in_array = elim (Bool-cases (bad_fd k fd)) [
  | inl p ↦ rw p (refused (bad_fd-shut k fd p))
  | inr p ↦ rw p (
      Answer-Duped k fd (find_free_channel (current k).channels) (bad_fd-IsOpen k fd in_array p)
        (find_free_channel-Answer (current k).channels))
]
