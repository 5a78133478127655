-- ===== src/Sem/Inv.antt =====
-- The invariant of the semaphores: the scheduler's, the first task has pid 0, and no task waits at
-- a semaphore in use whose value is not 0.
use s.Base.{
  ℕ, ◌+◌, ◌-◌, ◌<◌, ◌≡◌, Bool, true, false, not, ◌⊎◌, inl, inr, List, [], arith, ◌==◌, ℤ, pos,
  is_neg, pos_part, fun_ext, update, sym, Bool-cases, ap, ==→≡,
}
use s.Sched.{sem_queue}
use s.Sched.Inv
use s.Sched.Inv.{is_node, is_head}
use s.Sem.{Sems, nr_sem, free_sem, bad_sem}

abbrev pub live : Sems → ℕ → Bool
live k i = not ((k.sems i).owner == free_sem)

pub record IsValid (k : Sems) (q : ℕ → List ℕ) : Type 0 where
  pub sched : Inv.IsValid (live k) k.sched q
  pub idle_pid : (k.sched.task 0).pid ≡ 0
  pub stocked :
      (i : ℕ)
      → i < nr_sem
      → live k i ≡ true
      → (is_neg (k.sems i).value ≡ false) × ((q (sem_queue i) ≡ []) ⊎ ((k.sems i).value ≡ pos 0))

pub good_sem : (n : ℤ) → bad_sem n ≡ false → pos_part n < nr_sem
good_sem n h = ground arith

-- The queue of a semaphore in use is one of the lists.
pub sem_queue-is_head :
    (l : ℕ → Bool) (i : ℕ) → i < nr_sem → l i ≡ true → is_head l (sem_queue i) ≡ true
sem_queue-is_head l i lt e =
    let back : 14 + i - 14 ≡ i = omega arith in ground (arith, at (14 + i - 14) back)
  where
    at : (j : ℕ) → j ≡ i → l j ≡ true
    at j p = rw p e

-- Changing a value keeps the semaphores in use.
pub live-value :
    (k : Sems) (i : ℕ) (v : ℤ)
    → live (record k { sems = update k.sems i (record (k.sems i) { value = v }) }) ≡ live k
unfolding update
live-value k i v = fun_ext (λ j. elim (Bool-cases (j == i)) [
  | inl p ↦ rw p (ap (λ t. not ((k.sems t).owner == free_sem)) (sym (==→≡ j i p)))
  | inr p ↦ rw p
])
