-- ===== src/Sem/Wait.antt =====
-- `sys_sem_wait` of sys.c on every branch.
use s.Base.{
  ℕ, suc, ◌≡◌, refl, ◌≢◌, true, false, ◌⊎◌, inl, inr, List, arith, ◌==◌, ℤ, pos, minus, is_neg,
  is_pos, pos_part, update, update_ne, subst, sym, Option, none, some, Bool-cases, ◌-ℤ◌, negsuc,
  zero, ap,
}
use s.ListHead.Move.{move}
use s.Sched.{
  Sched, sem_queue, runqueue, task_node, current_task, sched_block, sched_continue,
  sched_select_next, blocked,
}
use s.Sched.Inv
use s.Sched.Inv.{is_node, is_head}
use s.Sched.Moves.{Resumed}
use s.Sched.Block.{block-Resumed, block_ne}
use s.Sem.{Sems, free_sem, bad_sem, sys_sem_wait, einval, eperm}
use s.Sem.Inv.{live, IsValid, good_sem, sem_queue-is_head, live-value}

-- What a wait at semaphore `n` may do, with `q` the queues before.
pub data Waited (k : Sems) (n : ℤ) (q : ℕ → List ℕ) : Option ℤ × Sems → Type 0 where
  no_sem :
      (bad_sem n ≡ true) ⊎ (live k (pos_part n) ≡ false) → Waited k n q (some (minus einval), k)
  idle : (current_task k.sched).pid ≡ 0 → Waited k n q (some (minus eperm), k)
  -- The value is positive: it goes down by one, and the caller goes on.
  took :
      {k' : Sems} {v : ℕ}
      → (k.sems (pos_part n)).value ≡ pos (suc v)
      → (k'.sems (pos_part n)).value ≡ pos v
      → ((i : ℕ) → i ≢ pos_part n → k'.sems i ≡ k.sems i)
      → k'.sched ≡ k.sched
      → IsValid k' q
      → Waited k n q (some (pos 0), k')
  -- The value is 0: the caller is blocked at the end of the semaphore's queue, and the first task
  -- of the run queue goes on.
  blocks :
      {k' : Sems} {b : Sched}
      → (k.sems (pos_part n)).value ≡ pos 0
      → k'.sems ≡ k.sems
      → (k'.sched.task k.sched.current).state ≡ blocked
      → Resumed
          (live k)
          b
          (move q runqueue (sem_queue (pos_part n)) (task_node k.sched.current))
          k'.sched
      → IsValid k' (move q runqueue (sem_queue (pos_part n)) (task_node k.sched.current))
      → Waited k n q (none, k')

pos-suc : (z : ℤ) → is_pos z ≡ true → (w : ℕ) × (z ≡ pos (suc w))
pos-suc (pos zero) h = cc
pos-suc (pos (suc w)) h = (w, refl)
pos-suc (negsuc w) h = cc

zero_value : (z : ℤ) → is_pos z ≡ false → is_neg z ≡ false → z ≡ pos 0
zero_value (pos zero) p m = refl
zero_value (pos (suc w)) p m = cc
zero_value (negsuc w) p m = cc

module _ (k : Sems) (n : ℤ) (q : ℕ → List ℕ) (v : IsValid k q) (good : bad_sem n ≡ false)
    (used : live k (pos_part n) ≡ true) where
  i : ℕ
  i = pos_part n

  c : ℕ
  c = task_node k.sched.current

  -- The semaphore with one less.
  less : ℤ → Sems
  less z = record k { sems = update k.sems i (record (k.sems i) { value = z }) }

  less-IsValid : (w : ℕ) → (k.sems i).value ≡ pos (suc w) → IsValid (less (pos w)) q
  unfolding less
  less-IsValid w e = record {
    sched = subst (λ l. Inv.IsValid l k.sched q) (sym (live-value k i (pos w))) v.sched;
    idle_pid = v.idle_pid;
    stocked =
        λ j lt on. unfold update in ground (arith, v.stocked j lt, v.stocked i, good_sem n good);
  }

  wait-took :
      (current_task k.sched).pid == 0 ≡ false
      → is_pos (k.sems i).value ≡ true
      → Waited k n q (sys_sem_wait k n)
  unfolding i c less
  wait-took task p =
      let (w, e) = pos-suc (k.sems i).value p in
      let down : (k.sems i).value -ℤ pos 1 ≡ pos w = rw e (unfold ◌-ℤ◌ in ground arith) in
      let off : (k.sems i).owner == free_sem ≡ false = ground arith in
      unfold sys_sem_wait in
      rw (good, off, task, p, down)
        (took {k' = less (pos w)} e (unfold update in ground arith)
          (λ j ne. update_ne k.sems i j (record (k.sems i) { value = pos w }) ne) refl
          (less-IsValid w e))

  -- The scheduler after the caller has been blocked, and after the next task has been chosen.
  blocked_sched : Sched
  blocked_sched = sched_block k.sched k.sched.current (sem_queue i)

  next_sched : Sched
  unfolding blocked_sched
  next_sched = sched_continue blocked_sched (sched_select_next blocked_sched)

  sem_queue-ne : sem_queue i ≢ runqueue
  sem_queue-ne e = omega arith

  next-Resumed :
      k.sched.current ≢ 0
      → Resumed (live k) blocked_sched (move q runqueue (sem_queue i) c) next_sched
  unfolding blocked_sched next_sched i c
  next-Resumed ne =
      block-Resumed (live k) k.sched q v.sched (sem_queue i)
        (sem_queue-is_head (live k) i (good_sem n good) used) sem_queue-ne ne k.sched refl refl

  blocked_state :
      k.sched.current ≢ next_sched.current → (next_sched.task k.sched.current).state ≡ blocked
  unfolding blocked_sched next_sched sched_block sched_continue update
  blocked_state ne = ground arith

  next-IsValid :
      k.sched.current ≢ 0
      → (k.sems i).value ≡ pos 0
      → IsValid (record k { sched = next_sched }) (move q runqueue (sem_queue i) c)
  unfolding i
  next-IsValid ne z = record {
    sched = (next-Resumed ne).valid;
    idle_pid =
        unfold next_sched blocked_sched sched_block sched_continue update in
        ground (arith, v.idle_pid);
    stocked = λ j lt on. unfold update in ground (arith, v.stocked j lt);
  }

  next-ne : k.sched.current ≢ 0 → k.sched.current ≢ next_sched.current
  unfolding blocked_sched next_sched i
  next-ne ne e =
      block_ne (live k) k.sched q v.sched (sem_queue i)
        (sem_queue-is_head (live k) i (good_sem n good) used) sem_queue-ne ne k.sched refl refl
        (sym e)

  wait-blocks :
      (current_task k.sched).pid == 0 ≡ false
      → is_pos (k.sems i).value ≡ false
      → Waited k n q (sys_sem_wait k n)
  unfolding i c next_sched blocked_sched sched_continue
  wait-blocks task p =
      let off : (k.sems i).owner == free_sem ≡ false = ground arith in
      let z : (k.sems i).value ≡ pos 0 =
        zero_value (k.sems i).value p (v.stocked i (good_sem n good) used).0 in
      let ne : k.sched.current ≢ 0 =
        λ e. ground (arith, v.idle_pid, ap (λ t. (k.sched.task t).pid) e) in
      unfold sys_sem_wait in
      rw (good, off, task, p)
        (blocks {k' = record k { sched = next_sched }} {b = blocked_sched} z refl
          (blocked_state (next-ne ne)) (next-Resumed ne) (next-IsValid ne z))

-- On a valid kernel, `sys_sem_wait` keeps the invariant, and does one of four things: it refuses a
-- number that names no semaphore in use, it refuses the first process, it takes one from a positive
-- value, or it blocks the caller at the end of the semaphore's queue and hands the processor to the
-- first runnable task, which there always is.
pub sys_sem_wait-Waited :
    (k : Sems) (n : ℤ) (q : ℕ → List ℕ) → IsValid k q → Waited k n q (sys_sem_wait k n)
unfolding sys_sem_wait i
sys_sem_wait-Waited k n q v = elim (Bool-cases (bad_sem n)) [
  | inl p ↦ rw p (no_sem (inl p))
  | inr good ↦ elim (Bool-cases ((k.sems (pos_part n)).owner == free_sem)) [
    | inl p ↦ rw (good, p) (no_sem (inr (rw p)))
    | inr used ↦ elim (Bool-cases ((current_task k.sched).pid == 0)) [
      | inl p ↦ rw (good, used, p) (idle (ground arith))
      | inr task ↦ elim (Bool-cases (is_pos (k.sems (pos_part n)).value)) [
        | inl p ↦ wait-took k n q v good (ground arith) task p
        | inr p ↦ wait-blocks k n q v good (ground arith) task p
      ]
    ]
  ]
]
