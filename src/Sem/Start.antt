-- ===== src/Sem/Start.antt =====
-- `sys_sem_init` of sys.c on every branch.
use s.Base.{
  ℕ, ◌-◌, ◌<◌, ◌^◌, ◌≡◌, refl, ◌≢◌, true, false, not, inl, inr, List, [], arith, ◌==◌, ℤ, pos,
  minus, pos_part, update, update_ne, Bool-cases,
}
use s.ListHead.{init_list_head}
use s.ListHead.Queues.{init-IsQueues}
use s.Sched.{sem_queue, current_task}
use s.Sched.Inv.{is_node, is_head}
use s.Sem.{Sems, free_sem, bad_sem, sys_sem_init, to_int, einval, ebusy}
use s.Sem.Inv.{live, IsValid}

-- What making semaphore `n` with a value may do, with `q` the queues before.
pub data Started (k : Sems) (n : ℤ) (value : ℕ) (q : ℕ → List ℕ) : ℤ × Sems → Type 0 where
  no_sem : bad_sem n ≡ true → Started k n value q (minus einval, k)
  in_use : live k (pos_part n) ≡ true → Started k n value q (minus ebusy, k)
  made :
      {k' : Sems}
      → (k'.sems (pos_part n) ≡ record { owner = (current_task k.sched).pid; value = pos value })
      → ((i : ℕ) → i ≢ pos_part n → k'.sems i ≡ k.sems i)
      → k'.sched.task ≡ k.sched.task
      → IsValid k' (update q (sem_queue (pos_part n)) [])
      → Started k n value q (pos 0, k')

module _ (k : Sems) (n : ℤ) (value : ℕ) (q : ℕ → List ℕ) (v : IsValid k q) (small : value < 2 ^ 31)
    (good : bad_sem n ≡ false) (unused : live k (pos_part n) ≡ false) where
  abbrev fresh : Sems
  fresh = record {
    sched = record (k.sched) { heap = init_list_head k.sched.heap (sem_queue (pos_part n)) };
    sems =
        update k.sems (pos_part n)
          (record { owner = (current_task k.sched).pid; value = pos value });
  }

  fresh-head :
      (j : ℕ)
      → is_head (live fresh) j ≡ true
      → j ≢ sem_queue (pos_part n)
      → is_head (live k) j ≡ true
  unfolding update
  fresh-head j hj ne = elim (Bool-cases (j - 14 == pos_part n)) [
    | inl p ↦ ground arith
    | inr p ↦ ground arith
  ]

  fresh-IsValid : IsValid fresh (update q (sem_queue (pos_part n)) [])
  fresh-IsValid = record {
    sched = record {
      queues =
          init-IsQueues is_node (is_head (live k)) (is_head (live fresh)) k.sched.heap q
            (sem_queue (pos_part n)) fresh-head (ground arith) v.sched.queues;
      current_in = unfold update in ground (arith, v.sched.current_in);
      idle_in = unfold update in ground (arith, v.sched.idle_in);
    };
    idle_pid = v.idle_pid;
    stocked = λ j lt on. unfold update in ground (arith, v.stocked j lt);
  }

  init-made : Started k n value q (sys_sem_init k n value)
  init-made =
      let on : not ((k.sems (pos_part n)).owner == free_sem) ≡ false = unused in
      let same : to_int value ≡ pos value = ground arith in
      unfold sys_sem_init in
      rw (good, on, same)
        (made {k' = fresh} (unfold update in ground arith)
          (λ j ne.
            update_ne k.sems (pos_part n) j
              (record { owner = (current_task k.sched).pid; value = pos value }) ne)
          refl fresh-IsValid)

-- On a valid kernel and for a value that fits an `int`, `sys_sem_init` keeps the invariant, and
-- does one of three things: it refuses a number out of range, it refuses a semaphore in use, or it
-- gives the semaphore to the caller with that value and nobody waiting.
pub sys_sem_init-Started :
    (k : Sems) (n : ℤ) (value : ℕ) (q : ℕ → List ℕ)
    → IsValid k q
    → value < 2 ^ 31
    → Started k n value q (sys_sem_init k n value)
unfolding sys_sem_init
sys_sem_init-Started k n value q v small = elim (Bool-cases (bad_sem n)) [
  | inl p ↦ rw p (no_sem p)
  | inr good ↦ elim (Bool-cases (live k (pos_part n))) [
    | inl p ↦ rw (good, p) (in_use p)
    | inr p ↦ init-made k n value q v small good p
  ]
]
