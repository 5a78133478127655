-- ===== src/Sem/Signal.antt =====
-- `sys_sem_signal` of sys.c on every branch, and how a waiting task is woken.
use s.Base.{
  List-cases, ℕ, ◌<◌, ◌≡◌, refl, ◌≢◌, Bool, true, false, ◌⊎◌, inl, inr, List, [], ◌∷◌, arith, ◌==◌,
  ℤ, pos, minus, is_neg, pos_part, update, update_ne, subst, sym, ◌∙◌, Bool-cases, ◌+ℤ◌, ◌=ℤ◌, =ℤ→≡,
  update_self, ap, ==→≡,
}
use s.ListHead.{list_empty, list_first}
use s.ListHead.Links.{IsQueue}
use s.ListHead.Queue.{list_empty-nil, list_empty-cons}
use s.Sched.{Sched, sem_queue, runqueue, task_node, list_head_to_task_struct}
use s.Sched.Inv
use s.Sched.Wake.{Woken, unblock-Woken}
use s.Sched.Inv.{is_node, is_head, first-node}
use s.Sem.{Sems, nr_sem, free_sem, bad_sem, sys_sem_signal, wake_first, einval, increment, int_max}
use s.Sem.Inv.{live, IsValid, good_sem, sem_queue-is_head, live-value}

pub wake_first-Woken :
    (l : ℕ → Bool) (s : Sched) (q : ℕ → List ℕ) (head : ℕ) (r : ℤ) (x : ℕ) (xs : List ℕ)
    → Inv.IsValid l s q
    → is_head l head ≡ true
    → head ≢ runqueue
    → q head ≡ x ∷ xs
    → (tsk : ℕ) × (task_node tsk ≡ x) × Woken l s q head r xs tsk (wake_first s head r)
unfolding wake_first
wake_first-Woken l s q head r x xs v hh ne e =
    let tsk = list_head_to_task_struct (list_first s.heap head) in
    let node : task_node tsk ≡ x = first-node l s q head x xs v.queues hh e in
    (
      tsk,
      node,
      unblock-Woken l s _ q head r tsk xs v hh ne (e ∙ ap (λ y. y ∷ xs) (sym node)) refl refl
          (unfold update in ground arith) (λ u n. unfold update in ground arith)
          (λ u. unfold update in ground arith),
    )

-- What a signal to semaphore `n` may do, with `q` the queues before.
pub data Signalled (k : Sems) (n : ℤ) (q : ℕ → List ℕ) : ℤ × Sems → Type 0 where
  no_sem : (bad_sem n ≡ true) ⊎ (live k (pos_part n) ≡ false) → Signalled k n q (minus einval, k)
  -- No task waits: the value goes up by one.
  gave :
      {k' : Sems}
      → q (sem_queue (pos_part n)) ≡ []
      → (k'.sems (pos_part n)).value ≡ (k.sems (pos_part n)).value +ℤ pos 1
      → ((i : ℕ) → i ≢ pos_part n → k'.sems i ≡ k.sems i)
      → k'.sched ≡ k.sched
      → IsValid k' q
      → Signalled k n q (pos 0, k')
  -- The task that has waited longest is woken, and no value changes.
  woke :
      {k' : Sems} {tsk : ℕ} {xs : List ℕ}
      → q (sem_queue (pos_part n)) ≡ task_node tsk ∷ xs
      → k'.sems ≡ k.sems
      → (w : Woken (live k) k.sched q (sem_queue (pos_part n)) (pos 0) xs tsk k'.sched)
      → IsValid k' w.q'
      → Signalled k n q (pos 0, k')

increment-more : (z : ℤ) → z ≢ pos int_max → increment z ≡ z +ℤ pos 1
unfolding increment
increment-more z ne = elim (Bool-cases (z =ℤ pos int_max)) [
  | inl h ↦ absurd (ne (=ℤ→≡ z (pos int_max) h))
  | inr h ↦ rw h refl
]

more-nonneg : (z : ℤ) → is_neg z ≡ false → z ≢ pos int_max → is_neg (increment z) ≡ false
unfolding increment ◌+ℤ◌
more-nonneg z h ne = rw (increment-more z ne) (ground arith)

-- A list is empty or has a first node.
module _ (k : Sems) (n : ℤ) (q : ℕ → List ℕ) (v : IsValid k q) (good : bad_sem n ≡ false)
    (used : live k (pos_part n) ≡ true) (room : (k.sems (pos_part n)).value ≢ pos int_max) where
  -- The queue of the semaphore is one of the lists, and not the run queue.
  abbrev head : ℕ
  head = sem_queue (pos_part n)

  head_in : is_head (live k) head ≡ true
  head_in = sem_queue-is_head (live k) (pos_part n) (good_sem n good) used

  head-ne : head ≢ runqueue
  head-ne = λ e. omega arith

  -- The semaphore with one more.
  abbrev more : Sems
  more = record k {
    sems =
        update k.sems (pos_part n)
          (record (k.sems (pos_part n)) { value = increment (k.sems (pos_part n)).value });
  }

  signal-gave : q head ≡ [] → Signalled k n q (sys_sem_signal k n)
  signal-gave e =
      let off : (k.sems (pos_part n)).owner == free_sem ≡ false = ground arith in
      let value = (k.sems (pos_part n)).value in
      let nonneg : is_neg value ≡ false → is_neg (increment value) ≡ false =
        λ h. more-nonneg value h room in
      let empty : list_empty k.sched.heap head ≡ true =
        list_empty-nil k.sched.heap head
          (subst (IsQueue k.sched.heap head) e (v.sched.queues.each head head_in)) in
      unfold sys_sem_signal in
      rw (good, off, empty)
        (gave {k' = more} e
          (ap (λ s. s.value) (update_self k.sems (pos_part n) _)
            ∙ increment-more (k.sems (pos_part n)).value room)
          (λ j ne.
            update_ne k.sems (pos_part n) j
              (record (k.sems (pos_part n)) { value = increment (k.sems (pos_part n)).value }) ne)
          refl
          (record {
            sched =
                subst (λ l. Inv.IsValid l k.sched q)
                  (sym (live-value k (pos_part n) (increment (k.sems (pos_part n)).value))) v.sched;
            idle_pid = v.idle_pid;
            stocked = λ j lt on.
                unfold update in
                ground (arith, v.stocked j lt, v.stocked (pos_part n), good_sem n good, nonneg);
          }))

  -- Waking a task leaves every semaphore's queue empty or its value at 0.
  stocked-woke :
      (xs : List ℕ) (tsk : ℕ) (t : Sched)
      → q head ≡ task_node tsk ∷ xs
      → (w : Woken (live k) k.sched q head (pos 0) xs tsk t) → (j : ℕ) → j < nr_sem
      → live k j ≡ true
      → (is_neg (k.sems j).value ≡ false) × ((w.q' (sem_queue j) ≡ []) ⊎ ((k.sems j).value ≡ pos 0))
  stocked-woke xs tsk t e w j lt on = elim (Bool-cases (j == pos_part n)) [
    | inl p ↦ ground (arith, v.stocked j lt on, ap (λ i. q (sem_queue i)) (==→≡ j (pos_part n) p))
    | inr p ↦
        let other : sem_queue j ≢ head = λ s. ground arith in
        let kept = w.same (sem_queue j) other (λ s. omega arith) in
        let old = v.stocked j lt on in
        (old.0, elim old.1 [ inl a ↦ inl (kept ∙ a) | inr b ↦ inr b ])
  ]

  signal-woke : (x : ℕ) (xs : List ℕ) → q head ≡ x ∷ xs → Signalled k n q (sys_sem_signal k n)
  signal-woke x xs e =
      let off : (k.sems (pos_part n)).owner == free_sem ≡ false = ground arith in
      let full : list_empty k.sched.heap head ≡ false =
        list_empty-cons k.sched.heap head x xs
          (subst (IsQueue k.sched.heap head) e (v.sched.queues.each head head_in)) in
      let (tsk, node, w) =
        wake_first-Woken (live k) k.sched q head (pos 0) x xs v.sched head_in head-ne e in
      unfold sys_sem_signal in
      rw (good, off, full)
        (woke {k' = record k { sched = wake_first k.sched head (pos 0) }}
          (e ∙ ap (λ y. y ∷ xs) (sym node)) refl w
          (record {
            sched = w.valid;
            idle_pid = w.pids 0 ∙ v.idle_pid;
            stocked =
                stocked-woke xs tsk (wake_first k.sched head (pos 0))
                  (e ∙ ap (λ y. y ∷ xs) (sym node)) w;
          }))

-- On a valid kernel, and for a semaphore whose value is not the greatest `int`, `sys_sem_signal`
-- keeps the invariant, and does one of three things: it refuses
-- a number that names no semaphore in use, it adds one to the value where no task waits, or it
-- makes the task that has waited longest ready, at the end of the run queue and with 0 as its
-- call's result.
pub sys_sem_signal-Signalled :
    (k : Sems) (n : ℤ) (q : ℕ → List ℕ)
    → IsValid k q
    → (bad_sem n ≡ false → (k.sems (pos_part n)).value ≢ pos int_max)
    → Signalled k n q (sys_sem_signal k n)
unfolding sys_sem_signal
sys_sem_signal-Signalled k n q v room = elim (Bool-cases (bad_sem n)) [
  | inl p ↦ rw p (no_sem (inl p))
  | inr good ↦ elim (Bool-cases ((k.sems (pos_part n)).owner == free_sem)) [
    | inl p ↦ rw (good, p) (no_sem (inr (rw p)))
    | inr used ↦ elim (List-cases (q (sem_queue (pos_part n)))) [
      | inl e ↦ signal-gave k n q v good (ground arith) (room good) e
      | inr (x, xs, e) ↦ signal-woke k n q v good (ground arith) (room good) x xs e
    ]
  ]
]
