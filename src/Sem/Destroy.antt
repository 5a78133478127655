-- ===== src/Sem/Destroy.antt =====
-- `sys_sem_destroy` of sys.c: the loop that wakes all who wait, and every branch of the call.
use s.Base.{
  ℕ, suc, zero, ◌-◌, ◌<◌, ◌≡◌, refl, ◌≢◌, Bool, true, false, ◌⊎◌, inl, inr, List, [], ◌∷◌, ◌++◌,
  arith, ◌==◌, ℤ, pos, minus, pos_part, update, update_ne, subst, sym, ◌∙◌, Bool-cases, ap, length,
  append_assoc, append-nil,
}
use s.ListHead.{list_empty}
use s.ListHead.Links.{has, IsQueue}
use s.ListHead.Queue.{list_empty-nil, list_empty-cons}
use s.ListHead.Queues.{weaken-IsQueues}
use s.ListHead.Count.{length-le}
use s.Sched.{Sched, sem_queue, runqueue, task_node, ready, nr_tasks, current_task}
use s.Sched.Inv
use s.Sched.Inv.{is_node, is_head}
use s.Sem.{Sems, free_sem, bad_sem, sys_sem_destroy, wake_first, wake_all, einval, eperm}
use s.Sem.Inv.{live, IsValid, good_sem, sem_queue-is_head}
use s.Sched.Wake.{Woken}
use s.Sem.Signal.{wake_first-Woken}

-- All the tasks `xs` that waited at `head` have been woken, in order, with the result `r`.
pub record AllWoken (l : ℕ → Bool) (s : Sched) (q : ℕ → List ℕ) (head : ℕ) (r : ℤ) (xs : List ℕ)
    (t : Sched) : Type 0 where
  pub q' : ℕ → List ℕ
  pub valid : Inv.IsValid l t q'
  pub left : q' head ≡ []
  pub runs : q' runqueue ≡ q runqueue ++ xs
  pub same : (i : ℕ) → i ≢ head → i ≢ runqueue → q' i ≡ q i
  pub woken :
      (u : ℕ) → has (task_node u) xs ≡ true → ((t.task u).eax ≡ r) × ((t.task u).state ≡ ready)
  pub others : (u : ℕ) → has (task_node u) xs ≡ false → t.task u ≡ s.task u
  pub pids : (u : ℕ) → (t.task u).pid ≡ (s.task u).pid
  pub current : t.current ≡ s.current

wake_all-step :
    (k : ℕ) (s : Sched) (head : ℕ)
    → list_empty s.heap head ≡ false
    → wake_all (suc k) s head ≡ wake_all k (wake_first s head (minus 1)) head
unfolding wake_all
wake_all-step k s head e = rw (e, wake_all)

wake_all-stop :
    (k : ℕ) (s : Sched) (head : ℕ) → list_empty s.heap head ≡ true → wake_all (suc k) s head ≡ s
unfolding wake_all
wake_all-stop k s head e = rw (e, wake_all)

module _ (l : ℕ → Bool) (head : ℕ) (hh : is_head l head ≡ true) (ne : head ≢ runqueue) where
  nobody :
      (s : Sched) (q : ℕ → List ℕ)
      → Inv.IsValid l s q
      → q head ≡ []
      → AllWoken l s q head (minus 1) [] s
  nobody s q v e = record {
    q' = q;
    valid = v;
    left = e;
    runs = sym (append-nil (q runqueue));
    same = λ i a b. refl;
    woken = λ u m. cc;
    others = λ u o. refl;
    pids = λ u. refl;
    current = refl;
  }

  -- One task woken first, then the others.
  join :
      (s t : Sched) (q : ℕ → List ℕ) (tsk : ℕ) (xs : List ℕ)
      → has (task_node tsk) xs ≡ false
      → (w : Woken l s q head (minus 1) xs tsk (wake_first s head (minus 1)))
      → AllWoken l (wake_first s head (minus 1)) w.q' head (minus 1) xs t
      → AllWoken l s q head (minus 1) (task_node tsk ∷ xs) t
  join s t q tsk xs out w r = record {
    q' = r.q';
    valid = r.valid;
    left = r.left;
    runs = r.runs ∙ ap (λ z. z ++ xs) w.runs ∙ append_assoc (q runqueue) (task_node tsk ∷ []) xs;
    same = λ i a b. r.same i a b ∙ w.same i a b;
    woken = λ u m. elim (Bool-cases (has (task_node u) xs)) [
      | inl i ↦ r.woken u i
      | inr o ↦
          let e : u ≡ tsk = ground arith in
          (
            ap (λ a. a.eax) (r.others u o)
                ∙ ap (λ a. ((wake_first s head (minus 1)).task a).eax) e
                ∙ w.eax,
            ap (λ a. a.state) (r.others u o)
                ∙ ap (λ a. ((wake_first s head (minus 1)).task a).state) e
                ∙ w.state,
          )
    ];
    others = λ u o. r.others u (ground arith) ∙ w.others u (λ e. ground arith);
    pids = λ u. r.pids u ∙ w.pids u;
    current = r.current ∙ w.current;
  }

  -- With enough fuel, the loop wakes every task that waits.
  pub wake_all-AllWoken :
      (k : ℕ) (s : Sched) (q : ℕ → List ℕ) (xs : List ℕ)
      → Inv.IsValid l s q
      → q head ≡ xs
      → length xs < k
      → AllWoken l s q head (minus 1) xs (wake_all k s head)
  wake_all-AllWoken zero s q xs v e lt = absurd (omega arith)
  wake_all-AllWoken (suc k) s q [] v e lt =
      subst (AllWoken l s q head (minus 1) [])
        (sym (
          wake_all-stop k s head
            (list_empty-nil s.heap head (subst (IsQueue s.heap head) e (v.queues.each head hh)))))
        (nobody s q v e)
  wake_all-AllWoken (suc k) s q (x ∷ xs) v e lt =
      let (tsk, node, w) = wake_first-Woken l s q head (minus 1) x xs v hh ne e in
      let queue : IsQueue s.heap head (x ∷ xs) =
        subst (IsQueue s.heap head) e (v.queues.each head hh) in
      let out : has (task_node tsk) xs ≡ false = rw node queue.distinct.0 in
      let rest =
        wake_all-AllWoken k (wake_first s head (minus 1)) w.q' xs w.valid w.left (omega arith) in
      subst (AllWoken l s q head (minus 1) (x ∷ xs))
        (sym (wake_all-step k s head (list_empty-cons s.heap head x xs queue)))
        (subst
          (λ y.
            AllWoken l s q head (minus 1) (y ∷ xs) (wake_all k (wake_first s head (minus 1)) head))
          node (join s (wake_all k (wake_first s head (minus 1)) head) q tsk xs out w rest))

-- What destroying semaphore `n` may do, with `q` the queues before.
pub data Destroyed (k : Sems) (n : ℤ) (q : ℕ → List ℕ) : ℤ × Sems → Type 0 where
  no_sem : (bad_sem n ≡ true) ⊎ (live k (pos_part n) ≡ false) → Destroyed k n q (minus einval, k)
  not_owner :
      (current_task k.sched).pid ≢ (k.sems (pos_part n)).owner → Destroyed k n q (minus eperm, k)
  gone :
      {k' : Sems}
      → live k' (pos_part n) ≡ false
      → ((i : ℕ) → i ≢ pos_part n → k'.sems i ≡ k.sems i)
      → (w : AllWoken
          (live k)
          k.sched
          q
          (sem_queue (pos_part n))
          (minus 1)
          (q (sem_queue (pos_part n)))
          k'.sched)
      → IsValid k' w.q'
      → Destroyed k n q (pos 0, k')

module _ (k : Sems) (n : ℤ) (q : ℕ → List ℕ) (v : IsValid k q) (good : bad_sem n ≡ false)
    (used : live k (pos_part n) ≡ true)
    (mine : (current_task k.sched).pid == (k.sems (pos_part n)).owner ≡ true) where
  abbrev head : ℕ
  head = sem_queue (pos_part n)

  abbrev freed : Sems
  freed = record {
    sched = wake_all (suc nr_tasks) k.sched head;
    sems = update k.sems (pos_part n) (record (k.sems (pos_part n)) { owner = free_sem });
  }

  head_in : is_head (live k) head ≡ true
  head_in = sem_queue-is_head (live k) (pos_part n) (good_sem n good) used

  -- At most `nr_tasks` tasks can wait.
  few : length (q head) < suc nr_tasks
  few = omega (
    arith,
    length-le nr_tasks (q head) (v.sched.queues.each head head_in).distinct
        (λ a m. v.sched.queues.nodes head a head_in m),
  )

  all : AllWoken (live k) k.sched q head (minus 1) (q head) (wake_all (suc nr_tasks) k.sched head)
  all =
      wake_all-AllWoken (live k) head head_in (λ e. omega arith) (suc nr_tasks) k.sched q (q head)
        v.sched refl few

  freed-live : (j : ℕ) → live freed j ≡ true → live k j ≡ true
  unfolding update
  freed-live j on = ground arith

  freed-ne : (j : ℕ) → live freed j ≡ true → j ≢ pos_part n
  unfolding update
  freed-ne j on e = ground arith

  freed-IsValid : IsValid freed all.q'
  freed-IsValid = record {
    sched = record {
      queues =
          weaken-IsQueues is_node (is_head (live k)) (is_head (live freed)) freed.sched.heap all.q'
            (λ a m. ground (arith, freed-live (a - 14))) all.valid.queues;
      current_in = all.valid.current_in;
      idle_in = all.valid.idle_in;
    };
    idle_pid = all.pids 0 ∙ v.idle_pid;
    stocked = λ j lt on.
        let ne = freed-ne j on in
        let kept = all.same (sem_queue j) (λ e. ne (omega arith)) (λ e. omega arith) in
        let old = v.stocked j lt (freed-live j on) in
        rw (update_ne k.sems (pos_part n) j (record (k.sems (pos_part n)) { owner = free_sem }) ne)
          (old.0, elim old.1 [ inl a ↦ inl (kept ∙ a) | inr b ↦ inr b ]);
  }

  destroy-gone : Destroyed k n q (sys_sem_destroy k n)
  destroy-gone =
      let off : (k.sems (pos_part n)).owner == free_sem ≡ false = ground arith in
      unfold sys_sem_destroy in
      rw (good, off, mine)
        (gone {k' = freed} (unfold update in ground arith)
          (λ j ne.
            update_ne k.sems (pos_part n) j (record (k.sems (pos_part n)) { owner = free_sem }) ne)
          all freed-IsValid)

-- On a valid kernel, `sys_sem_destroy` keeps the invariant, and does one of three things: it
-- refuses a number that names no semaphore in use, it refuses a caller that is not the owner, or it
-- frees the semaphore and makes every task that waited ready, in the order in which they waited,
-- with -1 as their call's result. Its loop ends.
pub sys_sem_destroy-Destroyed :
    (k : Sems) (n : ℤ) (q : ℕ → List ℕ) → IsValid k q → Destroyed k n q (sys_sem_destroy k n)
unfolding sys_sem_destroy
sys_sem_destroy-Destroyed k n q v = elim (Bool-cases (bad_sem n)) [
  | inl p ↦ rw p (no_sem (inl p))
  | inr good ↦ elim (Bool-cases ((k.sems (pos_part n)).owner == free_sem)) [
    | inl p ↦ rw (good, p) (no_sem (inr (rw p)))
    | inr used ↦ elim (Bool-cases ((current_task k.sched).pid == (k.sems (pos_part n)).owner)) [
      | inl mine ↦ destroy-gone k n q v good (ground arith) mine
      | inr p ↦ rw (good, used, p) (not_owner (λ e. ground arith))
    ]
  ]
]
