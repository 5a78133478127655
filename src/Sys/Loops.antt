-- ===== src/Sys/Loops.antt =====
-- The loops of `sys_exit` of sys.c, over the semaphores and over the channels.
use s.Base.{
  ℕ, zero, suc, ◌<◌, ◌+◌, ◌≤◌, false, minus, ◌≡◌, refl, ◌≢◌, inl, inr, List, ℤ, pos, is_neg,
  pos_part, ◌=ℤ◌, ◌==◌, if◌then◌else◌, arith, update, ap, sym, ◌∙◌, Bool-cases, loop_inv, ==→≡,
}
use s.ListHead.{list_empty}
use s.Sched.{Sched, modify, free_channel, num_channels, sched_unblock, nr_tasks, sem_queue}
use s.Sem.{Sems, nr_sem, free_sem, sys_sem_destroy, wake_first, wake_all}
use s.Sem.Inv.{IsValid}
use s.Sem.Destroy.{Destroyed, no_sem, not_owner, gone, sys_sem_destroy-Destroyed}
use s.Channel.{Fops, null, dev_file, dev_console, dev_keyboard}
use s.Fat.{Fat}
use s.Sys.{
  Kernel, Outcome, returned, switched, undefined, sched_of, current, bad_fd, dynamic_of,
  set_channel,
}
use s.Sys.Devices.{f_close}
use s.Sys.Files.{sys_close, unless_error, closed}
use s.Sys.Process.{destroy_owned, close_from}

-- What the loops of `sys_exit` keep: the queues, the running task, and all process numbers.
pub record Quiet (s t : Sched) : Type 0 where
  pub heap : t.heap ≡ s.heap
  pub current : t.current ≡ s.current
  pub pids : (u : ℕ) → (t.task u).pid ≡ (s.task u).pid

pub Quiet-refl : (s : Sched) → Quiet s s
Quiet-refl s = record { heap = refl; current = refl; pids = λ u. refl }

pub Quiet-join : {s t u : Sched} → Quiet s t → Quiet t u → Quiet s u
Quiet-join a b = record {
  heap = b.heap ∙ a.heap;
  current = b.current ∙ a.current;
  pids = λ u. b.pids u ∙ a.pids u;
}

pub Quiet-IsValid :
    (m : Sems) (q : ℕ → List ℕ) (t : Sched)
    → IsValid m q
    → Quiet m.sched t
    → IsValid (record m { sched = t }) q
Quiet-IsValid m q t v e = record {
  sched = record {
    queues = rw (e.heap) v.sched.queues;
    current_in = rw (e.current) v.sched.current_in;
    idle_in = v.sched.idle_in;
  };
  idle_pid = e.pids 0 ∙ v.idle_pid;
  stocked = v.stocked;
}

abbrev pub SameDevices : Kernel → Kernel → Type 0
SameDevices k l = (d : ℕ) → (l.dyn_channels d).fops ≡ (k.dyn_channels d).fops

-- The running process has lost channels at most.
abbrev pub FewerChannels : Kernel → Kernel → Type 0
FewerChannels k l =
    (i : ℕ)
    → (current l).channels i ≢ free_channel
    → (current l).channels i ≡ (current k).channels i

-- A channel of the running process leads to an entry of the shared table that has no device.
pub record LostDevice (k : Kernel) : Type 0 where
  pub channel : ℕ
  pub in_range : channel < num_channels
  pub taken : (current k).channels channel ≢ free_channel
  pub no_device : (k.dyn_channels (pos_part ((current k).channels channel))).fops ≡ null

pub LostDevice-back :
    {k l : Kernel} → SameDevices k l → FewerChannels k l → LostDevice l → LostDevice k
LostDevice-back {k} {l} f g b =
    let e = g b.channel b.taken in
    record {
      channel = b.channel;
      in_range = b.in_range;
      taken = λ z. b.taken (e ∙ z);
      no_device =
          ap (λ v. (k.dyn_channels (pos_part v)).fops) (sym e)
          ∙ sym (f (pos_part ((current l).channels b.channel)))
          ∙ b.no_device;
    }

-- How the loop over the channels ends: a call through the null pointer of an entry that a channel
-- leads to is the one thing that can stop it, and no device that is called puts another task on the
-- processor.
pub data Closed (k : Kernel) : Outcome × Kernel → Type 0 where
  all_closed :
      {n : ℤ} {k' : Kernel}
      → Quiet (sched_of k) (sched_of k')
      → k'.sems.sems ≡ k.sems.sems
      → SameDevices k k'
      → FewerChannels k k'
      → Closed k (returned n, k')
  crashed : {k' : Kernel} → LostDevice k → Closed k (undefined, k')

Closed-join :
    {k l : Kernel} {r : Outcome × Kernel}
    → Quiet (sched_of k) (sched_of l)
    → l.sems.sems ≡ k.sems.sems
    → SameDevices k l
    → FewerChannels k l
    → Closed l r
    → Closed k r
Closed-join a e f c (all_closed b g h d) =
    all_closed (Quiet-join a b) (g ∙ e) (λ i. h i ∙ f i)
      (λ i taken. d i taken ∙ c i (λ z. taken (d i taken ∙ z)))
Closed-join a e f c (crashed bad) = crashed (LostDevice-back f c bad)

set_channel-Quiet :
    (k : Kernel) (fd : ℕ) (v : ℤ) → Quiet (sched_of k) (sched_of (set_channel k fd v))
unfolding modify update
set_channel-Quiet k fd v = record { heap = refl; current = refl; pids = λ u. ground arith }

closed-SameDevices : (k : Kernel) (fd : ℤ) → SameDevices k (closed k fd)
unfolding update
closed-SameDevices k fd d = ground arith

closed-FewerChannels : (k : Kernel) (fd : ℤ) → FewerChannels k (closed k fd)
unfolding modify update
closed-FewerChannels k fd i taken = ground (arith, taken)

bad_fd-taken :
    (k : Kernel) (i : ℕ) → bad_fd k (pos i) ≡ false → (current k).channels i ≢ free_channel
unfolding bad_fd
bad_fd-taken k i h e = ground (arith, h, e)

f_close-ne : (fs : Fat) (fops : Fops) (file : ℤ) → f_close fs fops file ≢ switched
unfolding f_close
f_close-ne fs null file = λ e. cc
f_close-ne fs dev_file file = λ e. cc
f_close-ne fs dev_console file = λ e. cc
f_close-ne fs dev_keyboard file = λ e. cc

f_close-null : (fs : Fat) (fops : Fops) (file : ℤ) → f_close fs fops file ≡ undefined → fops ≡ null
unfolding f_close
f_close-null fs null file e = refl
f_close-null fs dev_file file e = cc
f_close-null fs dev_console file e = cc
f_close-null fs dev_keyboard file e = cc

sys_close-Closed : (k : Kernel) (i : ℕ) → i < num_channels → Closed k (sys_close k (pos i))
unfolding sys_close
sys_close-Closed k i lt = elim (Bool-cases (bad_fd k (pos i))) [
  | inl h ↦ rw h (all_closed (Quiet-refl (sched_of k)) refl (λ d. refl) (λ j taken. refl))
  | inr h ↦ rw h (
      let c = k.dyn_channels (dynamic_of k (pos i)) in
      answer (f_close k.fs c.fops c.file) (f_close-ne k.fs c.fops c.file) (λ e. record {
        channel = i;
        in_range = lt;
        taken = bad_fd-taken k i h;
        no_device = f_close-null k.fs c.fops c.file e;
      }))
]
  where
    answer :
        (r : Outcome)
        → r ≢ switched
        → (r ≡ undefined → LostDevice k)
        → Closed k (unless_error r k (pos 0) (closed k (pos i)))
    answer (returned error) ne bad = elim (Bool-cases (is_neg error)) [
      | inl h ↦ rw h (all_closed (Quiet-refl (sched_of k)) refl (λ d. refl) (λ j taken. refl))
      | inr h ↦ rw h (
          all_closed (set_channel-Quiet k i free_channel) refl (closed-SameDevices k (pos i))
            (closed-FewerChannels k (pos i)))
    ]
    answer switched ne bad = absurd (ne refl)
    answer undefined ne bad = crashed (bad refl)

pub close_from-Closed : (n i : ℕ) (k : Kernel) → i + n ≤ num_channels → Closed k (close_from i n k)
unfolding close_from
close_from-Closed zero i k le =
    all_closed (Quiet-refl (sched_of k)) refl (λ d. refl) (λ j taken. refl)
close_from-Closed (suc n) i k le = elim (Bool-cases ((current k).channels i =ℤ free_channel)) [
  | inl h ↦ rw h (close_from-Closed n (suc i) k (omega (arith, le)))
  | inr h ↦ rw h (
      after (sys_close k (pos i)) (sys_close-Closed k i (omega (arith, le)))
        (λ l. close_from-Closed n (suc i) l (omega (arith, le))))
]
  where
    after :
        (r : Outcome × Kernel)
        → Closed k r
        → ((l : Kernel) → Closed l (close_from (suc i) n l))
        → Closed k (elim r.0 [
          | returned e ↦ close_from (suc i) n r.1
          | switched ↦ (switched, r.1)
          | undefined ↦ (undefined, r.1)
        ])
    after r (all_closed {k' = l} e f g h) rest = Closed-join e f g h (rest l)
    after r (crashed bad) rest = crashed bad

-- The semaphores after the loop that destroys those of the process `pid`: the queues `q`.
pub record Destroying (m : Sems) (pid i : ℕ) (m' : Sems) : Type 0 where
  pub q : ℕ → List ℕ
  pub valid : IsValid m' q
  pub current : m'.sched.current ≡ m.sched.current
  pub pids : (u : ℕ) → (m'.sched.task u).pid ≡ (m.sched.task u).pid
  pub freed : (j : ℕ) → j < i → (m'.sems j).owner ≢ pid

destroy-Destroying :
    (m : Sems) (pid i : ℕ) (t : Sems)
    → i < nr_sem
    → pid ≢ free_sem
    → (m.sched.task m.sched.current).pid ≡ pid
    → Destroying m pid i t
    → Destroying m pid
        (suc i)
        (if (t.sems i).owner == pid then (sys_sem_destroy t (pos i)).1 else t)
destroy-Destroying m pid i t lt some_pid mine d = elim (Bool-cases ((t.sems i).owner == pid)) [
  | inl h ↦ rw h (
      after (sys_sem_destroy t (pos i)) (sys_sem_destroy-Destroyed t (pos i) d.q d.valid)
        (ground arith))
  | inr h ↦ rw h (record {
    q = d.q;
    valid = d.valid;
    current = d.current;
    pids = d.pids;
    freed = λ j lj. elim (Bool-cases (j == i)) [
      | inl e ↦ λ o. ground (arith, ap (λ x. (t.sems x).owner) (==→≡ j i e))
      | inr e ↦ d.freed j (ground arith)
    ];
  })
]
  where
    after :
        (r : ℤ × Sems)
        → Destroyed t (pos i) d.q r
        → (t.sems i).owner ≡ pid
        → Destroying m pid (suc i) r.1
    after r (no_sem e) own = absurd (elim e [ inl a ↦ ground arith | inr a ↦ ground arith ])
    after r (not_owner e) own =
        absurd
          (e (d.pids t.sched.current ∙ ap (λ u. (m.sched.task u).pid) d.current ∙ mine ∙ sym own))
    after r (gone {k'} off others w v) own = record {
      q = w.q';
      valid = v;
      current = w.current ∙ d.current;
      pids = λ u. w.pids u ∙ d.pids u;
      freed = λ j lj. elim (Bool-cases (j == i)) [
        | inl e ↦ λ o. ground (arith, ap (λ x. (k'.sems x).owner) (==→≡ j i e))
        | inr e ↦
            λ o. d.freed j (ground arith) (ap (λ x. x.owner) (sym (others j (ground arith))) ∙ o)
      ];
    }

-- The two first loops of `sys_exit`: the pages, and the semaphores.
pub destroy_owned-Destroying :
    (k : Kernel) (q : ℕ → List ℕ) (pid : ℕ)
    → IsValid k.sems q
    → pid ≢ free_sem
    → (current k).pid ≡ pid
    → Destroying k.sems pid nr_sem (destroy_owned k pid).sems
unfolding destroy_owned
destroy_owned-Destroying k q pid v some_pid mine =
    loop_inv (λ i m. Destroying k.sems pid i m) nr_sem
      (λ i t. if (t.sems i).owner == pid then (sys_sem_destroy t (pos i)).1 else t) k.sems
      (λ i t lt d. destroy-Destroying k.sems pid i t lt some_pid mine d)
      (record {
        q = q;
        valid = v;
        current = refl;
        pids = λ u. refl;
        freed = λ j lt. absurd (omega arith);
      })

-- Waking the tasks of a semaphore changes no task's channels.
wake_first-channels :
    (s : Sched) (head : ℕ) (r : ℤ) (u : ℕ)
    → ((wake_first s head r).task u).channels ≡ (s.task u).channels
unfolding wake_first sched_unblock modify update
wake_first-channels s head r u = ground arith

wake_all-channels :
    (n : ℕ) (s : Sched) (head u : ℕ) → ((wake_all n s head).task u).channels ≡ (s.task u).channels
unfolding wake_all
wake_all-channels zero s head u = refl
wake_all-channels (suc n) s head u = elim (Bool-cases (list_empty s.heap head)) [
  | inl h ↦ rw (h, wake_all) refl
  | inr h ↦
      rw (h, wake_all)
        (wake_all-channels n (wake_first s head (minus 1)) head u
          ∙ wake_first-channels s head (minus 1) u)
]

sys_sem_destroy-channels :
    (m : Sems) (n : ℤ) (u : ℕ)
    → ((sys_sem_destroy m n).1.sched.task u).channels ≡ (m.sched.task u).channels
unfolding sys_sem_destroy
sys_sem_destroy-channels m n u =
    ground (arith, wake_all-channels (suc nr_tasks) m.sched (sem_queue (pos_part n)) u)

destroy_owned-channels :
    (k : Kernel) (pid u : ℕ)
    → ((sched_of (destroy_owned k pid)).task u).channels ≡ ((sched_of k).task u).channels
unfolding destroy_owned
destroy_owned-channels k pid u =
    loop_inv (λ i m. (m.sched.task u).channels ≡ ((sched_of k).task u).channels) nr_sem
      (λ i t. if (t.sems i).owner == pid then (sys_sem_destroy t (pos i)).1 else t) k.sems
      (λ i t lt h. ground (arith, h, sys_sem_destroy-channels t (pos i) u)) refl

destroy_owned-SameDevices : (k : Kernel) (pid : ℕ) → SameDevices k (destroy_owned k pid)
unfolding destroy_owned
destroy_owned-SameDevices k pid d = refl

-- What the loop over the semaphores leaves of the running process's channels.
pub destroy_owned-LostDevice :
    (k : Kernel) (pid : ℕ)
    → (sched_of (destroy_owned k pid)).current ≡ (sched_of k).current
    → LostDevice (destroy_owned k pid)
    → LostDevice k
destroy_owned-LostDevice k pid cur b =
    let e : (current (destroy_owned k pid)).channels ≡ (current k).channels =
      destroy_owned-channels k pid (sched_of (destroy_owned k pid)).current
      ∙ ap (λ t. ((sched_of k).task t).channels) cur in
    LostDevice-back {l = destroy_owned k pid} (destroy_owned-SameDevices k pid)
      (λ i taken. ap (λ c. c i) e) b
