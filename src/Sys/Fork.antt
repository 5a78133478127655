-- ===== src/Sys/Fork.antt =====
-- `sys_fork` of sys.c on every branch.
use s.Base.{
  ℕ, ◌+◌, ◌%◌, ◌^◌, ◌<◌, ◌≡◌, refl, ◌≢◌, Bool, true, not, Option, some, List, [], ◌∷◌, ℤ, pos,
  minus, ◌==◌, ltb, if◌then◌else◌, arith, update, update_self, update_ne, ap, sym, subst, ◌∙◌,
}
use s.ListHead.{Heap, set_next, set_prev}
use s.ListHead.Queue.{IsQueue-frame}
use s.ListHead.Queues.{IsQueues, Out, list_add-IsQueues}
use s.Mm.{num_pag_data}
use s.Sched.{
  Sched, Task, modify, task_node, runqueue, freequeue, sem_queue, num_channels, get_new_task_struct,
}
use s.Sched.Inv.{is_node, is_head}
use s.Sched.Structs.{Given, none_left, given, get_new_task_struct-Given}
use s.Sem.{free_sem, to_int}
use s.Sem.Inv.{live, IsValid}
use s.Sys.{Kernel, sched_of, with_sched, current}
use s.Sys.Pages.{Pages-move, Same, Pages, Cloned, out_of_frames, cloned}
use s.Sys.Clone.{copy_pages-Cloned}
use s.Sys.Process.{
  eagain, enomem, copy_task, copy_pages, start_child, get_new_pid, after_pages, fork_into, sys_fork,
}

-- Links that are written at a node of no list do not matter.
write-IsQueues :
    (is_head : ℕ → Bool) (h : Heap) (q : ℕ → List ℕ) (e a b : ℕ)
    → Out is_node is_head q e
    → IsQueues is_node is_head h q
    → IsQueues is_node is_head (set_prev (set_next h e a) e b) q
unfolding update
write-IsQueues is_head h q e a b out v = record {
  each = λ i hi.
      IsQueue-frame h (set_prev (set_next h e a) e b) i (q i)
        (λ c m. ground (arith, out.0, out.1 i hi, v.heads i hi)) (v.each i hi);
  heads = v.heads;
  nodes = v.nodes;
  apart = v.apart;
}

-- The child beside its parent.
pub record Child (k : Kernel) (c : ℕ) (k' : Kernel) : Type 0 where
  pub pid : ((sched_of k').task c).pid ≡ k'.pid_counter
  pub eax : ((sched_of k').task c).eax ≡ pos 0
  pub quantum : ((sched_of k').task c).quantum ≡ (current k).quantum
  pub channels :
      (i : ℕ) → i < num_channels → ((sched_of k').task c).channels i ≡ (current k).channels i
  pub state : ((sched_of k').task c).state ≡ (current k).state
  pub pages : Pages k c 0 num_pag_data k'
  pub others : (t : ℕ) → t ≢ c → (sched_of k').task t ≡ (sched_of k).task t
  pub sems : k'.sems.sems ≡ k.sems.sems

-- What `sys_fork` may do, with `q` the queues before, and `Copied` what is said of a child's bytes.
pub data Forked (k : Kernel) (q : ℕ → List ℕ) (Copied : ℕ → Kernel → Type 0)
    : ℤ × Kernel → Type 0 where
  no_task : q freequeue ≡ [] → Forked k q Copied (minus eagain, k)
  -- The structure that was taken stays outside all queues.
  no_frame :
      {c : ℕ} {xs : List ℕ} {k' : Kernel}
      → q freequeue ≡ task_node c ∷ xs
      → IsValid k'.sems (update q freequeue xs)
      → Forked k q Copied (minus enomem, k')
  forked :
      {c pid : ℕ} {xs : List ℕ} {k' : Kernel}
      → q freequeue ≡ task_node c ∷ xs
      → pid ≡ ((sched_of k').task c).pid
      → IsValid k'.sems (update (update q freequeue xs) runqueue (task_node c ∷ q runqueue))
      → Child k c k'
      → Copied c k'
      → Forked k q Copied (to_int pid, k')

module _ (k : Kernel) (q : ℕ → List ℕ) (v : IsValid k.sems q) (c : ℕ) (xs : List ℕ) (s : Sched)
    (queue : q freequeue ≡ task_node c ∷ xs)
    (queues : IsQueues is_node (is_head (live k.sems)) s.heap (update q freequeue xs))
    (out : Out is_node (is_head (live k.sems)) (update q freequeue xs) (task_node c))
    (same : (s.task ≡ (sched_of k).task)
      × (s.current ≡ (sched_of k).current)
      × (s.mm ≡ (sched_of k).mm)) where
  not_idle : c ≢ 0
  unfolding update
  not_idle e = ground (arith, v.sched.idle_in, out.1 runqueue refl, ap task_node e)

  not_current : c ≢ (sched_of k).current
  unfolding update
  not_current e = ground (arith, v.sched.current_in, out.1 runqueue refl, ap task_node e)

  -- The kernel once the parent's structure has been copied.
  abbrev begun : Kernel
  begun = with_sched k (copy_task s c)

  begun-queues :
      IsQueues is_node (is_head (live k.sems)) (sched_of begun).heap (update q freequeue xs)
  unfolding modify
  begun-queues =
      write-IsQueues (is_head (live k.sems)) s.heap (update q freequeue xs) (task_node c) _ _ out
        queues

  begun-others : (t : ℕ) → t ≢ c → (sched_of begun).task t ≡ (sched_of k).task t
  unfolding modify
  begun-others t ne = update_ne s.task c t (s.task s.current) ne ∙ ap (λ a. a t) same.0

  -- The kernel is valid after the loop over the pages, with the child in no queue.
  kept-IsValid : (k' : Kernel) → Same begun c k' → IsValid k'.sems (update q freequeue xs)
  unfolding update modify
  kept-IsValid k' e =
      let lives : live k'.sems ≡ live k.sems = ap (λ m i. not ((m i).owner == free_sem)) e.sems in
      let cur : (sched_of k').current ≡ (sched_of k).current = e.current ∙ same.1 in
      record {
        sched = record {
          queues = rw (lives, e.heap) begun-queues;
          current_in = rw cur v.sched.current_in;
          idle_in = v.sched.idle_in;
        };
        idle_pid =
            ap (λ t. t.pid)
              (e.others 0 (λ z. not_idle (sym z)) ∙ begun-others 0 (λ z. not_idle (sym z)))
            ∙ v.idle_pid;
        stocked = λ i lt on.
            let kept : update q freequeue xs (sem_queue i) ≡ q (sem_queue i) = ground arith in
            rw (e.sems, kept) (v.stocked i lt (sym (ap (λ l. l i) lives) ∙ on));
      }

  parent-kept : (k' : Kernel) → Same begun c k' → current k' ≡ current k
  unfolding modify
  parent-kept k' e =
      let cur : (sched_of k').current ≡ (sched_of k).current = e.current ∙ same.1 in
      let o : (sched_of k).current ≢ c = λ z. not_current (sym z) in
      ap (λ t. (sched_of k').task t) cur
      ∙ e.others (sched_of k).current o
      ∙ begun-others (sched_of k).current o

  -- The child's state is still its parent's.
  child-state : (k' : Kernel) → Same begun c k' → ((sched_of k').task c).state ≡ (current k).state
  unfolding modify
  child-state k' e =
      ap (λ t. t.state) e.child_same
      ∙ ap (λ t. t.state) (update_self s.task c (s.task s.current))
      ∙ ap (λ t. t.state) (ap (λ a. a s.current) same.0 ∙ ap (λ t. (sched_of k).task t) same.1)

  started-IsValid :
      (k' : Kernel)
      → Same begun c k'
      → IsValid
          (start_child k' c).1.sems
          (update (update q freequeue xs) runqueue (task_node c ∷ q runqueue))
  unfolding start_child get_new_pid update modify
  started-IsValid k' e =
      let w = kept-IsValid k' e in
      let lives : live k'.sems ≡ live k.sems = ap (λ m i. not ((m i).owner == free_sem)) e.sems in
      record {
        sched = record {
          queues =
              list_add-IsQueues is_node (is_head (live k'.sems)) (sched_of k').heap
                (update q freequeue xs) w.sched.queues runqueue (task_node c) refl
                (subst (λ l. Out is_node (is_head l) (update q freequeue xs) (task_node c))
                  (sym lives) out);
          current_in = ground (arith, w.sched.current_in);
          idle_in = ground (arith, w.sched.idle_in);
        };
        idle_pid = ground (arith, w.idle_pid, not_idle);
        stocked = λ i lt on. ground (arith, w.stocked i lt);
      }

  -- What `start_child` makes of the child's structure.
  abbrev made : Kernel → Task
  made k' =
      let quantum = (current k').quantum in
      record ((sched_of k').task c) {
        pid = (k'.pid_counter + 1) % 2 ^ 32;
        quantum = quantum;
        st = record { tics = 0; cs = 0; remaining_quantum = quantum };
        channels = λ i.
            if ltb i num_channels
            then (current k').channels i
            else ((sched_of k').task c).channels i;
        eax = pos 0;
      }

  started-task : (k' : Kernel) → (sched_of (start_child k' c).1).task c ≡ made k'
  unfolding start_child get_new_pid modify
  started-task k' = update_self (sched_of k').task c (made k')

  started-others :
      (k' : Kernel) (t : ℕ) → t ≢ c → (sched_of (start_child k' c).1).task t ≡ (sched_of k').task t
  unfolding start_child get_new_pid modify
  started-others k' t ne = update_ne (sched_of k').task c t (made k') ne

  started-Child :
      (k' : Kernel)
      → Same begun c k'
      → Pages begun c 0 num_pag_data k'
      → Child k c (start_child k' c).1
  unfolding start_child get_new_pid modify
  started-Child k' e r =
      let w : (sched_of (start_child k' c).1).task c ≡ made k' = started-task k' in
      let parent : current k' ≡ current k = parent-kept k' e in
      record {
        pid = ap (λ t. t.pid) w;
        eax = ap (λ t. t.eax) w;
        quantum = ap (λ t. t.quantum) w ∙ ap (λ t. t.quantum) parent;
        channels = λ i lt.
            let on : ltb i num_channels ≡ true = ground arith in
            ap (λ t. t.channels i) w ∙ rw on (ap (λ t. t.channels i) parent);
        state = ap (λ t. t.state) w ∙ child-state k' e;
        pages =
            Pages-move begun k' k (start_child k' c).1 c num_pag_data (sym same.2) refl refl
              (ap (λ t. t.phpages) w) refl r;
        others = λ t ne. started-others k' t ne ∙ e.others t ne ∙ begun-others t ne;
        sems = e.sems;
      }

  pages-Forked :
      (Copied : ℕ → Kernel → Type 0) (r : Bool × Kernel)
      → (r.0 ≡ true → Copied c (start_child r.1 c).1)
      → Cloned begun c 0 num_pag_data r
      → Forked k q Copied (after_pages c r)
  unfolding start_child get_new_pid
  pages-Forked Copied r copies (out_of_frames {k'} e) = no_frame queue (kept-IsValid k' e)
  pages-Forked Copied r copies (cloned {k'} e pages) =
      forked {k' = (start_child k' c).1} queue (sym (ap (λ t. t.pid) (started-task k')))
        (started-IsValid k' e) (started-Child k' e pages) (copies refl)

  not_running : c ≢ (sched_of begun).current
  unfolding modify
  not_running z = not_current (z ∙ same.1)

  into-Forked :
      (Copied : ℕ → Kernel → Type 0)
      → ((copy_pages num_pag_data c 0 begun).0 ≡ true
          → Copied c (start_child (copy_pages num_pag_data c 0 begun).1 c).1)
      → Forked k q Copied (fork_into k (some c, s))
  unfolding modify
  into-Forked Copied copies =
      pages-Forked Copied (copy_pages num_pag_data c 0 begun) copies
        (copy_pages-Cloned num_pag_data c 0 begun not_running)

-- The two theorems on `sys_fork` differ in what they say of the child's bytes.
fork-Forked :
    (k : Kernel) (q : ℕ → List ℕ) (Copied : ℕ → Kernel → Type 0)
    → IsValid k.sems q
    → ((c : ℕ) (xs : List ℕ) (s : Sched)
        → q freequeue ≡ task_node c ∷ xs
        → IsQueues is_node (is_head (live k.sems)) s.heap (update q freequeue xs)
        → Out is_node (is_head (live k.sems)) (update q freequeue xs) (task_node c)
        → (s.task ≡ (sched_of k).task)
          × (s.current ≡ (sched_of k).current)
          × (s.mm ≡ (sched_of k).mm)
        → (copy_pages num_pag_data c 0 (with_sched k (copy_task s c))).0 ≡ true
        → Copied c (start_child (copy_pages num_pag_data c 0 (with_sched k (copy_task s c))).1 c).1)
    → Forked k q Copied (sys_fork k)
unfolding sys_fork
fork-Forked k q Copied v given_bytes =
    go (get_new_task_struct (sched_of k))
      (get_new_task_struct-Given (live k.sems) (sched_of k) q v.sched.queues)
  where
    go :
        (r : Option ℕ × Sched)
        → Given (live k.sems) (sched_of k) q r
        → Forked k q Copied (fork_into k r)
    go r (none_left e) = no_task e
    go r (given {t} {xs} {s'} queue queues out same) =
        into-Forked k q v t xs s' queue queues out same Copied
          (given_bytes t xs s' queue queues out same)

-- Nothing is said of the child's bytes.
pub record Any (c : ℕ) (k : Kernel) : Type 0 where

-- Whatever frames are marked free, `sys_fork` leaves a valid kernel.
pub sys_fork-Any : (k : Kernel) (q : ℕ → List ℕ) → IsValid k.sems q → Forked k q Any (sys_fork k)
sys_fork-Any k q v = fork-Forked k q Any v (λ c xs s queue queues out same all. record {})
