-- ===== src/Sys/Pages.antt =====
-- What a child gets of its parent's pages in `sys_fork` of sys.c.
use s.Base.{ℕ, ◌+◌, ◌<◌, ◌≤◌, ◌≡◌, ◌≢◌, Bool, true, false, arith, ap, ◌∙◌}
use s.Mm.{page_size, free_frame_mark, used_frame_mark}
use s.Mm.Frames.{IsUserFrame}
use s.Sched.{Task}
use s.Sys.{Kernel, sched_of, current}

-- What the loop leaves alone, whether it ends or not: the queues, the processor, every task but
-- the child and what the child has beside its frames, and the tables of the kernel.
pub record Same (k : Kernel) (child : ℕ) (k' : Kernel) : Type 0 where
  pub heap : (sched_of k').heap ≡ (sched_of k).heap
  pub current : (sched_of k').current ≡ (sched_of k).current
  pub others : (t : ℕ) → t ≢ child → (sched_of k').task t ≡ (sched_of k).task t
  pub child_same :
      (sched_of k').task child
      ≡ record ((sched_of k).task child) { phpages = ((sched_of k').task child).phpages }
  pub sems : k'.sems.sems ≡ k.sems.sems
  pub tables :
      (k'.dyn_channels ≡ k.dyn_channels)
      × (k'.fs ≡ k.fs)
      × (k'.pid_counter ≡ k.pid_counter)
      × (k'.circular_buffer ≡ k.circular_buffer)

-- The frames that the child has got for the pages from `i` on, `n` of them: they were free, no two
-- are the same, no other frame's mark has changed, and no byte of any other frame.
pub record Pages (k : Kernel) (child i n : ℕ) (k' : Kernel) : Type 0 where
  pub fresh :
      (j : ℕ)
      → i ≤ j
      → j < i + n
      → IsUserFrame (((sched_of k').task child).phpages j)
        × ((sched_of k).mm.phys_mem (((sched_of k').task child).phpages j) ≡ free_frame_mark)
        × ((sched_of k').mm.phys_mem (((sched_of k').task child).phpages j) ≡ used_frame_mark)
  pub before :
      (j : ℕ) → j < i → ((sched_of k').task child).phpages j ≡ ((sched_of k).task child).phpages j
  pub apart :
      (j l : ℕ)
      → i ≤ j
      → j < i + n
      → i ≤ l
      → l < i + n
      → j ≢ l
      → ((sched_of k').task child).phpages j ≢ ((sched_of k').task child).phpages l
  pub frames :
      (g : ℕ)
      → ((j : ℕ) → i ≤ j → j < i + n → ((sched_of k').task child).phpages j ≢ g)
      → (sched_of k').mm.phys_mem g ≡ (sched_of k).mm.phys_mem g
  pub memories :
      (f : ℕ)
      → ((j : ℕ) → i ≤ j → j < i + n → ((sched_of k').task child).phpages j ≢ f)
      → k'.memory f ≡ k.memory f

-- None of the running task's data frames from page `i` on, `n` of them, is marked free.
abbrev pub IsOwned : Kernel → (i n : ℕ) → Type 0
IsOwned k i n =
    (j : ℕ) → i ≤ j → j < i + n → (sched_of k).mm.phys_mem ((current k).phpages j) ≢ free_frame_mark

-- The child's data pages from page `i` on, `n` of them, hold the parent's bytes.
pub record SameBytes (k : Kernel) (i n child : ℕ) (k' : Kernel) : Type 0 where
  pub same :
      (j o : ℕ)
      → i ≤ j
      → j < i + n
      → o < page_size
      → k'.memory (((sched_of k').task child).phpages j) o ≡ k.memory ((current k).phpages j) o

pub data Cloned (k : Kernel) (child i n : ℕ) : Bool × Kernel → Type 0 where
  out_of_frames : {k' : Kernel} → Same k child k' → Cloned k child i n (false, k')
  cloned : {k' : Kernel} → Same k child k' → Pages k child i n k' → Cloned k child i n (true, k')

pub Same-join : {k l m : Kernel} {child : ℕ} → Same k child l → Same l child m → Same k child m
Same-join {m = m} {child = child} a b = record {
  heap = b.heap ∙ a.heap;
  current = b.current ∙ a.current;
  others = λ t ne. b.others t ne ∙ a.others t ne;
  child_same =
      let own : Task → Task = λ t. record t { phpages = ((sched_of m).task child).phpages } in
      b.child_same ∙ ap own a.child_same;
  sems = b.sems ∙ a.sems;
  tables = (
    b.tables.0 ∙ a.tables.0,
    b.tables.1 ∙ a.tables.1,
    b.tables.2 ∙ a.tables.2,
    b.tables.3 ∙ a.tables.3,
  );
}

-- The same pages, seen between two other states with the same memory.
pub Pages-move :
    (k k' l l' : Kernel) (child n : ℕ)
    → (sched_of l).mm ≡ (sched_of k).mm
    → l.memory ≡ k.memory
    → (sched_of l').mm ≡ (sched_of k').mm
    → ((sched_of l').task child).phpages ≡ ((sched_of k').task child).phpages
    → l'.memory ≡ k'.memory
    → Pages k child 0 n k'
    → Pages l child 0 n l'
Pages-move k k' l l' child n mm mem mm' pages mem' r = record {
  fresh = λ j lo hi. rw (mm, mm', pages) (r.fresh j lo hi);
  before = λ j lo. absurd (omega arith);
  apart = λ j m jlo jhi mlo mhi o. rw pages (r.apart j m jlo jhi mlo mhi o);
  frames = λ g out. rw (mm, mm') (r.frames g (rw (← pages) out));
  memories = λ f out. rw (mem', mem) (r.memories f (rw (← pages) out));
}
