-- ===== src/Sys/Faults.antt =====
-- Calls of sys.c that do not do what they are there for.
use s.Base.{
  ℕ, suc, ◌<◌, ◌≡◌, refl, ◌≢◌, true, false, some, ℤ, pos, minus, is_neg, is_pos, update, arith, ap,
  ◌∙◌,
}
use s.ListHead.{list_empty, list_first, list_del}
use s.Mm.{Mm, alloc_frame, free_frame, free_frame_mark}
use s.Mm.Frames.{IsUserFrame, Alloc, took, full, alloc_frame-Alloc}
use s.Utils.{read}
use s.Sched.{Sched, freequeue, get_new_task_struct, modify, task_node, list_head_to_task_struct}
use s.Sem.{ebusy}
use s.Channel.{dev_file, file_is_in_use, num_dynamic_channels}
use s.Channel.Search.{Answer, found, missing, file_is_in_use-Answer}
use s.Fat.{Fat, max_files, fat_check_path, fat_find_path}
use s.Fat.Opens.{Reach, fat_close-Reach}
use s.Sys.{Kernel, returned, sched_of, with_sched, current, bad_fd, dynamic_of, buffer_ok}
use s.Sys.Devices.{f_close}
use s.Sys.Files.{sys_close, sys_unlink, path_memory, path_of}
use s.Sys.Process.{
  sys_fork, copy_pages, after_pages, fork_into, copy_task, free_down, with_mm, enomem,
}

-- No entry of the shared table has the file open.
abbrev pub IsIdle : Kernel → ℤ → Type 0
IsIdle k file =
    (i : ℕ)
    → i < num_dynamic_channels
    → ¬ (((k.dyn_channels i).file ≡ file) × (is_pos (k.dyn_channels i).opens ≡ true))

Answer-idle :
    (k : Kernel) (file r : ℤ)
    → IsIdle k file
    → Answer
        (λ i. ((k.dyn_channels i).file ≡ file) × (is_pos (k.dyn_channels i).opens ≡ true))
        num_dynamic_channels
        r
    → r ≡ minus 1
Answer-idle k file r idle (found {i = i} lt h least) = absurd (idle i lt h)
Answer-idle k file r idle (missing none_at) = refl

-- For a readable path that fits and names a file which no entry of the shared table has open,
-- `sys_unlink` answers -EBUSY and removes nothing.
pub sys_unlink-idle :
    (k : Kernel) (path : ℕ)
    → buffer_ok read path (pos 1) ≡ true
    → is_neg (fat_check_path (path_memory k path)) ≡ false
    → is_neg (fat_find_path k.fs (path_of k path)) ≡ false
    → IsIdle k (fat_find_path k.fs (path_of k path))
    → sys_unlink k path ≡ (returned (minus ebusy), k)
unfolding sys_unlink
sys_unlink-idle k path readable fits there idle =
    let f = fat_find_path k.fs (path_of k path) in
    let e =
      Answer-idle k f (file_is_in_use k.dyn_channels f) idle
        (file_is_in_use-Answer k.dyn_channels f) in
    rw (readable, fits, there, e) refl

-- With a file system that was started with every count of opens at 0, a channel that leads to a
-- file of the directory can never be closed: `sys_close` answers -1 and changes nothing.
pub sys_close-Reach :
    (fs : Fat) (k : Kernel) (fd : ℤ)
    → ((f : ℕ) → f < max_files → (fs.root f).opens ≡ pos 0)
    → Reach fs k.fs
    → bad_fd k fd ≡ false
    → (k.dyn_channels (dynamic_of k fd)).fops ≡ dev_file
    → (k.dyn_channels (dynamic_of k fd)).file ≢ pos max_files
    → sys_close k fd ≡ (returned (minus 1), k)
unfolding sys_close f_close
sys_close-Reach fs k fd zeros reach good file other =
    rw
      (
        good,
        file,
        fat_close-Reach fs k.fs (k.dyn_channels (dynamic_of k fd)).file zeros reach other,
      )
      refl

Alloc-full :
    (m : Mm) (r : ℤ × Mm)
    → ((g : ℕ) → IsUserFrame g → m.phys_mem g ≢ free_frame_mark)
    → Alloc m r
    → r ≡ (minus 1, m)
Alloc-full m r none_free (took u free used others least table) = absurd (none_free _ u free)
Alloc-full m r none_free (full g) = refl

-- Without a free frame the first round of the loop of `sys_fork` ends it, and frees frame 0.
copy_pages-full :
    (k : Kernel) (child n : ℕ)
    → ((g : ℕ) → IsUserFrame g → (sched_of k).mm.phys_mem g ≢ free_frame_mark)
    → copy_pages (suc n) child 0 k ≡ (
      false,
      with_sched k
          (with_mm (sched_of k) (free_down (sched_of k).mm ((sched_of k).task child).phpages 0)),
    )
unfolding copy_pages
copy_pages-full k child n none_free =
    rw
      (Alloc-full (sched_of k).mm (alloc_frame (sched_of k).mm) none_free
        (alloc_frame-Alloc (sched_of k).mm))
      refl

-- The structure that `sys_fork` takes, the scheduler without it, and the kernel with the copy.
abbrev taken : Kernel → ℕ
taken k = list_head_to_task_struct (list_first (sched_of k).heap freequeue)

abbrev without : Kernel → Sched
without k = record (sched_of k) { heap = list_del (sched_of k).heap (task_node (taken k)) }

abbrev copied : Kernel → Kernel
copied k = with_sched k (copy_task (without k) (taken k))

get_new-taken :
    (k : Kernel)
    → list_empty (sched_of k).heap freequeue ≡ false
    → get_new_task_struct (sched_of k) ≡ (some (taken k), without k)
unfolding get_new_task_struct
get_new-taken k some_task = rw some_task refl

fork-full :
    (k : Kernel)
    → list_empty (sched_of k).heap freequeue ≡ false
    → ((g : ℕ) → IsUserFrame g → (sched_of k).mm.phys_mem g ≢ free_frame_mark)
    → sys_fork k ≡ (
      minus enomem,
      with_sched (copied k) (
          with_mm
            (sched_of (copied k))
            (free_down (sched_of k).mm ((sched_of (copied k)).task (taken k)).phpages 0)),
    )
unfolding sys_fork modify
fork-full k some_task none_free =
    ap (fork_into k) (get_new-taken k some_task)
    ∙ ap (after_pages (taken k)) (copy_pages-full (copied k) (taken k) 19 none_free)

-- When a structure is free but no frame is, `sys_fork` answers -ENOMEM and marks the first data
-- frame of the calling process as free. The process goes on using it: its list of frames and the
-- page table are what they were.
pub sys_fork-frees :
    (k : Kernel)
    → list_empty (sched_of k).heap freequeue ≡ false
    → ((g : ℕ) → IsUserFrame g → (sched_of k).mm.phys_mem g ≢ free_frame_mark)
    → ((sys_fork k).0 ≡ minus enomem)
      × ((sched_of (sys_fork k).1).mm.phys_mem ((current k).phpages 0) ≡ free_frame_mark)
      × ((current (sys_fork k).1).phpages ≡ (current k).phpages)
      × ((sched_of (sys_fork k).1).mm.pagusr_table ≡ (sched_of k).mm.pagusr_table)
unfolding free_down free_frame modify update
sys_fork-frees k some_task none_free =
    rw (fork-full k some_task none_free) (refl, ground arith, ground arith, refl)
