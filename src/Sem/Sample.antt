-- ===== src/Sem/Sample.antt =====
-- A kernel with three tasks, for the tests: the first task and the task 1, which runs, stand in the
-- run queue, and the task 2 waits at semaphore 0, which task 1 owns.
use s.Base.{
  ℕ, ◌+◌, refl, true, false, List, [], ◌∷◌, ◌++◌, arith, ◌==◌, pos, minus, update, if◌then◌else◌,
  ◌*◌, ◌||◌,
}
use s.ListHead.{Heap, init_list_head, list_add_tail}
use s.ListHead.Queues.{IsQueues, init-IsQueues, list_add_tail-IsQueues}
use s.Mm.{zero_entry}
use s.Sched.{Sched, Task, State, running, ready, blocked}
use s.Sched.Inv
use s.Sched.Inv.{is_node, is_head}
use s.Sem.{Sems, free_sem}
use s.Sem.Inv.{live, IsValid}

abbrev pub blank : Heap
blank = record { next = λ a. 0; prev = λ a. 0 }

abbrev pub lists : Heap
lists = init_list_head (init_list_head (init_list_head (init_list_head blank 11) 12) 13) 14

abbrev pub heap : Heap
heap = list_add_tail (list_add_tail (list_add_tail lists 1 11) 2 11) 3 14

abbrev pub a_task : ℕ → State → Task
a_task pid state = record {
  pid = pid;
  state = state;
  st = record { tics = 0; cs = 0; remaining_quantum = 10 };
  quantum = 10;
  phpages = λ i. 264 + 2 * i;
  buff = 0;
  remain = pos 0;
  offset = pos 0;
  channels = λ i. minus 1;
  eax = pos 0;
}

abbrev pub scheduler : Sched
scheduler = record {
  heap = heap;
  task =
      λ i. if i == 0 then a_task 0 ready else if i == 1 then a_task 5 running else a_task 6 blocked;
  current = 1;
  roundtics = pos 1;
  eoi_from_interrupt = false;
  tss_esp0 = 1;
  mm = record {
    phys_mem = λ i. 0;
    pagusr_table = λ i. zero_entry;
    dir_pages = λ i. zero_entry;
    paging = true;
  };
}

abbrev pub kernel : Sems
kernel = record {
  sched = scheduler;
  sems = λ i.
      if i == 0
      then record { owner = 5; value = pos 0 }
      else record { owner = free_sem; value = pos 0 };
}

abbrev pub empties : ℕ → List ℕ
empties = update (update (update (update (λ i. []) 11 []) 12 []) 13 []) 14 []

abbrev pub add : (ℕ → List ℕ) → ℕ → ℕ → ℕ → List ℕ
add q i e = update q i (q i ++ e ∷ [])

abbrev pub queues : ℕ → List ℕ
queues = add (add (add empties 11 1) 11 2) 14 3

pub lists-IsQueues : IsQueues is_node (is_head (live kernel)) lists empties
lists-IsQueues =
    init-IsQueues is_node (λ a. (a == 11) || (a == 12) || (a == 13)) (is_head (live kernel))
      (init_list_head (init_list_head (init_list_head blank 11) 12) 13)
      (update (update (update (λ i. []) 11 []) 12 []) 13 []) 14 (λ j h n. ground arith) refl
      (init-IsQueues is_node (λ a. (a == 11) || (a == 12))
        (λ a. (a == 11) || (a == 12) || (a == 13)) (init_list_head (init_list_head blank 11) 12)
        (update (update (λ i. []) 11 []) 12 []) 13 (λ j h n. ground arith) refl
        (init-IsQueues is_node (λ a. a == 11) (λ a. (a == 11) || (a == 12))
          (init_list_head blank 11) (update (λ i. []) 11 []) 12 (λ j h n. ground arith) refl
          (init-IsQueues is_node (λ a. false) (λ a. a == 11) blank (λ i. []) 11
            (λ j h n. ground arith) refl
            (record {
              each = λ i h. cc;
              heads = λ i h. cc;
              nodes = λ i a h m. cc;
              apart = λ i j a h k n m. cc;
            }))))

pub heap-IsQueues : IsQueues is_node (is_head (live kernel)) heap queues
unfolding update
heap-IsQueues =
    list_add_tail-IsQueues is_node (is_head (live kernel))
      (list_add_tail (list_add_tail lists 1 11) 2 11) (add (add empties 11 1) 11 2)
      (list_add_tail-IsQueues is_node (is_head (live kernel)) (list_add_tail lists 1 11)
        (add empties 11 1)
        (list_add_tail-IsQueues is_node (is_head (live kernel)) lists empties lists-IsQueues 11 1
          refl (refl, λ i h. ground arith))
        11 2 refl (refl, λ i h. ground arith))
      14 3 refl (refl, λ i h. ground arith)

pub scheduler-IsValid : Inv.IsValid (live kernel) scheduler queues
unfolding update
scheduler-IsValid = record { queues = heap-IsQueues; current_in = refl; idle_in = refl }

pub kernel-IsValid : IsValid kernel queues
unfolding update
kernel-IsValid = record {
  sched = scheduler-IsValid;
  idle_pid = refl;
  stocked = λ i lt on. ground arith;
}
