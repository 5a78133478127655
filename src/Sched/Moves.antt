-- ===== src/Sched/Moves.antt =====
-- Which queue holds a task after a change of queue, and what `sched_continue` of sched.c leaves.
use s.Base.{
  ℕ, ◌-◌, ◌≡◌, refl, Bool, true, ◌&&◌, List, [], ◌∷◌, arith, leb, ltb, ap, sym, ◌≢◌, pos, update,
  loop_inv, ◌+◌, if◌then◌else◌,
}
use s.ListHead.Links.{has, has-append}
use s.ListHead.Queues.{IsQueues}
use s.ListHead.Move.{erase, move, has-erase}
use s.Mm.{Mm, set_ss_pag, user_entry, num_pag_data, pag_log_init_data_p0}
use s.Sched.{Sched, task_node, runqueue, sched_select_next, sched_continue, map_pages, running}
use s.Sched.Inv.{is_node, is_head, IsValid, select-first}

-- Where the queues stand after a block or an unblock.
pub has-move : (q : ℕ → List ℕ) (i j e a k : ℕ) → a ≢ e → has a (move q i j e k) ≡ has a (q k)
has-move q i j e a k ne =
    unfold update in
    ground (
      arith,
      has-erase a e (q i) ne,
      has-append a (q k) (e ∷ []),
      has-append a (erase e (q i)) (e ∷ []),
    )

-- After the loop of `task_switch` over the data pages these lead to the task's frames, and no other
-- page has changed.
pub map_pages_lem :
    (m : Mm) (phpages : ℕ → ℕ) (page : ℕ)
    → (map_pages m phpages).pagusr_table page ≡ (
        if leb pag_log_init_data_p0 page && ltb page (pag_log_init_data_p0 + num_pag_data)
        then user_entry (phpages (page - pag_log_init_data_p0))
        else m.pagusr_table page)
unfolding map_pages
map_pages_lem m phpages page =
    loop_inv
      (λ k n. n.pagusr_table page ≡ (
        if leb pag_log_init_data_p0 page && ltb page (pag_log_init_data_p0 + k)
        then user_entry (phpages (page - pag_log_init_data_p0))
        else m.pagusr_table page))
      num_pag_data (λ i n. set_ss_pag n (pag_log_init_data_p0 + i) (phpages i)) m
      (λ i t lt e. unfold set_ss_pag update in ground arith) (ground arith)

-- What `sched_continue(sched_select_next())` leaves: the first task of the run queue runs, with a
-- quantum of its own, and the queues are as before.
pub record Resumed (live : ℕ → Bool) (s : Sched) (q : ℕ → List ℕ) (t : Sched) : Type 0 where
  pub rest : List ℕ
  pub first : q runqueue ≡ task_node t.current ∷ rest
  pub quantum : t.roundtics ≡ pos (s.task t.current).quantum
  pub runs : (t.task t.current).state ≡ running
  pub valid : IsValid live t q

pub resume-Resumed :
    (live : ℕ → Bool) (s : Sched) (q : ℕ → List ℕ) (x : ℕ) (xs : List ℕ)
    → IsQueues is_node (is_head live) s.heap q
    → has (task_node 0) (q runqueue) ≡ true
    → q runqueue ≡ x ∷ xs
    → Resumed live s q (sched_continue s (sched_select_next s))
unfolding sched_continue
resume-Resumed live s q x xs v idle e =
    let node = select-first live s q x xs v e in
    record {
      rest = xs;
      first = rw e (ap (λ y. y ∷ xs) (sym node));
      quantum = refl;
      runs = unfold update in ground arith;
      valid = record { queues = v; current_in = rw (node, e) (ground arith); idle_in = idle };
    }
