-- ===== src/Interrupt/Serve.antt =====
-- `keyboard_routine` keeps the kernel's queues, whoever waits for the keyboard and for how much.
use s.Base.{
  ℕ, ◌≡◌, refl, false, ◌∙◌, List, ◌∷◌, pos, pos_part, ◌+ℤ◌, ◌=ℤ◌, arith, update, leb, Bool-cases,
  inl, inr, subst, List-cases, ap, sym,
}
use s.ListHead.{list_empty, list_first}
use s.ListHead.Links.{IsQueue}
use s.ListHead.Queue.{list_empty-nil, list_empty-cons}
use s.CircBuff.{is_full, get_size, get_character}
use s.Sched.{keyboardqueue, sem_queue, task_node, modify, list_head_to_task_struct}
use s.Sched.Inv.{first-node}
use s.Sched.Wake.{Woken, unblock-Woken}
use s.Sem.Inv.{live, IsValid}
use s.Sem.Steps.{quiet-IsValid}
use s.Sys.{Kernel, sched_of}
use s.Interrupt.{keep, key_char, serve, serve_part, serve_first, keyboard_routine}

module _ (k : Kernel) (q : ℕ → List ℕ) (t : ℕ) (rest : List ℕ) (v : IsValid k.sems q)
    (first : q keyboardqueue ≡ task_node t ∷ rest) where
  pub someone : list_empty (sched_of k).heap keyboardqueue ≡ false
  someone = list_empty-cons (sched_of k).heap keyboardqueue (task_node t) rest (
      subst (IsQueue (sched_of k).heap keyboardqueue) first
        (v.sched.queues.each keyboardqueue refl))

  pub first_task : list_head_to_task_struct (list_first (sched_of k).heap keyboardqueue) ≡ t
  first_task = omega (
    arith,
    first-node (live k.sems) (sched_of k) q keyboardqueue (task_node t) rest v.sched.queues refl
        first,
  )

  -- The task's call returns what it had before and what it has got now.
  pub serve-Woken :
      Woken
        (live k.sems)
        (sched_of k)
        q
        keyboardqueue
        (((sched_of k).task t).offset
          +ℤ pos (get_character k.circular_buffer (pos_part ((sched_of k).task t).remain)).1)
        rest
        t
        (sched_of (serve k t))
  unfolding serve modify
  serve-Woken =
      unblock-Woken (live k.sems) (sched_of k) _ q keyboardqueue _ t rest v.sched refl
        (λ e. omega arith) first refl refl (unfold update in ground arith)
        (λ u ne. unfold update in ground arith) (λ u. unfold update in ground arith)

  pub serve-IsValid : IsValid (serve k t).sems serve-Woken.q'
  unfolding serve modify
  serve-IsValid = record {
    sched = serve-Woken.valid;
    idle_pid = serve-Woken.pids 0 ∙ v.idle_pid;
    stocked = λ i lt on.
        rw (serve-Woken.same (sem_queue i) (λ e. omega arith) (λ e. omega arith))
          (v.stocked i lt on);
  }

serve_part-IsValid :
    (k : Kernel) (q : ℕ → List ℕ) (t : ℕ) → IsValid k.sems q → IsValid (serve_part k t).sems q
unfolding serve_part modify
serve_part-IsValid k q t v = quiet-IsValid k.sems q _ v refl refl (unfold update in ground arith)

abbrev IsSound : Kernel → Type 0
IsSound k = (q : ℕ → List ℕ) × IsValid k.sems q

serve_first-IsSound :
    (k : Kernel) (q : ℕ → List ℕ) (t : ℕ) (rest : List ℕ)
    → IsValid k.sems q
    → q keyboardqueue ≡ task_node t ∷ rest
    → IsSound (serve_first k)
unfolding serve_first
serve_first-IsSound k q t rest v first =
    let served = serve-IsValid k q t rest v first in
    let now = pos (get_size k.circular_buffer) =ℤ ((sched_of k).task t).remain in
    rw (first_task k q t rest v first) (elim (Bool-cases now) [
      | inl h ↦ elim (Bool-cases (is_full (serve k t).circular_buffer)) [
        | inl f ↦ rw (h, f) (_, serve_part-IsValid (serve k t) _ t served)
        | inr f ↦ rw (h, f) (_, served)
      ]
      | inr h ↦ elim (Bool-cases (is_full k.circular_buffer)) [
        | inl f ↦ rw (h, f) (q, serve_part-IsValid k q t v)
        | inr f ↦ rw (h, f) (q, v)
      ]
    ])

keep-IsValid : (k : Kernel) (q : ℕ → List ℕ) (c : ℕ) → IsValid k.sems q → IsValid (keep k c).sems q
keep-IsValid k q c v = elim (Bool-cases (is_full k.circular_buffer)) [
  | inl h ↦ rw h v
  | inr h ↦ rw h v
]

-- A node of the keyboard's queue is a task's.
keyboard-task :
    (k : Kernel) (q : ℕ → List ℕ) (x : ℕ) (rest : List ℕ)
    → IsValid k.sems q
    → q keyboardqueue ≡ x ∷ rest
    → (t : ℕ) × (task_node t ≡ x)
keyboard-task k q x rest v e =
    (_, first-node (live k.sems) (sched_of k) q keyboardqueue x rest v.sched.queues refl e)

-- Whoever waits for the keyboard, and whatever key is pressed or released, the queues are those of
-- a valid kernel still.
pub keyboard_routine-IsSound :
    (k : Kernel) (q : ℕ → List ℕ) (code : ℕ)
    → IsValid k.sems q
    → (q' : ℕ → List ℕ) × IsValid (keyboard_routine k code).sems q'
unfolding keyboard_routine
keyboard_routine-IsSound k q code v =
    let k' = keep k (key_char code) in
    let v' : IsValid k'.sems q = keep-IsValid k q (key_char code) v in
    elim (Bool-cases (leb 0x80 code)) [
      | inl h ↦ rw h (q, v)
      | inr h ↦ elim (List-cases (q keyboardqueue)) [
        | inl none ↦
            let nobody = list_empty-nil (sched_of k').heap keyboardqueue (
              subst (IsQueue (sched_of k').heap keyboardqueue) none
                (v'.sched.queues.each keyboardqueue refl)) in
            rw (h, nobody) (q, v')
        | inr (x, rest, some) ↦
            let (t, node) = keyboard-task k' q x rest v' some in
            let first : q keyboardqueue ≡ task_node t ∷ rest =
              some ∙ ap (λ y. y ∷ rest) (sym node) in
            rw (h, someone k' q t rest v' first) (serve_first-IsSound k' q t rest v' first)
      ]
    ]
