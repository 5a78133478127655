-- ===== src/Sched/Turns.antt =====
-- Sequences of calls of `sched` of sched.c: the turns that the tasks of the run queue take.
use s.Base.{
  ℕ, zero, suc, ◌+◌, ◌≡◌, refl, ◌≢◌, Bool, true, List, [], ◌∷◌, ◌++◌, arith, ◌==◌, pos, ◌-ℤ◌, ◌-◌,
  ap, sym, ◌∙◌, subst, update, inl, inr, Bool-cases, ==→≡, append_assoc,
}
use s.ListHead.Links.{has, has-append}
use s.ListHead.Move.{erase, has-erase, split, move}
use s.Sched.{
  Sched, task_node, runqueue, sched, sched_continue, sched_pause, sched_update_status, modify,
}
use s.Sched.Inv.{IsValid}
use s.Sched.Tick.{Tick, goes_on, switches, has-rotated, sched-Tick}

-- The state after `n` ticks of the clock.
unfoldable pub ticks : ℕ → Sched → Sched
ticks zero s = s
ticks (suc n) s = ticks n (sched s)

ticks-ticks : (a b : ℕ) (s : Sched) → ticks b (ticks a s) ≡ ticks (a + b) s
unfolding ticks
ticks-ticks zero b s = ap (λ n. ticks n s) {x = b} {y = 0 + b} (omega arith)
ticks-ticks (suc a) b s =
    ticks-ticks a b (sched s) ∙ ap (λ n. ticks n s) {x = suc (a + b)} {y = suc a + b} (omega arith)

sched-quantum : (s : Sched) (i : ℕ) → ((sched s).task i).quantum ≡ (s.task i).quantum
unfolding sched sched_continue sched_pause sched_update_status modify update
sched-quantum s i = ground arith

one_less : (n : ℕ) → pos (suc n) -ℤ pos 1 ≡ pos n
unfolding ◌-ℤ◌
one_less n = ground arith

-- The ticks until the current task's time is over, and the one that ends it.
record Turned (live : ℕ → Bool) (s : Sched) (q : ℕ → List ℕ) : Type 0 where
  n : ℕ
  t : Sched
  rest : List ℕ
  later : t ≡ ticks (suc n) s
  turned :
      erase (task_node s.current) (q runqueue) ++ task_node s.current ∷ []
      ≡ task_node t.current ∷ rest
  rounds : t.roundtics ≡ pos (s.task t.current).quantum
  quanta : (i : ℕ) → (t.task i).quantum ≡ (s.task i).quantum
  valid : IsValid live t (move q runqueue runqueue (task_node s.current))

last-Tick :
    {live : ℕ → Bool} {s : Sched} {q : ℕ → List ℕ}
    → s.roundtics ≡ pos 1
    → Tick live s q (sched s)
    → Turned live s q
unfolding ticks
last-Tick e (goes_on ne c m w) = absurd (ne e)
last-Tick {s = s} e (switches {rest = rest} o w m x) = record {
  n = 0;
  t = sched s;
  rest = rest;
  later = refl;
  turned = w;
  rounds = m;
  quanta = sched-quantum s;
  valid = x;
}

earlier-Tick :
    {live : ℕ → Bool} {s : Sched} {q : ℕ → List ℕ} (r : ℕ)
    → s.roundtics ≡ pos (suc (suc r))
    → (IsValid live (sched s) q → (sched s).roundtics ≡ pos (suc r) → Turned live (sched s) q)
    → Tick live s q (sched s)
    → Turned live s q
unfolding ticks
earlier-Tick {live} {s} {q} r e rest (goes_on ne c m w) =
    let u = rest w (m ∙ ap (λ z. z -ℤ pos 1) e ∙ one_less (suc r)) in
    record {
      n = suc u.n;
      t = u.t;
      rest = u.rest;
      later = u.later;
      turned =
          subst
            (λ a.
              erase (task_node a) (q runqueue) ++ task_node a ∷ [] ≡ task_node u.t.current ∷ u.rest)
            c u.turned;
      rounds = u.rounds ∙ ap pos (sched-quantum s u.t.current);
      quanta = λ i. u.quanta i ∙ sched-quantum s i;
      valid = subst (λ a. IsValid live u.t (move q runqueue runqueue (task_node a))) c u.valid;
    }
earlier-Tick r e rest (switches o w m x) = absurd (ground arith)

turn :
    (live : ℕ → Bool) (r : ℕ) (s : Sched) (q : ℕ → List ℕ)
    → IsValid live s q
    → s.roundtics ≡ pos (suc r)
    → Turned live s q
turn live zero s q v e = last-Tick e (sched-Tick live s q v)
turn live (suc r) s q v e =
    earlier-Tick r e (λ w m. turn live r (sched s) q w m) (sched-Tick live s q v)

-- The tasks of the run queue have a quantum.
abbrev Runs : Sched → List ℕ → Type 0
Runs s xs = (i : ℕ) → has (task_node i) xs ≡ true → (s.task i).quantum ≢ 0

has-turned :
    (a e : ℕ) (xs : List ℕ)
    → has e xs ≡ true
    → has a (erase e xs ++ e ∷ []) ≡ true
    → has a xs ≡ true
has-turned a e xs m h = elim (Bool-cases (a == e)) [
  | inl p ↦ ground (arith, m)
  | inr p ↦ ground (arith, h, has-append a (erase e xs) (e ∷ []), has-erase a e xs)
]

Turned-Runs :
    {live : ℕ → Bool} {s : Sched} {q : ℕ → List ℕ} (u : Turned live s q)
    → IsValid live s q
    → Runs s (q runqueue)
    → Runs u.t (move q runqueue runqueue (task_node s.current) runqueue)
unfolding update
Turned-Runs {s = s} {q} u v runs i m =
    rw (u.quanta i)
      (runs i (has-turned (task_node i) (task_node s.current) (q runqueue) v.current_in m))

-- The rounds of the next task.
next_rounds :
    {live : ℕ → Bool} {s : Sched} {q : ℕ → List ℕ} (u : Turned live s q)
    → IsValid live s q
    → Runs s (q runqueue)
    → u.t.roundtics ≡ pos (suc ((u.t.task u.t.current).quantum - 1))
next_rounds {s = s} {q} u v runs =
    let ne = Turned-Runs u v runs u.t.current (u.valid.current_in) in
    u.rounds ∙ ap pos (omega (arith, u.quanta u.t.current, ne))

erase-first : (c : ℕ) (xs : List ℕ) → erase c (c ∷ xs) ≡ xs
unfolding erase
erase-first c xs = ground arith

abbrev Reached : Sched → ℕ → Type 0
Reached s x = (n : ℕ) × ((ticks (suc n) s).current ≡ x)

Reached-later :
    {live : ℕ → Bool} {s : Sched} {q : ℕ → List ℕ} {x : ℕ} (u : Turned live s q)
    → Reached u.t x
    → Reached s x
unfolding ticks
Reached-later {s = s} {x = x} u (n, e) = (
  u.n + suc n,
  ap (λ k. (ticks k s).current) {x = suc (u.n + suc n)} {y = suc u.n + suc n} (omega arith)
      ∙ ap (λ t. t.current) (sym (ticks-ticks (suc u.n) (suc n) s))
      ∙ ap (λ t. (ticks (suc n) t).current) (sym u.later)
      ∙ e,
)

-- The run queue after the turn of its first task `c`.
turned_queue : (c : ℕ) (xs zs : List ℕ) → xs ≡ c ∷ zs → erase c xs ++ c ∷ [] ≡ zs ++ c ∷ []
turned_queue c xs zs e = ap (λ l. erase c l ++ c ∷ []) e ∙ ap (λ l. l ++ c ∷ []) (erase-first c zs)

first-same : (a b : ℕ) (xs ys : List ℕ) → a ∷ xs ≡ b ∷ ys → a ≡ b
first-same a b xs ys e = ground arith

-- A task behind the current one in the run queue gets its turn: `front` are those before it.
behind :
    {live : ℕ → Bool} (front back : List ℕ) (r : ℕ) (s : Sched) (q : ℕ → List ℕ) (x : ℕ)
    → IsValid live s q
    → s.roundtics ≡ pos (suc r)
    → Runs s (q runqueue)
    → q runqueue ≡ task_node s.current ∷ (front ++ task_node x ∷ back)
    → Reached s x
unfolding update
behind {live} [] back r s q x v e runs whole =
    let u = turn live r s q v e in
    (
      u.n,
      ap (λ t. t.current) (sym u.later)
          ∙ omega (arith, first-same _ _ _ _ (sym (turned_queue _ _ _ whole) ∙ u.turned)),
    )
behind {live} (y ∷ ys) back r s q x v e runs whole =
    let u = turn live r s q v e in
    Reached-later u (
      behind ys (back ++ task_node s.current ∷ []) ((u.t.task u.t.current).quantum - 1) u.t
        (move q runqueue runqueue (task_node s.current)) x u.valid (next_rounds u v runs)
        (Turned-Runs u v runs)
        (turned_queue _ _ _ whole
          ∙ ap (λ a. a ∷ (ys ++ task_node x ∷ back) ++ task_node s.current ∷ [])
              (first-same _ _ _ _ (sym (turned_queue _ _ _ whole) ∙ u.turned))
          ∙ ap (λ l. task_node u.t.current ∷ l)
              (append_assoc ys (task_node x ∷ back) (task_node s.current ∷ []))))

-- In a valid scheduler in which the tasks of the run queue have a quantum and the current task some
-- time left, every task of the run queue gets the processor after some clock ticks, at least one:
-- no task waits for its turn for ever.
pub sched-Reached :
    (live : ℕ → Bool) (s : Sched) (q : ℕ → List ℕ) (r x : ℕ)
    → IsValid live s q
    → s.roundtics ≡ pos (suc r)
    → ((i : ℕ) → has (task_node i) (q runqueue) ≡ true → (s.task i).quantum ≢ 0)
    → has (task_node x) (q runqueue) ≡ true
    → (n : ℕ) × ((ticks (suc n) s).current ≡ x)
unfolding update
sched-Reached live s q r x v e runs m =
    let u = turn live r s q v e in
    let m' : has (task_node x) (task_node u.t.current ∷ u.rest) ≡ true =
      subst (λ l. has (task_node x) l ≡ true) u.turned
        (has-rotated (task_node x) (task_node s.current) (q runqueue) m) in
    elim (Bool-cases (x == u.t.current)) [
      | inl h ↦ (u.n, ap (λ t. t.current) (sym u.later) ∙ sym (==→≡ x u.t.current h))
      | inr h ↦
          let p = split (task_node x) u.rest (ground arith) in
          Reached-later u (
            behind p.front p.back ((u.t.task u.t.current).quantum - 1) u.t
              (move q runqueue runqueue (task_node s.current)) x u.valid (next_rounds u v runs)
              (Turned-Runs u v runs) (u.turned ∙ ap (λ l. task_node u.t.current ∷ l) p.whole))
    ]
