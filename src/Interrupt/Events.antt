-- ===== src/Interrupt/Events.antt =====
-- The clock's and the keyboard's interrupts as events, and what a tick leaves of a waiting task and
-- of one that has been served.
use s.Base.{ℕ, ◌≡◌, refl, true, false, ◌∙◌, List, [], ◌∷◌, arith, update, leb, if◌then◌else◌}
use s.ListHead.Links.{has}
use s.ListHead.Move.{move}
use s.Sched.{
  Sched, Task, runqueue, keyboardqueue, task_node, sched, sched_continue, sched_pause,
  sched_update_status, modify,
}
use s.Sched.Tick.{Tick, goes_on, switches, sched-Tick, has-rotated}
use s.Sem.Inv.{live, IsValid}
use s.Sem.Steps.{sched-pid}
use s.Sys.{Kernel, sched_of, with_sched}
use s.Interrupt.{key_char, keyboard_routine}
use s.Interrupt.Waiting.{Waiting, Served}

-- What the clock and the keyboard send.
pub data Event : Type 0 where
  tick : Event
  key : ℕ → Event

-- The kernel after an event.
unfoldable pub react : Kernel → Event → Kernel
react k tick = with_sched k (sched (sched_of k))
react k (key code) = keyboard_routine k code

unfoldable pub react_all : Kernel → List Event → Kernel
unfolding react
react_all k [] = k
react_all k (e ∷ es) = react_all (react k e) es

-- The characters of the keys that are pressed; a code from 0x80 on is a release.
unfoldable pub typed : List Event → List ℕ
typed [] = []
typed (tick ∷ es) = typed es
typed (key code ∷ es) = if leb 0x80 code then typed es else key_char code ∷ typed es

-- The clock leaves a task's request and its call's result alone.
abbrev SameRequest : Task → Task → Type 0
SameRequest t u =
    (t.remain ≡ u.remain)
    × (t.offset ≡ u.offset)
    × (t.buff ≡ u.buff)
    × (t.eax ≡ u.eax)
    × (t.phpages ≡ u.phpages)

sched-SameRequest : (s : Sched) (t : ℕ) → SameRequest ((sched s).task t) (s.task t)
unfolding sched sched_continue sched_pause sched_update_status modify update
sched-SameRequest s t = ground arith

-- The lists after a tick.
pub record Ticked (k : Kernel) (q : ℕ → List ℕ) : Type 0 where
  pub q' : ℕ → List ℕ
  pub valid : IsValid (react k tick).sems q'
  pub waits : q' keyboardqueue ≡ q keyboardqueue
  pub runs : (a : ℕ) → has a (q runqueue) ≡ true → has a (q' runqueue) ≡ true

pub tick-Ticked : (k : Kernel) (q : ℕ → List ℕ) → IsValid k.sems q → Ticked k q
unfolding react
tick-Ticked k q v = go (sched-Tick (live k.sems) (sched_of k) q v.sched)
  where
    go : Tick (live k.sems) (sched_of k) q (sched (sched_of k)) → Ticked k q
    go (goes_on a b c w) = record {
      q' = q;
      valid = record {
        sched = w;
        idle_pid = sched-pid (sched_of k) 0 ∙ v.idle_pid;
        stocked = v.stocked;
      };
      waits = refl;
      runs = λ a m. m;
    }
    go (switches a b c w) = record {
      q' = move q runqueue runqueue (task_node (sched_of k).current);
      valid = record {
        sched = w;
        idle_pid = sched-pid (sched_of k) 0 ∙ v.idle_pid;
        stocked = λ i lt on. unfold update in ground (arith, v.stocked i lt on);
      };
      waits = unfold update in ground arith;
      runs = λ a m. unfold update in has-rotated a (task_node (sched_of k).current) (q runqueue) m;
    }

pub tick-Waiting :
    (k : Kernel) (q : ℕ → List ℕ) (frames : ℕ → ℕ) (t want addr : ℕ)
    → (w : Waiting k q frames t want addr)
    → Waiting (react k tick) (tick-Ticked k q w.valid).q' frames t want addr
unfolding react
tick-Waiting k q frames t want addr w =
    let after = tick-Ticked k q w.valid in
    let same = sched-SameRequest (sched_of k) t in
    record {
      valid = after.valid;
      keys = w.keys;
      rest = w.rest;
      first = after.waits ∙ w.first;
      remain = same.0 ∙ w.remain;
      offset = same.1 ∙ w.offset;
      buff = same.2 ∙ w.buff;
      pages = same.4 ∙ w.pages;
      short = w.short;
      few = w.few;
    }

pub tick-Served :
    (memory : ℕ → ℕ → ℕ) (frames : ℕ → ℕ) (t want addr : ℕ) (chars : List ℕ) (k : Kernel)
    → Served memory frames t want addr chars k
    → Served memory frames t want addr chars (react k tick)
unfolding react
tick-Served memory frames t want addr chars k w =
    let after = tick-Ticked k w.q w.valid in
    record {
      q = after.q';
      valid = after.valid;
      runs = after.runs (task_node t) w.runs;
      result = (sched-SameRequest (sched_of k) t).3 ∙ w.result;
      delivered = record {
        source = w.delivered.source;
        holds = w.delivered.holds;
        stored = w.delivered.stored;
      };
      keys = w.keys;
      none_left = w.none_left;
    }

pub release-same : (k : Kernel) (code : ℕ) → leb 0x80 code ≡ true → keyboard_routine k code ≡ k
unfolding keyboard_routine
release-same k code h = rw h refl

pub typed-press :
    (code : ℕ) (es : List Event)
    → leb 0x80 code ≡ false
    → typed (key code ∷ es) ≡ key_char code ∷ typed es
unfolding typed
typed-press code es h = rw h refl
