-- ===== src/Sys/Keyboard.antt =====
-- `sys_read_keyboard` of devices.c on every branch.
use s.Base.{
  ℕ, ◌<◌, ◌≤◌, ◌≡◌, refl, ◌≢◌, true, false, ◌&&◌, ◌+◌, ◌-◌, ltb, get_or, ◌∙◌, List, [], pos, minus,
  arith, update, ◌==◌, leb, Bool-cases, inl, inr, length, take, drop, ap, subst, length-take,
  List-cases,
}
use s.ListHead.{list_empty}
use s.ListHead.Links.{IsQueue}
use s.ListHead.Queue.{list_empty-cons}
use s.ListHead.Move.{move}
use s.CircBuff.{circ_buff_size, get_character}
use s.CircBuff.Queue
use s.CircBuff.Queue.{contents, Got, get_character-Got}
use s.CircBuff.Full.{get_character-full}
use s.Kernutil.{copy_chars}
use s.Utils.Placed.{placed, copy_chars-placed}
use s.Mm.{num_pag_data}
use s.Sys.Memory.{view, put, IsApart, InData, put-view, put-others}
use s.Sched.{
  Sched, Task, runqueue, keyboardqueue, task_node, modify, sched_block, sched_continue, blocked,
}
use s.Sched.Moves.{Resumed}
use s.Sched.Block.{after_block, block-Resumed, block_ne}
use s.Sem.{eperm}
use s.Sem.Inv.{live, IsValid}
use s.Sys.{Kernel, Outcome, returned, switched, sched_of, with_sched, current}
use s.Sys.Devices.{to_user, sys_read_keyboard}

-- The memory was `memory` before, and the task with the given frames has got the `size` characters
-- at `addr`.
pub record Delivered (memory : ℕ → ℕ → ℕ) (frames : ℕ → ℕ) (addr size : ℕ) (chars : List ℕ)
    (k : Kernel) : Type 0 where
  pub source : ℕ → ℕ
  pub holds : (i : ℕ) → i < size → source i ≡ get_or chars i 0
  pub stored : k.memory ≡ put source memory frames addr size

-- In the data pages the task reads the characters there, and everything else as before, and no
-- other frame has changed.
pub Delivered-placed :
    (memory : ℕ → ℕ → ℕ) (frames : ℕ → ℕ) (addr size : ℕ) (cs : List ℕ) (k : Kernel)
    → Delivered memory frames addr size cs k
    → length cs ≡ size
    → IsApart frames
    → InData addr size
    → ((j : ℕ) → InData j 1 → view k.memory frames j ≡ placed cs (view memory frames) addr j)
      × ((f : ℕ) → ((i : ℕ) → i < num_pag_data → frames i ≢ f) → k.memory f ≡ memory f)
Delivered-placed memory frames addr size cs k d len apart ind = (
  λ j inj.
      ap (λ m. view m frames j) d.stored
      ∙ put-view d.source memory frames addr size j apart ind inj
      ∙ elim (Bool-cases (leb addr j && ltb j (addr + size))) [
        | inl h ↦
            let e : 0 + (j - addr) ≡ j - addr = omega arith in
            rw (len, h, e) (d.holds (j - addr) (ground (arith, h)))
        | inr h ↦ rw (len, h) refl
      ],
  λ f out. ap (λ m. m f) d.stored ∙ put-others d.source memory frames addr size f ind out,
)

-- The characters stand at the start of `sysbuff`.
pub sent :
    (sysbuff : ℕ → ℕ) (cs : List ℕ) (size i : ℕ)
    → length cs ≡ size
    → i < size
    → copy_chars sysbuff 0 cs i ≡ get_or cs i 0
sent sysbuff cs size i len lt =
    let inside : leb 0 i && ltb i (0 + length cs) ≡ true = ground (arith, len, lt) in
    let at : i - 0 ≡ i = omega arith in copy_chars-placed cs sysbuff 0 i ∙ rw (inside, at) refl

-- A task that waits for `size` characters, to be put at `buffer`.
pub record Asks (t : Task) (buffer size : ℕ) : Type 0 where
  pub remain : t.remain ≡ pos size
  pub offset : t.offset ≡ pos 0
  pub buff : t.buff ≡ buffer
  pub state : t.state ≡ blocked

-- What a read of `size` characters may do, with `q` the queues before.
pub data KeysRead (k : Kernel) (q : ℕ → List ℕ) (buffer size : ℕ) : Outcome × Kernel → Type 0 where
  first : (current k).pid ≡ 0 → KeysRead k q buffer size (returned (minus eperm), k)
  -- The oldest characters go to the reader.
  at_once :
      {k' : Kernel}
      → size ≤ k.circular_buffer.count
      → q keyboardqueue ≡ []
      → k.circular_buffer.count < circ_buff_size
      → k'.sems ≡ k.sems
      → Delivered k.memory
          (current k).phpages
          buffer
          size
          (take size (contents k.circular_buffer))
          k'
      → contents k'.circular_buffer ≡ drop size (contents k.circular_buffer)
      → Queue.IsValid k'.circular_buffer
      → KeysRead k q buffer size (returned (pos size), k')
  -- A full buffer hands nothing out.
  full :
      {k' : Kernel}
      → k.circular_buffer.count ≡ circ_buff_size
      → k'.sems ≡ k.sems
      → k'.circular_buffer ≡ k.circular_buffer
      → KeysRead k q buffer size (returned (pos 0), k')
  -- The reader waits behind those that wait already, and the next task runs.
  waits :
      {k' : Kernel}
      → IsValid k'.sems (move q runqueue keyboardqueue (task_node (sched_of k).current))
      → Asks ((sched_of k').task (sched_of k).current) buffer size
      → ((sched_of k').task (sched_of k).current).phpages ≡ (current k).phpages
      → k'.memory ≡ k.memory
      → k'.circular_buffer ≡ k.circular_buffer
      → KeysRead k q buffer size (switched, k')

module _ (k : Kernel) (q : ℕ → List ℕ) (buffer size : ℕ) (v : IsValid k.sems q)
    (some_pid : (current k).pid == 0 ≡ false) where
  -- The reader's request.
  abbrev asking : Sched
  asking =
      modify (sched_of k) (sched_of k).current
        λ t. record t { offset = pos 0; remain = pos size; buff = buffer }

  busy : (sched_of k).current ≢ 0
  busy e = ground (arith, v.idle_pid, ap (λ t. ((sched_of k).task t).pid) e)

  abbrev waiting_sched : Sched
  waiting_sched = after_block asking keyboardqueue

  asks :
      Resumed
        (live k.sems)
        (sched_block asking asking.current keyboardqueue)
        (move q runqueue keyboardqueue (task_node (sched_of k).current))
        waiting_sched
  unfolding modify
  asks =
      block-Resumed (live k.sems) (sched_of k) q v.sched keyboardqueue refl (λ e. omega arith) busy
        asking refl refl

  asked_ne : waiting_sched.current ≢ (sched_of k).current
  unfolding modify
  asked_ne =
      block_ne (live k.sems) (sched_of k) q v.sched keyboardqueue refl (λ e. omega arith) busy
        asking refl refl

  asked_task :
      waiting_sched.current ≢ (sched_of k).current
      → Asks (waiting_sched.task (sched_of k).current) buffer size
  unfolding modify sched_block sched_continue update
  asked_task ne = ground arith

  asked_pages :
      waiting_sched.current ≢ (sched_of k).current
      → (waiting_sched.task (sched_of k).current).phpages ≡ (current k).phpages
  unfolding modify sched_block sched_continue update
  asked_pages ne = ground arith

  asked-IsValid :
      IsValid
        (with_sched k waiting_sched).sems
        (move q runqueue keyboardqueue (task_node (sched_of k).current))
  unfolding modify
  asked-IsValid = record {
    sched = asks.valid;
    idle_pid = unfold sched_block sched_continue update in ground (arith, v.idle_pid);
    stocked = λ j lt on. unfold update in ground (arith, v.stocked j lt);
  }

  asked-waits : KeysRead k q buffer size (switched, with_sched k waiting_sched)
  unfolding modify
  asked-waits =
      waits {k' = with_sched k waiting_sched} asked-IsValid (asked_task asked_ne)
        (asked_pages asked_ne) refl refl

pub nobody_waits :
    (k : Kernel) (q : ℕ → List ℕ)
    → IsValid k.sems q
    → list_empty (sched_of k).heap keyboardqueue ≡ true
    → q keyboardqueue ≡ []
nobody_waits k q v e = elim (List-cases (q keyboardqueue)) [
  | inl none ↦ none
  | inr (x, xs, some) ↦ cc (
    e,
    list_empty-cons (sched_of k).heap keyboardqueue x xs (
        subst (IsQueue (sched_of k).heap keyboardqueue) some
          (v.sched.queues.each keyboardqueue refl)),
  )
]

-- Whatever the buffer holds, the queues are those of a valid kernel still.
pub sys_read_keyboard-IsSound :
    (k : Kernel) (q : ℕ → List ℕ) (buffer size : ℕ)
    → IsValid k.sems q
    → (q' : ℕ → List ℕ) × IsValid (sys_read_keyboard k buffer size).1.sems q'
unfolding sys_read_keyboard modify
sys_read_keyboard-IsSound k q buffer size v = elim (Bool-cases ((current k).pid == 0)) [
  | inl h ↦ rw h (q, v)
  | inr h ↦
      elim (Bool-cases
        (leb size k.circular_buffer.count && list_empty (sched_of k).heap keyboardqueue)) [
          | inl now ↦ rw (h, now) (q, v)
          | inr later ↦ rw (h, later) (_, asked-IsValid k q buffer size v h)
        ]
]

module _ (k : Kernel) (q : ℕ → List ℕ) (buffer size : ℕ) (v : IsValid k.sems q)
    (keys : Queue.IsValid k.circular_buffer) where
  -- The kernel after the characters have been handed over.
  abbrev handed : Kernel
  handed =
      let (cs, n, cb) = get_character k.circular_buffer size in
      to_user (record k { circular_buffer = cb; sysbuff = copy_chars k.sysbuff 0 cs }) buffer size

  -- The part that does not wait, with nobody waiting.
  read-now :
      size ≤ k.circular_buffer.count
      → q keyboardqueue ≡ []
      → KeysRead k q buffer size (returned (pos (get_character k.circular_buffer size).1), handed)
  read-now le nobody = elim (Bool-cases (k.circular_buffer.count == circ_buff_size)) [
    | inl h ↦
        let e = get_character-full size k.circular_buffer keys (ground arith) in
        let none_read : (get_character k.circular_buffer size).1 ≡ 0 = ap (λ r. r.1) e in
        rw none_read (full {k' = handed} (ground arith) refl (ap (λ r. r.2) e))
    | inr h ↦
        let room : k.circular_buffer.count < circ_buff_size = ground (arith, keys.count_in) in
        let g = get_character-Got size k.circular_buffer keys room in
        let whole : length (take size (contents k.circular_buffer)) ≡ size =
          length-take size (contents k.circular_buffer) (
            rw
              (Queue.length-window k.circular_buffer.mem k.circular_buffer.head
                k.circular_buffer.count)
              le) in
        let number : (get_character k.circular_buffer size).1 ≡ size =
          omega (arith, g.number, le) in
        rw number (
          at_once {k' = handed} le nobody room refl
            (record {
              source = copy_chars k.sysbuff 0 (get_character k.circular_buffer size).0;
              holds = λ i lt.
                  ap (λ l. copy_chars k.sysbuff 0 l i) g.chars
                  ∙ sent k.sysbuff (take size (contents k.circular_buffer)) size i whole lt;
              stored = refl;
            })
            g.rest g.valid)
  ]

-- On a valid kernel and a valid buffer, `sys_read_keyboard` does one of four things: it refuses the
-- first process; with enough characters held and nobody waiting it answers `size` at once, hands
-- the oldest `size` characters to the caller, in order, and keeps the others; from a full buffer it
-- answers 0 and takes nothing; or the caller is blocked behind those that wait for the keyboard,
-- with its request noted, and the next task runs. The kernel stays valid.
pub sys_read_keyboard-KeysRead :
    (k : Kernel) (q : ℕ → List ℕ) (buffer size : ℕ)
    → IsValid k.sems q
    → Queue.IsValid k.circular_buffer
    → KeysRead k q buffer size (sys_read_keyboard k buffer size)
unfolding sys_read_keyboard modify
sys_read_keyboard-KeysRead k q buffer size v keys = elim (Bool-cases ((current k).pid == 0)) [
  | inl h ↦ rw h (first (ground arith))
  | inr h ↦
      elim (Bool-cases
        (leb size k.circular_buffer.count && list_empty (sched_of k).heap keyboardqueue)) [
          | inl now ↦
              rw (h, now)
                (read-now k q buffer size v keys (ground arith) (nobody_waits k q v (ground arith)))
          | inr later ↦ rw (h, later) (asked-waits k q buffer size v h)
        ]
]
