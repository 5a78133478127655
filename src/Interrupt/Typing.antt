-- ===== src/Interrupt/Typing.antt =====
-- A task that reads the keyboard, from its call until it has got what was typed, with clock ticks
-- in between.
use s.Base.{
  ℕ, suc, ◌+◌, ◌<◌, ◌≡◌, refl, ◌≢◌, ◌∙◌, List, [], ◌∷◌, ◌++◌, arith, update, ◌==◌, leb, Bool-cases,
  inl, inr, length, ap, sym, subst, append_assoc, length-append,
}
use s.ListHead.Move.{move}
use s.CircBuff.{circ_buff_size}
use s.CircBuff.Queue
use s.CircBuff.Queue.{contents}
use s.Sched.{runqueue, keyboardqueue, task_node}
use s.Sem.Inv.{IsValid}
use s.Sys.{Kernel, Outcome, switched, sched_of, current}
use s.Sys.Devices.{sys_read_keyboard}
use s.Sys.Keyboard
use s.Mm.{num_pag_data}
use s.Utils.Placed.{placed}
use s.Sys.Memory.{view, IsApart, InData}
use s.Sys.Keyboard.{Delivered-placed, KeysRead, sys_read_keyboard-KeysRead}
use s.Interrupt.{key_char, keyboard_routine}
use s.Interrupt.Events.{
  Event, tick, key, react, react_all, typed, tick-Ticked, tick-Waiting, tick-Served, release-same,
  typed-press,
}
use s.Interrupt.Waiting.{
  Waiting, Served, with_char, press-Served, press-keeps, press-Waiting, press-contents, press-count,
}

-- Nothing is typed any more.
quiet-Served :
    (es : List Event) (memory : ℕ → ℕ → ℕ) (frames : ℕ → ℕ) (t want addr : ℕ) (chars : List ℕ)
    (k : Kernel)
    → typed es ≡ []
    → Served memory frames t want addr chars k
    → Served memory frames t want addr chars (react_all k es)
unfolding typed react_all
quiet-Served [] memory frames t want addr chars k e w = w
quiet-Served (tick ∷ es) memory frames t want addr chars k e w =
    quiet-Served es memory frames t want addr chars (react k tick) e
      (tick-Served memory frames t want addr chars k w)
quiet-Served (key code ∷ es) memory frames t want addr chars k e w =
    elim (Bool-cases (leb 0x80 code)) [
      | inl h ↦
          rw (release-same k code h)
            (quiet-Served es memory frames t want addr chars k (ground arith) w)
      | inr h ↦ cc
    ]

nil_of_length : (xs : List ℕ) → length xs ≡ 0 → xs ≡ []
nil_of_length [] e = refl
nil_of_length (x ∷ xs) e = absurd (omega (arith, e))

-- A waiting task gets what is held and what is typed, once that is as much as it wants.
pub Waiting-Served :
    (es : List Event) (k : Kernel) (q : ℕ → List ℕ) (frames : ℕ → ℕ) (t want addr : ℕ)
    → Waiting k q frames t want addr
    → k.circular_buffer.count + length (typed es) ≡ want
    → Served k.memory frames t want addr (contents k.circular_buffer ++ typed es) (react_all k es)
unfolding typed react_all
Waiting-Served [] k q frames t want addr w e = absurd (omega (arith, w.short, e))
Waiting-Served (tick ∷ es) k q frames t want addr w e =
    Waiting-Served es (react k tick) (tick-Ticked k q w.valid).q' frames t want addr
      (tick-Waiting k q frames t want addr w) e
Waiting-Served (key code ∷ es) k q frames t want addr w e = elim (Bool-cases (leb 0x80 code)) [
  | inl h ↦
      rw (h, release-same k code h)
        (Waiting-Served es k q frames t want addr w (ground (arith, h, e)))
  | inr h ↦
      let e' : k.circular_buffer.count + suc (length (typed es)) ≡ want =
        ap (λ l. k.circular_buffer.count + length l) (sym (typed-press code es h)) ∙ e in
      elim (Bool-cases (k.circular_buffer.count + 1 == want)) [
        | inl last ↦
            let enough : k.circular_buffer.count + 1 ≡ want = ground arith in
            let over : typed es ≡ [] = nil_of_length (typed es) (omega (arith, enough, e')) in
            rw (h, over)
              (quiet-Served es k.memory frames t want addr _ (keyboard_routine k code) over
                (press-Served k q frames t want addr w code (ground arith) enough))
        | inr more ↦
            let c = key_char code in
            let short : k.circular_buffer.count + 1 ≢ want = ground arith in
            rw (h, press-keeps k q frames t want addr w code (ground arith) short)
              (subst (λ l. Served k.memory frames t want addr l (react_all (with_char k c) es))
                (ap (λ l. l ++ typed es) (press-contents k q frames t want addr w code)
                  ∙ append_assoc (contents k.circular_buffer) (c ∷ []) (typed es))
                (Waiting-Served es (with_char k c) q frames t want addr
                  (press-Waiting k q frames t want addr w code short)
                  (omega (arith, press-count k q frames t want addr w code, e'))))
      ]
]

-- The task is blocked, and served later.
blocked-Served :
    (k : Kernel) (q : ℕ → List ℕ) (buffer size : ℕ) (es : List Event)
    → IsValid k.sems q
    → Queue.IsValid k.circular_buffer
    → (current k).pid ≢ 0
    → q keyboardqueue ≡ []
    → k.circular_buffer.count < size
    → size < circ_buff_size
    → k.circular_buffer.count + length (typed es) ≡ size
    → let (r, k') = sys_read_keyboard k buffer size in
      (r ≡ switched)
      × Served k.memory
          (current k).phpages
          (sched_of k).current
          size
          buffer
          (contents k.circular_buffer ++ typed es)
          (react_all k' es)
blocked-Served k q buffer size es v keys some_pid nobody short few e =
    go (sys_read_keyboard k buffer size) (sys_read_keyboard-KeysRead k q buffer size v keys)
  where
    go :
        (r : Outcome × Kernel)
        → KeysRead k q buffer size r
        → (r.0 ≡ switched)
          × Served k.memory
              (current k).phpages
              (sched_of k).current
              size
              buffer
              (contents k.circular_buffer ++ typed es)
              (react_all r.1 es)
    go r (Keyboard.first z) = absurd (some_pid z)
    go r (Keyboard.at_once le a b c d g h) = absurd (omega (arith, le, short))
    go r (Keyboard.full full a b) = absurd (omega (arith, full, short, few))
    go r (Keyboard.waits {k'} w asks pages memory buffer') = (
      refl,
      subst
          (λ m.
            Served m (current k).phpages (sched_of k).current size buffer
              (contents k.circular_buffer ++ typed es) (react_all k' es))
          memory
          (subst
            (λ b.
              Served k'.memory (current k).phpages (sched_of k).current size buffer
                (contents b ++ typed es) (react_all k' es))
            buffer'
            (Waiting-Served es k' (move q runqueue keyboardqueue (task_node (sched_of k).current))
              (current k).phpages (sched_of k).current size buffer
              (record {
                valid = w;
                keys = subst Queue.IsValid (sym buffer') keys;
                rest = [];
                first = unfold update in ground (arith, nobody);
                remain = asks.remain;
                offset = asks.offset;
                buff = asks.buff;
                pages = pages;
                short = omega (arith, ap (λ b. b.count) buffer', short);
                few = few;
              })
              (omega (arith, ap (λ b. b.count) buffer', e)))),
    )

-- Where a task other than the first, whose data pages have different frames, asks for more
-- characters than are held, fewer than 80, to be put into its data pages, and nobody waits: it is
-- blocked, and whatever the clock and the keyboard send afterwards, once as many keys are pressed
-- as were missing it can run again, finds the number of characters as its call's result, and reads
-- in its buffer those that were held and those that were typed, in order, and in the rest of its
-- data pages what was there. No frame but those of its data pages has changed, the keyboard's
-- buffer is empty, and the kernel is valid.
pub keyboard_read :
    (k : Kernel) (q : ℕ → List ℕ) (buffer size : ℕ) (es : List Event)
    → IsValid k.sems q
    → Queue.IsValid k.circular_buffer
    → (current k).pid ≢ 0
    → q keyboardqueue ≡ []
    → IsApart (current k).phpages
    → InData buffer size
    → k.circular_buffer.count < size
    → size < circ_buff_size
    → k.circular_buffer.count + length (typed es) ≡ size
    → let (r, k') = sys_read_keyboard k buffer size in
      let chars = contents k.circular_buffer ++ typed es in
      let frames = (current k).phpages in
      let after = react_all k' es in
      (r ≡ switched)
      × Served k.memory frames (sched_of k).current size buffer chars after
      × ((j : ℕ)
          → InData j 1
          → view after.memory frames j ≡ placed chars (view k.memory frames) buffer j)
      × ((f : ℕ) → ((i : ℕ) → i < num_pag_data → frames i ≢ f) → after.memory f ≡ k.memory f)
keyboard_read k q buffer size es v keys some_pid nobody apart ind short few e =
    let (left, served) = blocked-Served k q buffer size es v keys some_pid nobody short few e in
    let chars = contents k.circular_buffer ++ typed es in
    let len : length chars ≡ size =
      length-append (contents k.circular_buffer) (typed es)
      ∙ omega (
        arith,
        e,
        Queue.length-window k.circular_buffer.mem k.circular_buffer.head k.circular_buffer.count,
      ) in
    let (reads, others) =
      Delivered-placed k.memory (current k).phpages buffer size chars
        (react_all (sys_read_keyboard k buffer size).1 es) served.delivered len apart ind in
    (left, served, reads, others)
