-- ===== src/Interrupt/Waiting.antt =====
-- What `keyboard_routine` does with a key while a task waits for the keyboard.
use s.Base.{
  ℕ, ◌+◌, ◌<◌, ◌≡◌, refl, ◌≢◌, true, false, ◌∙◌, List, [], ◌∷◌, ◌++◌, pos, pos_part, ◌+ℤ◌, ◌=ℤ◌,
  arith, ◌==◌, leb, length, ap, sym, subst, length-append, take_all,
}
use s.ListHead.Links.{has, has-append}
use s.CircBuff.{CircBuff, circ_buff_size, get_character, save_character}
use s.CircBuff.Queue
use s.CircBuff.Queue.{contents, push, save_character-push, Got, get_character-Got, length-window}
use s.Kernutil.{copy_chars}
use s.Sched.{runqueue, keyboardqueue, task_node, modify}
use s.Sched.Wake.{Woken}
use s.Sem.Inv.{live, IsValid}
use s.Sys.{Kernel, sched_of}
use s.Sys.Memory.{put}
use s.Sys.Keyboard.{Delivered, sent}
use s.Interrupt.Serve.{someone, first_task, serve-Woken, serve-IsValid}
use s.Interrupt.{keep, key_char, serve, serve_first, keyboard_routine}

-- Task `t` waits first at the keyboard for `want` characters, to be put at `addr`, of which fewer
-- are held.
pub record Waiting (k : Kernel) (q : ℕ → List ℕ) (frames : ℕ → ℕ) (t want addr : ℕ) : Type 0 where
  pub valid : IsValid k.sems q
  pub keys : Queue.IsValid k.circular_buffer
  pub rest : List ℕ
  pub first : q keyboardqueue ≡ task_node t ∷ rest
  pub remain : ((sched_of k).task t).remain ≡ pos want
  pub offset : ((sched_of k).task t).offset ≡ pos 0
  pub buff : ((sched_of k).task t).buff ≡ addr
  pub pages : ((sched_of k).task t).phpages ≡ frames
  pub short : k.circular_buffer.count < want
  pub few : want < circ_buff_size

-- The task has got the characters, in the memory that was `memory` before; it can run again, and
-- finds their number as its call's result.
pub record Served (memory : ℕ → ℕ → ℕ) (frames : ℕ → ℕ) (t want addr : ℕ) (chars : List ℕ)
    (k : Kernel) : Type 0 where
  pub q : ℕ → List ℕ
  pub valid : IsValid k.sems q
  pub runs : has (task_node t) (q runqueue) ≡ true
  pub result : ((sched_of k).task t).eax ≡ pos want
  pub delivered : Delivered memory frames addr want chars k
  pub keys : Queue.IsValid k.circular_buffer
  pub none_left : k.circular_buffer.count ≡ 0

-- The kernel that holds one character more.
abbrev pub with_char : Kernel → ℕ → Kernel
with_char k c = record k { circular_buffer = (save_character k.circular_buffer c).1 }

save_character-count :
    (cb : CircBuff) (c : ℕ)
    → cb.count < circ_buff_size
    → (save_character cb c).1.count ≡ cb.count + 1
unfolding save_character
save_character-count cb c lt = ground arith

contents-char :
    (cb : CircBuff) (c : ℕ)
    → Queue.IsValid cb
    → cb.count < circ_buff_size
    → contents (save_character cb c).1 ≡ contents cb ++ c ∷ []
unfolding push
contents-char cb c v lt =
    let room : length (contents cb) == circ_buff_size ≡ false =
      ground (arith, length-window cb.mem cb.head cb.count, lt) in
    (save_character-push cb c v).1 ∙ rw room refl

+ℤ-zero : (n : ℕ) → pos 0 +ℤ pos n ≡ pos n
unfolding ◌+ℤ◌
+ℤ-zero n = ground arith

module _ (k : Kernel) (q : ℕ → List ℕ) (frames : ℕ → ℕ) (t want addr : ℕ)
    (w : Waiting k q frames t want addr) (key : ℕ) where
  c : ℕ
  c = key_char key

  count_room : k.circular_buffer.count < circ_buff_size
  count_room = omega (arith, w.short, w.few)

  keeps : keep k (key_char key) ≡ with_char k (key_char key)
  unfolding save_character
  keeps =
      let room : k.circular_buffer.count == circ_buff_size ≡ false = ground (arith, count_room) in
      rw room refl

  -- What is left to do for the task after the character has been kept.
  press-first : key < 0x80 → keyboard_routine k key ≡ serve_first (with_char k (key_char key))
  unfolding keyboard_routine
  press-first lt =
      let pressed : leb 0x80 key ≡ false = ground arith in
      rw (pressed, keeps, someone (with_char k (key_char key)) q t w.rest w.valid w.first) refl

  module _ (c : ℕ) where
    -- The buffer with the character.
    abbrev cb : CircBuff
    cb = (save_character k.circular_buffer c).1

    cb-count : cb.count ≡ k.circular_buffer.count + 1
    cb-count = save_character-count k.circular_buffer c count_room

    cb-keys : Queue.IsValid cb
    cb-keys = (save_character-push k.circular_buffer c w.keys).2

    serve_first-waits :
        k.circular_buffer.count + 1 ≢ want → serve_first (with_char k c) ≡ with_char k c
    unfolding serve_first
    serve_first-waits ne =
        let more : (pos cb.count =ℤ ((sched_of k).task t).remain) ≡ false =
          ground (arith, cb-count, w.remain, ne) in
        let room : cb.count == circ_buff_size ≡ false =
          ground (arith, cb-count, w.short, w.few, ne) in
        rw (first_task (with_char k c) q t w.rest w.valid w.first, more, room) refl

    module _ (enough : k.circular_buffer.count + 1 ≡ want) where
      cb-want : cb.count ≡ want
      cb-want = cb-count ∙ enough

      got : Got cb want (get_character cb want)
      got = get_character-Got want cb cb-keys (omega (arith, cb-want, w.few))

      serve-buffer : (serve (with_char k c) t).circular_buffer ≡ (get_character cb want).2
      unfolding serve modify
      serve-buffer = ap (λ r. (get_character cb (pos_part r)).2) w.remain

      serve-none : (serve (with_char k c) t).circular_buffer.count ≡ 0
      serve-none = ap (λ b. b.count) serve-buffer ∙ omega (arith, got.room, cb-want)

      serve_first-serves : serve_first (with_char k c) ≡ serve (with_char k c) t
      unfolding serve_first
      serve_first-serves =
          let all : (pos cb.count =ℤ ((sched_of k).task t).remain) ≡ true =
            ground (arith, cb-want, w.remain) in
          let room : (serve (with_char k c) t).circular_buffer.count == circ_buff_size ≡ false =
            ground (arith, serve-none) in
          rw (first_task (with_char k c) q t w.rest w.valid w.first, all, room) refl

      -- What the task gets.
      got_chars : (get_character cb want).0 ≡ contents k.circular_buffer ++ c ∷ []
      got_chars =
          got.chars
          ∙ take_all want (contents cb)
              (omega (arith, length-window cb.mem cb.head cb.count, cb-want))
          ∙ contents-char k.circular_buffer c w.keys count_room

      got_length : length (get_character cb want).0 ≡ want
      got_length =
          ap length got_chars
          ∙ length-append (contents k.circular_buffer) (c ∷ [])
          ∙ omega (
            arith,
            length-window k.circular_buffer.mem k.circular_buffer.head k.circular_buffer.count,
            enough,
          )

      got_number : (get_character cb (pos_part ((sched_of k).task t).remain)).1 ≡ want
      got_number =
          ap (λ r. (get_character cb (pos_part r)).1) w.remain ∙ omega (arith, got.number, cb-want)

      place : ((sched_of k).task t).buff + pos_part ((sched_of k).task t).offset ≡ addr
      place = omega (arith, w.buff, ap pos_part w.offset)

      -- How the task is woken.
      woken :
          Woken
            (live k.sems)
            (sched_of k)
            q
            keyboardqueue
            (((sched_of k).task t).offset
              +ℤ pos (get_character cb (pos_part ((sched_of k).task t).remain)).1)
            w.rest
            t
            (sched_of (serve (with_char k c) t))
      woken = serve-Woken (with_char k c) q t w.rest w.valid w.first

      serve-Served :
          Served k.memory frames t want addr
            (contents k.circular_buffer ++ c ∷ [])
            (serve (with_char k c) t)
      unfolding serve modify woken
      serve-Served = record {
        q = woken.q';
        valid = serve-IsValid (with_char k c) q t w.rest w.valid w.first;
        runs =
            rw (woken.runs)
              (ground (arith, has-append (task_node t) (q runqueue) (task_node t ∷ [])));
        result = woken.eax ∙ rw (w.offset, got_number) (+ℤ-zero want);
        delivered = record {
          source = copy_chars k.sysbuff 0 (get_character cb want).0;
          holds = λ i lt.
              ap (λ l. copy_chars k.sysbuff 0 l i) got_chars
              ∙ sent k.sysbuff (contents k.circular_buffer ++ c ∷ []) want i
                  (sym (ap length got_chars) ∙ got_length) lt;
          stored =
              ap
                (λ r.
                  put (copy_chars k.sysbuff 0 (get_character cb (pos_part r)).0) k.memory
                    ((sched_of k).task t).phpages
                    (((sched_of k).task t).buff + pos_part ((sched_of k).task t).offset)
                    (pos_part r))
                w.remain
              ∙ ap
                  (λ a.
                    put (copy_chars k.sysbuff 0 (get_character cb want).0) k.memory
                      ((sched_of k).task t).phpages a want)
                  place
              ∙ ap
                  (λ p. put (copy_chars k.sysbuff 0 (get_character cb want).0) k.memory p addr want)
                  w.pages;
        };
        keys = subst Queue.IsValid (sym serve-buffer) got.valid;
        none_left = serve-none;
      }

  -- The last character that the task needs: it is served.
  pub press-Served :
      key < 0x80
      → k.circular_buffer.count + 1 ≡ want
      → Served k.memory frames t want addr
          (contents k.circular_buffer ++ key_char key ∷ [])
          (keyboard_routine k key)
  press-Served lt enough =
      subst (Served k.memory frames t want addr (contents k.circular_buffer ++ key_char key ∷ []))
        (sym (press-first lt ∙ serve_first-serves (key_char key) enough))
        (serve-Served (key_char key) enough)

  -- One that is not the last: the character is kept, and the task waits on.
  pub press-keeps :
      key < 0x80
      → k.circular_buffer.count + 1 ≢ want
      → keyboard_routine k key ≡ with_char k (key_char key)
  press-keeps lt ne = press-first lt ∙ serve_first-waits (key_char key) ne

  pub press-Waiting :
      k.circular_buffer.count + 1 ≢ want → Waiting (with_char k (key_char key)) q frames t want addr
  press-Waiting ne = record {
    valid = w.valid;
    keys = cb-keys (key_char key);
    rest = w.rest;
    first = w.first;
    remain = w.remain;
    offset = w.offset;
    buff = w.buff;
    pages = w.pages;
    short = omega (arith, cb-count (key_char key), w.short, ne);
    few = w.few;
  }

  pub press-contents :
      contents (save_character k.circular_buffer (key_char key)).1
      ≡ contents k.circular_buffer ++ key_char key ∷ []
  press-contents = contents-char k.circular_buffer (key_char key) w.keys count_room

  pub press-count :
      (save_character k.circular_buffer (key_char key)).1.count ≡ k.circular_buffer.count + 1
  press-count = cb-count (key_char key)
