-- ===== src/Interrupt.antt =====
-- interrupt.c: the routines of the clock and of the keyboard.
pub mod Seconds
pub mod Keys
pub mod Gates
pub mod Serve
pub mod Waiting
pub mod Events
pub mod Typing
mod Tests
use Prim.Native.Nat.{bit_and}
use s.Base.{
  ℕ, zero, suc, ◌+◌, ◌-◌, ◌*◌, ◌/◌, ◌%◌, ◌^◌, Bool, true, false, not, ◌&&◌, Option, none, some,
  List, [], ◌∷◌, ℤ, pos, negsuc, minus, pos_part, ◌+ℤ◌, ◌-ℤ◌, ◌=ℤ◌, update, ◌==◌, leb, ltb,
  if◌then◌else◌, get_elem?,
}
use s.Kernutil.{string_at, itoa, itoap, strcat, copy_chars}
use s.ListHead.{list_empty, list_first}
use s.CircBuff.{CircBuff, is_full, get_size, save_character, get_character}
use s.Utils.{copy_data}
use s.Sched.{
  Sched, Task, modify, keyboardqueue, list_head_to_task_struct, map_pages, sched_unblock, sched,
}
use s.Sys.Memory.{put}
use s.Sys.{Kernel, sched_of, with_sched, current}

abbrev pub tics_per_sec : ℕ
tics_per_sec = 18

abbrev pub char_map_size : ℕ
char_map_size = 98

-- A character is its byte; the four that are not ASCII have the last byte of their UTF-8 encoding.
abbrev pub char_map : List ℕ
char_map =
    0 ∷ 0 ∷ 49 ∷ 50 ∷ 51 ∷ 52 ∷ 53 ∷ 54 ∷ 55 ∷ 56 ∷ 57 ∷ 48 ∷ 39 ∷ 161 ∷ 0 ∷ 0 ∷ 113 ∷ 119 ∷ 101
    ∷ 114 ∷ 116 ∷ 121 ∷ 117 ∷ 105 ∷ 111 ∷ 112 ∷ 96 ∷ 43 ∷ 0 ∷ 0 ∷ 97 ∷ 115 ∷ 100 ∷ 102 ∷ 103 ∷ 104
    ∷ 106 ∷ 107 ∷ 108 ∷ 177 ∷ 0 ∷ 186 ∷ 0 ∷ 167 ∷ 122 ∷ 120 ∷ 99 ∷ 118 ∷ 98 ∷ 110 ∷ 109 ∷ 44 ∷ 46
    ∷ 45 ∷ 0 ∷ 42 ∷ 0 ∷ 0 ∷ 0 ∷ 0 ∷ 0 ∷ 0 ∷ 0 ∷ 0 ∷ 0 ∷ 0 ∷ 0 ∷ 0 ∷ 0 ∷ 0 ∷ 0 ∷ 55 ∷ 56 ∷ 57 ∷ 45
    ∷ 52 ∷ 53 ∷ 54 ∷ 43 ∷ 49 ∷ 50 ∷ 51 ∷ 48 ∷ 0 ∷ 0 ∷ 0 ∷ 60 ∷ 0 ∷ 0 ∷ 0 ∷ 0 ∷ 0 ∷ 0 ∷ 0 ∷ 0 ∷ 0 ∷ 0
    ∷ 0 ∷ []

-- -1 where the key is out of bounds or a control character.
unfoldable pub translate_key : ℕ → ℤ
translate_key k =
    if ltb 0 k && ltb k char_map_size
    then elim (get_elem? char_map k) [ none ↦ minus 1 | some c ↦ if c == 0 then minus 1 else pos c ]
    else minus 1

-- The clock's variables; `corner` is the text at the right of the screen's first line. `secs` is
-- the 32-bit pattern of an `int`, which becomes negative after 68 years, but `str` has room for
-- 10000 minutes: from then on `show_time` writes behind it, which is not modelled.
pub record Clock : Type 0 where
  pub tics : ℕ
  pub tacs : ℕ
  pub secs : ℕ
  pub m_str : ℕ → ℕ
  pub s_str : ℕ → ℕ
  pub str : ℕ → ℕ
  pub corner : List ℕ

-- `itoap(sec, s_str, 10, 2)` ... `printk_xyr(79, 0, str)`, the arrays having 8 characters.
unfoldable pub show_time : Clock → Clock
show_time c =
    let s_str = itoap (c.secs % 60) c.s_str 10 2 in
    let m_str = itoa (c.secs / 60) c.m_str 10 in
    let head = strcat c.str (string_at m_str 0 8) (b':' ∷ []) in
    let str = strcat head (string_at head 0 8) (string_at s_str 0 8) in
    record c { s_str = s_str; m_str = m_str; str = str; corner = string_at str 0 8 }

-- `clock_routine` without its call of `sched`.
unfoldable pub tick_clock : Clock → Clock
unfolding show_time
tick_clock c =
    let t = record c { tics = (c.tics + 1) % 2 ^ 32 } in
    let u =
      if c.tacs == 0
      then show_time (record t { tacs = tics_per_sec; secs = (c.secs + 1) % 2 ^ 32 })
      else t in
    record u { tacs = u.tacs - 1 }

unfoldable pub clock_routine : Clock → Sched → Clock × Sched
clock_routine c s = (tick_clock c, sched s)

-- A `char` of the key: -1 is the byte 255.
abbrev pub key_char : ℕ → ℕ
key_char key = elim (translate_key key) [ pos c ↦ c | negsuc n ↦ 255 ]

-- The waiting task's pages take the place of the current one's, and are put back.
abbrev pub visit : Kernel → ℕ → Sched
visit k tsk =
    let s = sched_of k in
    record s { mm = map_pages (map_pages s.mm (s.task tsk).phpages) (s.task s.current).phpages }

-- `copy_to_user(sysbuff, &tsk->buff[tsk->offset], size)`
abbrev pub to_waiting : Kernel → (tsk size : ℕ) → Kernel
to_waiting k tsk size =
    let t = (sched_of k).task tsk in
    record (with_sched k (visit k tsk)) {
      memory = put k.sysbuff k.memory t.phpages (t.buff + pos_part t.offset) size;
    }

-- `get_character(&circular_buffer, sysbuff, size)`
abbrev pub drain : Kernel → ℕ → ℕ × Kernel
drain k size =
    let (cs, n, cb) = get_character k.circular_buffer size in
    (n, record k { circular_buffer = cb; sysbuff = copy_chars k.sysbuff 0 cs })

-- "We have all characters needed"
unfoldable pub serve : Kernel → ℕ → Kernel
unfolding modify
serve k tsk =
    let size = pos_part ((sched_of k).task tsk).remain in
    let (n, d) = drain k size in
    let w = to_waiting d tsk size in
    let s =
      modify (sched_of w) tsk
        λ t. record t { offset = t.offset +ℤ pos n; eax = t.offset +ℤ pos n } in
    with_sched w (sched_unblock s tsk)

-- A full buffer is emptied for the waiting task.
unfoldable pub serve_part : Kernel → ℕ → Kernel
unfolding modify
serve_part k tsk =
    let (n, d) = drain k (get_size k.circular_buffer) in
    let w = to_waiting d tsk n in
    with_sched w (
      modify (sched_of w) tsk
        λ t. record t { remain = t.remain -ℤ pos n; offset = t.offset +ℤ pos n })

-- A character that was read: it is kept if there is room.
abbrev pub keep : Kernel → ℕ → Kernel
keep k c =
    if is_full k.circular_buffer
    then k
    else record k { circular_buffer = (save_character k.circular_buffer c).1 }

-- The part of `keyboard_routine` for the first waiting task.
unfoldable pub serve_first : Kernel → Kernel
serve_first k =
    let tsk = list_head_to_task_struct (list_first (sched_of k).heap keyboardqueue) in
    let k' =
      if pos (get_size k.circular_buffer) =ℤ ((sched_of k).task tsk).remain
      then serve k tsk
      else k in
    if is_full k'.circular_buffer then serve_part k' tsk else k'

-- `key` is the byte at the keyboard's port. -1 is kept like any other character.
unfoldable pub keyboard_routine : Kernel → ℕ → Kernel
keyboard_routine k key =
    let k' = keep k (key_char key) in
    if leb 0x80 key
    then k
    else if list_empty (sched_of k').heap keyboardqueue
    then k'
    else serve_first k'
