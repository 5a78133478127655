-- ===== src/Interrupt/Keys.antt =====
-- What `keyboard_routine` does with a key while nobody waits for the keyboard.
use s.Base.{ℕ, ◌<◌, ◌≤◌, ◌≡◌, refl, true, arith, leb, Bool-cases, inl, inr, subst, sym, ap, ◌∙◌}
use s.ListHead.{list_empty}
use s.CircBuff.{is_full, save_character}
use s.CircBuff.Queue.{IsValid, contents, push, save_character-push}
use s.Sched.{keyboardqueue}
use s.Sys.{Kernel, sched_of}
use s.Interrupt.{keep, key_char, keyboard_routine}

-- What a key may do.
pub data Typed (k : Kernel) (key : ℕ) : Kernel → Type 0 where
  released : 0x80 ≤ key → Typed k key k
  -- The character is appended to those that are held, if fewer than 80 are.
  pressed :
      {k' : Kernel}
      → key < 0x80
      → contents k'.circular_buffer ≡ (push (contents k.circular_buffer) (key_char key)).1
      → IsValid k'.circular_buffer
      → k'.sems ≡ k.sems
      → k'.memory ≡ k.memory
      → Typed k key k'

keep-saves :
    (k : Kernel) (c : ℕ) → (keep k c).circular_buffer ≡ (save_character k.circular_buffer c).1
unfolding save_character
keep-saves k c = elim (Bool-cases (is_full k.circular_buffer)) [
  | inl p ↦ rw p refl
  | inr p ↦ rw p refl
]

keep-same : (k : Kernel) (c : ℕ) → ((keep k c).sems ≡ k.sems) × ((keep k c).memory ≡ k.memory)
keep-same k c = elim (Bool-cases (is_full k.circular_buffer)) [
  | inl p ↦ rw p (refl, refl)
  | inr p ↦ rw p (refl, refl)
]

keep-Typed :
    (k : Kernel) (key : ℕ)
    → IsValid k.circular_buffer
    → key < 0x80
    → Typed k key (keep k (key_char key))
keep-Typed k key v lt =
    let c = key_char key in
    let saved = save_character-push k.circular_buffer c v in
    pressed lt (ap contents (keep-saves k c) ∙ saved.1)
      (subst IsValid (sym (keep-saves k c)) saved.2) (keep-same k c).0 (keep-same k c).1

-- With a valid buffer and no task waiting for the keyboard, the release of a key changes nothing,
-- and the press of one appends its character to the buffer, or drops it when 80 are held; the
-- buffer stays valid, and the scheduler, the semaphores and all memory stay as they are.
pub keyboard_routine-Typed :
    (k : Kernel) (key : ℕ)
    → IsValid k.circular_buffer
    → list_empty (sched_of k).heap keyboardqueue ≡ true
    → Typed k key (keyboard_routine k key)
unfolding keyboard_routine
keyboard_routine-Typed k key v nobody = elim (Bool-cases (leb 0x80 key)) [
  | inl p ↦ rw p (released (ground arith))
  | inr p ↦
      let same = ap (λ s. list_empty s.sched.heap keyboardqueue) (keep-same k (key_char key)).0 in
      rw (p, same ∙ nobody) (keep-Typed k key v (ground arith))
]
