-- ===== src/CircBuff/Queue.antt =====
-- circbuff.c against a bounded FIFO of characters.
use s.Base.{
  ℕ, zero, suc, ◌+◌, ◌-◌, ◌%◌, ◌≤◌, ◌<◌, ◌≡◌, refl, ap, ◌≢◌, inl, inr, List, [], ◌∷◌, ◌++◌, ℤ, pos,
  minus, arith, update, update_self, update_ne, ◌==◌, if◌then◌else◌, length, take, drop, min,
  Bool-cases,
}
use s.CircBuff.{CircBuff, circ_buff_size, advance, get_character, save_character}

pub record IsValid (cb : CircBuff) : Type 0 where
  pub head_in : cb.head < circ_buff_size
  pub count_in : cb.count ≤ circ_buff_size
  pub tail_at : cb.tail ≡ (cb.head + cb.count) % circ_buff_size

-- The `n` characters from index `h` on, going round at the end of the array.
abbrev pub window : (ℕ → ℕ) → ℕ → ℕ → List ℕ
window m h zero = []
window m h (suc n) = m h ∷ window m ((h + 1) % circ_buff_size) n

-- The characters held, oldest first.
abbrev pub contents : CircBuff → List ℕ
contents cb = window cb.mem cb.head cb.count

pub length-window : (m : ℕ → ℕ) (h n : ℕ) → length (window m h n) ≡ n
length-window m h zero = refl
length-window m h (suc n) = ap suc (length-window m ((h + 1) % circ_buff_size) n)

-- The FIFO of at most `circ_buff_size` characters.
unfoldable pub push : List ℕ → ℕ → ℤ × List ℕ
push q c = if length q == circ_buff_size then (minus 1, q) else (pos 0, q ++ c ∷ [])

-- Writing just past a window extends it.
window-update :
    (m : ℕ → ℕ) (c n h t : ℕ)
    → h < circ_buff_size
    → n < circ_buff_size
    → t ≡ (h + n) % circ_buff_size
    → window (update m t c) h (suc n) ≡ window m h n ++ c ∷ []
window-update m c zero h t hh hn e = ap (λ x. x ∷ []) (ground (arith, update_self m h c, same))
  where
    same : t ≡ h
    same = omega arith
window-update m c (suc n) h t hh hn e = ground (
  arith,
  update_ne m t h c,
  ne,
  window-update m c n ((h + 1) % circ_buff_size) t (omega arith) (omega arith) (omega arith),
)
  where
    ne : h ≢ t
    ne = omega arith

-- `save_character` on a valid buffer is the push of the bounded FIFO, status included: it appends
-- the character, or reports -1 and changes nothing when 80 are held. The buffer stays valid.
pub save_character-push :
    (cb : CircBuff) (c : ℕ)
    → IsValid cb
    → ((save_character cb c).0 ≡ (push (contents cb) c).0)
      × (contents (save_character cb c).1 ≡ (push (contents cb) c).1)
      × IsValid (save_character cb c).1
unfolding save_character push
save_character-push cb c v =
    ground (
      arith,
      length-window cb.mem cb.head cb.count,
      window-update cb.mem c cb.count cb.head cb.tail,
    )

-- The window stays a window when it starts one further on.
tail-advance :
    (h n t : ℕ)
    → t ≡ (h + suc n) % circ_buff_size
    → t ≡ ((h + 1) % circ_buff_size + n) % circ_buff_size
tail-advance h n t e = omega arith

advance-IsValid : (cb : CircBuff) → IsValid cb → cb.count ≢ 0 → IsValid (advance cb)
advance-IsValid cb v ne = omega arith

contents-cons :
    (m : ℕ → ℕ) (h n : ℕ) → n ≢ 0 → window m h n ≡ m h ∷ window m ((h + 1) % circ_buff_size) (n - 1)
contents-cons m h zero ne = absurd (ne refl)
contents-cons m h (suc n) ne = ap (λ k. window m h (suc k)) (omega arith)

-- What `get_character` does to a valid buffer that is not full.
pub record Got (cb : CircBuff) (size : ℕ) (r : List ℕ × ℕ × CircBuff) : Type 0 where
  pub chars : r.0 ≡ take size (contents cb)
  pub number : r.1 ≡ min size cb.count
  pub rest : contents r.2 ≡ drop size (contents cb)
  pub valid : IsValid r.2
  pub room : r.2.count ≡ cb.count - size

-- On a valid buffer that holds fewer than 80 characters, `get_character` hands out the oldest
-- `size` of them (or all, if there are fewer) in order, returns their number, keeps exactly the
-- others, and leaves the buffer valid.
pub get_character-Got :
    (size : ℕ) (cb : CircBuff)
    → IsValid cb
    → cb.count < circ_buff_size
    → Got cb size (get_character cb size)
unfolding get_character
get_character-Got zero cb v h = record {
  chars = refl;
  number = omega arith;
  rest = refl;
  valid = v;
  room = omega arith;
}
get_character-Got (suc size) cb v h = elim (Bool-cases (cb.count == 0)) [
  | inl e ↦ ground (arith)
  | inr e ↦ ground (
    arith,
    contents-cons cb.mem cb.head cb.count,
    advance-IsValid cb v,
    get_character-Got size (advance cb),
  )
]
