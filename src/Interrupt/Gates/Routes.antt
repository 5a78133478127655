-- ===== src/Interrupt/Gates/Routes.antt =====
-- `setIdt` of interrupt.c: where each vector leads, and who may raise it.
use s.Base.{
  ℕ, ◌+◌, ◌-◌, ◌*◌, ◌/◌, ◌%◌, ◌^◌, ◌<◌, ◌≡◌, refl, ◌||◌, inl, inr, List, [], ◌∷◌, update, ◌==◌,
  if◌then◌else◌, arith, Bool-cases, ap, ◌∙◌,
}
use s.Interrupt.Gates.{
  Handler, clock_handler, keyboard_handler, page_fault_handler, system_call_handler, Gate, Idt,
  Entry, low_word, high_word, gate_flags, kernel_cs, kernel_lvl, user_lvl, set_interrupt_handler,
  set_trap_handler, interrupt_entries, install, set_idt,
}

-- The handler's address, as the processor puts it together, and the DPL of the flags.
abbrev pub address_of : Gate → ℕ
address_of g = g.high_offset * 2 ^ 16 + g.low_offset

abbrev pub level_of : Gate → ℕ
level_of g = g.flags / 2 ^ 13 % 4

abbrev made : ℕ → ℕ → Gate
made handler level = record {
  low_offset = low_word handler;
  segment_selector = kernel_cs;
  flags = gate_flags level;
  high_offset = high_word handler;
}

-- A property of the gate at `v`: the last entry for `v` decides.
pick {ℓ} : {A : Type ℓ} → (Entry → A) → List Entry → ℕ → A → A
pick f [] v a = a
pick f (e ∷ es) v a = pick f es v (if v == e.vector then f e else a)

install-pick :
    (address : Handler → ℕ) (es : List Entry) (t : Idt) (v : ℕ)
    → (install address es t).idt v ≡ pick (λ e. made (address e.handler) e.level) es v (t.idt v)
unfolding pick set_interrupt_handler update
install-pick address [] t v = refl
install-pick address (e ∷ es) t v =
    install-pick address es (set_interrupt_handler t e.vector (address e.handler) e.level) v

pick-map :
    {A B : Type 0} (g : A → B) (f : Entry → A) (h : Entry → B) (es : List Entry) (v : ℕ) (a : A)
    → ((e : Entry) → g (f e) ≡ h e)
    → g (pick f es v a) ≡ pick h es v (g a)
unfolding pick
pick-map g f h [] v a same = refl
pick-map g f h (e ∷ es) v a same =
    pick-map g f h es v (if v == e.vector then f e else a) same
    ∙ ap (pick h es v)
        (elim (Bool-cases (v == e.vector)) [ inl p ↦ rw p (same e) | inr p ↦ rw p refl ])

address-split : (a : ℕ) → a < 2 ^ 32 → high_word a * 2 ^ 16 + low_word a ≡ a
address-split a lt = omega arith

-- The four handlers that the kernel works by stand at their vectors, for addresses of 32 bits: the
-- page fault, the clock, the keyboard and the system calls.
pub set_idt-handlers :
    (address : Handler → ℕ) (idt_address : ℕ) (t : Idt)
    → ((h : Handler) → address h < 2 ^ 32)
    → let idt = (set_idt address idt_address t).idt in
      (address_of (idt 14) ≡ address page_fault_handler)
      × (address_of (idt 32) ≡ address clock_handler)
      × (address_of (idt 33) ≡ address keyboard_handler)
      × (address_of (idt 0x80) ≡ address system_call_handler)
unfolding set_idt set_trap_handler set_interrupt_handler update pick
set_idt-handlers address idt_address t small = (
  address-split (address page_fault_handler) (small page_fault_handler),
  address-split (address clock_handler) (small clock_handler),
  address-split (address keyboard_handler) (small keyboard_handler),
  address-split (address system_call_handler) (small system_call_handler),
)

-- The level of the gate that a call makes.
abbrev level_made : Entry → ℕ
level_made e = gate_flags e.level / 2 ^ 13 % 4

levels :
    (v : ℕ)
    → pick level_made interrupt_entries v kernel_lvl
      ≡ (if (v == 3) || (v == 4) || (v == 5) then user_lvl else kernel_lvl)
unfolding pick
levels v = ground arith

install-level :
    (address : Handler → ℕ) (t : Idt) (v : ℕ)
    → level_of (t.idt v) ≡ kernel_lvl
    → level_of ((install address interrupt_entries t).idt v)
      ≡ (if (v == 3) || (v == 4) || (v == 5) then user_lvl else kernel_lvl)
install-level address t v closed =
    ap level_of (install-pick address interrupt_entries t v)
    ∙ pick-map level_of (λ e. made (address e.handler) e.level) level_made interrupt_entries v
        (t.idt v) (λ e. refl)
    ∙ ap (pick level_made interrupt_entries v) closed
    ∙ levels v

-- A user program can raise by an `int` instruction the vectors 3, 4, 5 and 0x80 only, when no gate
-- was open to it before.
pub set_idt-level :
    (address : Handler → ℕ) (idt_address : ℕ) (t : Idt)
    → ((v : ℕ) → level_of (t.idt v) ≡ kernel_lvl)
    → (v : ℕ)
    → level_of ((set_idt address idt_address t).idt v)
      ≡ (if (v == 3) || (v == 4) || (v == 5) || (v == 0x80) then user_lvl else kernel_lvl)
unfolding set_idt set_trap_handler set_interrupt_handler update
set_idt-level address idt_address t closed v = elim (Bool-cases (v == 0x80)) [
  | inl p ↦ rw p (ground arith)
  | inr p ↦ rw p (
      install-level address (record t { base = idt_address; limit = 256 * 8 - 1 }) v (closed v)
      ∙ ground arith)
]
