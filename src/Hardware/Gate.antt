-- ===== src/Hardware/Gate.antt =====
-- The change to the user's privilege by `return_gate`, and the flags.
use s.Base.{ℕ, ◌+◌, ◌≤◌, ◌<◌, ◌≡◌, refl, true, arith, ltb, update}
use s.Hardware.{
  Cpu, pushl, lret, return_gate, set_eflags, get_eflags, requested_level, still_usable,
}

-- The processor in code of a lower privilege, on that code's stack.
abbrev pub lowered : (level : ℕ → ℕ) (ss esp cs eip : ℕ) → Cpu → Cpu
lowered level ss esp cs eip c =
    let cpl = requested_level cs in
    record c {
      cs = cs;
      eip = eip;
      ss = ss;
      esp = esp;
      ds = still_usable level cpl c.ds;
      es = still_usable level cpl c.es;
      fs = still_usable level cpl c.fs;
      gs = still_usable level cpl c.gs;
    }

-- `lret` with the four words that it takes on the stack.
lret-lowered :
    (level : ℕ → ℕ) (ss esp cs eip : ℕ) (c : Cpu)
    → c.words c.esp ≡ eip
    → c.words (c.esp + 4) ≡ cs
    → c.words (c.esp + 4 + 4) ≡ esp
    → c.words (c.esp + 4 + 4 + 4) ≡ ss
    → requested_level c.cs < requested_level cs
    → lret level c ≡ lowered level ss esp cs eip c
lret-lowered level ss esp cs eip c a b d e lower =
    let test : ltb (requested_level c.cs) (requested_level cs) ≡ true = ground arith in
    rw (a, b, d, e, test) refl

-- The words of memory after `return_gate`: the word above the new stack's top, and the four that
-- were put on the old one.
abbrev pub gate_words : (rdtr ss esp cs eip : ℕ) → Cpu → ℕ → ℕ
gate_words rdtr ss esp cs eip c =
    let written = record c { words = update c.words (esp + 12) rdtr } in
    (pushl eip (pushl cs (pushl esp (pushl ss written)))).words

-- To code of a lower privilege, and with room on the stack, `return_gate` goes on at the given
-- place with the given stack and data segment. The data segments that this code may not use are
-- cleared.
pub return_gate-lowered :
    (level : ℕ → ℕ) (rdtr ds ss esp cs eip : ℕ) (c : Cpu)
    → 16 ≤ c.esp
    → requested_level c.cs < requested_level cs
    → return_gate level rdtr ds ss esp cs eip c
      ≡ lowered level ss esp cs eip
          (record c { ds = ds; es = ds; words = gate_words rdtr ss esp cs eip c })
unfolding return_gate update
return_gate-lowered level rdtr ds ss esp cs eip c room lower =
    lret-lowered level ss esp cs eip
      (pushl eip (
        pushl cs (
          pushl esp
            (pushl ss (record c { es = ds; ds = ds; words = update c.words (esp + 12) rdtr })))))
      (ground arith) (ground arith) (ground arith) (ground arith) lower

-- `set_eflags` leaves only the flag that is always set, and the stack where it was.
pub set_eflags_lem :
    (c : Cpu) → 4 ≤ c.esp → ((set_eflags c).eflags ≡ 2) × ((set_eflags c).esp ≡ c.esp)
unfolding set_eflags update
set_eflags_lem c room = (ground arith, omega arith)

-- `get_eflags` reads the flags and leaves them, and the stack where it was.
pub get_eflags_lem :
    (c : Cpu)
    → 4 ≤ c.esp
    → let (flags, c') = get_eflags c in
      (flags ≡ c.eflags) × (c'.eflags ≡ c.eflags) × (c'.esp ≡ c.esp)
unfolding get_eflags update
get_eflags_lem c room = (ground arith, refl, omega arith)
