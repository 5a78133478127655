-- ===== src/Interrupt/Seconds.antt =====
-- The seconds that the clock's routine counts.
use s.Base.{
  ◌∙◌, ℕ, zero, suc, ◌+◌, ◌-◌, ◌*◌, ◌/◌, ◌%◌, ◌^◌, ◌≤◌, ◌<◌, ◌≡◌, refl, ◌==◌, arith, Bool-cases,
  inl, inr,
}
use s.Interrupt.{Clock, tics_per_sec, show_time, tick_clock}

-- The clock after a number of interrupts.
abbrev pub ticks : ℕ → Clock → Clock
ticks zero c = c
ticks (suc n) c = tick_clock (ticks n c)

show_time-kept :
    (c : Clock)
    → ((show_time c).tics ≡ c.tics) × ((show_time c).tacs ≡ c.tacs) × ((show_time c).secs ≡ c.secs)
unfolding show_time
show_time-kept c = (refl, refl, refl)

-- The interrupts so far and those to go make whole seconds.
record IsClock (n : ℕ) (c : Clock) : Type 0 where
  tics : c.tics ≡ n % 2 ^ 32
  seconds : n + c.tacs ≡ tics_per_sec * (c.secs + 1)
  small : c.tacs ≤ tics_per_sec
  first : c.tacs ≡ tics_per_sec → n ≡ 0

tick-IsClock :
    (n : ℕ) (c : Clock)
    → n < tics_per_sec * (10000 * 60)
    → IsClock n c
    → IsClock (suc n) (tick_clock c)
unfolding tick_clock
tick-IsClock n c short v = elim (Bool-cases (c.tacs == 0)) [
  | inl p ↦
      let kept = show_time-kept (record c {
        tics = (c.tics + 1) % 2 ^ 32;
        tacs = tics_per_sec;
        secs = (c.secs + 1) % 2 ^ 32;
      }) in
      let no_wrap : (c.secs + 1) % 2 ^ 32 ≡ c.secs + 1 = omega (arith, v.seconds, v.small, short) in
      rw p (record {
        tics = omega (arith, kept.0, v.tics);
        seconds = ground (arith, kept.1, kept.2 ∙ no_wrap, v.seconds);
        small = omega (arith, kept.1);
        first = λ e. absurd (omega (arith, kept.1, e));
      })
  | inr p ↦ rw p (record {
    tics = omega (arith, v.tics);
    seconds = ground (arith, v.seconds);
    small = omega (arith, v.small);
    first = λ e. absurd (ground (arith, v.small, e));
  })
]

ticks-IsClock :
    (n : ℕ) (c : Clock) → n < tics_per_sec * (10000 * 60) → IsClock 0 c → IsClock n (ticks n c)
ticks-IsClock zero c short v = v
ticks-IsClock (suc n) c short v =
    tick-IsClock n (ticks n c) (omega (arith, short)) (ticks-IsClock n c (omega (arith, short)) v)

-- From the clock's starting values, after `n` interrupts, fewer than make 10000 minutes, `tics` is
-- `n` modulo 2^32, and `secs` counts one second for every 18 interrupts, the first at the 19th.
-- They stay below 10000 minutes, which have room in the clock's text.
pub ticks_lem :
    (n : ℕ) (c : Clock)
    → c.tics ≡ 0
    → c.tacs ≡ tics_per_sec
    → c.secs ≡ 0
    → n < tics_per_sec * (10000 * 60)
    → ((ticks n c).tics ≡ n % 2 ^ 32)
      × ((ticks n c).secs ≡ (n - 1) / tics_per_sec)
      × ((ticks n c).secs / 60 < 10000)
ticks_lem n c t a s short =
    let v = ticks-IsClock n c short (record {
      tics = omega (arith, t);
      seconds = omega (arith, a, s);
      small = omega (arith, a);
      first = λ e. refl;
    }) in
    let seconds : (ticks n c).secs ≡ (n - 1) / tics_per_sec =
      ground (arith, v.seconds, v.small, v.first) in
    (v.tics, seconds, omega (arith, seconds, short))
