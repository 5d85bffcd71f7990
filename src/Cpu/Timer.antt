-- ===== src/Cpu/Timer.antt =====
-- The interval timer, kernel/arch/i386/dev/timer.c. `timer_init` returns the writes to the ports; it
-- installs `timer_cb` for line 0.
use bobliu_os.Base.{
  ℕ, zero, suc, ◌+◌, ◌*◌, ◌/◌, ◌%◌, ◌^◌, ◌≤◌, ◌<◌, ◌≡◌, refl, ◌∙◌, arith, List, [], ◌∷◌, ◌++◌,
  length, length-append, Bool-cases, inl, inr, ◌-◌, ◌==◌, if◌then◌else◌, bit_and,
}
use native.Mathlib.Nat.{div-lt_iff_lt-mul}
use bobliu_os.Base.Bits.{bit_and_low}
use bobliu_os.Word.{u8, u32}
use bobliu_os.Cpu.Pic.{Outb, outb}

-- `ticks`, and the characters put on the console
pub record Timer : Type 0 where
  pub ticks : ℕ
  pub console : List ℕ

unfoldable pub timer_ticks : Timer → ℕ
timer_ticks t = u32 t.ticks

unfoldable pub timer_cb : Timer → Timer
timer_cb t =
    let ticks = (t.ticks + 1) % 2 ^ 64 in
    record {
      ticks = ticks;
      console = if ticks % 100 == 0 then t.console ++ (b'.' ∷ []) else t.console;
    }

unfoldable pub timer_irq : Timer → Timer
timer_irq t =
    let ticks = (t.ticks + 1) % 2 ^ 64 in
    record {
      ticks = ticks;
      console = if ticks % 100 == 0 then t.console ++ (b'.' ∷ []) else t.console;
    }

abbrev pub divisor : ℕ → ℕ
divisor hz = 1193180 / hz

-- For `hz` other than 0.
unfoldable pub timer_init : ℕ → List Outb
timer_init hz =
    outb 0x43 0x36
    ∷ outb 0x40 (bit_and (divisor hz) 0xFF)
    ∷ outb 0x40 (bit_and (divisor hz / 2 ^ 8) 0xFF)
    ∷ []

-- The divisor that the timer puts together from the two bytes.
abbrev pub loaded : List Outb → ℕ
loaded (mode ∷ low ∷ high ∷ []) = high.val * 2 ^ 8 + low.val
loaded os = 0

bytes_eq : (d : ℕ) → u8 (d / 256 % 256) * 256 + u8 (d % 256) ≡ d % 2 ^ 16
bytes_eq d = omega arith

-- The timer gets the divisor that gives the frequency asked for, when that is at least 19 Hz; for a
-- lower one the divisor does not fit its 16 bits, and only its low 16 bits are written.
pub timer_init-loaded :
    (hz : ℕ)
    → 1 ≤ hz
    → (loaded (timer_init hz) ≡ divisor hz % 2 ^ 16)
      × (19 ≤ hz → loaded (timer_init hz) ≡ divisor hz)
unfolding timer_init
timer_init-loaded hz pos =
    let low : bit_and (divisor hz) 255 ≡ divisor hz % 256 = bit_and_low 8 (divisor hz) in
    let high : bit_and (divisor hz / 256) 255 ≡ divisor hz / 256 % 256 =
      bit_and_low 8 (divisor hz / 256) in
    (
      rw (low, high) (bytes_eq (divisor hz)),
      λ fast.
          let fits : divisor hz < 2 ^ 16 = (div-lt_iff_lt-mul pos).1 (omega arith) in
          rw (low, high) (bytes_eq (divisor hz) ∙ omega arith),
    )

-- The state after `n` interrupts of the timer.
abbrev pub ticked : ℕ → Timer → Timer
ticked zero t = t
ticked (suc n) t = ticked n (timer_cb t)

dots_step :
    (a b n k l c : ℕ)
    → b ≡ a + 1
    → l ≡ (if (a + 1) % 100 == 0 then k + 1 else k)
    → c ≡ l + ((b + n) / 100 - b / 100)
    → c ≡ k + ((a + suc n) / 100 - a / 100)
dots_step a b n k l c hb hl hc = ground arith

tick_one :
    (t : Timer)
    → t.ticks + 1 < 2 ^ 64
    → ((timer_cb t).ticks ≡ t.ticks + 1)
      × (length (timer_cb t).console
          ≡ (if (t.ticks + 1) % 100 == 0 then length t.console + 1 else length t.console))
unfolding timer_cb
tick_one t h = go t.ticks t.console h
  where
    go :
        (a : ℕ) (cs : List ℕ)
        → a + 1 < 2 ^ 64
        → ((a + 1) % 2 ^ 64 ≡ a + 1)
          × (length (if (a + 1) % 2 ^ 64 % 100 == 0 then cs ++ (b'.' ∷ []) else cs)
              ≡ (if (a + 1) % 100 == 0 then length cs + 1 else length cs))
    go a cs h =
        let whole : (a + 1) % 2 ^ 64 ≡ a + 1 = omega arith in
        (
          whole,
          elim (Bool-cases ((a + 1) % 100 == 0)) [
            | inl e ↦ rw (whole, e) (length-append cs (b'.' ∷ []))
            | inr e ↦ rw (whole, e) refl
          ],
        )

-- `n` interrupts of the timer count `n` ticks, which `timer_ticks` returns modulo 2^32, and put a dot
-- on the console at every hundredth, as long as the 64-bit counter does not wrap.
pub timer_ticks-ticked :
    (n : ℕ) (t : Timer)
    → t.ticks + n < 2 ^ 64
    → (timer_ticks (ticked n t) ≡ u32 (t.ticks + n))
      × (length (ticked n t).console ≡ length t.console + ((t.ticks + n) / 100 - t.ticks / 100))
unfolding timer_ticks
timer_ticks-ticked zero t h = (omega arith, omega arith)
timer_ticks-ticked (suc n) t h =
    let one = tick_one t (omega arith) in
    let more = timer_ticks-ticked n (timer_cb t) (omega (arith, one.0)) in
    (
      omega (arith, more.0, one.0),
      dots_step t.ticks (timer_cb t).ticks n (length t.console) (length (timer_cb t).console) _
          one.0 one.1 more.1,
    )
