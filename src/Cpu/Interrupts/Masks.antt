-- ===== src/Cpu/Interrupts/Masks.antt =====
-- The interrupt lines that kernel/arch/i386/interrupts/interrupts.c leaves masked and open.
use bobliu_os.Base.{
  ℕ, zero, suc, ◌^◌, ◌<◌, ◌≡◌, refl, sym, ap, ◌∙◌, arith, List, [], ◌∷◌, ◌++◌, ltb, ◌==◌,
  if◌then◌else◌, bit_and, get_or, set, none, some, length, false, get_or-set_self, get_or-set_ne,
  length-set, Bool-cases, inl, inr, subst,
}
use bobliu_os.Word.{u8, not32}
use bobliu_os.Cpu.Gdt.{gdt_init}
use bobliu_os.Cpu.Idt.{idt_init}
use bobliu_os.Cpu.Isr.{Regs, Routine, irq_install_handler}
use bobliu_os.Cpu.Pic.{
  Outb, outb, pic1_data, pic2_data, mask_port, pic_remap, pic_clear_mask, written, masked,
  pic_mask-masked,
}
use bobliu_os.Cpu.Timer.{timer_init}
use bobliu_os.Cpu.Interrupts.{
  Build, Machine, port_step, keyboard_mask, keyboard_init, timer_started, interrupts_init,
}

written-append : (a b : List Outb) (inb : ℕ → ℕ) → written (a ++ b) inb ≡ written b (written a inb)
written-append [] b inb = refl
written-append (o ∷ a) b inb = written-append a b (λ q. if o.port == q then o.val else inb q)

-- Every write is of a byte.
abbrev AreBytes : List Outb → Type 0
AreBytes [] = Unit
AreBytes (o ∷ os) = (o.val < 256) × AreBytes os

bytes_written :
    (os : List Outb) (inb : ℕ → ℕ)
    → AreBytes os
    → ((p : ℕ) → inb p < 256)
    → (p : ℕ) → written os inb p < 256
bytes_written [] inb all bytes p = bytes p
bytes_written (o ∷ os) inb all bytes p =
    bytes_written os (λ q. if o.port == q then o.val else inb q) all.1
      (λ q. one q (inb q) (bytes q)) p
  where
    one : (q b : ℕ) → b < 256 → (if o.port == q then o.val else b) < 256
    one q b h = ground (arith, all.0)

-- The registers of the masks are those of one of the two controllers.
at_masks :
    (f g : ℕ → ℕ) (j : ℕ)
    → f pic1_data ≡ g pic1_data
    → f pic2_data ≡ g pic2_data
    → masked f j ≡ masked g j
at_masks f g j first second = elim (Bool-cases (ltb j 8)) [
  | inl e ↦ rw (e, first) refl
  | inr e ↦ rw (e, second) refl
]

remap_masked :
    (inb : ℕ → ℕ) (j : ℕ)
    → ((p : ℕ) → inb p < 256)
    → masked (written (pic_remap 0x20 0x28 inb) inb) j ≡ masked inb j
unfolding pic_remap
remap_masked inb j bytes =
    at_masks (written (pic_remap 0x20 0x28 inb) inb) inb j (omega (arith, bytes 0x21))
      (omega (arith, bytes 0xA1))

timer_masked : (inb : ℕ → ℕ) (j : ℕ) → masked (written (timer_init 100) inb) j ≡ masked inb j
unfolding timer_init
timer_masked inb j = at_masks (written (timer_init 100) inb) inb j refl refl

keyboard_mask_eq : (inb : ℕ → ℕ) → keyboard_mask inb ≡ pic_clear_mask 1 inb
unfolding keyboard_mask pic_clear_mask
keyboard_mask_eq inb =
    ap (λ v. record { port = 0x21; val = v } ∷ []) (twice (bit_and (inb 0x21) (not32 (2 ^ 1))))
  where
    twice : (n : ℕ) → u8 n ≡ u8 (u8 n)
    twice n = omega arith

remap-AreBytes : (inb : ℕ → ℕ) → AreBytes (pic_remap 0x20 0x28 inb)
unfolding pic_remap
remap-AreBytes inb =
    let small : (n : ℕ) → u8 n < 256 = λ n. omega arith in
    (
      small 0x11,
      (
        small 0,
        (
          small 0x11,
          (
            small 0,
            (
              small 0x20,
              (
                small 0,
                (
                  small 0x28,
                  (
                    small 0,
                    (
                      small 4,
                      (
                        small 0,
                        (
                          small 2,
                          (
                            small 0,
                            (
                              small 1,
                              (
                                small 0,
                                (small 1, (small 0, (small (inb 0x21), (small (inb 0xA1), tt)))),
                              ),
                            ),
                          ),
                        ),
                      ),
                    ),
                  ),
                ),
              ),
            ),
          ),
        ),
      ),
    )

one_byte : (port v : ℕ) → AreBytes (outb port v ∷ [])
one_byte port v = (omega arith, tt)

-- The ports after a step.
step_ports :
    {S : Type 0} (inb : ℕ → ℕ) (step : (ℕ → ℕ) → List Outb) (m : Machine S)
    → written (port_step inb step m).writes inb
      ≡ written (step (written m.writes inb)) (written m.writes inb)
step_ports inb step m = written-append m.writes (step (written m.writes inb)) inb

-- The ports hold bytes after what was written so far.
abbrev HasBytes : {S : Type 0} → (ℕ → ℕ) → Machine S → Type 0
HasBytes inb m = (p : ℕ) → written m.writes inb p < 256

step-HasBytes :
    {S : Type 0} (inb : ℕ → ℕ) (step : (ℕ → ℕ) → List Outb) (m : Machine S)
    → AreBytes (step (written m.writes inb))
    → HasBytes inb m
    → HasBytes inb (port_step inb step m)
step-HasBytes inb step m all bytes p =
    subst (λ (f : ℕ → ℕ). f p < 256) (sym (step_ports inb step m))
      (bytes_written (step (written m.writes inb)) (written m.writes inb) all bytes p)

-- A line is opened.
opened :
    {S : Type 0} (inb : ℕ → ℕ) (i j : ℕ) (m : Machine S)
    → i < 16
    → j < 16
    → HasBytes inb m
    → masked (written (port_step inb (pic_clear_mask i) m).writes inb) j
      ≡ (if i == j then 0 else masked (written m.writes inb) j)
opened inb i j m hi hj bytes =
    ap (λ f. masked f j) (step_ports inb (pic_clear_mask i) m)
    ∙ (pic_mask-masked (written m.writes inb) i j bytes hi hj).1

clear_mask-AreBytes : (i : ℕ) (inb : ℕ → ℕ) → AreBytes (pic_clear_mask i inb)
unfolding pic_clear_mask
clear_mask-AreBytes i inb = one_byte (mask_port i) _

timer-AreBytes : (inb : ℕ → ℕ) → AreBytes (timer_init 100)
unfolding timer_init
timer-AreBytes inb = (omega arith, (omega arith, (omega arith, tt)))

-- The three ports of the masks that `interrupts_init` opens, one after the other.
all_opened :
    {S : Type 0} (inb : ℕ → ℕ) (j : ℕ) (timer keyboard : Regs → S → S) (m : Machine S)
    → j < 16
    → HasBytes inb m
    → masked
        (written
          (keyboard_init keyboard inb (
            timer_started timer inb (
              port_step inb
                (pic_clear_mask 1)
                (port_step inb (pic_clear_mask 0) (port_step inb (pic_remap 0x20 0x28) m))))).writes
          inb)
        j
      ≡ (if ltb j 2 then 0 else masked (written m.writes inb) j)
unfolding keyboard_init
all_opened inb j timer keyboard m hj bytes =
    let m1 = port_step inb (pic_remap 0x20 0x28) m in
    let b1 = step-HasBytes inb (pic_remap 0x20 0x28) m (remap-AreBytes _) bytes in
    let e1 : masked (written m1.writes inb) j ≡ masked (written m.writes inb) j =
      ap (λ f. masked f j) (step_ports inb (pic_remap 0x20 0x28) m) ∙ remap_masked _ j bytes in
    let m2 = port_step inb (pic_clear_mask 0) m1 in
    let b2 = step-HasBytes inb (pic_clear_mask 0) m1 (clear_mask-AreBytes 0 _) b1 in
    let e2 = opened inb 0 j m1 (omega arith) hj b1 in
    let m3 = port_step inb (pic_clear_mask 1) m2 in
    let b3 = step-HasBytes inb (pic_clear_mask 1) m2 (clear_mask-AreBytes 1 _) b2 in
    let e3 = opened inb 1 j m2 (omega arith) hj b2 in
    let m4 = port_step inb (λ ports. timer_init 100) m3 in
    let b4 = step-HasBytes inb (λ ports. timer_init 100) m3 (timer-AreBytes inb) b3 in
    let e4 : masked (written m4.writes inb) j ≡ masked (written m3.writes inb) j =
      ap (λ f. masked f j) (step_ports inb (λ ports. timer_init 100) m3) ∙ timer_masked _ j in
    let e5 = opened inb 1 j m4 (omega arith) hj b4 in
    let keyboard_step : masked (written (port_step inb keyboard_mask m4).writes inb) j
        ≡ masked (written (port_step inb (pic_clear_mask 1) m4).writes inb) j =
      ap (λ w. masked (written (m4.writes ++ w) inb) j)
        (keyboard_mask_eq (written m4.writes inb)) in
    keyboard_step ∙ e5 ∙ lines j _ _ _ _ (e4 ∙ e3) e2 e1
  where
    lines :
        (j v4 v2 v1 v0 : ℕ)
        → v4 ≡ (if 1 == j then 0 else v2)
        → v2 ≡ (if 0 == j then 0 else v1)
        → v1 ≡ v0
        → (if 1 == j then 0 else v4) ≡ (if ltb j 2 then 0 else v0)
    lines j v4 v2 v1 v0 h4 h2 h1 = ground arith

-- Two handlers are put in the table, one after the other.
installed :
    {S : Type 0} (routines : List (Routine S)) (j : ℕ) (timer keyboard : Routine S)
    → length routines ≡ 16
    → get_or (set (set routines 0 timer) 1 keyboard) j none
      ≡ (if j == 0 then timer else if j == 1 then keyboard else get_or routines j none)
installed routines zero timer keyboard size =
    get_or-set_ne (set routines 0 timer) 1 0 keyboard none (λ e. omega (arith, e))
    ∙ get_or-set_self routines 0 timer none (omega (arith, size))
installed routines (suc zero) timer keyboard size =
    get_or-set_self (set routines 0 timer) 1 keyboard none
      (omega (arith, size, length-set routines 0 timer))
installed routines (suc (suc j)) timer keyboard size =
    let first : (suc (suc j) == 0) ≡ false = ground arith in
    let second : (suc (suc j) == 1) ≡ false = ground arith in
    rw (first, second)
      (get_or-set_ne (set routines 0 timer) 1 (suc (suc j)) keyboard none (λ e. omega (arith, e))
        ∙ get_or-set_ne routines 0 (suc (suc j)) timer none (λ e. omega (arith, e)))

-- After `interrupts_init` the timer and the keyboard have their handlers, every other line the handler that
-- it had, or none; the lines of the two are unmasked, and every other interrupt line of the two controllers
-- is masked as it was before, when a mask register holds a byte and reads as what was written to it last.
pub interrupts_init-masked :
    {S : Type 0} (b : Build S) (inb : ℕ → ℕ) (m : Machine S) (j : ℕ)
    → ((p : ℕ) → written m.writes inb p < 256)
    → length m.routines ≡ 16
    → j < 16
    → (get_or (interrupts_init b inb m).routines j none ≡ (
        if j == 0
        then some b.timer
        else if j == 1
        then some b.keyboard
        else get_or m.routines j none))
      × (masked (written (interrupts_init b inb m).writes inb) j
          ≡ (if ltb j 2 then 0 else masked (written m.writes inb) j))
unfolding interrupts_init keyboard_init irq_install_handler
interrupts_init-masked b inb m j bytes size hj =
    let tables = record m {
      gdt = (gdt_init b.gdt_at m.gdt).1;
      idt = (idt_init b.isr b.irq b.isr128 b.idt_at m.idt).1;
    } in
    (
      installed m.routines j (some b.timer) (some b.keyboard) size,
      all_opened inb j b.timer b.keyboard tables hj bytes,
    )
