-- ===== src/Cpu/Pic.antt =====
-- The interrupt controllers, kernel/arch/i386/dev/pic.c, and the ports of
-- kernel/include/arch/i386/portio.h. A routine is given what the ports read, and returns its writes.
use bobliu_os.Base.{
  ℕ, ◌-◌, ◌/◌, ◌^◌, ◌<◌, ◌≡◌, refl, arith, List, [], ◌∷◌, Bool, true, false, ltb, leb, ◌==◌, ◌&&◌,
  if◌then◌else◌, bit_and, bit_or, ==_iff, subst, Bool-cases, inl, inr,
}
use bobliu_os.Base.Bits.{all_below, all_below_sound}
use bobliu_os.Word.{u8, not32}

-- `outb(port, val)`
pub record Outb : Type 0 where
  pub port : ℕ
  pub val : ℕ

abbrev pub outb : ℕ → ℕ → Outb
outb port val = record { port = port; val = u8 val }

abbrev pub io_wait : Outb
io_wait = outb 0x80 0

abbrev pub pic1_data : ℕ
pic1_data = 0x21

abbrev pub pic2_data : ℕ
pic2_data = 0xA1

abbrev pub mask_port : ℕ → ℕ
mask_port irq_line = if ltb irq_line 8 then pic1_data else pic2_data

abbrev pub line_of : ℕ → ℕ
line_of irq_line = if leb 8 irq_line then irq_line - 8 else irq_line

unfoldable pub pic_set_mask : ℕ → (ℕ → ℕ) → List Outb
pic_set_mask irq_line inb =
    let value = u8 (bit_or (inb (mask_port irq_line)) (2 ^ line_of irq_line)) in
    outb (mask_port irq_line) value ∷ []

unfoldable pub pic_clear_mask : ℕ → (ℕ → ℕ) → List Outb
pic_clear_mask irq_line inb =
    let value = u8 (bit_and (inb (mask_port irq_line)) (not32 (2 ^ line_of irq_line))) in
    outb (mask_port irq_line) value ∷ []

unfoldable pub pic_remap : ℕ → ℕ → (ℕ → ℕ) → List Outb
pic_remap offset1 offset2 inb =
    let a1 = inb 0x21 in
    let a2 = inb 0xA1 in
    outb 0x20 0x11
    ∷ io_wait
    ∷ outb 0xA0 0x11
    ∷ io_wait
    ∷ outb 0x21 offset1
    ∷ io_wait
    ∷ outb 0xA1 offset2
    ∷ io_wait
    ∷ outb 0x21 0x04
    ∷ io_wait
    ∷ outb 0xA1 0x02
    ∷ io_wait
    ∷ outb 0x21 0x01
    ∷ io_wait
    ∷ outb 0xA1 0x01
    ∷ io_wait
    ∷ outb 0x21 a1
    ∷ outb 0xA1 a2
    ∷ []

-- What a port holds after the writes.
abbrev pub written : List Outb → (ℕ → ℕ) → ℕ → ℕ
written [] inb p = inb p
written (o ∷ os) inb p = written os (λ q. if o.port == q then o.val else inb q) p

-- The bit of an interrupt line in the mask registers.
abbrev pub masked : (ℕ → ℕ) → ℕ → ℕ
masked inb irq_line = bit_and (inb (mask_port irq_line) / 2 ^ line_of irq_line) 1

-- One mask register: setting or clearing bit `k` and reading bit `j`.
register_law : ℕ → ℕ → ℕ → Bool
register_law b k j =
    (bit_and (u8 (u8 (bit_or b (2 ^ k))) / 2 ^ j) 1
      == (if k == j then 1 else bit_and (b / 2 ^ j) 1))
    && (bit_and (u8 (u8 (bit_and b (not32 (2 ^ k)))) / 2 ^ j) 1
        == (if k == j then 0 else bit_and (b / 2 ^ j) 1))

register_table : all_below 256 (λ b. all_below 8 (λ k. all_below 8 (register_law b k))) ≡ true
unfolding register_law
register_table = refl

register_law_holds : (b k j : ℕ) → b < 256 → k < 8 → j < 8 → register_law b k j ≡ true
register_law_holds b k j hb hk hj =
    all_below_sound 8 (register_law b k) j
      (all_below_sound 8 (λ k. all_below 8 (register_law b k)) k
        (all_below_sound 256 (λ b. all_below 8 (λ k. all_below 8 (register_law b k))) b
          register_table hb)
        hk)
      hj

register_facts :
    (b k j : ℕ)
    → b < 256
    → k < 8
    → j < 8
    → (bit_and (u8 (u8 (bit_or b (2 ^ k))) / 2 ^ j) 1
        ≡ (if k == j then 1 else bit_and (b / 2 ^ j) 1))
      × (bit_and (u8 (u8 (bit_and b (not32 (2 ^ k)))) / 2 ^ j) 1
          ≡ (if k == j then 0 else bit_and (b / 2 ^ j) 1))
register_facts b k j hb hk hj =
    unfold register_law in ground (arith, register_law_holds b k j hb hk hj)

line_in : (i : ℕ) → i < 16 → line_of i < 8
line_in i h = ground arith

same_line :
    (i j : ℕ)
    → i < 16
    → j < 16
    → ((mask_port i == mask_port j) && (line_of i == line_of j)) ≡ (i == j)
same_line i j hi hj = ground arith

-- Masking or unmasking one of the 16 interrupt lines sets its bit to 1 or to 0 and leaves those of all
-- the other lines, of both controllers, as they were, when a mask register holds a byte and reads as
-- what was written to it last.
pub pic_mask-masked :
    (inb : ℕ → ℕ) (i j : ℕ)
    → ((p : ℕ) → inb p < 256)
    → i < 16
    → j < 16
    → (masked (written (pic_set_mask i inb) inb) j ≡ (if i == j then 1 else masked inb j))
      × (masked (written (pic_clear_mask i inb) inb) j ≡ (if i == j then 0 else masked inb j))
unfolding pic_set_mask pic_clear_mask
pic_mask-masked inb i j bytes hi hj =
    let both = same_line i j hi hj in
    elim (Bool-cases (mask_port i == mask_port j)) [
      | inl e ↦
          let port : mask_port i ≡ mask_port j = (==_iff (mask_port i) (mask_port j)).0 e in
          let line : (line_of i == line_of j) ≡ (i == j) =
            subst (λ b. (b && (line_of i == line_of j)) ≡ (i == j)) e both in
          let facts =
            register_facts (inb (mask_port i)) (line_of i) (line_of j) (bytes (mask_port i))
              (line_in i hi) (line_in j hj) in
          (rw (e, facts.0, line, port) refl, rw (e, facts.1, line, port) refl)
      | inr e ↦
          let line : false ≡ (i == j) =
            subst (λ b. (b && (line_of i == line_of j)) ≡ (i == j)) e both in
          (rw (e, ← line) refl, rw (e, ← line) refl)
    ]
