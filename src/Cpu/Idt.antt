-- ===== src/Cpu/Idt.antt =====
-- Interrupt gates, kernel/arch/i386/cpu/idt.c. The stubs of isr.S and irq.S are addresses given to
-- the model.
use bobliu_os.Base.{
  ℕ, zero, suc, ◌+◌, ◌-◌, ◌*◌, ◌/◌, ◌^◌, ◌≤◌, ◌<◌, ◌≡◌, ◌≢◌, refl, sym, subst, ap, ◌∙◌, arith, List,
  Bool, true, ltb, leb, ◌==◌, ◌&&◌, if◌then◌else◌, bit_and, get_or, set, length, length-set,
  get_or-set_self, get_or-set_ne, Bool-cases, inl, inr,
}
use bobliu_os.Base.Bits.{bit_and_low}
use bobliu_os.Word.{u8}

pub record IdtEntry : Type 0 where
  pub base_lo : ℕ
  pub sel : ℕ
  pub always0 : ℕ
  pub flags : ℕ
  pub base_hi : ℕ

abbrev pub no_gate : IdtEntry
no_gate = record { base_lo = 0; sel = 0; always0 = 0; flags = 0; base_hi = 0 }

unfoldable pub idt_gate : ℕ → ℕ → ℕ → IdtEntry
idt_gate base sel flags = record {
  base_lo = bit_and base 0xFFFF;
  base_hi = bit_and (base / 2 ^ 16) 0xFFFF;
  sel = sel;
  always0 = 0;
  flags = flags;
}

unfoldable pub idt_set_gate : ℕ → ℕ → ℕ → ℕ → List IdtEntry → List IdtEntry
idt_set_gate num base sel flags idt = set idt num (idt_gate base sel flags)

-- The loops of `idt_init`, for `count` entries from `i` on.
unfoldable pub clear_gates : ℕ → ℕ → List IdtEntry → List IdtEntry
clear_gates zero i idt = idt
clear_gates (suc count) i idt = clear_gates count (i + 1) (set idt i no_gate)

unfoldable pub set_gates : ℕ → ℕ → ℕ → (ℕ → ℕ) → List IdtEntry → List IdtEntry
set_gates zero i first stub idt = idt
set_gates (suc count) i first stub idt =
    set_gates count (i + 1) first stub (idt_set_gate (u8 (first + i)) (stub i) 0x08 0x8E idt)

pub record IdtPtr : Type 0 where
  pub limit : ℕ
  pub base : ℕ

-- With the stubs of the exceptions, of the interrupt lines and of the system call.
unfoldable pub idt_init : (ℕ → ℕ) → (ℕ → ℕ) → ℕ → ℕ → List IdtEntry → IdtPtr × List IdtEntry
idt_init isr irq isr128 at idt =
    let cleared = clear_gates 256 0 idt in
    let exceptions = set_gates 32 0 0 isr cleared in
    let lines = set_gates 16 0 32 irq exceptions in
    (record { limit = 256 * 8 - 1; base = at }, idt_set_gate 0x80 isr128 0x08 0xEE lines)

get_or-set_gate :
    (idt : List IdtEntry) (i j : ℕ) (g : IdtEntry)
    → i < length idt
    → get_or (set idt i g) j no_gate ≡ (if i == j then g else get_or idt j no_gate)
get_or-set_gate idt i j g h = elim (Bool-cases (i == j)) [
  | inl e ↦
      let same : i ≡ j = ground (arith, e) in rw (e, ← same) (get_or-set_self idt i g no_gate h)
  | inr e ↦ let apart : i ≢ j = ground (arith, e) in rw e (get_or-set_ne idt i j g no_gate apart)
]

clear_gates-length :
    (count i : ℕ) (idt : List IdtEntry) → length (clear_gates count i idt) ≡ length idt
unfolding clear_gates
clear_gates-length zero i idt = refl
clear_gates-length (suc count) i idt =
    clear_gates-length count (i + 1) (set idt i no_gate) ∙ length-set idt i no_gate

set_gates-length :
    (count i first : ℕ) (stub : ℕ → ℕ) (idt : List IdtEntry)
    → length (set_gates count i first stub idt) ≡ length idt
unfolding set_gates idt_set_gate
set_gates-length zero i first stub idt = refl
set_gates-length (suc count) i first stub idt =
    set_gates-length count (i + 1) first stub (idt_set_gate (u8 (first + i)) (stub i) 0x08 0x8E idt)
    ∙ length-set idt (u8 (first + i)) _

-- `count` numbers from `i` on
abbrev pub is_in : ℕ → ℕ → ℕ → Bool
is_in i count j = leb i j && ltb j (i + count)

no_numbers : (i j : ℕ) (g x : IdtEntry) → x ≡ (if is_in i 0 j then g else x)
no_numbers i j g x = ground arith

one_more :
    (i count j : ℕ) (g x : IdtEntry)
    → (if is_in (i + 1) count j then g else if i == j then g else x)
      ≡ (if is_in i (suc count) j then g else x)
one_more i count j g x = ground arith

-- `k` gives the entry at its place from `first` on.
one_more_of :
    (i first count j : ℕ) (k : ℕ → IdtEntry) (x : IdtEntry)
    → (if is_in (first + (i + 1)) count j then k (j - first) else if first + i == j then k i else x)
      ≡ (if is_in (first + i) (suc count) j then k (j - first) else x)
one_more_of i first count j k x = elim (Bool-cases (first + i == j)) [
  | inl e ↦ let place : i ≡ j - first = ground (arith, e) in rw (e, place) (ground (arith, e))
  | inr e ↦ rw e (ground (arith, e))
]

clear_gates_at :
    (count i j : ℕ) (idt : List IdtEntry)
    → i + count ≤ length idt
    → get_or (clear_gates count i idt) j no_gate
      ≡ (if is_in i count j then no_gate else get_or idt j no_gate)
unfolding clear_gates
clear_gates_at zero i j idt h = no_numbers i j no_gate (get_or idt j no_gate)
clear_gates_at (suc count) i j idt h =
    clear_gates_at count (i + 1) j (set idt i no_gate) (omega (arith, length-set idt i no_gate))
    ∙ ap (λ x. if is_in (i + 1) count j then no_gate else x)
        (get_or-set_gate idt i j no_gate (omega arith))
    ∙ one_more i count j no_gate (get_or idt j no_gate)

set_gates_at :
    (count i first j : ℕ) (stub : ℕ → ℕ) (idt : List IdtEntry)
    → length idt ≡ 256
    → first + i + count ≤ 256
    → get_or (set_gates count i first stub idt) j no_gate ≡ (
        if is_in (first + i) count j
        then idt_gate (stub (j - first)) 0x08 0x8E
        else get_or idt j no_gate)
unfolding set_gates idt_set_gate
set_gates_at zero i first j stub idt size h =
    no_numbers (first + i) j (idt_gate (stub (j - first)) 0x08 0x8E) (get_or idt j no_gate)
set_gates_at (suc count) i first j stub idt size h =
    let gate : ℕ → IdtEntry = λ n. idt_gate (stub n) 0x08 0x8E in
    let byte : u8 (first + i) ≡ first + i = omega arith in
    let grown = set idt (u8 (first + i)) (gate i) in
    set_gates_at count (i + 1) first j stub grown (length-set idt (u8 (first + i)) (gate i) ∙ size)
      (omega arith)
    ∙ ap (λ x. if is_in (first + (i + 1)) count j then gate (j - first) else x)
        (rw byte (get_or-set_gate idt (first + i) j (gate i) (omega arith)))
    ∙ one_more_of i first count j gate (get_or idt j no_gate)

-- The gate that a vector should have.
abbrev pub gate_of : (ℕ → ℕ) → (ℕ → ℕ) → ℕ → ℕ → IdtEntry
gate_of isr irq isr128 n =
    if n == 0x80
    then idt_gate isr128 0x08 0xEE
    else if ltb n 32
    then idt_gate (isr n) 0x08 0x8E
    else if ltb n 48
    then idt_gate (irq (n - 32)) 0x08 0x8E
    else no_gate

-- Where the processor goes at a gate.
abbrev pub gate_address : IdtEntry → ℕ
gate_address g = g.base_hi * 2 ^ 16 + g.base_lo

pub gate_address_eq :
    (base sel flags : ℕ) → base < 2 ^ 32 → gate_address (idt_gate base sel flags) ≡ base
unfolding idt_gate
gate_address_eq base sel flags h =
    rw (bit_and_low 16 (base / 2 ^ 16), bit_and_low 16 base) (omega arith)

sub_zero : (n : ℕ) → n - 0 ≡ n
sub_zero n = omega arith

same_choice :
    (n : ℕ) (a b c z y : IdtEntry)
    → n < 256
    → (if 0x80 == n
        then a
        else if is_in 32 16 n
        then b
        else if is_in 0 32 n
        then c
        else if is_in 0 256 n
        then z
        else y)
      ≡ (if n == 0x80 then a else if ltb n 32 then c else if ltb n 48 then b else z)
same_choice n a b c z y h = ground arith

-- Where the processor goes at a vector, and the bits that say who may call it: 0x8E is a 32-bit interrupt gate
-- for the kernel, 0xEE one that user code may call, 0 none.
abbrev pub vector_address : (ℕ → ℕ) → (ℕ → ℕ) → ℕ → ℕ → ℕ
vector_address isr irq isr128 n =
    if n == 0x80 then isr128 else if ltb n 32 then isr n else if ltb n 48 then irq (n - 32) else 0

abbrev pub vector_flags : ℕ → ℕ
vector_flags n = if n == 0x80 then 0xEE else if ltb n 48 then 0x8E else 0

-- The gate is in the kernel's code segment, unless there is none.
abbrev pub vector_selector : ℕ → ℕ
vector_selector n = if n == 0x80 then 0x08 else if ltb n 48 then 0x08 else 0

-- The fields of a gate, the halves of the address among them, as the processor reads them.
pub record IsGate (address sel flags : ℕ) (g : IdtEntry) : Type 0 where
  pub goes : gate_address g ≡ address
  pub low : g.base_lo < 2 ^ 16
  pub high : g.base_hi < 2 ^ 16
  pub selector : g.sel ≡ sel
  pub zeros : g.always0 ≡ 0
  pub bits : g.flags ≡ flags

idt_gate-IsGate :
    (base sel flags : ℕ) → base < 2 ^ 32 → IsGate base sel flags (idt_gate base sel flags)
unfolding idt_gate
idt_gate-IsGate base sel flags h = record {
  goes = gate_address_eq base sel flags h;
  low = rw (bit_and_low 16 base) (omega arith);
  high = rw (bit_and_low 16 (base / 2 ^ 16)) (omega arith);
  selector = refl;
  zeros = refl;
  bits = refl;
}

gate_of-IsGate :
    (isr irq : ℕ → ℕ) (isr128 n : ℕ)
    → ((i : ℕ) → isr i < 2 ^ 32)
    → ((i : ℕ) → irq i < 2 ^ 32)
    → isr128 < 2 ^ 32
    → IsGate
        (vector_address isr irq isr128 n)
        (vector_selector n)
        (vector_flags n)
        (gate_of isr irq isr128 n)
gate_of-IsGate isr irq isr128 n he hi hs = elim (Bool-cases (n == 0x80)) [
  | inl e ↦ rw e (idt_gate-IsGate isr128 0x08 0xEE hs)
  | inr e ↦ elim (Bool-cases (ltb n 32)) [
    | inl f ↦
        let below : ltb n 48 ≡ true = ground (arith, f) in
        rw (e, f, below) (idt_gate-IsGate (isr n) 0x08 0x8E (he n))
    | inr f ↦ elim (Bool-cases (ltb n 48)) [
      | inl g ↦ rw (e, f, g) (idt_gate-IsGate (irq (n - 32)) 0x08 0x8E (hi (n - 32)))
      | inr g ↦
          rw (e, f, g)
            (record {
              goes = refl;
              low = omega arith;
              high = omega arith;
              selector = refl;
              zeros = refl;
              bits = refl;
            })
    ]
  ]
]

-- After `idt_init`, with stubs at addresses of 32 bits, each of the 256 vectors has its gate, whatever the
-- table held before: the exceptions and the interrupt lines gates of the kernel to their stubs, vector 0x80
-- one to its stub that user code may call, and the others none; the limit covers the table.
pub idt_init-Gates :
    (isr irq : ℕ → ℕ) (isr128 at n : ℕ) (idt : List IdtEntry)
    → length idt ≡ 256
    → n < 256
    → ((i : ℕ) → isr i < 2 ^ 32)
    → ((i : ℕ) → irq i < 2 ^ 32)
    → isr128 < 2 ^ 32
    → ((idt_init isr irq isr128 at idt).0.limit + 1 ≡ 8 * length (idt_init isr irq isr128 at idt).1)
      × IsGate
          (vector_address isr irq isr128 n)
          (vector_selector n)
          (vector_flags n)
          (get_or (idt_init isr irq isr128 at idt).1 n no_gate)
unfolding idt_init idt_set_gate
idt_init-Gates isr irq isr128 at n idt size inside he hi hs =
    let cleared = clear_gates 256 0 idt in
    let exceptions = set_gates 32 0 0 isr cleared in
    let lines = set_gates 16 0 32 irq exceptions in
    let size1 : length cleared ≡ 256 = clear_gates-length 256 0 idt ∙ size in
    let size2 : length exceptions ≡ 256 = set_gates-length 32 0 0 isr cleared ∙ size1 in
    let size3 : length lines ≡ 256 = set_gates-length 16 0 32 irq exceptions ∙ size2 in
    (
      omega (arith, length-set lines 0x80 (idt_gate isr128 0x08 0xEE)),
      subst (IsGate (vector_address isr irq isr128 n) (vector_selector n) (vector_flags n))
          (sym (
            rw
              (
                get_or-set_gate lines 0x80 n (idt_gate isr128 0x08 0xEE) (omega arith),
                set_gates_at 16 0 32 n irq exceptions size2 (omega arith),
                set_gates_at 32 0 0 n isr cleared size1 (omega arith),
                clear_gates_at 256 0 n idt (omega arith),
              )
              (rw (sub_zero n) (
                same_choice n (idt_gate isr128 0x08 0xEE) (idt_gate (irq (n - 32)) 0x08 0x8E)
                  (idt_gate (isr n) 0x08 0x8E) no_gate (get_or idt n no_gate) inside))))
          (gate_of-IsGate isr irq isr128 n he hi hs),
    )
