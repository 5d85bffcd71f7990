-- ===== src/Paging/Entries.antt =====
-- The entries of page tables as numbers: a frame and twelve flags.
use mathlib.Core.Path.{ap₂}
use native.Mathlib.Nat.{div-add-mod'}
use bobliu_os.Base.{
  ℕ, ◌+◌, ◌*◌, ◌/◌, ◌%◌, ◌^◌, ◌<◌, ◌≡◌, ◌≢◌, refl, sym, ◌∙◌, arith, Bool, true, false, ◌==◌,
  bit_and, bit_or, max, Bool-cases, inl, inr,
}
use bobliu_os.Base.Bits.{
  bit_or_unroll, bit_and_low, bit_or_split, bit_or-lt, bit_or_fields, bit_or-zero,
}
use bobliu_os.Word.{align_down}
use bobliu_os.Word.Align.{align_down_frame}
use bobliu_os.Paging.{
  p_present, p_rw, p_user, page_mask, has, pde_index, pte_index, wanted, table_flags,
}

pub page_mask_eq : (e : ℕ) → e < 2 ^ 32 → bit_and e page_mask ≡ e / 4096 * 4096
unfolding align_down
page_mask_eq e h = align_down_frame e h

-- Whether an entry has the present bit.
abbrev pub is_present : ℕ → Bool
is_present e = e % 2 == 1

pub has_present : (e : ℕ) → has p_present e ≡ is_present e
has_present e = let low : bit_and e 1 ≡ e % 2 = bit_and_low 1 e in rw low (ground arith)

pub pde_index_eq : (v : ℕ) → v < 2 ^ 32 → pde_index v ≡ v / 2 ^ 22
unfolding pde_index
pde_index_eq v h =
    let low : bit_and (v / 2 ^ 22) 0x3FF ≡ v / 2 ^ 22 % 1024 = bit_and_low 10 (v / 2 ^ 22) in
    omega (arith, low)

pub pte_index_eq : (v : ℕ) → pte_index v ≡ v / 2 ^ 12 % 1024
unfolding pte_index
pte_index_eq v = bit_and_low 10 (v / 2 ^ 12)

-- Flags put into an entry leave its frame.
pub or_flags : (e w : ℕ) → w < 4096 → bit_or e w ≡ e / 4096 * 4096 + bit_or (e % 4096) w
or_flags e w h =
    let whole : e ≡ e / 4096 * 2 ^ 12 + e % 4096 = sym (div-add-mod' e 4096) in
    let part : w ≡ 0 * 2 ^ 12 + w = omega arith in
    let split = bit_or_split 12 (e / 4096) 0 (e % 4096) w (omega arith) h in
    ap₂ bit_or whole part ∙ split ∙ omega (arith, bit_or-zero (e / 4096))

pub or-parity : (a b : ℕ) → bit_or a b % 2 ≡ max (a % 2) (b % 2)
or-parity a b = omega (arith, bit_or_unroll a b)

-- An entry with the frame of `e` that is present if `e` is.
pub record IsLike (e x : ℕ) : Type 0 where
  pub word : x < 2 ^ 32
  pub frame : x / 4096 ≡ e / 4096
  pub present : x % 2 ≡ e % 2

pub or_flags-IsLike : (e w : ℕ) → e < 2 ^ 32 → w < 4096 → w % 2 ≡ 0 → IsLike e (bit_or e w)
or_flags-IsLike e w fits h even =
    let low : bit_or (e % 4096) w < 4096 = bit_or-lt 12 (e % 4096) w (omega arith) h in
    record {
      word = omega (arith, or_flags e w h);
      frame = omega (arith, or_flags e w h);
      present = omega (arith, or-parity e w);
    }

-- The entry of frame `f` with flags that hold the present bit.
pub record IsEntry (f x : ℕ) : Type 0 where
  pub word : x < 2 ^ 32
  pub frame : x / 4096 ≡ f
  pub present : x % 2 ≡ 1

pub or-IsEntry : (f w : ℕ) → f < 2 ^ 20 → w < 4096 → w % 2 ≡ 1 → IsEntry f (bit_or (f * 4096) w)
or-IsEntry f w fits h odd =
    let e : bit_or (f * 4096) w ≡ f * 4096 + w = bit_or_fields 12 f w h in
    record { word = omega (arith, e); frame = omega (arith, e); present = omega (arith, e) }

pub wanted_even : (n : ℕ) → (wanted n < 4096) × (wanted n % 2 ≡ 0)
unfolding wanted
wanted_even n = elim (Bool-cases (has p_user n)) [
  | inl e ↦ elim (Bool-cases (has p_rw n)) [
    | inl g ↦ rw (e, g) (omega arith, refl)
    | inr g ↦ rw (e, g) (omega arith, refl)
  ]
  | inr e ↦ elim (Bool-cases (has p_rw n)) [
    | inl g ↦ rw (e, g) (omega arith, refl)
    | inr g ↦ rw (e, g) (omega arith, refl)
  ]
]

pub table_flags_odd : (n : ℕ) → (table_flags n < 4096) × (table_flags n % 2 ≡ 1)
unfolding table_flags
table_flags_odd n = elim (Bool-cases (has p_user n)) [
  | inl e ↦ elim (Bool-cases (has p_rw n)) [
    | inl g ↦ rw (e, g) (omega arith, refl)
    | inr g ↦ rw (e, g) (omega arith, refl)
  ]
  | inr e ↦ elim (Bool-cases (has p_rw n)) [
    | inl g ↦ rw (e, g) (omega arith, refl)
    | inr g ↦ rw (e, g) (omega arith, refl)
  ]
]

-- The two orders in which the code puts an entry together.
pub pte-IsEntry :
    (f flags : ℕ)
    → f < 2 ^ 20
    → flags < 4096
    → IsEntry f (bit_or (f * 4096) (bit_or flags p_present))
pte-IsEntry f flags fits low =
    or-IsEntry f (bit_or flags 1) fits (bit_or-lt 12 flags 1 low (omega arith))
      (omega (arith, or-parity flags 1))

pub pte_in-IsEntry :
    (f flags : ℕ)
    → f < 2 ^ 20
    → flags < 4096
    → IsEntry f (bit_or (bit_or (f * 4096) flags) p_present)
pte_in-IsEntry f flags fits low =
    let inner : bit_or (f * 4096) flags ≡ f * 4096 + flags = bit_or_fields 12 f flags low in
    let e = or_flags (bit_or (f * 4096) flags) 1 (omega arith) in
    let small : bit_or (bit_or (f * 4096) flags % 4096) 1 < 4096 =
      bit_or-lt 12 _ 1 (omega arith) (omega arith) in
    record {
      word = omega (arith, e, inner);
      frame = omega (arith, e, inner);
      present = omega (arith, or-parity (bit_or (f * 4096) flags) 1);
    }

pub odd_of_present : (e : ℕ) → has p_present e ≡ true → e % 2 ≡ 1
odd_of_present e h = let odd : is_present e ≡ true = sym (has_present e) ∙ h in ground (arith, odd)

pub even_of_absent : (e : ℕ) → has p_present e ≡ false → e % 2 ≢ 1
even_of_absent e h =
    let even : is_present e ≡ false = sym (has_present e) ∙ h in ground (arith, even)
