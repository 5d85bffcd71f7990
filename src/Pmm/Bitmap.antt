-- ===== src/Pmm/Bitmap.antt =====
-- The bitmap of the frame allocator: what each bit operation does to every bit.
use native.Mathlib.Decide.{ℕ_discrete}
use bobliu_os.Base.{
  ℕ, ◌/◌, ◌%◌, ◌^◌, ◌<◌, ◌≡◌, refl, arith, bit_and, bit_or, List, Bool, true, ◌&&◌, if◌then◌else◌,
  ltb, ◌==◌, get_or, length, length-set, get_or-set_self, get_or-set_ne,
}
use bobliu_os.Base.Bits.{bit_and_low, all_below, all_below_sound}
use bobliu_os.Word.{u8, not32}
use bobliu_os.Pmm.{bit_set, bit_clear, bit_test}

-- One byte: setting or clearing bit `k` and reading bit `j`.
byte_law : ℕ → ℕ → ℕ → Bool
byte_law b k j =
    ltb (bit_or b (u8 (2 ^ k))) 256
    && (ltb (bit_and b (u8 (not32 (2 ^ k)))) 256
        && ((bit_and (bit_or b (u8 (2 ^ k)) / 2 ^ j) 1
              == (if k == j then 1 else bit_and (b / 2 ^ j) 1))
            && (bit_and (bit_and b (u8 (not32 (2 ^ k))) / 2 ^ j) 1
                == (if k == j then 0 else bit_and (b / 2 ^ j) 1))))

byte_table : all_below 256 (λ b. all_below 8 (λ k. all_below 8 (byte_law b k))) ≡ true
unfolding byte_law
byte_table = refl

byte_law_holds : (b k j : ℕ) → b < 256 → k < 8 → j < 8 → byte_law b k j ≡ true
byte_law_holds b k j hb hk hj =
    all_below_sound 8 (byte_law b k) j
      (all_below_sound 8 (λ k. all_below 8 (byte_law b k)) k
        (all_below_sound 256 (λ b. all_below 8 (λ k. all_below 8 (byte_law b k))) b byte_table hb)
        hk)
      hj

byte_facts :
    (b k j : ℕ)
    → b < 256
    → k < 8
    → j < 8
    → (bit_or b (u8 (2 ^ k)) < 256)
      × (bit_and b (u8 (not32 (2 ^ k))) < 256)
      × (bit_and (bit_or b (u8 (2 ^ k)) / 2 ^ j) 1 ≡ (if k == j then 1 else bit_and (b / 2 ^ j) 1))
      × (bit_and (bit_and b (u8 (not32 (2 ^ k))) / 2 ^ j) 1
          ≡ (if k == j then 0 else bit_and (b / 2 ^ j) 1))
byte_facts b k j hb hk hj = unfold byte_law in ground (arith, byte_law_holds b k j hb hk hj)

low_three : (i : ℕ) → bit_and i 7 ≡ i % 8
low_three i = bit_and_low 3 i

-- Every byte of the bitmap is a `uint8_t`.
abbrev pub AllBytes : List ℕ → Type 0
AllBytes bitmap = (i : ℕ) → get_or bitmap i 0 < 256

module _ (bitmap : List ℕ) (i j : ℕ) (bytes : AllBytes bitmap)
    (inside : i / 8 < length bitmap) where
  pub bit_test-bit_set : bit_test (bit_set bitmap i) j ≡ (if i == j then 1 else bit_test bitmap j)
  unfolding bit_test bit_set
  bit_test-bit_set = elim (ℕ_discrete (i / 8) (j / 8)) [
    | yes same ↦
        let facts =
          byte_facts (get_or bitmap (i / 8) 0) (i % 8) (j % 8) (bytes (i / 8)) (omega arith)
            (omega arith) in
        rw (low_three i, low_three j, ← same, get_or-set_self bitmap (i / 8) _ 0 inside, facts.2)
          (ground arith)
    | no apart ↦ rw (get_or-set_ne bitmap (i / 8) (j / 8) _ 0 apart) (ground arith)
  ]

  pub bit_test-bit_clear :
      bit_test (bit_clear bitmap i) j ≡ (if i == j then 0 else bit_test bitmap j)
  unfolding bit_test bit_clear
  bit_test-bit_clear = elim (ℕ_discrete (i / 8) (j / 8)) [
    | yes same ↦
        let facts =
          byte_facts (get_or bitmap (i / 8) 0) (i % 8) (j % 8) (bytes (i / 8)) (omega arith)
            (omega arith) in
        rw (low_three i, low_three j, ← same, get_or-set_self bitmap (i / 8) _ 0 inside, facts.3)
          (ground arith)
    | no apart ↦ rw (get_or-set_ne bitmap (i / 8) (j / 8) _ 0 apart) (ground arith)
  ]

  pub bit_set-AllBytes : get_or (bit_set bitmap i) j 0 < 256
  unfolding bit_set
  bit_set-AllBytes = elim (ℕ_discrete (i / 8) j) [
    | yes same ↦
        let facts =
          byte_facts (get_or bitmap (i / 8) 0) (i % 8) (i % 8) (bytes (i / 8)) (omega arith)
            (omega arith) in
        rw (← same, low_three i, get_or-set_self bitmap (i / 8) _ 0 inside) facts.0
    | no apart ↦ rw (get_or-set_ne bitmap (i / 8) j _ 0 apart) (bytes j)
  ]

  pub bit_clear-AllBytes : get_or (bit_clear bitmap i) j 0 < 256
  unfolding bit_clear
  bit_clear-AllBytes = elim (ℕ_discrete (i / 8) j) [
    | yes same ↦
        let facts =
          byte_facts (get_or bitmap (i / 8) 0) (i % 8) (i % 8) (bytes (i / 8)) (omega arith)
            (omega arith) in
        rw (← same, low_three i, get_or-set_self bitmap (i / 8) _ 0 inside) facts.1
    | no apart ↦ rw (get_or-set_ne bitmap (i / 8) j _ 0 apart) (bytes j)
  ]

pub length-bit_set : (bitmap : List ℕ) (i : ℕ) → length (bit_set bitmap i) ≡ length bitmap
unfolding bit_set
length-bit_set bitmap i = length-set bitmap (i / 8) _

pub length-bit_clear : (bitmap : List ℕ) (i : ℕ) → length (bit_clear bitmap i) ≡ length bitmap
unfolding bit_clear
length-bit_clear bitmap i = length-set bitmap (i / 8) _

-- A bit is 0 or 1.
pub bit_test_bit : (bitmap : List ℕ) (i : ℕ) → bit_test bitmap i < 2
unfolding bit_test
bit_test_bit bitmap i = omega (arith, bit_and_low 1 (get_or bitmap (i / 8) 0 / 2 ^ bit_and i 7))
