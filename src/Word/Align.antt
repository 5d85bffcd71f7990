-- ===== src/Word/Align.antt =====
-- The alignment macros as arithmetic, at every power of two.
use Prim.Native.Nat.add
use native.Mathlib.Nat.{pow-suc, one-le-pow, mod-eq_of_lt, div-lt_iff_lt-mul}
use bobliu_os.Base.{
  ℕ, zero, suc, ◌+◌, ◌-◌, ◌*◌, ◌/◌, ◌^◌, ◌≤◌, ◌<◌, ◌≡◌, refl, sym, ap, ◌∙◌, arith, bit_and,
}
use bobliu_os.Base.Bits.{bit_and_high, bit_and_low}
use bobliu_os.Word.{u32, not32, align_up, align_down}

pow-add : (j k : ℕ) → 2 ^ (j + k) ≡ 2 ^ j * 2 ^ k
pow-add zero k = rw (add.zero k) (omega arith)
pow-add (suc j) k = rw (add.suc j k, pow-suc, pow-suc, pow-add j k) (grind arith)

pow-mul-pow : (k j : ℕ) → k + j ≡ 32 → 2 ^ k * 2 ^ j ≡ 2 ^ 32
pow-mul-pow k j e = sym (pow-add k j) ∙ ap (λ (t : ℕ). 2 ^ t) e

-- The mask `~(2^k - 1)` is `32 - k` ones above `k` zeros.
mask_shape : (k j : ℕ) → k + j ≡ 32 → not32 (2 ^ k - 1) ≡ (2 ^ j - 1) * 2 ^ k
mask_shape k j e =
    let pos : 1 ≤ 2 ^ k = one-le-pow k 2 (omega arith) in
    let posj : 1 ≤ 2 ^ j = one-le-pow j 2 (omega arith) in
    omega (arith, pow-mul-pow k j e, sub_mul (2 ^ j) (2 ^ k) posj)
  where
    sub_mul : (a b : ℕ) → 1 ≤ a → (a - 1) * b + b ≡ b * a
    sub_mul (suc a) b h = let e : suc a - 1 ≡ a = omega arith in rw e (omega arith)
    sub_mul zero b h = absurd (omega arith)

-- Below `2^32`, rounding down keeps the whole multiples of `2^k`.
mask_eq : (k j x : ℕ) → k + j ≡ 32 → x < 2 ^ 32 → bit_and x (not32 (2 ^ k - 1)) ≡ x / 2 ^ k * 2 ^ k
mask_eq k j x e h =
    let pos : 0 < 2 ^ k = one-le-pow k 2 (omega arith) in
    let fits : x < 2 ^ j * 2 ^ k = omega (arith, pow-mul-pow k j e) in
    let small : x / 2 ^ k < 2 ^ j = (div-lt_iff_lt-mul pos).1 fits in
    rw (
      mask_shape k j e,
      bit_and_high k x (2 ^ j - 1),
      bit_and_low j (x / 2 ^ k),
      mod-eq_of_lt small,
    )

pub align_down_eq : (k j x : ℕ) → k + j ≡ 32 → x < 2 ^ 32 → align_down x (2 ^ k) ≡ x / 2 ^ k * 2 ^ k
unfolding align_down
align_down_eq k j x e h = mask_eq k j x e h

-- Rounding up does the same to `x + (2^k - 1)`, which wraps first.
pub align_up_eq :
    (k j x : ℕ) → k + j ≡ 32 → align_up x (2 ^ k) ≡ u32 (x + (2 ^ k - 1)) / 2 ^ k * 2 ^ k
unfolding align_up
align_up_eq k j x e = mask_eq k j (u32 (x + (2 ^ k - 1))) e (omega arith)

-- The two macros at the frame size.
pub align_down_frame : (x : ℕ) → x < 2 ^ 32 → align_down x 4096 ≡ x / 4096 * 4096
align_down_frame x h = align_down_eq 12 20 x refl h

pub align_up_frame : (x : ℕ) → align_up x 4096 ≡ u32 (x + 4095) / 4096 * 4096
align_up_frame x = align_up_eq 12 20 x refl
