-- ===== src/Base/Bits.antt =====
-- `&` and `|` of C on unsigned numbers, as arithmetic, at every width.
use Prim.Native.Nat.{
  ℕ, zero, suc, ◌+◌, ◌-◌, ◌*◌, ◌/◌, ◌%◌, ◌^◌, ◌≤◌, ◌<◌, min, max, digits, bitwise, bit_and, bit_or,
  bit_and-bitwise, bit_or-bitwise,
}
use mathlib.Core.Path.{◌≡◌, refl, sym, ap, ap₂, ◌∙◌}
use mathlib.Core.Bool.{Bool, true, ◌&&◌}
use native.Mathlib.Nat.{pow-suc, one-le-pow, mod-lt, div-add-mod'}
use native.Mathlib.Omega.{arith}

-- Both operations mean a recursion on binary digits with fuel; any fuel from the number on serves.
module _ (z : ℕ → ℕ) (op : ℕ → ℕ → ℕ) where
  digits_same : (f g a b : ℕ) → a ≤ f → a ≤ g → digits z op f a b ≡ digits z op g a b
  digits_same zero zero a b p q = refl
  digits_same zero (suc g) zero b p q = refl
  digits_same zero (suc g) (suc a) b p q = absurd (omega arith)
  digits_same (suc f) zero zero b p q = refl
  digits_same (suc f) zero (suc a) b p q = absurd (omega arith)
  digits_same (suc f) (suc g) zero b p q = refl
  digits_same (suc f) (suc g) (suc a) b p q =
      rw (digits_same f g (suc a / 2) (b / 2) (omega arith) (omega arith))

  bitwise_unroll :
      (a b : ℕ)
      → bitwise z op (suc a) b ≡ bitwise z op (suc a / 2) (b / 2) * 2 + op (suc a % 2) (b % 2)
  bitwise_unroll a b =
      omega (arith, digits_same a (suc a / 2) (suc a / 2) (b / 2) (omega arith) (omega arith))

pub bit_or_unroll : (a b : ℕ) → bit_or a b ≡ bit_or (a / 2) (b / 2) * 2 + max (a % 2) (b % 2)
bit_or_unroll zero b = simp bit_or-bitwise (omega arith)
bit_or_unroll (suc a) b = simp bit_or-bitwise (bitwise_unroll (λ y. y) max a b)

pub bit_and_unroll : (a b : ℕ) → bit_and a b ≡ bit_and (a / 2) (b / 2) * 2 + min (a % 2) (b % 2)
bit_and_unroll zero b = simp bit_and-bitwise (omega arith)
bit_and_unroll (suc a) b = simp bit_and-bitwise (bitwise_unroll (λ y. 0) min a b)

-- Laws by induction on a bound for both numbers.
bit_and_zero_upto : (n a : ℕ) → a ≤ n → bit_and a 0 ≡ 0
bit_and_zero_upto n zero h = refl
bit_and_zero_upto zero (suc a) h = absurd (omega arith)
bit_and_zero_upto (suc n) (suc a) h =
    omega (arith, bit_and_unroll (suc a) 0, bit_and_zero_upto n (suc a / 2) (omega arith))

pub bit_and-zero : (a : ℕ) → bit_and a 0 ≡ 0
bit_and-zero a = bit_and_zero_upto a a (omega arith)

bit_or_zero_upto : (n a : ℕ) → a ≤ n → bit_or a 0 ≡ a
bit_or_zero_upto n zero h = refl
bit_or_zero_upto zero (suc a) h = absurd (omega arith)
bit_or_zero_upto (suc n) (suc a) h =
    omega (arith, bit_or_unroll (suc a) 0, bit_or_zero_upto n (suc a / 2) (omega arith))

pub bit_or-zero : (a : ℕ) → bit_or a 0 ≡ a
bit_or-zero a = bit_or_zero_upto a a (omega arith)

-- A step at a digit that is already split off.
double_step :
    (a b c d : ℕ)
    → c < 2
    → d < 2
    → (bit_or (2 * a + c) (2 * b + d) ≡ 2 * bit_or a b + max c d)
      × (bit_and (2 * a + c) (2 * b + d) ≡ 2 * bit_and a b + min c d)
double_step a b c d hc hd =
    let a2 : (2 * a + c) / 2 ≡ a = omega arith in
    let b2 : (2 * b + d) / 2 ≡ b = omega arith in
    let a1 : (2 * a + c) % 2 ≡ c = omega arith in
    let b1 : (2 * b + d) % 2 ≡ d = omega arith in
    (
      rw (bit_or_unroll (2 * a + c), a2, b2, a1, b1) (omega arith),
      rw (bit_and_unroll (2 * a + c), a2, b2, a1, b1) (omega arith),
    )

pub shift_suc : (n w : ℕ) → n * 2 ^ suc w ≡ 2 * (n * 2 ^ w)
shift_suc n w = let twice : 2 ^ suc w ≡ 2 ^ w * 2 = pow-suc 2 w in rw twice (grind arith)

-- A high and a low field are combined apart.
pub bit_or_split :
    (k q p r s : ℕ)
    → r < 2 ^ k
    → s < 2 ^ k
    → bit_or (q * 2 ^ k + r) (p * 2 ^ k + s) ≡ bit_or q p * 2 ^ k + bit_or r s
bit_or_split zero q p r s hr hs =
    let er : r ≡ 0 = omega arith in
    let es : s ≡ 0 = omega arith in
    let eq : q * 2 ^ 0 + 0 ≡ q = omega arith in
    let ep : p * 2 ^ 0 + 0 ≡ p = omega arith in rw (er, es, eq, ep) (omega arith)
bit_or_split (suc k) q p r s hr hs =
    let bound : 2 ^ suc k ≡ 2 ^ k * 2 = pow-suc 2 k in
    let ea : q * 2 ^ suc k + r ≡ 2 * (q * 2 ^ k + r / 2) + r % 2 = omega (arith, shift_suc q k) in
    let eb : p * 2 ^ suc k + s ≡ 2 * (p * 2 ^ k + s / 2) + s % 2 = omega (arith, shift_suc p k) in
    let high =
      (double_step (q * 2 ^ k + r / 2) (p * 2 ^ k + s / 2) (r % 2) (s % 2) (omega arith)
        (omega arith)).0 in
    let ih = bit_or_split k q p (r / 2) (s / 2) (omega arith) (omega arith) in
    rw (ea, eb, high) (omega (arith, ih, bit_or_unroll r s, shift_suc (bit_or q p) k))

pub bit_and_split :
    (k q p r s : ℕ)
    → r < 2 ^ k
    → s < 2 ^ k
    → bit_and (q * 2 ^ k + r) (p * 2 ^ k + s) ≡ bit_and q p * 2 ^ k + bit_and r s
bit_and_split zero q p r s hr hs =
    let er : r ≡ 0 = omega arith in
    let es : s ≡ 0 = omega arith in
    let eq : q * 2 ^ 0 + 0 ≡ q = omega arith in
    let ep : p * 2 ^ 0 + 0 ≡ p = omega arith in rw (er, es, eq, ep) (omega (arith, bit_and-zero 0))
bit_and_split (suc k) q p r s hr hs =
    let bound : 2 ^ suc k ≡ 2 ^ k * 2 = pow-suc 2 k in
    let ea : q * 2 ^ suc k + r ≡ 2 * (q * 2 ^ k + r / 2) + r % 2 = omega (arith, shift_suc q k) in
    let eb : p * 2 ^ suc k + s ≡ 2 * (p * 2 ^ k + s / 2) + s % 2 = omega (arith, shift_suc p k) in
    let high =
      (double_step (q * 2 ^ k + r / 2) (p * 2 ^ k + s / 2) (r % 2) (s % 2) (omega arith)
        (omega arith)).1 in
    let ih = bit_and_split k q p (r / 2) (s / 2) (omega arith) (omega arith) in
    rw (ea, eb, high) (omega (arith, ih, bit_and_unroll r s, shift_suc (bit_and q p) k))

pub mod_unique : (q r n : ℕ) → r < n → (q * n + r) % n ≡ r
mod_unique q r n h = grind arith

-- `a & (2^k - 1)` is the remainder.
pub bit_and_low : (k a : ℕ) → bit_and a (2 ^ k - 1) ≡ a % 2 ^ k
bit_and_low zero a = omega (arith, bit_and-zero a)
bit_and_low (suc k) a =
    let bound : 2 ^ suc k ≡ 2 ^ k * 2 = pow-suc 2 k in
    let pos : 1 ≤ 2 ^ k = one-le-pow k 2 (omega arith) in
    let half : (2 ^ suc k - 1) / 2 ≡ 2 ^ k - 1 = omega arith in
    let odd : (2 ^ suc k - 1) % 2 ≡ 1 = omega arith in
    let low : a / 2 % 2 ^ k < 2 ^ k = mod-lt (a / 2) (omega arith) in
    let small : a / 2 % 2 ^ k * 2 + min (a % 2) 1 < 2 ^ k * 2 = omega arith in
    let shape : a ≡ a / 2 / 2 ^ k * (2 ^ k * 2) + (a / 2 % 2 ^ k * 2 + min (a % 2) 1) =
      omega (arith, div-add-mod' (a / 2) (2 ^ k)) in
    rw (bit_and_unroll, half, odd, bit_and_low k (a / 2), bound)
      (sym (ap (λ (t : ℕ). t % (2 ^ k * 2)) shape ∙ mod_unique (a / 2 / 2 ^ k) _ (2 ^ k * 2) small))

-- `x | y` stays below a power of two that bounds both.
pub bit_or-lt : (k a b : ℕ) → a < 2 ^ k → b < 2 ^ k → bit_or a b < 2 ^ k
bit_or-lt zero a b ha hb =
    let ea : a ≡ 0 = omega arith in
    let eb : b ≡ 0 = omega arith in rw (ea, eb) (omega (arith, bit_or-zero 0))
bit_or-lt (suc k) a b ha hb =
    let bound : 2 ^ suc k ≡ 2 ^ k * 2 = pow-suc 2 k in
    omega (arith, bit_or_unroll a b, bit_or-lt k (a / 2) (b / 2) (omega arith) (omega arith))

-- A field put in below a shifted one, which it does not reach, adds to it.
pub bit_or_fields : (w high low : ℕ) → low < 2 ^ w → bit_or (high * 2 ^ w) low ≡ high * 2 ^ w + low
bit_or_fields w high low h =
    ground
      (arith, bit_or_split w high 0 0 low (omega arith) h, bit_or-zero high, bit_or-bitwise 0 low)

-- `a & (m << k)` keeps the bits from `k` on that `m` keeps.
pub bit_and_high : (k a m : ℕ) → bit_and a (m * 2 ^ k) ≡ bit_and (a / 2 ^ k) m * 2 ^ k
bit_and_high k a m =
    let pos : 1 ≤ 2 ^ k = one-le-pow k 2 (omega arith) in
    let low : a % 2 ^ k < 2 ^ k = mod-lt a (omega arith) in
    let whole : a ≡ a / 2 ^ k * 2 ^ k + a % 2 ^ k = sym (div-add-mod' a (2 ^ k)) in
    let none_low : m * 2 ^ k ≡ m * 2 ^ k + 0 = omega arith in
    ap₂ bit_and whole none_low
    ∙ bit_and_split k (a / 2 ^ k) m (a % 2 ^ k) 0 low (omega arith)
    ∙ omega (arith, bit_and-zero (a % 2 ^ k))

-- Every value below a small bound, checked by evaluation.
abbrev pub all_below : ℕ → (ℕ → Bool) → Bool
all_below zero p = true
all_below (suc n) p = p n && all_below n p

pub all_below_sound : (n : ℕ) (p : ℕ → Bool) (x : ℕ) → all_below n p ≡ true → x < n → p x ≡ true
all_below_sound zero p x h lt = absurd (omega arith)
all_below_sound (suc n) p x h lt = ground (arith, all_below_sound n p x)
