-- ===== src/Libc/Printf/Digits.antt =====
-- The digits of libc/stdio/printf.c: `u64_to_base` writes them, `parse_int` reads them.
use bobliu_os.Base.{
  ltb, ℕ, zero, suc, ◌+◌, ◌-◌, ◌*◌, ◌/◌, ◌%◌, ◌^◌, ◌≤◌, ◌<◌, ◌≡◌, refl, sym, ap, ◌∙◌, arith, List,
  [], ◌∷◌, ◌++◌, Bool, true, false, ◌==◌, length, Bool-cases, inl, inr, subst,
}
use native.Mathlib.Nat.{pow-suc, pow-zero, div-lt_iff_lt-mul}
use bobliu_os.Libc.Printf.Text.{hex_digit, to_base, u64_to_base, print_digits}
use bobliu_os.Libc.Printf.Parse.{is_digit, capped, parse_digits, parse_int}

parse_digits-digit :
    (v x : ℕ) (s : List ℕ)
    → is_digit x ≡ true
    → parse_digits v (x ∷ s) ≡ parse_digits (capped (v * 10 + (x - b'0'))) s
unfolding parse_digits
parse_digits-digit v x s h = rw h refl

parse_digits-other :
    (v x : ℕ) (s : List ℕ) → is_digit x ≡ false → parse_digits v (x ∷ s) ≡ (v, x ∷ s)
unfolding parse_digits
parse_digits-other v x s h = rw h refl

parse_digits-empty : (a : ℕ) → parse_digits a [] ≡ (a, [])
unfolding parse_digits
parse_digits-empty a = refl

-- What stands behind a text of digits is read next.
parse_digits-append :
    (s t : List ℕ) (v n : ℕ)
    → parse_digits v s ≡ (n, [])
    → parse_digits v (s ++ t) ≡ parse_digits n t
parse_digits-append [] t v n e = ap (λ p. parse_digits p.0 t) (sym (parse_digits-empty v) ∙ e)
parse_digits-append (x ∷ s) t v n e = elim (Bool-cases (is_digit x)) [
  | inl y ↦
      parse_digits-digit v x (s ++ t) y
      ∙ parse_digits-append s t (capped (v * 10 + (x - b'0'))) n
          (sym (parse_digits-digit v x s y) ∙ e)
  | inr y ↦
      let more : suc (length s) ≡ 0 = ap (λ p. length p.1) (sym (parse_digits-other v x s y) ∙ e) in
      absurd (omega arith)
]

decimal_digit :
    (upper : Bool) (d : ℕ)
    → d < 10
    → (is_digit (hex_digit upper d) ≡ true) × (hex_digit upper d - b'0' ≡ d)
decimal_digit upper d h = (ground arith, ground arith)

to_base_step :
    (room base v : ℕ) (upper : Bool)
    → (v == 0) ≡ false
    → to_base (suc room) base upper v
      ≡ hex_digit upper (v % base) ∷ to_base room base upper (v / base)
unfolding to_base
to_base_step room base v upper h = rw h refl

to_base_zero :
    (room base v : ℕ) (upper : Bool) → (v == 0) ≡ true → to_base (suc room) base upper v ≡ []
unfolding to_base
to_base_zero room base v upper h = rw h refl

-- The last digit of a text of digits.
parse_last :
    (s : List ℕ) (d n : ℕ) (upper : Bool)
    → d < 10
    → n * 10 + d < 2 ^ 31
    → parse_digits 0 s ≡ (n, [])
    → parse_digits 0 (s ++ (hex_digit upper d ∷ [])) ≡ (n * 10 + d, [])
parse_last s d n upper h small e =
    let is = decimal_digit upper d h in
    let room : ltb (n * 10 + d) (2 ^ 31) ≡ true = ground (arith, small) in
    parse_digits-append s (hex_digit upper d ∷ []) 0 n e
    ∙ parse_digits-digit n (hex_digit upper d) [] is.0
    ∙ parse_digits-empty (capped (n * 10 + (hex_digit upper d - b'0')))
    ∙ ap (λ k. (capped (n * 10 + k), [])) is.1
    ∙ rw room refl

to_base_read :
    (room v : ℕ) (upper : Bool)
    → v < 2 ^ room
    → v < 2 ^ 31
    → parse_digits 0 (print_digits (to_base room 10 upper v)) ≡ (v, [])
unfolding print_digits parse_digits to_base
to_base_read zero v upper h small = ap (λ n. (n, [])) (omega arith)
to_base_read (suc room) v upper h small =
    let half : v / 10 < 2 ^ room = omega (arith, pow-suc 2 room) in
    elim (Bool-cases (v == 0)) [
      | inl e ↦ rw (to_base_zero room 10 v upper e) (ap (λ n. (n, [])) (ground arith))
      | inr e ↦ rw (to_base_step room 10 v upper e) (
          parse_last (print_digits (to_base room 10 upper (v / 10))) (v % 10) (v / 10) upper
            (omega arith) (omega (arith, small))
            (to_base_read room (v / 10) upper half (omega (arith, small)))
          ∙ ap (λ n. (n, [])) (omega arith))
    ]

zero_read : parse_digits 0 (print_digits (b'0' ∷ [])) ≡ (0, [])
unfolding parse_digits print_digits
zero_read = refl

-- `parse_int` reads back the number, of those that an `int` holds, whose decimal digits `u64_to_base` writes, when they are printed
-- in the order that the printing loops use, and nothing is left of them.
pub parse_int-u64_to_base :
    (v : ℕ) (upper : Bool)
    → v < 2 ^ 31
    → parse_int (print_digits (u64_to_base 10 upper v)) ≡ (v, [])
unfolding u64_to_base
parse_int-u64_to_base v upper h = elim (Bool-cases (v == 0)) [
  | inl e ↦ rw e (zero_read ∙ ap (λ n. (n, [])) (ground arith))
  | inr e ↦ rw e (to_base_read 64 v upper (omega (arith, h)) h)
]

to_base-length :
    (room k base v : ℕ) (upper : Bool)
    → 2 ≤ base
    → v < base ^ k
    → length (to_base room base upper v) ≤ k
unfolding to_base
to_base-length zero k base v upper hb h = omega arith
to_base-length (suc room) zero base v upper hb h =
    let nothing : v ≡ 0 = omega (arith, pow-zero base) in rw nothing (omega arith)
to_base-length (suc room) (suc k) base v upper hb h =
    let small : v < base ^ k * base = subst (λ n. v < n) (pow-suc base k) h in
    let quotient : v / base < base ^ k = (div-lt_iff_lt-mul (omega arith)).1 small in
    let more = to_base-length room k base (v / base) upper hb quotient in ground arith

-- The digits of a 64-bit number fit the array that they are written to: 20 decimal digits the 32
-- bytes of `print_signed`, and 20 decimal or 16 hexadecimal digits the 64 bytes of `print_unsigned`.
pub u64_to_base-length :
    (v : ℕ) (upper : Bool)
    → v < 2 ^ 64
    → (length (u64_to_base 10 upper v) ≤ 20) × (length (u64_to_base 16 upper v) ≤ 16)
unfolding u64_to_base
u64_to_base-length v upper h = elim (Bool-cases (v == 0)) [
  | inl e ↦ rw e (omega arith, omega arith)
  | inr e ↦ rw e (
    to_base-length 64 20 10 v upper (omega arith) (omega arith),
    to_base-length 64 16 16 v upper (omega arith) (omega arith),
  )
]
