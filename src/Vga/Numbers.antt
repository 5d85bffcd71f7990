-- ===== src/Vga/Numbers.antt =====
-- The numbers of kernel/arch/i386/dev/vga.c, and those of libc/stdio/printf.c.
use bobliu_os.Base.{
  ℕ, zero, suc, ◌+◌, ◌/◌, ◌%◌, ◌^◌, ◌≤◌, ◌<◌, ◌≡◌, refl, sym, ap, ◌∙◌, arith, List, [], ◌∷◌, ◌++◌,
  Bool, false, ◌==◌, Bool-cases, inl, inr,
}
use native.Mathlib.Nat.{pow-suc}
use mathlib.Core.Path.{ap₂}
use bobliu_os.Libc.Printf.Text.{hex_digit, to_base, u64_to_base, print_digits}
use bobliu_os.Vga.{Vga, vga_putc, vga_print, dec_digits, put_reversed, vga_print_dec}

vga_print-append : (s t : List ℕ) (v : Vga) → vga_print (s ++ t) v ≡ vga_print t (vga_print s v)
unfolding vga_print
vga_print-append [] t v = refl
vga_print-append (c ∷ s) t v = vga_print-append s t (vga_putc c v)

put_reversed_lem : (buf : List ℕ) (v : Vga) → put_reversed buf v ≡ vga_print (print_digits buf) v
unfolding put_reversed print_digits vga_print
put_reversed_lem [] v = refl
put_reversed_lem (d ∷ buf) v =
    ap (vga_putc d) (put_reversed_lem buf v) ∙ sym (vga_print-append (print_digits buf) (d ∷ []) v)

to_base-zero : (room : ℕ) (upper : Bool) → to_base room 10 upper 0 ≡ []
unfolding to_base
to_base-zero zero upper = refl
to_base-zero (suc room) upper = refl

decimal_eq : (d : ℕ) (upper : Bool) → d < 10 → b'0' + d ≡ hex_digit upper d
decimal_eq d upper h = ground arith

dec_digits_lem :
    (room n x : ℕ) (upper : Bool)
    → room ≤ n
    → x < 10 ^ room
    → dec_digits room x ≡ to_base n 10 upper x
unfolding dec_digits to_base
dec_digits_lem zero n x upper fits h =
    let nothing : x ≡ 0 = omega (arith, h) in
    sym (ap (to_base n 10 upper) nothing ∙ to_base-zero n upper)
dec_digits_lem (suc room) zero x upper fits h = absurd (omega arith)
dec_digits_lem (suc room) (suc n) x upper fits h = elim (Bool-cases (x == 0)) [
  | inl e ↦ rw e refl
  | inr e ↦ rw e (
      ap₂ (λ d ds. d ∷ ds) (decimal_eq (x % 10) upper (omega arith))
        (dec_digits_lem room n (x / 10) upper (omega arith) (omega (arith, pow-suc 10 room))))
]

-- `vga_print_dec` prints a 32-bit number with the same digits as `printf`: those of `u64_to_base`, in the
-- order in which `printf` puts them out.
pub vga_print_dec-u64_to_base :
    (x : ℕ) (v : Vga)
    → x < 2 ^ 32
    → vga_print_dec x v ≡ vga_print (print_digits (u64_to_base 10 false x)) v
unfolding vga_print_dec u64_to_base vga_print print_digits
vga_print_dec-u64_to_base x v h = elim (Bool-cases (x == 0)) [
  | inl e ↦ rw e refl
  | inr e ↦ rw e (
      put_reversed_lem (dec_digits 11 x) v
      ∙ ap (λ ds. vga_print (print_digits ds) v)
          (dec_digits_lem 11 64 x false (omega arith) (omega arith)))
]
