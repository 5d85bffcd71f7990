-- ===== src/Libc/Printf/Field.antt =====
-- The fields of libc/stdio/printf.c: the layout of the signed and the unsigned conversions.
use bobliu_os.Base.{
  ℕ, ◌+◌, ◌-◌, ◌≤◌, ◌≡◌, refl, sym, ap, ◌∙◌, arith, List, [], ◌∷◌, ◌++◌, Bool, true, false,
  if◌then◌else◌, not, ◌&&◌, max, ltb, Option, none, some, length, Bool-cases, inl, inr, append-nil,
  append_assoc, length-append, length-replicate, length-take, take,
}
use mathlib.Core.Path.{ap₂}
use bobliu_os.Libc.Printf.Text.{
  Fmt, u64_to_base, print_digits, pad, precision, padding, pads_zeros, magnitude, sign_text,
  print_signed, prefix_text, counted_digits, print_unsigned, string_of, string_length, print_string,
}

-- The digits with the leading zeros that the precision asks for.
abbrev pub body : Fmt → List ℕ → List ℕ
body f tmp = pad (precision f.prec (length tmp) - length tmp) b'0' ++ print_digits tmp

abbrev pub gap : Fmt → List ℕ → List ℕ → ℕ
gap f prefix tmp = f.width - (length prefix + precision f.prec (length tmp))

-- A field: what fills it up stands behind the number, between its sign and its digits, or before it.
unfoldable pub field : Fmt → List ℕ → List ℕ → List ℕ
field f prefix tmp =
    if f.left
    then prefix ++ (body f tmp ++ pad (gap f prefix tmp) b' ')
    else if pads_zeros f
    then prefix ++ (pad (gap f prefix tmp) b'0' ++ body f tmp)
    else pad (gap f prefix tmp) b' ' ++ (prefix ++ body f tmp)

pad-length : (n c : ℕ) → length (pad n c) ≡ n
pad-length n c = length-replicate n c

padding_eq : (w t : ℕ) → padding w t ≡ w - t
padding_eq w t = ground arith

zeros_eq : (p n : ℕ) → (if ltb n p then pad (p - n) b'0' else []) ≡ pad (p - n) b'0'
zeros_eq p n = elim (Bool-cases (ltb n p)) [
  | inl e ↦ rw e refl
  | inr e ↦ let nothing : p - n ≡ 0 = ground (arith, e) in rw (e, nothing) refl
]

-- The parts of `print_signed` and of `print_unsigned`, in the order in which they are printed.
abbrev signed_parts : Bool → Bool → ℕ → List ℕ → List ℕ → List ℕ → List ℕ
signed_parts left zeros g prefix lead digits =
    (if not left && not zeros then pad g b' ' else [])
    ++ (prefix
        ++ ((if not left && zeros then pad g b'0' else [])
            ++ (lead ++ (digits ++ (if left then pad g b' ' else [])))))

abbrev unsigned_parts : Bool → Bool → ℕ → List ℕ → List ℕ → List ℕ → List ℕ
unsigned_parts left zeros g prefix lead digits =
    (if not left && not zeros then pad g b' ' else [])
    ++ ((if zeros then prefix else [])
        ++ ((if not left && zeros then pad g b'0' else [])
            ++ ((if zeros then [] else prefix)
                ++ (lead ++ (digits ++ (if left then pad g b' ' else []))))))

abbrev arranged : Bool → Bool → ℕ → List ℕ → List ℕ → List ℕ
arranged left zeros g prefix whole =
    if left
    then prefix ++ (whole ++ pad g b' ')
    else if zeros
    then prefix ++ (pad g b'0' ++ whole)
    else pad g b' ' ++ (prefix ++ whole)

signed_parts_lem :
    (left zeros : Bool) (g : ℕ) (prefix lead digits : List ℕ)
    → signed_parts left zeros g prefix lead digits ≡ arranged left zeros g prefix (lead ++ digits)
signed_parts_lem true zeros g prefix lead digits =
    ap (λ t. prefix ++ t) (sym (append_assoc lead digits (pad g b' ')))
signed_parts_lem false true g prefix lead digits =
    ap (λ t. prefix ++ (pad g b'0' ++ (lead ++ t))) (append-nil digits)
signed_parts_lem false false g prefix lead digits =
    ap (λ t. pad g b' ' ++ (prefix ++ (lead ++ t))) (append-nil digits)

unsigned_parts_lem :
    (left zeros : Bool) (g : ℕ) (prefix lead digits : List ℕ)
    → unsigned_parts left zeros g prefix lead digits ≡ arranged left zeros g prefix (lead ++ digits)
unsigned_parts_lem true true g prefix lead digits =
    ap (λ t. prefix ++ t) (sym (append_assoc lead digits (pad g b' ')))
unsigned_parts_lem true false g prefix lead digits =
    ap (λ t. prefix ++ t) (sym (append_assoc lead digits (pad g b' ')))
unsigned_parts_lem false true g prefix lead digits =
    ap (λ t. prefix ++ (pad g b'0' ++ (lead ++ t))) (append-nil digits)
unsigned_parts_lem false false g prefix lead digits =
    ap (λ t. pad g b' ' ++ (prefix ++ (lead ++ t))) (append-nil digits)

print_signed-field :
    (f : Fmt) (val : ℕ)
    → print_signed f val ≡ field f (sign_text f val) (u64_to_base 10 false (magnitude val))
unfolding print_signed field
print_signed-field f val =
    let tmp = u64_to_base 10 false (magnitude val) in
    let sign = sign_text f val in
    let need = precision f.prec (length tmp) in
    ap₂ (λ g lead. signed_parts f.left (pads_zeros f) g sign lead (print_digits tmp))
      (padding_eq f.width (need + length sign) ∙ omega arith) (zeros_eq need (length tmp))
    ∙ signed_parts_lem f.left (pads_zeros f) (gap f sign tmp) sign (pad (need - length tmp) b'0')
        (print_digits tmp)

print_unsigned-field :
    (f : Fmt) (val base : ℕ) (alt_prefix : Bool)
    → print_unsigned f val base alt_prefix
      ≡ field f (prefix_text f val base alt_prefix) (counted_digits f val base)
unfolding print_unsigned field
print_unsigned-field f val base alt_prefix =
    let tmp = counted_digits f val base in
    let prefix = prefix_text f val base alt_prefix in
    let need = precision f.prec (length tmp) in
    ap₂ (λ g lead. unsigned_parts f.left (pads_zeros f) g prefix lead (print_digits tmp))
      (padding_eq f.width (length prefix + need)) (zeros_eq need (length tmp))
    ∙ unsigned_parts_lem f.left (pads_zeros f) (gap f prefix tmp) prefix
        (pad (need - length tmp) b'0') (print_digits tmp)

-- `print_signed` and `print_unsigned` lay their numbers out alike: the sign or the prefix and the
-- digits of the magnitude or of the value are one field.
pub printed_field :
    (f : Fmt) (val base : ℕ) (alt_prefix : Bool)
    → (print_signed f val ≡ field f (sign_text f val) (u64_to_base 10 false (magnitude val)))
      × (print_unsigned f val base alt_prefix
          ≡ field f (prefix_text f val base alt_prefix) (counted_digits f val base))
printed_field f val base alt_prefix =
    (print_signed-field f val, print_unsigned-field f val base alt_prefix)

print_digits-length : (tmp : List ℕ) → length (print_digits tmp) ≡ length tmp
unfolding print_digits
print_digits-length [] = refl
print_digits-length (d ∷ tmp) =
    length-append (print_digits tmp) (d ∷ []) ∙ omega (arith, print_digits-length tmp)

precision_at_least : (p : Option ℕ) (n : ℕ) → n ≤ precision p n
precision_at_least none n = omega arith
precision_at_least (some p) n = ground arith

body-length : (f : Fmt) (tmp : List ℕ) → length (body f tmp) ≡ precision f.prec (length tmp)
body-length f tmp =
    let zeros = precision f.prec (length tmp) - length tmp in
    omega (
      arith,
      length-append (pad zeros b'0') (print_digits tmp),
      pad-length zeros b'0',
      print_digits-length tmp,
      precision_at_least f.prec (length tmp),
    )

arranged-length :
    (left zeros : Bool) (g : ℕ) (prefix whole : List ℕ)
    → length (arranged left zeros g prefix whole) ≡ g + (length prefix + length whole)
arranged-length true zeros g prefix whole = omega (
  arith,
  length-append prefix (whole ++ pad g b' '),
  length-append whole (pad g b' '),
  pad-length g b' ',
)
arranged-length false true g prefix whole = omega (
  arith,
  length-append prefix (pad g b'0' ++ whole),
  length-append (pad g b'0') whole,
  pad-length g b'0',
)
arranged-length false false g prefix whole = omega (
  arith,
  length-append (pad g b' ') (prefix ++ whole),
  length-append prefix whole,
  pad-length g b' ',
)

-- A field is as wide as it is asked to be, or as wide as its number with the leading zeros of the
-- precision when that is more: nothing of a number is cut off.
pub field-length :
    (f : Fmt) (prefix tmp : List ℕ)
    → length (field f prefix tmp) ≡ max f.width (length prefix + precision f.prec (length tmp))
unfolding field
field-length f prefix tmp = omega (
  arith,
  arranged-length f.left (pads_zeros f) (gap f prefix tmp) prefix (body f tmp),
  body-length f tmp,
)

-- A number that `print_signed` or `print_unsigned` prints is as wide as the width asked for, or as its
-- sign or prefix and its digits, with the leading zeros of the precision, when they are more: nothing
-- of a number is cut off, and no more is filled up than the width asks for.
pub number_width :
    (f : Fmt) (val base : ℕ) (alt_prefix : Bool)
    → (length (print_signed f val)
        ≡ max f.width (
            length (sign_text f val)
            + precision f.prec (length (u64_to_base 10 false (magnitude val)))))
      × (length (print_unsigned f val base alt_prefix)
          ≡ max f.width (
              length (prefix_text f val base alt_prefix)
              + precision f.prec (length (counted_digits f val base))))
number_width f val base alt_prefix =
    let printed = printed_field f val base alt_prefix in
    (
      ap length printed.0 ∙ field-length f (sign_text f val) (u64_to_base 10 false (magnitude val)),
      ap length printed.1
          ∙ field-length f (prefix_text f val base alt_prefix) (counted_digits f val base),
    )

string_length_eq : (p : Option ℕ) (n : ℕ) → string_length p n ≤ n
string_length_eq none n = omega arith
string_length_eq (some p) n = ground arith

-- `%s` prints a field of the width asked for, or of the string's length, cut to the precision.
pub print_string-length :
    (f : Fmt) (s : Option (List ℕ))
    → length (print_string f s) ≡ max f.width (string_length f.prec (length (string_of s)))
unfolding print_string
print_string-length f s =
    go f.left f.width (string_length f.prec (length t)) (string_length_eq f.prec (length t))
  where
    t : List ℕ
    t = string_of s

    go :
        (left : Bool) (w n : ℕ)
        → n ≤ length t
        → length (
            (if left then [] else pad (padding w n) b' ')
            ++ (take n t ++ (if left then pad (padding w n) b' ' else [])))
          ≡ max w n
    go true w n h = omega (
      arith,
      padding_eq w n,
      length-append (take n t) (pad (padding w n) b' '),
      length-take n t,
      pad-length (padding w n) b' ',
    )
    go false w n h = omega (
      arith,
      padding_eq w n,
      length-append (pad (padding w n) b' ') (take n t ++ []),
      length-append (take n t) [],
      length-take n t,
      pad-length (padding w n) b' ',
    )
