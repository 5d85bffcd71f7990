-- ===== src/Libc/Printf/Text.antt =====
-- `u64_to_base`, `pad`, `print_signed`, `print_unsigned` and `print_string` of libc/stdio/printf.c:
-- the text that each prints.
use bobliu_os.Base.{
  ℕ, zero, suc, ◌+◌, ◌-◌, ◌/◌, ◌%◌, ◌^◌, List, [], ◌∷◌, ◌++◌, Bool, true, false, ◌&&◌, not,
  if◌then◌else◌, ltb, leb, ◌==◌, Option, none, some, length, take, replicate,
}

-- `f.len`
pub data Length : Type 0 where
  len_none : Length
  len_l : Length
  len_ll : Length

-- `prec` is none where the code has -1.
pub record Fmt : Type 0 where
  pub left : Bool
  pub zero_flag : Bool
  pub plus : Bool
  pub space : Bool
  pub alt : Bool
  pub width : ℕ
  pub prec : Option ℕ
  pub len : Length
  pub upper : Bool

abbrev pub hex_digit : Bool → ℕ → ℕ
hex_digit upper d = if ltb d 10 then b'0' + d else (if upper then b'A' else b'a') + d - 10

-- The loop of `u64_to_base`: the last digit comes first, as far as `room` goes.
unfoldable pub to_base : ℕ → ℕ → Bool → ℕ → List ℕ
to_base zero base upper v = []
to_base (suc room) base upper v =
    let more = to_base room base upper (v / base) in
    if v == 0 then [] else hex_digit upper (v % base) ∷ more

unfoldable pub u64_to_base : ℕ → Bool → ℕ → List ℕ
u64_to_base base upper v = if v == 0 then b'0' ∷ [] else to_base 64 base upper v

abbrev pub pad : ℕ → ℕ → List ℕ
pad count padch = replicate count padch

-- The loop that prints `tmp` from its end.
unfoldable pub print_digits : List ℕ → List ℕ
print_digits [] = []
print_digits (d ∷ rev) = print_digits rev ++ (d ∷ [])

abbrev pub precision : Option ℕ → ℕ → ℕ
precision none ndigits = ndigits
precision (some p) ndigits = if ltb ndigits p then p else ndigits

abbrev pub is_none : Option ℕ → Bool
is_none none = true
is_none (some p) = false

abbrev pub is_zero_prec : Option ℕ → Bool
is_zero_prec none = false
is_zero_prec (some p) = p == 0

abbrev pub padding : ℕ → ℕ → ℕ
padding width total = if ltb total width then width - total else 0

abbrev pub pads_zeros : Fmt → Bool
pads_zeros f = not f.left && (f.zero_flag && is_none f.prec)

-- `mag`, of the 64-bit word that holds the number.
abbrev pub magnitude : ℕ → ℕ
magnitude val = if leb (2 ^ 63) val then 2 ^ 64 - (val + 1) + 1 else val

abbrev pub sign_text : Fmt → ℕ → List ℕ
sign_text f val =
    if leb (2 ^ 63) val
    then b'-' ∷ []
    else if f.plus
    then b'+' ∷ []
    else if f.space
    then b' ' ∷ []
    else []

unfoldable pub print_signed : Fmt → ℕ → List ℕ
print_signed f val =
    let tmp = u64_to_base 10 false (magnitude val) in
    let ndigits = length tmp in
    let need_digits = precision f.prec ndigits in
    let sign = sign_text f val in
    let padcount = padding f.width (need_digits + length sign) in
    (if not f.left && not (pads_zeros f) then pad padcount b' ' else [])
    ++ (sign
        ++ ((if not f.left && pads_zeros f then pad padcount b'0' else [])
            ++ ((if ltb ndigits need_digits then pad (need_digits - ndigits) b'0' else [])
                ++ (print_digits tmp ++ (if f.left then pad padcount b' ' else [])))))

abbrev pub prefix_text : Fmt → ℕ → ℕ → Bool → List ℕ
prefix_text f val base alt_prefix =
    if alt_prefix && (f.alt && not (val == 0))
    then if base == 16 then b'0' ∷ (if f.upper then b'X' else b'x') ∷ [] else []
    else []

-- The digits that count: none for the value 0 with precision 0.
abbrev pub counted_digits : Fmt → ℕ → ℕ → List ℕ
counted_digits f val base =
    if is_zero_prec f.prec && (val == 0) then [] else u64_to_base base f.upper val

unfoldable pub print_unsigned : Fmt → ℕ → ℕ → Bool → List ℕ
print_unsigned f val base alt_prefix =
    let tmp = counted_digits f val base in
    let ndigits = length tmp in
    let need_digits = precision f.prec ndigits in
    let prefix = prefix_text f val base alt_prefix in
    let padcount = padding f.width (length prefix + need_digits) in
    (if not f.left && not (pads_zeros f) then pad padcount b' ' else [])
    ++ ((if pads_zeros f then prefix else [])
        ++ ((if not f.left && pads_zeros f then pad padcount b'0' else [])
            ++ ((if pads_zeros f then [] else prefix)
                ++ ((if ltb ndigits need_digits then pad (need_digits - ndigits) b'0' else [])
                    ++ (print_digits tmp ++ (if f.left then pad padcount b' ' else []))))))

abbrev pub string_of : Option (List ℕ) → List ℕ
string_of none = b'(' ∷ b'n' ∷ b'u' ∷ b'l' ∷ b'l' ∷ b')' ∷ []
string_of (some s) = s

abbrev pub string_length : Option ℕ → ℕ → ℕ
string_length none len = len
string_length (some p) len = if ltb p len then p else len

-- Of a string of less than 2^31 characters.
unfoldable pub print_string : Fmt → Option (List ℕ) → List ℕ
print_string f given =
    let s = string_of given in
    let len = string_length f.prec (length s) in
    let padcount = padding f.width len in
    (if f.left then [] else pad padcount b' ')
    ++ (take len s ++ (if f.left then pad padcount b' ' else []))
