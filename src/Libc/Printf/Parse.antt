-- ===== src/Libc/Printf/Parse.antt =====
-- `parse_int` and `parse_format` of libc/stdio/printf.c.
use bobliu_os.Base.{
  ℕ, ◌+◌, ◌-◌, ◌*◌, ◌^◌, List, [], ◌∷◌, Bool, true, ◌&&◌, if◌then◌else◌, ltb, leb, ◌==◌, Option,
  none, some,
}
use bobliu_os.Libc.Printf.Text.{Fmt, len_none, len_l, len_ll}

-- A variable argument: a string, null or not, a machine word, or a `long long`.
pub data VaArg : Type 0 where
  text : Option (List ℕ) → VaArg
  single : ℕ → VaArg
  double : ℕ → VaArg

abbrev pub is_digit : ℕ → Bool
is_digit c = leb b'0' c && leb c b'9'

-- From 2^31 on the `int` overflows, which C leaves undefined: 2^31 stands for all of these.
abbrev pub capped : ℕ → ℕ
capped v = if ltb v (2 ^ 31) then v else 2 ^ 31

-- `v`, read on; the rest of the text.
unfoldable pub parse_digits : ℕ → List ℕ → ℕ × List ℕ
parse_digits v [] = (v, [])
parse_digits v (c ∷ s) =
    let more = parse_digits (capped (v * 10 + (c - b'0'))) s in
    if is_digit c then more else (v, c ∷ s)

abbrev pub parse_int : List ℕ → ℕ × List ℕ
parse_int s = parse_digits 0 s

unfoldable pub parse_flags : List ℕ → Fmt → List ℕ × Fmt
parse_flags [] f = ([], f)
parse_flags (c ∷ s) f =
    let left = parse_flags s (record f { left = true }) in
    let zeros = parse_flags s (record f { zero_flag = true }) in
    let plus = parse_flags s (record f { plus = true }) in
    let space = parse_flags s (record f { space = true }) in
    let alt = parse_flags s (record f { alt = true }) in
    if c == b'-'
    then left
    else if c == b'0'
    then zeros
    else if c == b'+'
    then plus
    else if c == b' '
    then space
    else if c == b'#'
    then alt
    else (c ∷ s, f)

-- What is left of the format and of the arguments, and the conversion read so far.
pub record Parse : Type 0 where
  pub rest : List ℕ
  pub fmt : Fmt
  pub args : List VaArg

-- A width or a precision from here on would overflow the `int` of the field's size.
abbrev pub field_max : ℕ
field_max = 2 ^ 31 - 2

abbrev pub below_max : {A : Type 0} → ℕ → A → Option A
below_max n a = if ltb n field_max then some a else none

abbrev pub is_negative : ℕ → Bool
is_negative w = leb (2 ^ 31) w

abbrev pub negated : ℕ → ℕ
negated w = 2 ^ 32 - w

-- `*` takes the width from the arguments, a negative one for the left.
abbrev pub star_width : List ℕ → Fmt → List VaArg → Option Parse
star_width s f [] = none
star_width s f (text t ∷ args) = none
star_width s f (double v ∷ args) = none
star_width s f (single w ∷ args) =
    if is_negative w
    then below_max (negated w)
        (record { rest = s; fmt = record f { left = true; width = negated w }; args = args })
    else below_max w (record { rest = s; fmt = record f { width = w }; args = args })

abbrev pub parse_width : List ℕ → Fmt → List VaArg → Option Parse
parse_width [] f args = some (record { rest = []; fmt = record f { width = 0 }; args = args })
parse_width (c ∷ s) f args =
    if c == b'*'
    then star_width s f args
    else if is_digit c
    then below_max (parse_int (c ∷ s)).0 (record {
      rest = (parse_int (c ∷ s)).1;
      fmt = record f { width = (parse_int (c ∷ s)).0 };
      args = args;
    })
    else some (record { rest = c ∷ s; fmt = record f { width = 0 }; args = args })

abbrev pub star_prec : List ℕ → Fmt → List VaArg → Option Parse
star_prec s f [] = none
star_prec s f (text t ∷ args) = none
star_prec s f (double v ∷ args) = none
star_prec s f (single p ∷ args) =
    if is_negative p
    then some (record { rest = s; fmt = record f { prec = none }; args = args })
    else below_max p (record { rest = s; fmt = record f { prec = some p }; args = args })

abbrev pub number_prec : List ℕ → Fmt → List VaArg → Option Parse
number_prec s f args =
    below_max (parse_int s).0 (record {
      rest = (parse_int s).1;
      fmt = record f { prec = some (parse_int s).0 };
      args = args;
    })

abbrev pub dot_prec : List ℕ → Fmt → List VaArg → Option Parse
dot_prec [] f args = number_prec [] f args
dot_prec (c ∷ s) f args = if c == b'*' then star_prec s f args else number_prec (c ∷ s) f args

abbrev pub read_prec : List ℕ → Fmt → List VaArg → Option Parse
read_prec [] f args = some (record { rest = []; fmt = record f { prec = none }; args = args })
read_prec (c ∷ s) f args =
    if c == b'.'
    then dot_prec s f args
    else some (record { rest = c ∷ s; fmt = record f { prec = none }; args = args })

abbrev pub parse_prec : Option Parse → Option Parse
parse_prec none = none
parse_prec (some p) = read_prec p.rest p.fmt p.args

abbrev pub second_l : List ℕ → Fmt → List ℕ × Fmt
second_l [] f = ([], record f { len = len_l })
second_l (c ∷ s) f =
    if c == b'l' then (s, record f { len = len_ll }) else (c ∷ s, record f { len = len_l })

abbrev pub read_length : List ℕ → Fmt → List ℕ × Fmt
read_length [] f = ([], record f { len = len_none })
read_length (c ∷ s) f = if c == b'l' then second_l s f else (c ∷ s, record f { len = len_none })

abbrev pub parse_length : Option Parse → Option Parse
parse_length none = none
parse_length (some p) =
    some (record p { rest = (read_length p.rest p.fmt).0; fmt = (read_length p.rest p.fmt).1 })

unfoldable pub parse_format : List ℕ → Fmt → List VaArg → Option Parse
parse_format s f args =
    parse_length (parse_prec (parse_width (parse_flags s f).0 (parse_flags s f).1 args))
