-- ===== src/Libc/Printf/Loop.antt =====
-- `printf` of libc/stdio/printf.c: the loop over the format.
use bobliu_os.Base.{
  ℕ, zero, suc, ◌+◌, ◌-◌, ◌%◌, ◌^◌, List, [], ◌∷◌, ◌++◌, true, false, ◌||◌, if◌then◌else◌, leb,
  ◌==◌, Option, none, some, length,
}
use bobliu_os.Libc.Printf.Text.{
  Fmt, Length, len_none, len_l, len_ll, print_signed, print_unsigned, print_string,
}
use bobliu_os.Libc.Printf.Parse.{Parse, VaArg, text, single, double, parse_format}

-- `f`, as it is before the format is parsed
abbrev pub no_fmt : Fmt
no_fmt = record {
  left = false;
  zero_flag = false;
  plus = false;
  space = false;
  alt = false;
  width = 0;
  prec = none;
  len = len_none;
  upper = false;
}

-- One round of the loop: what it prints, what it adds to `written`, and what it leaves.
pub record Round : Type 0 where
  pub printed : List ℕ
  pub counted : ℕ
  pub rest : List ℕ
  pub args : List VaArg

-- The plain text that the format starts with, and what follows it.
unfoldable pub plain_text : List ℕ → List ℕ
plain_text [] = []
plain_text (c ∷ fmt) = let more = plain_text fmt in if c == b'%' then [] else c ∷ more

unfoldable pub after_plain : List ℕ → List ℕ
after_plain [] = []
after_plain (c ∷ fmt) = let more = after_plain fmt in if c == b'%' then c ∷ fmt else more

-- `va_arg(ap, int)` and `va_arg(ap, long)`: the word that a 64-bit integer holds for it
abbrev pub sign_extend : ℕ → ℕ
sign_extend v = if leb (2 ^ 31) v then v + (2 ^ 64 - 2 ^ 32) else v

-- An integer argument of the length asked for, as 64 bits; `k` prints it.
abbrev pub integer_arg : Length → (ℕ → ℕ) → (ℕ → List ℕ) → List VaArg → Option (List ℕ × List VaArg)
integer_arg len_ll extend k (double v ∷ args) = some (k v, args)
integer_arg len_l extend k (single v ∷ args) = some (k (extend v), args)
integer_arg len_none extend k (single v ∷ args) = some (k (extend v), args)
integer_arg len extend k args = none

abbrev pub word_arg : (ℕ → List ℕ) → List VaArg → Option (List ℕ × List VaArg)
word_arg k (single v ∷ args) = some (k v, args)
word_arg k args = none

abbrev pub string_arg : (Option (List ℕ) → List ℕ) → List VaArg → Option (List ℕ × List VaArg)
string_arg k (text t ∷ args) = some (k t, args)
string_arg k args = none

-- `char s[2] = { c, 0 }`
abbrev pub char_string : ℕ → List ℕ
char_string v = if v % 256 == 0 then [] else v % 256 ∷ []

-- The `switch`: what a conversion prints, and the arguments that it leaves; none where C leaves the
-- call undefined.
unfoldable pub conversion : ℕ → Fmt → List VaArg → Option (List ℕ × List VaArg)
conversion spec f args =
    if spec == b'c'
    then word_arg (λ v. print_string f (some (char_string v))) args
    else if spec == b's'
    then string_arg (print_string f) args
    else if (spec == b'd') || (spec == b'i')
    then integer_arg f.len sign_extend (print_signed f) args
    else if spec == b'u'
    then integer_arg f.len (λ v. v) (λ v. print_unsigned f v 10 false) args
    else if spec == b'x'
    then integer_arg f.len (λ v. v) (λ v. print_unsigned f v 16 true) args
    else if spec == b'X'
    then integer_arg f.len (λ v. v) (λ v. print_unsigned (record f { upper = true }) v 16 true) args
    else if spec == b'p'
    then word_arg (λ v. print_unsigned (record f { alt = true }) v 16 true) args
    else some (b'%' ∷ spec ∷ [], args)

abbrev pub convert_round : List ℕ → Option (List ℕ × List VaArg) → Option Round
convert_round rest none = none
convert_round rest (some t) = some (record { printed = t.0; counted = 0; rest = rest; args = t.1 })

-- After a `%` and the flags; `spec` is 0 at the format's end, where the `%` is printed.
abbrev pub parsed_spec : List ℕ → Fmt → List VaArg → Option Round
parsed_spec [] f args = some (record { printed = b'%' ∷ []; counted = 0; rest = []; args = args })
parsed_spec (spec ∷ rest) f args = convert_round rest (conversion spec f args)

abbrev pub parsed_round : Option Parse → Option Round
parsed_round none = none
parsed_round (some p) = parsed_spec p.rest p.fmt p.args

abbrev pub percent_round : List ℕ → List VaArg → Option Round
percent_round [] args = parsed_round (parse_format [] no_fmt args)
percent_round (d ∷ fmt) args =
    if d == b'%'
    then some (record { printed = b'%' ∷ []; counted = 1; rest = fmt; args = args })
    else parsed_round (parse_format (d ∷ fmt) no_fmt args)

unfoldable pub printf_round : ℕ → List ℕ → List VaArg → Option Round
printf_round c fmt args =
    if c == b'%'
    then percent_round fmt args
    else some (record {
      printed = c ∷ plain_text fmt;
      counted = 1 + length (plain_text fmt);
      rest = after_plain fmt;
      args = args;
    })

-- The text that is printed and the number that is returned; a call that C leaves undefined; a
-- loop that has run out of its fuel.
pub data Printed : Type 0 where
  done : List ℕ → ℕ → Printed
  undefined : Printed
  starved : Printed

abbrev pub then_print : List ℕ → ℕ → Printed → Printed
then_print t n (done s w) = done (t ++ s) (n + w)
then_print t n undefined = undefined
then_print t n starved = starved

-- The loop, by rounds: `k` is the rest of it.
abbrev pub after_round : (List ℕ → List VaArg → Printed) → Option Round → Printed
after_round k none = undefined
after_round k (some r) = then_print r.printed r.counted (k r.rest r.args)

unfoldable pub printf_loop : ℕ → List ℕ → List VaArg → Printed
printf_loop fuel [] args = done [] 0
printf_loop zero (c ∷ fmt) args = starved
printf_loop (suc fuel) (c ∷ fmt) args = after_round (printf_loop fuel) (printf_round c fmt args)

-- Every round takes a character of the format at least.
unfoldable pub printf : List ℕ → List VaArg → Printed
printf fmt args = printf_loop (length fmt) fmt args
