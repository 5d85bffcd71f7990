-- ===== src/Libc/Printf/Rest.antt =====
-- `printf` of libc/stdio/printf.c: what a round leaves of the format.
use bobliu_os.Base.{ℕ, ◌+◌, ◌-◌, ◌*◌, ◌≤◌, arith, List, [], ◌∷◌, true, Option, none, some, length}
use bobliu_os.Libc.Printf.Text.{Fmt}
use bobliu_os.Libc.Printf.Parse.{
  Parse, VaArg, text, single, double, capped, parse_digits, parse_flags, below_max, star_width,
  parse_width, star_prec, number_prec, dot_prec, read_prec, parse_prec, second_l, read_length,
  parse_length, parse_format,
}
use bobliu_os.Libc.Printf.Loop.{
  Round, no_fmt, conversion, convert_round, parsed_spec, parsed_round, percent_round, after_plain,
  printf_round,
}

parse_digits-length : (v : ℕ) (s : List ℕ) → length (parse_digits v s).1 ≤ length s
unfolding parse_digits
parse_digits-length v [] = omega arith
parse_digits-length v (c ∷ s) = ground (arith, parse_digits-length (capped (v * 10 + (c - b'0'))) s)

parse_flags-length : (s : List ℕ) (f : Fmt) → length (parse_flags s f).0 ≤ length s
unfolding parse_flags
parse_flags-length [] f = omega arith
parse_flags-length (c ∷ s) f =
    let left = parse_flags-length s (record f { left = true }) in
    let zeros = parse_flags-length s (record f { zero_flag = true }) in
    let plus = parse_flags-length s (record f { plus = true }) in
    let space = parse_flags-length s (record f { space = true }) in
    let alt = parse_flags-length s (record f { alt = true }) in ground arith

-- What is left of the format, if it could be read.
abbrev rest_length : Option Parse → ℕ
rest_length none = 0
rest_length (some p) = length p.rest

below_max-length : (n : ℕ) (p : Parse) → rest_length (below_max n (p)) ≤ length p.rest
below_max-length n p = ground arith

star_width-length :
    (s : List ℕ) (f : Fmt) (args : List VaArg) → rest_length (star_width s f args) ≤ length s
star_width-length s f [] = omega arith
star_width-length s f (text t ∷ args) = omega arith
star_width-length s f (double v ∷ args) = omega arith
star_width-length s f (single w ∷ args) = ground arith

parse_width-length :
    (s : List ℕ) (f : Fmt) (args : List VaArg) → rest_length (parse_width s f args) ≤ length s
parse_width-length [] f args = omega arith
parse_width-length (c ∷ s) f args =
    let star = star_width-length s f args in
    let digits = parse_digits-length 0 (c ∷ s) in ground arith

star_prec-length :
    (s : List ℕ) (f : Fmt) (args : List VaArg) → rest_length (star_prec s f args) ≤ length s
star_prec-length s f [] = omega arith
star_prec-length s f (text t ∷ args) = omega arith
star_prec-length s f (double v ∷ args) = omega arith
star_prec-length s f (single w ∷ args) = ground arith

number_prec-length :
    (s : List ℕ) (f : Fmt) (args : List VaArg) → rest_length (number_prec s f args) ≤ length s
number_prec-length s f args = let digits = parse_digits-length 0 s in ground arith

dot_prec-length :
    (s : List ℕ) (f : Fmt) (args : List VaArg) → rest_length (dot_prec s f args) ≤ length s
dot_prec-length [] f args = number_prec-length [] f args
dot_prec-length (c ∷ s) f args =
    let star = star_prec-length s f args in
    let number = number_prec-length (c ∷ s) f args in ground arith

read_prec-length :
    (s : List ℕ) (f : Fmt) (args : List VaArg) → rest_length (read_prec s f args) ≤ length s
read_prec-length [] f args = omega arith
read_prec-length (c ∷ s) f args = let dot = dot_prec-length s f args in ground arith

parse_prec-length : (o : Option Parse) → rest_length (parse_prec o) ≤ rest_length o
parse_prec-length none = omega arith
parse_prec-length (some p) = read_prec-length p.rest p.fmt p.args

second_l-length : (s : List ℕ) (f : Fmt) → length (second_l s f).0 ≤ length s
second_l-length [] f = omega arith
second_l-length (c ∷ s) f = ground arith

read_length-length : (s : List ℕ) (f : Fmt) → length (read_length s f).0 ≤ length s
read_length-length [] f = omega arith
read_length-length (c ∷ s) f = let second = second_l-length s f in ground arith

parse_length-length : (o : Option Parse) → rest_length (parse_length o) ≤ rest_length o
parse_length-length none = omega arith
parse_length-length (some p) = read_length-length p.rest p.fmt

parse_format-length :
    (s : List ℕ) (f : Fmt) (args : List VaArg) → rest_length (parse_format s f args) ≤ length s
unfolding parse_format
parse_format-length s f args =
    let flags = parse_flags-length s f in
    let width = parse_width-length (parse_flags s f).0 (parse_flags s f).1 args in
    let prec = parse_prec-length (parse_width (parse_flags s f).0 (parse_flags s f).1 args) in
    let len =
      parse_length-length (parse_prec (parse_width (parse_flags s f).0 (parse_flags s f).1 args)) in
    omega arith

after_plain-length : (fmt : List ℕ) → length (after_plain fmt) ≤ length fmt
unfolding after_plain
after_plain-length [] = omega arith
after_plain-length (c ∷ fmt) = let more = after_plain-length fmt in ground arith

-- What is left after a round, if it is defined.
abbrev pub round_length : Option Round → ℕ
round_length none = 0
round_length (some r) = length r.rest

convert_round-length :
    (rest : List ℕ) (o : Option (List ℕ × List VaArg))
    → round_length (convert_round rest o) ≤ length rest
convert_round-length rest none = omega arith
convert_round-length rest (some t) = omega arith

parsed_spec-length :
    (s : List ℕ) (f : Fmt) (args : List VaArg) → round_length (parsed_spec s f args) ≤ length s
parsed_spec-length [] f args = omega arith
parsed_spec-length (c ∷ s) f args = omega (arith, convert_round-length s (conversion c f args))

parsed_round-length : (o : Option Parse) → round_length (parsed_round o) ≤ rest_length o
parsed_round-length none = omega arith
parsed_round-length (some p) = parsed_spec-length p.rest p.fmt p.args

pub percent_length :
    (fmt : List ℕ) (args : List VaArg) → round_length (percent_round fmt args) ≤ length fmt
percent_length [] args =
    omega
      (arith, parsed_round-length (parse_format [] no_fmt args), parse_format-length [] no_fmt args)
percent_length (d ∷ fmt) args =
    let parsed = parsed_round-length (parse_format (d ∷ fmt) no_fmt args) in
    let parse = parse_format-length (d ∷ fmt) no_fmt args in ground arith

pub printf_round-length :
    (c : ℕ) (fmt : List ℕ) (args : List VaArg) → round_length (printf_round c fmt args) ≤ length fmt
unfolding printf_round
printf_round-length c fmt args =
    let percent = percent_length fmt args in let plain = after_plain-length fmt in ground arith
