-- ===== src/Libc/Printf/Total.antt =====
-- `printf` of libc/stdio/printf.c: the rounds of its loop, and what it counts.
use bobliu_os.Base.{
  ℕ, zero, suc, ◌+◌, ◌≤◌, ◌≡◌, ◌≢◌, refl, ap, ◌∙◌, arith, List, [], ◌∷◌, Bool, true, false, ◌==◌,
  Option, none, some, length, Bool-cases, Option-cases, inl, inr, append-nil, subst,
}
use mathlib.Core.Path.{ap₂}
use bobliu_os.Libc.Printf.Parse.{Parse, VaArg, parse_format}
use bobliu_os.Libc.Printf.Loop.{
  Round, Printed, done, undefined, starved, no_fmt, conversion, convert_round, parsed_spec,
  parsed_round, percent_round, plain_text, after_plain, printf_round, then_print, printf_loop,
  printf,
}
use bobliu_os.Libc.Printf.Rest.{round_length, printf_round-length, percent_length}

abbrev pub is_starved : Printed → Bool
is_starved (done s w) = false
is_starved undefined = false
is_starved starved = true

-- The number returned; 0 for a call that C leaves undefined.
abbrev pub written : Printed → ℕ
written (done s w) = w
written undefined = 0
written starved = 0

then_print-is_starved :
    (t : List ℕ) (n : ℕ) (p : Printed) → is_starved (then_print t n p) ≡ is_starved p
then_print-is_starved t n (done s w) = refl
then_print-is_starved t n undefined = refl
then_print-is_starved t n starved = refl

then_print-written : (t : List ℕ) (n : ℕ) (p : Printed) → written (then_print t n p) ≤ n + written p
then_print-written t n (done s w) = omega arith
then_print-written t n undefined = omega arith
then_print-written t n starved = omega arith

round_some :
    (c : ℕ) (fmt : List ℕ) (args : List VaArg) (r : Round)
    → printf_round c fmt args ≡ some r
    → length r.rest ≤ length fmt
round_some c fmt args r e =
    let short = printf_round-length c fmt args in
    let same : round_length (printf_round c fmt args) ≡ length r.rest = ap round_length e in
    omega arith

fuel_irrelevant :
    (m n : ℕ) (fmt : List ℕ) (args : List VaArg)
    → length fmt ≤ m
    → length fmt ≤ n
    → printf_loop m fmt args ≡ printf_loop n fmt args
unfolding printf_loop
fuel_irrelevant m n [] args hm hn = refl
fuel_irrelevant zero n (c ∷ fmt) args hm hn = absurd (omega arith)
fuel_irrelevant (suc m) zero (c ∷ fmt) args hm hn = absurd (omega arith)
fuel_irrelevant (suc m) (suc n) (c ∷ fmt) args hm hn =
    elim (Option-cases (printf_round c fmt args)) [
      | inl e ↦ rw e refl
      | inr (r, e) ↦
          let short = round_some c fmt args r e in
          rw e (
            ap (then_print r.printed r.counted)
              (fuel_irrelevant m n r.rest r.args (omega arith) (omega arith)))
    ]

loop_fed :
    (m : ℕ) (fmt : List ℕ) (args : List VaArg)
    → length fmt ≤ m
    → is_starved (printf_loop m fmt args) ≡ false
unfolding printf_loop
loop_fed m [] args hm = refl
loop_fed zero (c ∷ fmt) args hm = absurd (omega arith)
loop_fed (suc m) (c ∷ fmt) args hm = elim (Option-cases (printf_round c fmt args)) [
  | inl e ↦ rw e refl
  | inr (r, e) ↦
      let short = round_some c fmt args r e in
      rw e (
        then_print-is_starved r.printed r.counted (printf_loop m r.rest r.args)
        ∙ loop_fed m r.rest r.args (omega arith))
]

-- The loop over the format ends: as many rounds as the format has characters suffice, and with more
-- the result is the same.
pub printf-Ends :
    (fmt : List ℕ) (args : List VaArg) (fuel : ℕ)
    → length fmt ≤ fuel
    → (is_starved (printf fmt args) ≡ false) × (printf_loop fuel fmt args ≡ printf fmt args)
unfolding printf
printf-Ends fmt args fuel h = (
  loop_fed (length fmt) fmt args (omega arith),
  fuel_irrelevant fuel (length fmt) fmt args h (omega arith),
)

plain_parts : (fmt : List ℕ) → length (plain_text fmt) + length (after_plain fmt) ≡ length fmt
unfolding plain_text after_plain
plain_parts [] = refl
plain_parts (c ∷ fmt) = let more = plain_parts fmt in ground arith

-- What a round counts, if it is defined.
abbrev round_counted : Option Round → ℕ
round_counted none = 0
round_counted (some r) = r.counted

parsed_counted : (o : Option Parse) → round_counted (parsed_round o) ≡ 0
parsed_counted none = refl
parsed_counted (some p) = go p.rest
  where
    converted :
        (rest : List ℕ) (o : Option (List ℕ × List VaArg))
        → round_counted (convert_round rest o) ≡ 0
    converted rest none = refl
    converted rest (some t) = refl

    go : (s : List ℕ) → round_counted (parsed_spec s p.fmt p.args) ≡ 0
    go [] = refl
    go (c ∷ s) = converted s (conversion c p.fmt p.args)

percent_counted : (fmt : List ℕ) (args : List VaArg) → round_counted (percent_round fmt args) ≤ 1
percent_counted [] args = omega (arith, parsed_counted (parse_format [] no_fmt args))
percent_counted (d ∷ fmt) args =
    let parsed = parsed_counted (parse_format (d ∷ fmt) no_fmt args) in ground arith

-- A round counts no more characters than it takes from the format.
round_bound :
    (c : ℕ) (fmt : List ℕ) (args : List VaArg)
    → round_counted (printf_round c fmt args) + round_length (printf_round c fmt args)
      ≤ suc (length fmt)
unfolding printf_round
round_bound c fmt args = elim (Bool-cases (c == b'%')) [
  | inl e ↦ rw e (omega (arith, percent_counted fmt args, percent_length fmt args))
  | inr e ↦ rw e (omega (arith, plain_parts fmt))
]

loop_written :
    (m : ℕ) (fmt : List ℕ) (args : List VaArg) → written (printf_loop m fmt args) ≤ length fmt
unfolding printf_loop
loop_written m [] args = omega arith
loop_written zero (c ∷ fmt) args = omega arith
loop_written (suc m) (c ∷ fmt) args = elim (Option-cases (printf_round c fmt args)) [
  | inl e ↦ rw e (omega arith)
  | inr (r, e) ↦
      let bound : r.counted + length r.rest ≤ suc (length fmt) =
        subst (λ o. round_counted o + round_length o ≤ suc (length fmt)) e
          (round_bound c fmt args) in
      let more = loop_written m r.rest r.args in
      rw e (omega (arith, then_print-written r.printed r.counted (printf_loop m r.rest r.args)))
]

-- `printf` returns no more than the length of the format: what the conversions print is not counted.
pub printf-written : (fmt : List ℕ) (args : List VaArg) → written (printf fmt args) ≤ length fmt
unfolding printf
printf-written fmt args = loop_written (length fmt) fmt args

-- No character of the text is a `%`.
abbrev pub IsPlain : List ℕ → Type 0
IsPlain [] = Unit
IsPlain (c ∷ fmt) = (c ≢ b'%') × IsPlain fmt

plain_rest : (p : List ℕ) → IsPlain p → (plain_text p ≡ p) × (after_plain p ≡ [])
unfolding plain_text after_plain
plain_rest [] h = (refl, refl)
plain_rest (c ∷ p) h =
    let other : (c == b'%') ≡ false = ground (arith, h.0) in
    let more = plain_rest p h.1 in (rw other (ap (λ s. c ∷ s) more.0), rw other more.1)

-- A format without `%` is printed as it is, and its length is returned.
pub printf-IsPlain :
    (fmt : List ℕ) (args : List VaArg) → IsPlain fmt → printf fmt args ≡ done fmt (length fmt)
unfolding printf printf_loop printf_round
printf-IsPlain [] args h = refl
printf-IsPlain (c ∷ p) args h =
    let other : (c == b'%') ≡ false = ground (arith, h.0) in
    let rest = plain_rest p h.1 in
    rw (other, rest.0, rest.1) (ap₂ done (ap (λ s. c ∷ s) (append-nil p)) (omega arith))
