-- ===== src/Libc/Printf/Tests.antt =====
-- `printf` on short formats.
use bobliu_os.Base.{ℕ, ◌≤◌, ◌≡◌, refl, arith, List, [], ◌∷◌, false, length}
use bobliu_os.Libc.Printf.Text.{u64_to_base, print_digits, to_base, print_signed}
use bobliu_os.Libc.Printf.Parse.{single, parse_int, parse_format, parse_flags, parse_digits}
use bobliu_os.Libc.Printf.Loop.{
  done, printf, printf_loop, printf_round, plain_text, after_plain, conversion,
}
use bobliu_os.Libc.Printf.Digits.{parse_int-u64_to_base}
use bobliu_os.Libc.Printf.Total.{is_starved, written, printf-Ends, printf-written}

parse_int-u64_to_base_example : parse_int (print_digits (u64_to_base 10 false 4096)) ≡ (4096, [])
parse_int-u64_to_base_example = parse_int-u64_to_base 4096 false (omega arith)

-- "n=%5d;"
abbrev five_wide : List ℕ
five_wide = b'n' ∷ b'=' ∷ b'%' ∷ b'5' ∷ b'd' ∷ b';' ∷ []

printf-Ends_example :
    (is_starved (printf five_wide (single 42 ∷ [])) ≡ false)
    × (printf_loop 9 five_wide (single 42 ∷ []) ≡ printf five_wide (single 42 ∷ []))
printf-Ends_example = printf-Ends five_wide (single 42 ∷ []) 9 (omega arith)

printf-written_example : written (printf five_wide (single 42 ∷ [])) ≤ length five_wide
printf-written_example = printf-written five_wide (single 42 ∷ [])

-- The field is printed, and not counted.
five_wide-printed :
    printf five_wide (single 42 ∷ [])
    ≡ done (b'n' ∷ b'=' ∷ b' ' ∷ b' ' ∷ b' ' ∷ b'4' ∷ b'2' ∷ b';' ∷ []) 3
unfolding printf printf_loop printf_round plain_text after_plain parse_format parse_flags
    parse_digits conversion print_signed u64_to_base to_base print_digits
five_wide-printed = refl
