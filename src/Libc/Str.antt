-- ===== src/Libc/Str.antt =====
-- The string functions of libc/string. A string is the memory from its pointer on, as far as its
-- object goes; a read at the end of the list finds the terminator. A character is an `unsigned
-- char`, as the comparisons cast it.
pub mod Text
pub mod Search
use bobliu_os.Base.{
  ℕ, zero, suc, ◌+◌, List, [], ◌∷◌, Bool, true, false, ◌&&◌, not, if◌then◌else◌, ◌==◌, Option, none,
  some, drop,
}
use bobliu_os.Int.{ℤ, pos, sub_ℕ}

-- `*s` and `s + 1`
abbrev pub char_at : List ℕ → ℕ
char_at [] = 0
char_at (c ∷ s) = c

abbrev pub next : List ℕ → List ℕ
next [] = []
next (c ∷ s) = s

unfoldable pub strlen : List ℕ → ℕ
strlen [] = 0
strlen (c ∷ s) = if c == 0 then 0 else suc (strlen s)

unfoldable pub strcmp : List ℕ → List ℕ → ℤ
strcmp [] b = sub_ℕ 0 (char_at b)
strcmp (c ∷ a) b =
    let rest = strcmp a (next b) in
    if not (c == 0) && (c == char_at b) then rest else sub_ℕ c (char_at b)

unfoldable pub strncmp : List ℕ → List ℕ → ℕ → ℤ
strncmp a b zero = pos 0
strncmp a b (suc n) =
    let ca = char_at a in
    let cb = char_at b in
    let rest = strncmp (next a) (next b) n in
    if not (ca == cb) then sub_ℕ ca cb else if ca == 0 then pos 0 else rest

-- The inner loop of `strstr`: whether it reaches the needle's end.
unfoldable pub starts : List ℕ → List ℕ → Bool
starts [] n = char_at n == 0
starts (h ∷ hs) n =
    let rest = starts hs (next n) in
    if not (h == 0) && (not (char_at n == 0) && (h == char_at n)) then rest else char_at n == 0

-- The result is the offset of the occurrence.
strstr_scan : List ℕ → List ℕ → ℕ → Option ℕ
strstr_scan [] needle i = none
strstr_scan (h ∷ hs) needle i =
    let rest = strstr_scan hs needle (i + 1) in
    if h == 0 then none else if starts (h ∷ hs) needle then some i else rest

unfoldable pub strstr : List ℕ → List ℕ → Option ℕ
unfolding strstr_scan
strstr haystack needle = if char_at needle == 0 then some 0 else strstr_scan haystack needle 0
