-- ===== src/Libc/Tests.antt =====
-- The C library on short arrays and strings.
use bobliu_os.Base.{ℕ, ◌≡◌, arith, List, [], ◌∷◌, get_or}
use bobliu_os.Libc.Str.{strstr}
use bobliu_os.Libc.Str.Text.{text}
use bobliu_os.Libc.Str.Search.{FirstAt, strstr-FirstAt}
use bobliu_os.Libc.Mem.{memmove}
use bobliu_os.Libc.Mem.Copy.{memmove_at}

abbrev bytes : List ℕ
bytes = 1 ∷ 2 ∷ 3 ∷ 4 ∷ 5 ∷ []

memmove_at_example : get_or (memmove 1 0 3 bytes) 2 0 ≡ 2
memmove_at_example = memmove_at 1 0 3 bytes 2 (omega arith) (omega arith)

abbrev hey : List ℕ
hey = b'h' ∷ b'e' ∷ b'y' ∷ 0 ∷ []

strstr-FirstAt_example : FirstAt (text hey) (text (b'y' ∷ [])) 0 (strstr hey (b'y' ∷ []))
strstr-FirstAt_example = strstr-FirstAt hey (b'y' ∷ [])

abbrev percent_u : List ℕ
percent_u = b'%' ∷ b'u' ∷ []

abbrev number : List ℕ
number = b'1' ∷ b'2' ∷ b'3' ∷ b'4' ∷ []
