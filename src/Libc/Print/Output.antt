-- ===== src/Libc/Print/Output.antt =====
-- What `vsnprintf` of libc/stdio/sprintf.c leaves in memory, and the digits that it prints.
use bobliu_os.Base.{
  ℕ, ◌+◌, ◌-◌, List, [], ◌∷◌, ◌++◌, Option, none, some, if◌then◌else◌, ◌==◌, ◌&&◌, ltb, leb, length,
  get_or,
}
use bobliu_os.Libc.Print.{Out, Arg, buf_puts, convert}

abbrev pub prefixed : List ℕ → Option (List ℕ) → Option (List ℕ)
prefixed t none = none
prefixed t (some s) = some (t ++ s)

-- The text that a format and its arguments stand for.
unfoldable pub formatted : List ℕ → List Arg → Option (List ℕ)
formatted [] args = some []
formatted (c ∷ []) args = if c == b'%' then none else some (c ∷ [])
formatted (c ∷ d ∷ fmt) args =
    let plain = formatted (d ∷ fmt) args in
    let rest : List ℕ × List Arg → Option (List ℕ) = λ t. prefixed t.0 (formatted fmt t.1) in
    if c == b'%'
    then elim (convert d args) [ none ↦ none | some t ↦ rest t ]
    else prefixed (c ∷ []) plain

-- The memory after the text is put, if there is one.
abbrev put_text : ℕ → Out → Option (List ℕ) → Option Out
put_text end o none = none
put_text end o (some s) = some (buf_puts end s o)

-- The characters up to `end` are the text's, the others stay.
abbrev pub put_at : ℕ → List ℕ → ℕ → ℕ → ℕ → ℕ
put_at end s p i before =
    if leb p i && (ltb i (p + length s) && ltb i end) then get_or s (i - p) 0 else before

-- Where `vsnprintf` puts the terminator of a text of `n` characters.
abbrev pub terminator : ℕ → ℕ → ℕ
terminator size n = if ltb n size then n else size
