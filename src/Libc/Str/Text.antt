-- ===== src/Libc/Str/Text.antt =====
-- What the comparisons of libc/string decide: equality of the texts up to the terminator.
use bobliu_os.Base.{
  ℕ, zero, suc, ◌≡◌, ◌≢◌, ◌↔◌, refl, arith, List, [], ◌∷◌, true, if◌then◌else◌, ◌==◌, Bool-cases,
  inl, inr, length, take,
}
use bobliu_os.Int.{is_zero}
use bobliu_os.Libc.Str.{char_at, next, strlen, strcmp, strncmp}

-- The characters before the terminator.
unfoldable pub text : List ℕ → List ℕ
text [] = []
text (c ∷ s) = if c == 0 then [] else c ∷ text s

-- `strlen` is the length of the text.
pub strlen-text : (s : List ℕ) → strlen s ≡ length (text s)
unfolding strlen text
strlen-text [] = refl
strlen-text (c ∷ s) = ground (arith, strlen-text s)

pub text_cons : (s : List ℕ) → char_at s ≢ 0 → text s ≡ char_at s ∷ text (next s)
unfolding text
text_cons [] h = absurd (h refl)
text_cons (c ∷ s) h = ground arith

pub text_nil : (s : List ℕ) → char_at s ≡ 0 → text s ≡ []
unfolding text
text_nil [] h = refl
text_nil (c ∷ s) h = ground arith

-- `strcmp` returns 0 exactly on equal texts.
pub strcmp_zero_iff : (a b : List ℕ) → (is_zero (strcmp a b) ≡ true) ↔ (text a ≡ text b)
unfolding strcmp text
strcmp_zero_iff [] [] = ground arith
strcmp_zero_iff [] (d ∷ b) = ground arith
strcmp_zero_iff (c ∷ a) [] = ground (arith, strcmp_zero_iff a [])
strcmp_zero_iff (c ∷ a) (d ∷ b) = ground (arith, strcmp_zero_iff a b)

-- `strncmp` returns 0 exactly where the first `n` characters of the texts agree.
pub strncmp_zero_iff :
    (n : ℕ) (a b : List ℕ) → (is_zero (strncmp a b n) ≡ true) ↔ (take n (text a) ≡ take n (text b))
unfolding strncmp
strncmp_zero_iff zero a b = ground arith
strncmp_zero_iff (suc n) a b = elim (Bool-cases (char_at a == 0)) [
  | inl ea ↦ elim (Bool-cases (char_at b == 0)) [
    | inl eb ↦ rw (text_nil a (ground arith), text_nil b (ground arith)) (ground arith)
    | inr eb ↦ rw (text_nil a (ground arith), text_cons b (ground arith)) (ground arith)
  ]
  | inr ea ↦ elim (Bool-cases (char_at b == 0)) [
    | inl eb ↦ rw (text_cons a (ground arith), text_nil b (ground arith)) (ground arith)
    | inr eb ↦
        rw (text_cons a (ground arith), text_cons b (ground arith))
          (ground (arith, strncmp_zero_iff n (next a) (next b)))
  ]
]
