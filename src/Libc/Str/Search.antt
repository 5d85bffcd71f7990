-- ===== src/Libc/Str/Search.antt =====
-- What `strstr` finds: the first place where the needle's text begins.
use bobliu_os.Base.{
  ℕ, zero, suc, ◌+◌, ◌<◌, ◌≡◌, ◌≢◌, ◌⊎◌, refl, ap, arith, List, [], ◌∷◌, true, ◌==◌, Bool-cases,
  inl, inr, drop, ◌++◌, Option, none, some,
}
use bobliu_os.Libc.Str.{char_at, next, starts, strstr, strstr_scan}
use bobliu_os.Libc.Str.Text.{text, text_cons, text_nil}

starts_sound : (h n : List ℕ) → starts h n ≡ true → (r : List ℕ) × (text h ≡ text n ++ r)
unfolding starts text
starts_sound [] n e = ([], rw (text_nil n (ground arith)))
starts_sound (h ∷ hs) n e = elim (Bool-cases (char_at n == 0)) [
  | inl end ↦ (text (h ∷ hs), rw (text_nil n (ground arith)))
  | inr more ↦
      let (r, ih) = starts_sound hs (next n) (ground arith) in
      (r, rw (text_cons n (ground arith)) (ground (arith, ih)))
]

starts_complete : (h n r : List ℕ) → text h ≡ text n ++ r → starts h n ≡ true
unfolding starts text
starts_complete [] n r e = elim (Bool-cases (char_at n == 0)) [
  | inl end ↦ end
  | inr more ↦ let broken = rw (text_cons n (ground arith)) at e in cc broken
]
starts_complete (h ∷ hs) n r e = elim (Bool-cases (char_at n == 0)) [
  | inl end ↦ ground arith
  | inr more ↦
      let e' = rw (text_cons n (ground arith)) at e in
      ground (arith, e', starts_complete hs (next n) r)
]

-- The text `n` occurs in the text `t` at offset `i`.
abbrev pub Occurs : List ℕ → List ℕ → ℕ → Type 0
Occurs t n i = (r : List ℕ) × (drop i t ≡ n ++ r)

-- Either there is no occurrence and the result is none, or the result is the first one's offset,
-- counted from `i`.
abbrev pub FirstAt : List ℕ → List ℕ → ℕ → Option ℕ → Type 0
FirstAt t n i o =
    ((o ≡ none) × ((j : ℕ) → ¬ Occurs t n j))
    ⊎ ((d : ℕ) × (o ≡ some (i + d)) × Occurs t n d × ((j : ℕ) → j < d → ¬ Occurs t n j))

nowhere_in_nil : (n r : List ℕ) (j : ℕ) → char_at n ≢ 0 → drop {A = ℕ} j [] ≢ text n ++ r
nowhere_in_nil n r zero h e = let broken = rw (text_cons n h) at e in cc broken
nowhere_in_nil n r (suc j) h e = let broken = rw (text_cons n h) at e in cc broken

FirstAt-cons :
    (c : ℕ) (t n : List ℕ) (i : ℕ) (o : Option ℕ)
    → ¬ Occurs (c ∷ t) n 0
    → FirstAt t n (i + 1) o
    → FirstAt (c ∷ t) n i o
FirstAt-cons c t n i o not_here (inl (e, nowhere)) = inl (e, away)
  where
    away : (j : ℕ) → ¬ Occurs (c ∷ t) n j
    away zero = not_here
    away (suc j) = nowhere j
FirstAt-cons c t n i o not_here (inr (d, e, at, before)) = inr (suc d, shifted, at, away)
  where
    shifted : o ≡ some (i + suc d)
    shifted = let sum : i + 1 + d ≡ i + suc d = omega arith in rw (← sum) e

    away : (j : ℕ) → j < suc d → ¬ Occurs (c ∷ t) n j
    away zero h = not_here
    away (suc j) h = before j (omega arith)

strstr_scan-FirstAt :
    (h n : List ℕ) (i : ℕ) → char_at n ≢ 0 → FirstAt (text h) (text n) i (strstr_scan h n i)
unfolding strstr_scan
strstr_scan-FirstAt [] n i ne =
    rw (text_nil [] refl) (inl (refl, (λ j (r, e). nowhere_in_nil n r j ne e)))
strstr_scan-FirstAt (h ∷ hs) n i ne = elim (Bool-cases (h == 0)) [
  | inl end ↦
      rw (end, text_nil (h ∷ hs) (ground arith))
        (inl (refl, (λ j (r, e). nowhere_in_nil n r j ne e)))
  | inr more ↦ elim (Bool-cases (starts (h ∷ hs) n)) [
    | inl here ↦
        let sum : i ≡ i + 0 = omega arith in
        rw (more, here)
          (inr (0, ap some sum, starts_sound (h ∷ hs) n here, (λ j below. absurd (omega arith))))
    | inr not_here ↦
        let ih = strstr_scan-FirstAt hs n (i + 1) ne in
        let out : ¬ Occurs (text (h ∷ hs)) (text n) 0 =
          λ (r, e). let found = starts_complete (h ∷ hs) n r e in cc (found, not_here) in
        let cons : text (h ∷ hs) ≡ h ∷ text hs = text_cons (h ∷ hs) (ground arith) in
        rw (more, not_here, cons)
          (FirstAt-cons h (text hs) (text n) i (strstr_scan hs n (i + 1)) (rw cons at out) ih)
  ]
]

-- `strstr` gives the first offset at which the needle's text stands in the haystack's text, and
-- none exactly when there is no such offset.
pub strstr-FirstAt : (h n : List ℕ) → FirstAt (text h) (text n) 0 (strstr h n)
unfolding strstr
strstr-FirstAt h n = elim (Bool-cases (char_at n == 0)) [
  | inl end ↦
      rw (end, text_nil n (ground arith))
        (inr (0, refl, (text h, refl), (λ j below. absurd (omega arith))))
  | inr more ↦ rw more (strstr_scan-FirstAt h n 0 (ground arith))
]
