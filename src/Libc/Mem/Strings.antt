-- ===== src/Libc/Mem/Strings.antt =====
-- What `strcpy` and `strncpy` write, byte by byte.
use bobliu_os.Base.{
  ℕ, zero, suc, ◌+◌, ◌-◌, ◌≤◌, ◌<◌, ◌≡◌, ◌≢◌, refl, ap, arith, List, [], ◌∷◌, ◌&&◌, if◌then◌else◌,
  ltb, leb, ◌==◌, Bool-cases, inl, inr, length, get_or, set, length-set,
}
use bobliu_os.Libc.Str.{strlen}
use bobliu_os.Libc.Str.Text.{text}
use bobliu_os.Libc.Mem.{strcpy, strcpy_loop, strncpy, strncpy_loop, pad_zero}
use bobliu_os.Libc.Mem.Copy.{get_or-set}

-- Up to its length a string shows its text; there it shows the terminator.
pub text_at : (s : List ℕ) (i : ℕ) → i ≤ strlen s → get_or s i 0 ≡ get_or (text s) i 0
unfolding text strlen
text_at [] i h = refl
text_at (c ∷ s) zero h = ground arith
text_at (c ∷ s) (suc i) h = ground (arith, text_at s i)

pub text_end : (s : List ℕ) (i : ℕ) → strlen s ≤ i → get_or (text s) i 0 ≡ 0
unfolding text strlen
text_end [] i h = refl
text_end (c ∷ s) zero h = ground arith
text_end (c ∷ s) (suc i) h = ground (arith, text_end s i)

text_nonzero : (s : List ℕ) (i : ℕ) → i < strlen s → get_or s i 0 ≢ 0
unfolding strlen
text_nonzero [] i h = absurd (omega arith)
text_nonzero (c ∷ s) zero h = ground arith
text_nonzero (c ∷ s) (suc i) h = ground (arith, text_nonzero s i)

pub text_char : (s : List ℕ) (i : ℕ) → i ≤ strlen s → get_or s i 0 ≢ 0 → i < strlen s
unfolding strlen
text_char [] i h ne = absurd (ne refl)
text_char (c ∷ s) zero h ne = ground arith
text_char (c ∷ s) (suc i) h ne = ground (arith, text_char s i)

pad_zero_at :
    (left i : ℕ) (dst : List ℕ) (j : ℕ)
    → i + left ≤ length dst
    → get_or (pad_zero left i dst) j 0 ≡ (if leb i j && ltb j (i + left) then 0 else get_or dst j 0)
unfolding pad_zero
pad_zero_at zero i dst j h = ground arith
pad_zero_at (suc left) i dst j h =
    ground
      (arith, pad_zero_at left (i + 1) (set dst i 0) j, length-set dst i 0, get_or-set dst i j 0)

strncpy_loop_at :
    (left i : ℕ) (dst src : List ℕ) (j : ℕ)
    → i + left ≤ length dst
    → i ≤ strlen src
    → get_or (strncpy_loop left i dst src) j 0
      ≡ (if leb i j && ltb j (i + left) then get_or (text src) j 0 else get_or dst j 0)
unfolding strncpy_loop
strncpy_loop_at zero i dst src j h within = ground arith
strncpy_loop_at (suc left) i dst src j h within = elim (Bool-cases (get_or src i 0 == 0)) [
  | inl end ↦
      let over : strlen src ≤ i = ground (arith, text_nonzero src i) in
      rw end (ground (arith, pad_zero_at (suc left) i dst j h, text_end src j))
  | inr more ↦
      let v : ℕ = get_or src i 0 in
      rw more (
        ground (
          arith,
          strncpy_loop_at left (i + 1) (set dst i v) src j,
          length-set dst i v,
          get_or-set dst i j v,
          text_char src i within,
          text_at src i within,
        ))
]

-- Into a destination of at least `n` bytes, `strncpy` writes exactly `n` bytes: the text, cut at `n`, then zeros. There is no terminator
-- where the text has `n` characters or more.
pub strncpy_at :
    (dst src : List ℕ) (n j : ℕ)
    → n ≤ length dst
    → get_or (strncpy dst src n) j 0 ≡ (if ltb j n then get_or (text src) j 0 else get_or dst j 0)
unfolding strncpy
strncpy_at dst src n j h = ground (arith, strncpy_loop_at n 0 dst src j)

get_or_cons : (c : ℕ) (xs : List ℕ) (k : ℕ) → k ≢ 0 → get_or (c ∷ xs) k 0 ≡ get_or xs (k - 1) 0
get_or_cons c xs zero h = absurd (h refl)
get_or_cons c xs (suc k) h = ap (λ (t : ℕ). get_or xs t 0) (omega arith)

strcpy_loop_at :
    (src : List ℕ) (i : ℕ) (dest : List ℕ) (j : ℕ)
    → i + strlen src < length dest
    → get_or (strcpy_loop src i dest) j 0
      ≡ (if leb i j && leb j (i + strlen src) then get_or (text src) (j - i) 0 else get_or dest j 0)
unfolding strcpy_loop strlen text
strcpy_loop_at [] i dest j h = ground (arith, get_or-set dest i j 0)
strcpy_loop_at (c ∷ src) i dest j h = elim (Bool-cases (c == 0)) [
  | inl end ↦ rw end (ground (arith, get_or-set dest i j 0))
  | inr more ↦
      let ih = strcpy_loop_at src (i + 1) (set dest i c) j (ground (arith, length-set dest i c)) in
      let written = get_or-set dest i j c (omega arith) in
      elim (Bool-cases (i == j)) [
        | inl here ↦
            let none_left : j - i ≡ 0 = ground arith in
            rw (more, none_left) (ground (arith, ih, written))
        | inr there ↦
            let shift : j - (i + 1) ≡ j - i - 1 = omega arith in
            rw more (ground (arith, ih, written, get_or_cons c (text src) (j - i), shift))
      ]
]

-- `strcpy` writes the text and one terminator, and leaves the rest of the destination.
pub strcpy_at :
    (dest src : List ℕ) (j : ℕ)
    → strlen src < length dest
    → get_or (strcpy dest src) j 0
      ≡ (if leb j (strlen src) then get_or (text src) j 0 else get_or dest j 0)
unfolding strcpy
strcpy_at dest src j h = ground (arith, strcpy_loop_at src 0 dest j)
