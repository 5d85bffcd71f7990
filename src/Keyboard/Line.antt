-- ===== src/Keyboard/Line.antt =====
-- The line buffer: always terminated, and it holds the text of an editor with room for 127
-- characters.
use bobliu_os.Base.{
  ℕ, zero, suc, ◌+◌, ◌-◌, ◌≤◌, ◌<◌, ◌≡◌, ◌≢◌, refl, ap, sym, ◌∙◌, arith, List, [], ◌∷◌, ◌++◌, true,
  false, if◌then◌else◌, ltb, leb, ◌==◌, Bool-cases, inl, inr, length, set, take, length-set,
  length-take, length-append,
}
use bobliu_os.Libc.Str.Text.{text}
use bobliu_os.Keyboard.{Keyboard, kbd_line_max, line_reset, line_push, line_pop}

-- The buffer holds the line, of characters other than 0, and the terminator behind it.
pub record Holds (line : List ℕ) (k : Keyboard) : Type 0 where
  pub size : length k.linebuf ≡ kbd_line_max
  pub len : k.line_len ≡ length line
  pub room : length line < kbd_line_max
  pub bytes : text k.linebuf ≡ line

-- Writing a character and a terminator at the end of the text extends it.
text-set_end :
    (b : List ℕ) (n c : ℕ)
    → n ≡ length (text b)
    → c ≢ 0
    → n + 1 < length b
    → text (set (set b n c) (n + 1) 0) ≡ text b ++ c ∷ []
unfolding text
text-set_end [] n c e ne h = absurd (omega arith)
text-set_end (x ∷ []) n c e ne h = absurd (omega arith)
text-set_end (x ∷ y ∷ b) n c e ne h = elim (Bool-cases (x == 0)) [
  | inl end ↦
      let at_start : n ≡ 0 = rw end at e in
      let nonzero : (c == 0) ≡ false = ground arith in rw (at_start, end, nonzero)
  | inr more ↦
      let tail : n ≡ suc (length (text (y ∷ b))) = rw more at e in
      let shift : suc (length (text (y ∷ b))) + 1 ≡ suc (length (text (y ∷ b)) + 1) = omega arith in
      let ih = text-set_end (y ∷ b) (length (text (y ∷ b))) c refl ne (omega arith) in
      rw (tail, shift, more) (ap (λ t. x ∷ t) ih)
]

-- A terminator written within the text cuts it there.
text-set_zero :
    (b : List ℕ) (n : ℕ) → n ≤ length (text b) → n < length b → text (set b n 0) ≡ take n (text b)
unfolding text
text-set_zero [] n h h' = absurd (omega arith)
text-set_zero (x ∷ b) zero h h' = refl
text-set_zero (x ∷ b) (suc n) h h' = elim (Bool-cases (x == 0)) [
  | inl end ↦ let broken : suc n ≤ 0 = rw end at h in absurd (omega arith)
  | inr more ↦
      let inside : suc n ≤ suc (length (text b)) = rw more at h in
      rw more (ap (λ t. x ∷ t) (text-set_zero b n (omega arith) (omega arith)))
]

take_all : (n : ℕ) (xs : List ℕ) → n ≡ length xs → take n xs ≡ xs
take_all zero [] e = refl
take_all zero (x ∷ xs) e = absurd (omega arith)
take_all (suc n) [] e = refl
take_all (suc n) (x ∷ xs) e = ap (λ t. x ∷ t) (take_all n xs (omega arith))

length-take_le : (n : ℕ) (xs : List ℕ) → n ≤ length xs → length (take n xs) ≡ n
length-take_le n xs h = omega (arith, length-take n xs)

module _ {line : List ℕ} {k : Keyboard} (h : Holds line k) where
  pub line_reset-Holds : Holds [] (line_reset k)
  unfolding line_reset
  line_reset-Holds = record {
    size = length-set k.linebuf 0 0 ∙ h.size;
    len = refl;
    room = omega arith;
    bytes = text-set_zero k.linebuf 0 (omega arith) (omega (arith, h.size));
  }

  -- A character is appended where there is room for it and the terminator, and dropped otherwise.
  pub line_push-Holds :
      (c : ℕ)
      → c ≢ 0
      → Holds
          (if ltb (length line) (kbd_line_max - 1) then line ++ c ∷ [] else line)
          (line_push c k)
  unfolding line_push
  line_push-Holds c ne = elim (Bool-cases (leb (kbd_line_max - 1) k.line_len)) [
    | inl full ↦
        let no_room : ltb (length line) (kbd_line_max - 1) ≡ false = ground (arith, h.len) in
        rw (full, no_room) h
    | inr free ↦
        let room : ltb (length line) (kbd_line_max - 1) ≡ true = ground (arith, h.len) in
        let at_end : k.line_len ≡ length (text k.linebuf) = h.len ∙ ap length (sym h.bytes) in
        rw (free, room)
          (record {
            size = length-set _ (k.line_len + 1) 0 ∙ length-set k.linebuf k.line_len c ∙ h.size;
            len = omega (arith, h.len, length-append line (c ∷ []));
            room = ground (arith, length-append line (c ∷ []));
            bytes =
                text-set_end k.linebuf k.line_len c at_end ne (ground (arith, h.size))
                ∙ ap (λ (t : List ℕ). t ++ c ∷ []) h.bytes;
          })
  ]

  -- The last character is dropped, if there is one.
  pub line_pop-Holds : Holds (take (length line - 1) line) (line_pop k)
  unfolding line_pop
  line_pop-Holds = elim (Bool-cases (k.line_len == 0)) [
    | inl empty ↦
        let none_left : length line ≡ length line - 1 = ground (arith, h.len) in
        rw (empty, take_all (length line - 1) line (sym none_left)) h
    | inr some_left ↦
        let at : k.line_len - 1 ≡ length line - 1 = omega (arith, h.len) in
        rw (some_left, at)
          (record {
            size = length-set k.linebuf (length line - 1) 0 ∙ h.size;
            len = sym (length-take_le (length line - 1) line (omega arith));
            room = omega (arith, h.room, length-take_le (length line - 1) line (omega arith));
            bytes =
                text-set_zero k.linebuf (length line - 1) (omega (arith, ap length h.bytes))
                  (omega (arith, h.size, h.room))
                ∙ ap (take (length line - 1)) h.bytes;
          })
  ]
