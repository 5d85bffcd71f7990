-- ===== src/Keyboard/Editor.antt =====
-- The keyboard driver as a line editor: each scancode is a key, and each key edits the line.
use mathlib.Core.Bool.{xor}
use bobliu_os.Base.{
  ℕ, ◌-◌, ◌/◌, ◌%◌, ◌^◌, ◌<◌, ◌≡◌, ◌≢◌, refl, ap, sym, arith, List, [], ◌∷◌, ◌++◌, Bool, true,
  false, ◌&&◌, ◌||◌, not, if◌then◌else◌, ltb, leb, ◌==◌, ==_iff, Bool-cases, inl, inr, length,
  get_or, take, map, bit_and,
}
use bobliu_os.Base.Bits.{bit_and_low, bit_and_high, all_below, all_below_sound}
use bobliu_os.Libc.Str.Text.{text}
use bobliu_os.Keyboard.{
  Keyboard, kbd_line_max, Call, putchar, backspace, on_line, apply_caps_shift, key_press,
  keyboard_irq, line_reset, line_push, line_pop,
}
use bobliu_os.Keyboard.Keymap.{keymap, keymap_shift}
use bobliu_os.Keyboard.Line.{Holds, line_reset-Holds, line_push-Holds, line_pop-Holds}

-- A letter is a capital when exactly one of shift and caps lock is on; of any other key shift
-- chooses the upper symbol. 0 is a key with no character.
pub glyph : ℕ → Bool → Bool → ℕ
glyph code shift caps =
    let base = get_or keymap code 0 in
    if leb b'a' base && leb base b'z'
    then (if xor shift caps then base - 32 else base)
    else if shift
    then get_or keymap_shift code 0
    else base

-- What the driver computes for the press of a key.
abbrev typed : ℕ → Bool → Bool → ℕ
typed code shift caps =
    apply_caps_shift (if shift then get_or keymap_shift code 0 else get_or keymap code 0) shift caps

abbrev raw : ℕ → Bool → ℕ
raw code shift = if shift then get_or keymap_shift code 0 else get_or keymap code 0

glyph_law : Bool → Bool → ℕ → Bool
glyph_law shift caps code =
    if raw code shift == 0
    then glyph code shift caps == 0
    else (typed code shift caps == glyph code shift caps) && not (glyph code shift caps == 0)

glyph_table : (shift caps : Bool) → all_below 128 (glyph_law shift caps) ≡ true
unfolding glyph_law glyph apply_caps_shift xor
glyph_table true true = refl
glyph_table true false = refl
glyph_table false true = refl
glyph_table false false = refl

glyph_law_holds : (shift caps : Bool) (code : ℕ) → code < 128 → glyph_law shift caps code ≡ true
glyph_law_holds shift caps code h =
    all_below_sound 128 (glyph_law shift caps) code (glyph_table shift caps) h

&&_left : (a b : Bool) → (a && b) ≡ true → a ≡ true
&&_left true b h = refl
&&_left false b h = h

&&_right : (a b : Bool) → (a && b) ≡ true → b ≡ true
&&_right true b h = h
&&_right false b h = cc

not-true : (a : Bool) → not a ≡ true → a ≡ false
not-true true h = cc
not-true false h = refl

pub data Key : Type 0 where
  prefix extended none caps_lock enter erase : Key
  shift_key : Bool → Key
  type : ℕ → Key

-- The press of a key that is no modifier.
abbrev pub pressed : ℕ → Bool → Bool → Key
pressed code shift caps =
    let c = glyph code shift caps in
    if code == 0x1C then enter else if code == 0x0E then erase else if c == 0 then none else type c

-- The key of a scancode, by the state of the prefix and of the modifiers.
abbrev pub decode : ℕ → Bool → Bool → Bool → Key
decode sc e0 shift caps =
    let code = sc % 128 in
    if sc == 0xE0
    then prefix
    else if e0
    then extended
    else if (code == 0x2A) || (code == 0x36)
    then shift_key (ltb sc 128)
    else if leb 128 sc
    then none
    else if code == 0x3A
    then caps_lock
    else pressed code shift caps

-- The line after a key: a character is dropped where the line is full.
abbrev pub edit : Key → List ℕ → List ℕ
edit enter line = []
edit erase line = take (length line - 1) line
edit (type c) line = if ltb (length line) (kbd_line_max - 1) then line ++ c ∷ [] else line
edit _ line = line

-- What the terminal and the shell see of a key; the shell sees the whole line.
abbrev pub reaction : Key → Bool → List ℕ → List Call
reaction enter enabled line = putchar b'\n' ∷ (if enabled then on_line line ∷ [] else [])
reaction erase enabled [] = []
reaction erase enabled (c ∷ line) = backspace ∷ []
reaction (type c) enabled line = putchar c ∷ []
reaction _ enabled line = []

abbrev pub seen : Call → Call
seen (on_line b) = on_line (text b)
seen (putchar c) = putchar c
seen backspace = backspace

-- The driver's step as the editor's.
pub record Edits (key : Key) (line : List ℕ) (k : Keyboard) (r : Keyboard × List Call)
    : Type 0 where
  pub holds : Holds (edit key line) r.0
  pub calls : map seen r.1 ≡ reaction key k.shell_enabled line
  pub shift : r.0.shift ≡ elim key [ shift_key b ↦ b | _ ↦ k.shift ]
  pub caps : r.0.caps ≡ elim key [ caps_lock ↦ not k.caps | _ ↦ k.caps ]
  pub e0 : r.0.e0 ≡ elim key [ prefix ↦ true | extended ↦ false | _ ↦ k.e0 ]

glyph_unmapped :
    (code : ℕ) (shift caps : Bool)
    → code < 128
    → (raw code shift == 0) ≡ true
    → (glyph code shift caps == 0) ≡ true
glyph_unmapped code shift caps h no_char =
    unfold glyph_law in rw no_char at (glyph_law_holds shift caps code h)

glyph_facts :
    (code : ℕ) (shift caps : Bool)
    → code < 128
    → (raw code shift == 0) ≡ false
    → (typed code shift caps ≡ glyph code shift caps) × ((glyph code shift caps == 0) ≡ false)
unfolding glyph_law
glyph_facts code shift caps h some_char =
    let law : ((typed code shift caps == glyph code shift caps) && not (glyph code shift caps == 0))
        ≡ true =
      rw some_char at (glyph_law_holds shift caps code h) in
    ((==_iff _ _).0 (&&_left _ _ law), not-true _ (&&_right _ _ law))

module _ {line : List ℕ} {k : Keyboard} (h : Holds line k) where
  unchanged-Edits : Edits none line k (k, [])
  unchanged-Edits = record { holds = h; calls = refl; shift = refl; caps = refl; e0 = refl }

  enter-Edits :
      Edits enter line k
        (line_reset k, putchar b'\n' ∷ (if k.shell_enabled then on_line k.linebuf ∷ [] else []))
  enter-Edits = record {
    holds = line_reset-Holds h;
    calls = elim (Bool-cases k.shell_enabled) [
      | inl on ↦ rw on (ap (λ t. putchar b'\n' ∷ on_line t ∷ []) h.bytes)
      | inr off ↦ rw off
    ];
    shift = unfold line_reset in refl;
    caps = unfold line_reset in refl;
    e0 = unfold line_reset in refl;
  }

  type-Edits : (c : ℕ) → c ≢ 0 → Edits (type c) line k (line_push c k, putchar c ∷ [])
  type-Edits c ne = record {
    holds = line_push-Holds h c ne;
    calls = refl;
    shift = unfold line_push in ground arith;
    caps = unfold line_push in ground arith;
    e0 = unfold line_push in ground arith;
  }

erase-Edits :
    {line : List ℕ} {k : Keyboard}
    → Holds line k
    → Edits erase line k (if ltb 0 k.line_len then (line_pop k, backspace ∷ []) else (k, []))
erase-Edits {line = []} {k = k} h =
    let none_left : ltb 0 k.line_len ≡ false = ground (arith, h.len) in
    rw none_left (record { holds = h; calls = refl; shift = refl; caps = refl; e0 = refl })
erase-Edits {line = c ∷ line} {k = k} h =
    let some_left : ltb 0 k.line_len ≡ true = ground (arith, h.len) in
    rw some_left (record {
      holds = line_pop-Holds h;
      calls = refl;
      shift = unfold line_pop in ground arith;
      caps = unfold line_pop in ground arith;
      e0 = unfold line_pop in ground arith;
    })

key_press-Edits :
    {line : List ℕ} {k : Keyboard} (code : ℕ)
    → Holds line k
    → code < 128
    → Edits (pressed code k.shift k.caps) line k (key_press code k)
unfolding key_press
key_press-Edits {line} {k} code h small = elim (Bool-cases (code == 0x1C)) [
  | inl is_enter ↦ rw is_enter (enter-Edits h)
  | inr no_enter ↦ elim (Bool-cases (code == 0x0E)) [
    | inl is_erase ↦ rw (no_enter, is_erase) (erase-Edits h)
    | inr no_erase ↦ elim (Bool-cases (raw code k.shift == 0)) [
      | inl unmapped ↦
          rw (no_enter, no_erase, unmapped, glyph_unmapped code k.shift k.caps small unmapped)
            (unchanged-Edits h)
      | inr mapped ↦
          let facts = glyph_facts code k.shift k.caps small mapped in
          rw (no_enter, no_erase, mapped, facts.1, facts.0)
            (type-Edits h (glyph code k.shift k.caps) (ground (arith, facts.1)))
    ]
  ]
]

released_bit : (sc : ℕ) → sc < 256 → not (bit_and sc 0x80 == 0) ≡ leb 128 sc
released_bit sc h = ground (arith, bit_and_high 7 sc 1, bit_and_low 1 (sc / 2 ^ 7))

not-leb : (a b : ℕ) → not (leb a b) ≡ ltb b a
not-leb a b = ground arith

Holds-flags :
    {line : List ℕ} {k : Keyboard} (s c e : Bool)
    → Holds line k
    → Holds line (record k { shift = s; caps = c; e0 = e })
Holds-flags s c e h = record { size = h.size; len = h.len; room = h.room; bytes = h.bytes }

-- Each scancode is the key that `decode` names: the driver edits the line, tells the terminal and
-- the shell, and keeps the modifiers and the prefix, as the editor does. The buffer holds the line
-- with its terminator before and after.
pub keyboard_irq-Edits :
    {line : List ℕ} {k : Keyboard} (sc : ℕ)
    → Holds line k
    → sc < 256
    → Edits (decode sc k.e0 k.shift k.caps) line k (keyboard_irq sc k)
unfolding keyboard_irq
keyboard_irq-Edits {line} {k} sc h byte =
    rw (released_bit sc byte, bit_and_low 7 sc, not-leb 128 sc)
      (elim (Bool-cases (sc == 0xE0)) [
        | inl is_prefix ↦ rw is_prefix (record {
          holds = Holds-flags _ _ _ h;
          calls = refl;
          shift = refl;
          caps = refl;
          e0 = refl;
        })
        | inr no_prefix ↦ elim (Bool-cases k.e0) [
          | inl after ↦
              rw (no_prefix, after)
                (record {
                  holds = Holds-flags _ _ _ h;
                  calls = refl;
                  shift = refl;
                  caps = refl;
                  e0 = refl;
                })
          | inr plain ↦ elim (Bool-cases ((sc % 128 == 0x2A) || (sc % 128 == 0x36))) [
            | inl is_shift ↦
                rw (no_prefix, plain, is_shift)
                  (record {
                    holds = Holds-flags _ _ _ h;
                    calls = refl;
                    shift = refl;
                    caps = refl;
                    e0 = refl;
                  })
            | inr no_shift ↦ elim (Bool-cases (leb 128 sc)) [
              | inl up ↦
                  let not_down : ltb sc 128 ≡ false = ground arith in
                  elim (Bool-cases (sc % 128 == 0x3A)) [
                    | inl is_caps ↦
                        simp (no_prefix, plain, no_shift, up, is_caps, not_down) (unchanged-Edits h)
                    | inr no_caps ↦
                        simp (no_prefix, plain, no_shift, up, no_caps) (unchanged-Edits h)
                  ]
              | inr down ↦
                  let is_down : ltb sc 128 ≡ true = ground arith in
                  elim (Bool-cases (sc % 128 == 0x3A)) [
                    | inl is_caps ↦
                        simp (no_prefix, plain, no_shift, down, is_caps, is_down)
                          (record {
                            holds = Holds-flags _ _ _ h;
                            calls = refl;
                            shift = refl;
                            caps = refl;
                            e0 = sym plain;
                          })
                    | inr no_caps ↦
                        simp (no_prefix, plain, no_shift, down, no_caps)
                          (key_press-Edits (sc % 128) h (omega arith))
                  ]
            ]
          ]
        ]
      ])
