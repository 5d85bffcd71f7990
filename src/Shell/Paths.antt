-- ===== src/Shell/Paths.antt =====
-- `shell_canon_path` of kernel/arch/i386/shell/shell.c: the shape of its output, and what a `..` leaves.
use bobliu_os.Base.{
  ℕ, zero, suc, ◌+◌, ◌≤◌, ◌<◌, ◌≡◌, refl, ap, ◌∙◌, arith, List, [], ◌∷◌, ◌++◌, true, if◌then◌else◌,
  ◌==◌, ◌&&◌, ltb, Bool-cases, inl, inr, take, drop, length, length-take, length-append, get_or,
}
use bobliu_os.Shell.{
  Canon, pop_component, push_component, component, components, at_root, shell_canon_path,
  skip_slashes, component_len, candidate, max_path,
}
use bobliu_os.Libc.Str.{char_at}

-- A slash first, and room for the terminator; each remembered start is behind the slash.
record IsRooted (c : Canon) : Type 0 where
  rooted : char_at c.out ≡ b'/'
  fits : length c.out < max_path
  behind : (i : ℕ) → i < length c.starts → 1 ≤ get_or c.starts i 1

char_at-take : (n : ℕ) (xs : List ℕ) → 1 ≤ n → char_at (take n xs) ≡ char_at xs
char_at-take zero xs h = absurd (omega arith)
char_at-take (suc n) [] h = refl
char_at-take (suc n) (x ∷ xs) h = refl

char_at-append : (xs ys : List ℕ) → char_at xs ≡ b'/' → char_at (xs ++ ys) ≡ b'/'
char_at-append [] ys h = absurd (omega (arith, h))
char_at-append (x ∷ xs) ys h = h

pop-IsRooted :
    (out starts : List ℕ)
    → char_at out ≡ b'/'
    → length out < max_path
    → ((i : ℕ) → i < length starts → 1 ≤ get_or starts i 1)
    → IsRooted (pop_component (record { out = out; starts = starts }))
unfolding pop_component
pop-IsRooted out [] rooted fits behind = record { rooted = rooted; fits = fits; behind = behind }
pop-IsRooted out (start ∷ below) rooted fits behind = record {
  rooted = char_at-take start out (behind 0 (omega arith)) ∙ rooted;
  fits = omega (arith, length-take start out);
  behind = λ i inside. behind (suc i) (omega arith);
}

behind_cons :
    (start : ℕ) (starts : List ℕ)
    → 1 ≤ start
    → ((i : ℕ) → i < length starts → 1 ≤ get_or starts i 1)
    → (i : ℕ) → i < length (start ∷ starts)
    → 1 ≤ get_or (start ∷ starts) i 1
behind_cons start starts first rest zero inside = first
behind_cons start starts first rest (suc i) inside = rest i (omega arith)

-- `out` when a component is about to be written.
separated : List ℕ → List ℕ
separated out = if ltb 1 (length out) then out ++ (b'/' ∷ []) else out

separated_bounds :
    (out : List ℕ)
    → char_at out ≡ b'/'
    → (char_at (separated out) ≡ b'/')
      × (1 ≤ length (separated out))
      × (length (separated out) ≤ length out + 1)
unfolding separated
separated_bounds out rooted = elim (Bool-cases (ltb 1 (length out))) [
  | inl e ↦ rw e (
    char_at-append out (b'/' ∷ []) rooted,
    omega (arith, length-append out (b'/' ∷ [])),
    omega (arith, length-append out (b'/' ∷ [])),
  )
  | inr e ↦ rw e (rooted, nonempty out rooted, omega arith)
]
  where
    nonempty : (xs : List ℕ) → char_at xs ≡ b'/' → 1 ≤ length xs
    nonempty [] h = absurd (omega (arith, h))
    nonempty (x ∷ xs) h = omega arith

push-IsRooted :
    (name out starts : List ℕ)
    → char_at out ≡ b'/'
    → length out < max_path
    → ((i : ℕ) → i < length starts → 1 ≤ get_or starts i 1)
    → IsRooted (push_component name (record { out = out; starts = starts }))
unfolding push_component separated
push-IsRooted name out starts rooted fits behind =
    elim (Bool-cases (ltb (length starts) 64 && ltb (length out + 1 + length name + 1) max_path)) [
      | inl e ↦
          let (slash, first, bound) = separated_bounds out rooted in
          rw e (record {
            rooted = char_at-append (separated out) name slash;
            fits = ground (arith, e, length-append (separated out) name);
            behind = behind_cons (length (separated out)) starts first behind;
          })
      | inr e ↦ rw e (record { rooted = rooted; fits = fits; behind = behind })
    ]

pop_component-IsRooted : (c : Canon) → IsRooted c → IsRooted (pop_component c)
pop_component-IsRooted c r = pop-IsRooted c.out c.starts r.rooted r.fits r.behind

push_component-IsRooted :
    (name : List ℕ) (c : Canon) → IsRooted c → IsRooted (push_component name c)
push_component-IsRooted name c r = push-IsRooted name c.out c.starts r.rooted r.fits r.behind

component-IsRooted : (name : List ℕ) (c : Canon) → IsRooted c → IsRooted (component name c)
unfolding component
component-IsRooted name c r = elim (Bool-cases ((length name == 1) && (get_or name 0 0 == b'.'))) [
  | inl e ↦ rw e r
  | inr e ↦
      elim (Bool-cases
        ((length name == 2) && ((get_or name 0 0 == b'.') && (get_or name 1 0 == b'.')))) [
          | inl g ↦ rw (e, g) (pop_component-IsRooted c r)
          | inr g ↦ rw (e, g) (push_component-IsRooted name c r)
        ]
]

components-IsRooted :
    (fuel : ℕ) (p : List ℕ) (c : Canon) → IsRooted c → IsRooted (components fuel p c)
unfolding components
components-IsRooted zero p c r = r
components-IsRooted (suc fuel) p c r =
    let q = skip_slashes p in
    let n = component_len (length q) q in
    elim (Bool-cases (char_at q == 0)) [
      | inl e ↦ rw e r
      | inr e ↦ rw e (
          components-IsRooted fuel (drop n q) (component (take n q) c)
            (component-IsRooted (take n q) c r))
    ]

at_root-IsRooted : IsRooted at_root
at_root-IsRooted = record {
  rooted = refl;
  fits = omega arith;
  behind = λ i inside. absurd (omega arith);
}

-- Whatever the directory and the argument, the path that `shell_canon_path` gives starts with a
-- slash and leaves room for its terminator in the 256 bytes of the buffer.
pub shell_canon_path-IsAbsolute :
    (last : ℕ) (cwd given : List ℕ)
    → (char_at (shell_canon_path last cwd given) ≡ b'/')
      × (length (shell_canon_path last cwd given) < max_path)
unfolding shell_canon_path
shell_canon_path-IsAbsolute last cwd given =
    let tmp = candidate last cwd given in
    let r : IsRooted (components (length tmp) tmp at_root) =
      components-IsRooted (length tmp) tmp at_root at_root-IsRooted in
    elim (Bool-cases (length (components (length tmp) tmp at_root).out == 0)) [
      | inl e ↦ rw e (refl, omega arith)
      | inr e ↦ rw e (r.rooted, r.fits)
    ]

take-append {ℓ} : {A : Type ℓ} (xs ys : List A) → take (length xs) (xs ++ ys) ≡ xs
take-append [] ys = refl
take-append (x ∷ xs) ys = ap (λ (zs : List _). x ∷ zs) (take-append xs ys)

both_below : {a b c d : ℕ} → a < b → c < d → (ltb a b && ltb c d) ≡ true
both_below h k = ground (arith, h, k)

-- A `..` right after a component that was written takes the component away again; behind the root
-- nothing else stays, but behind a longer path the slash that was written before the component does.
pub push-pop :
    (name : List ℕ) (c : Canon)
    → length c.starts < 64
    → length c.out + 1 + length name + 1 < max_path
    → pop_component (push_component name c) ≡ record {
      out = if ltb 1 (length c.out) then c.out ++ (b'/' ∷ []) else c.out;
      starts = c.starts;
    }
unfolding push_component pop_component
push-pop name c deep room =
    let out : List ℕ = if ltb 1 (length c.out) then c.out ++ (b'/' ∷ []) else c.out in
    let written : (ltb (length c.starts) 64 && ltb (length c.out + 1 + length name + 1) max_path)
        ≡ true =
      both_below deep room in
    let back : List ℕ → Canon = λ o. record { out = o; starts = c.starts } in
    rw written (ap back (take-append out name))
