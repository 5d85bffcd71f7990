-- ===== src/Boot/Modules.antt =====
-- The searches of kernel/arch/i386/boot/multiboot_modules.c.
use bobliu_os.Base.{
  ℕ, zero, suc, ◌+◌, ◌≤◌, ◌<◌, ◌≡◌, refl, arith, List, Bool, true, false, ◌==◌, Option, none, some,
  subst, ==_iff, Bool-cases, inl, inr,
}
use bobliu_os.Multiboot.{MultibootInfo, MultibootModule}
use bobliu_os.Libc.Str.{char_at}
use bobliu_os.Boot.{
  Boot, ModuleView, view, has_mods, names, find_by_string, mb1_find_module_by_string, find_range,
  multiboot1_find_module,
}

abbrev pub range : Option ModuleView → Option (ℕ × ℕ)
range none = none
range (some v) = some (v.start, v.end)

module _ (string_at : ℕ → List ℕ) where
  -- The first module that has the needle in its string, or none.
  pub data FirstNamed (needle : List ℕ) (mods : ℕ → MultibootModule) (i n : ℕ)
      : Option ModuleView → Type 0 where
    found :
        (k : ℕ)
        → i ≤ k
        → k < n
        → names string_at needle (mods k) ≡ true
        → ((j : ℕ) → i ≤ j → j < k → names string_at needle (mods j) ≡ false)
        → FirstNamed needle mods i n (some (view (mods k)))
    absent :
        ((j : ℕ) → i ≤ j → j < n → names string_at needle (mods j) ≡ false)
        → FirstNamed needle mods i n none

  from_here :
      (p : ℕ → Bool) (i k : ℕ)
      → p i ≡ false
      → ((j : ℕ) → i + 1 ≤ j → j < k → p j ≡ false)
      → (j : ℕ) → i ≤ j
      → j < k
      → p j ≡ false
  from_here p i k here later j h below = elim (Bool-cases (i == j)) [
    | inl e ↦ subst (λ n. p n ≡ false) ((==_iff i j).0 e) here
    | inr e ↦ later j (ground (arith, e)) below
  ]

  extended :
      (needle : List ℕ) (mods : ℕ → MultibootModule) (i count : ℕ) {r : Option ModuleView}
      → names string_at needle (mods i) ≡ false
      → FirstNamed needle mods (i + 1) (i + 1 + count) r
      → FirstNamed needle mods i (i + suc count) r
  extended needle mods i count miss (found k low high e before) =
      found k (omega arith) (omega arith) e
        (from_here (λ j. names string_at needle (mods j)) i k miss before)
  extended needle mods i count miss (absent none_there) = absent (λ j h below.
      from_here (λ j. names string_at needle (mods j)) i (i + 1 + count) miss none_there j h
        (omega arith))

  find_by_string-FirstNamed :
      (count i : ℕ) (mods : ℕ → MultibootModule) (needle : List ℕ)
      → FirstNamed needle mods i (i + count) (find_by_string string_at count i mods needle)
  unfolding find_by_string
  find_by_string-FirstNamed zero i mods needle = absent (λ j h k. absurd (omega arith))
  find_by_string-FirstNamed (suc count) i mods needle =
      elim (Bool-cases (names string_at needle (mods i))) [
        | inl e ↦ rw e (found i (omega arith) (omega arith) e (λ j h k. absurd (omega arith)))
        | inr e ↦
            rw e
              (extended needle mods i count e (find_by_string-FirstNamed count (i + 1) mods needle))
      ]

  find_range_lem :
      (count i : ℕ) (mods : ℕ → MultibootModule) (needle : List ℕ)
      → (char_at needle == 0) ≡ false
      → find_range string_at count i mods (some needle)
        ≡ range (find_by_string string_at count i mods needle)
  unfolding find_range find_by_string
  find_range_lem zero i mods needle h = refl
  find_range_lem (suc count) i mods needle h = elim (Bool-cases (names string_at needle (mods i))) [
    | inl e ↦ rw (h, e) refl
    | inr e ↦ rw (h, e) (find_range_lem count (i + 1) mods needle h)
  ]

  -- Where the boot information has modules and the needle is not empty, `mb1_find_module_by_string` gives
  -- the first module that has the needle in its string, or fails when there is none, and
  -- `multiboot1_find_module` gives the same module's start and end.
  pub mb1_find_module_by_string-FirstNamed :
      (b : Boot) (mbi : MultibootInfo) (needle : List ℕ)
      → b.mbi ≡ some mbi
      → has_mods mbi ≡ true
      → (char_at needle == 0) ≡ false
      → FirstNamed needle mbi.mods 0 mbi.mods_count (mb1_find_module_by_string string_at needle b)
        × (multiboot1_find_module string_at b.mbi (some needle)
            ≡ range (mb1_find_module_by_string string_at needle b))
  unfolding mb1_find_module_by_string multiboot1_find_module
  mb1_find_module_by_string-FirstNamed b mbi needle here mods h =
      let zero_plus : 0 + mbi.mods_count ≡ mbi.mods_count = omega arith in
      (
        simp (here, mods)
            (subst
              (λ n.
                FirstNamed needle mbi.mods 0 n
                  (find_by_string string_at mbi.mods_count 0 mbi.mods needle))
              zero_plus (find_by_string-FirstNamed mbi.mods_count 0 mbi.mods needle)),
        simp (here, mods) (find_range_lem mbi.mods_count 0 mbi.mods needle h),
      )
