-- ===== src/Start/Frames.antt =====
-- The frames that `kernel_main` of kernel/kernel/kernel.c takes before the page tables are built, and
-- gives back after.
use bobliu_os.Base.{
  ℕ, ◌*◌, ◌/◌, ◌<◌, ◌≡◌, ◌≢◌, ◌⊎◌, refl, sym, ap, ◌∙◌, arith, false, ◌==◌, ==_refl, Bool-cases, inl,
  inr,
}
use bobliu_os.Run.{done}
use bobliu_os.Pmm.{Pmm, bit_test, pmm_alloc_frame, pmm_free_frame}
use bobliu_os.Pmm.Inv.{IsValid}
use bobliu_os.Pmm.Alloc.{Keeps, taken-Keeps, Freed, alloc_first_fit, free_frame_cases}
use bobliu_os.Start.{free_tested}

-- The address is 0, or that of a frame in use.
abbrev pub IsHeld : ℕ → Pmm → Type 0
IsHeld p s = (p ≡ 0) ⊎ ((f : ℕ) × (p ≡ f * 4096) × (f < s.total_frames) × (bit_test s.bitmap f ≢ 0))

pub IsHeld-kept :
    {p : ℕ} (s t : Pmm) → Keeps s t → t.total_frames ≡ s.total_frames → IsHeld p s → IsHeld p t
IsHeld-kept s t kept total (inl e) = inl e
IsHeld-kept s t kept total (inr (f, e, inside, used)) =
    inr (f, e, omega (arith, inside, total), kept f used)

-- What an allocation gives is held.
pub record IsAllocated (s : Pmm) (r : ℕ × Pmm) : Type 0 where
  pub held : IsHeld r.0 r.1
  pub valid : IsValid r.1
  pub kept : Keeps s r.1
  pub total : r.1.total_frames ≡ s.total_frames
  pub fresh : (r.0 ≡ 0) ⊎ (bit_test s.bitmap (r.0 / 4096) ≡ 0)

pub alloc-IsAllocated : (s : Pmm) → IsValid s → IsAllocated s (pmm_alloc_frame s)
alloc-IsAllocated s v = elim (alloc_first_fit s v) [
  | inl (f, inside, at, before, taken, valid) ↦
      let frame : f * 4096 / 4096 ≡ f = omega arith in
      let bit : bit_test (pmm_alloc_frame s).1.bitmap f ≡ 1 = taken.bits f ∙ rw (==_refl f) refl in
      record {
        held =
            inr
              (f, at, omega (arith, inside, taken.total), λ bad. absurd (omega (arith, bad, bit)));
        valid = valid;
        kept = taken-Keeps taken;
        total = taken.total;
        fresh = inr (
            ap (λ (x : ℕ). bit_test s.bitmap (x / 4096)) at
            ∙ ap (λ (x : ℕ). bit_test s.bitmap x) frame
            ∙ taken.was_free);
      }
  | inr (used, at, same) ↦
      rw same (record { held = inl at; valid = v; kept = λ f u. u; total = refl; fresh = inl at })
]

-- The address is 0, or its frame is free.
abbrev pub IsBack : ℕ → Pmm → Type 0
IsBack p s = (p ≡ 0) ⊎ (bit_test s.bitmap (p / 4096) ≡ 0)

pub IsBack-free :
    (s t : Pmm) (p : ℕ)
    → ((g : ℕ) → bit_test s.bitmap g ≡ 0 → bit_test t.bitmap g ≡ 0)
    → IsBack p s
    → IsBack p t
IsBack-free s t p free (inl e) = inl e
IsBack-free s t p free (inr e) = inr (free (p / 4096) e)

-- The frame of `p` is given back, if there is one, and is free; no other changes.
pub record IsSpared (p : ℕ) (s t : Pmm) : Type 0 where
  pub valid : IsValid t
  pub total : t.total_frames ≡ s.total_frames
  pub others :
      (g : ℕ) → (p ≡ 0) ⊎ (g ≢ p / 4096) → bit_test s.bitmap g ≢ 0 → bit_test t.bitmap g ≢ 0
  pub back : IsBack p t
  pub free : (g : ℕ) → bit_test s.bitmap g ≡ 0 → bit_test t.bitmap g ≡ 0

freed :
    (p : ℕ) (s : Pmm)
    → p ≢ 0
    → IsHeld p s
    → Freed p s (pmm_free_frame p s)
    → (t : Pmm) × (pmm_free_frame p s ≡ done t) × IsSpared p s t
freed p s some_frame (inl zero_at) c = absurd (some_frame zero_at)
freed p s some_frame (inr (f, at, inside, used)) (inl (crooked, r)) =
    absurd (crooked (omega (arith, at)))
freed p s some_frame (inr (f, at, inside, used)) (inr (inl (straight, past, r))) =
    absurd (omega (arith, at, inside, past))
freed p s some_frame (inr (f, at, inside, used)) (inr (inr (inl (straight, below, free, r)))) =
    let frame : p / 4096 ≡ f = omega (arith, at) in
    absurd (used (ap (λ (x : ℕ). bit_test s.bitmap x) (sym frame) ∙ free))
freed p s some_frame held (inr (inr (inr (straight, below, u, (t, r, k))))) = (
  t,
  r,
  record {
    valid = k.valid;
    total = k.total;
    others = λ g out used free. elim out [
      | inl zero_at ↦ absurd (some_frame zero_at)
      | inr other ↦
          let ne : (p / 4096 == g) ≡ false = ground (arith, other) in
          used (sym (k.bits g ∙ rw ne refl) ∙ free)
    ];
    back = inr (k.bits (p / 4096) ∙ rw (==_refl (p / 4096)) refl);
    free = λ g e. ground (arith, k.bits g, e);
  },
)

pub free_tested-IsSpared :
    (p : ℕ) (s : Pmm)
    → IsValid s
    → IsHeld p s
    → (t : Pmm) × (free_tested p s ≡ done t) × IsSpared p s t
free_tested-IsSpared p s v h = elim (Bool-cases (p == 0)) [
  | inl e ↦ rw e (
    s,
    refl,
    record {
      valid = v;
      total = refl;
      others = λ g out used. used;
      back = inl (ground (arith, e));
      free = λ g f. f;
    },
  )
  | inr e ↦ rw e (freed p s (ground (arith, e)) h (free_frame_cases p s v))
]
