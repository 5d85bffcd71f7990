-- ===== src/Pmm/Init/After.antt =====
-- Sequences of allocations and releases after `pmm_init` of kernel/arch/i386/mm/pmm.c.
use bobliu_os.Base.{ℕ, ◌/◌, ◌≡◌, refl, sym, ◌∙◌, ap, arith, inl, inr, ◌==◌, Bool-cases}
use bobliu_os.Run.{done, halt}
use bobliu_os.Pmm.{Pmm, bit_test, pmm_alloc_frame, pmm_free_frame}
use bobliu_os.Pmm.Inv.{IsValid}
use bobliu_os.Pmm.Alloc.{Keeps, taken-Keeps, Freed, alloc_first_fit, free_frame_cases}

-- What allocations, and releases of frames that were free at first, make of `t`, in any order.
pub data After (t : Pmm) : Pmm → Type 0 where
  start : After t t
  allocated : {s u : Pmm} → After t s → (pmm_alloc_frame s).1 ≡ u → After t u
  released :
      {s u : Pmm} (p : ℕ)
      → After t s
      → bit_test t.bitmap (p / 4096) ≡ 0
      → pmm_free_frame p s ≡ done u
      → After t u

-- What was in use at first is in use still.
pub record Holds (t s : Pmm) : Type 0 where
  pub valid : IsValid s
  pub total : s.total_frames ≡ t.total_frames
  pub kept : Keeps t s

alloc-Holds : (t s : Pmm) → Holds t s → Holds t (pmm_alloc_frame s).1
alloc-Holds t s k = elim (alloc_first_fit s k.valid) [
  | inl (f, inside, at, before, taken, valid) ↦ record {
    valid = valid;
    total = taken.total ∙ k.total;
    kept = λ g used. taken-Keeps taken g (k.kept g used);
  }
  | inr (used, at, same) ↦ rw same k
]

free-Holds :
    (t s u : Pmm) (p : ℕ)
    → Holds t s
    → bit_test t.bitmap (p / 4096) ≡ 0
    → pmm_free_frame p s ≡ done u
    → Freed p s (pmm_free_frame p s)
    → Holds t u
free-Holds t s u p k free e (inl (crooked, r)) =
    let broken : halt _ ≡ done u = sym r ∙ e in cc broken
free-Holds t s u p k free e (inr (inl (straight, past, r))) =
    let broken : halt _ ≡ done u = sym r ∙ e in cc broken
free-Holds t s u p k free e (inr (inr (inl (straight, below, f, r)))) =
    let broken : halt _ ≡ done u = sym r ∙ e in cc broken
free-Holds t s u p k free e (inr (inr (inr (straight, below, used, (w, r, d))))) =
    let same : done w ≡ done u = sym r ∙ e in
    let same' : w ≡ u = cc same in
    rw (← same') (record {
      valid = d.valid;
      total = d.total ∙ k.total;
      kept = λ g was now. elim (Bool-cases (p / 4096 == g)) [
        | inl here ↦
            let at : p / 4096 ≡ g = ground (arith, here) in
            was (ap (λ (x : ℕ). bit_test t.bitmap x) (sym at) ∙ free)
        | inr other ↦ k.kept g was (sym (d.bits g ∙ rw other refl) ∙ now)
      ];
    })

pub After-Holds : {t s : Pmm} → IsValid t → After t s → Holds t s
After-Holds v start = record { valid = v; total = refl; kept = λ f used. used }
After-Holds {t} v (allocated {s = s} before e) = rw (← e) (alloc-Holds t s (After-Holds v before))
After-Holds {t} {s = u} v (released {s = s} p before free e) =
    let k = After-Holds v before in free-Holds t s u p k free e (free_frame_cases p s k.valid)
