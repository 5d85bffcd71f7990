-- ===== src/Paging/Unmap.antt =====
-- `paging_unmap` of paging.c on both of its branches.
use bobliu_os.Base.{
  ℕ, ◌/◌, ◌^◌, ◌<◌, ◌≡◌, ◌⊎◌, refl, sym, ◌∙◌, arith, Bool, true, false, none, Bool-cases, inl, inr,
}
use bobliu_os.Run.{Run, done}
use bobliu_os.Paging.{
  Paging, load, p_present, has, translate, paging_unmap, get_or_alloc_pt, pde_upgrade, wanted,
}
use bobliu_os.Paging.Entries.{is_present, has_present, odd_of_present}
use bobliu_os.Paging.Walk.{IsPaged}
use bobliu_os.Paging.Table.{unchanged}
use bobliu_os.Paging.Map.{Remaps, page_index, set_entry-Remaps, translate_eq}

-- There was no table for the page, so that no address of it was mapped; or the page is mapped no more.
abbrev pub Unmaps : ℕ → Paging → Run (Bool × Paging) → Type 0
Unmaps v s run =
    ((run ≡ done (false, s))
      × ((w : ℕ) → w < 2 ^ 32 → w / 4096 ≡ v / 4096 → translate s.mem s.pd w ≡ 0))
    ⊎ ((t : Paging) × (run ≡ done (true, t)) × Remaps s.pd v none s t)

no_upgrade : (pd d : ℕ) (mem : ℕ → ℕ) → pde_upgrade pd d 0 mem ≡ mem
unfolding pde_upgrade wanted
no_upgrade pd d mem = refl

no_table :
    (s : Paging) (v w : ℕ)
    → IsPaged s.pd s.mem s.pmm
    → has p_present (load s.mem s.pd (v / 2 ^ 22)) ≡ false
    → w < 2 ^ 32
    → w / 4096 ≡ v / 4096
    → translate s.mem s.pd w ≡ 0
no_table s v w paged absent below page =
    let d : w / 2 ^ 22 ≡ v / 2 ^ 22 = omega (arith, page) in
    let off : is_present (load s.mem s.pd (v / 2 ^ 22)) ≡ false =
      sym (has_present (load s.mem s.pd (v / 2 ^ 22))) ∙ absent in
    rw (translate_eq s.mem s.pd w paged.words below, d, off) refl

-- In a well-formed address space `paging_unmap` returns. It fails and changes nothing only when there
-- is no table for the page, so that none of its addresses was mapped; otherwise it succeeds, the
-- space stays well-formed, no address of the page is mapped, and every other translates as before.
pub paging_unmap-Unmaps :
    (v : ℕ) (s : Paging) → IsPaged s.pd s.mem s.pmm → v < 2 ^ 32 → Unmaps v s (paging_unmap v s)
unfolding paging_unmap get_or_alloc_pt
paging_unmap-Unmaps v s paged hv =
    let at = page_index v hv in
    let d : ℕ = v / 2 ^ 22 in
    let pde : ℕ = load s.mem s.pd d in
    rw (at.0, at.1)
      (elim (Bool-cases (has p_present pde)) [
        | inl e ↦
            rw (e, no_upgrade s.pd d s.mem)
              (inr (
                _,
                refl,
                set_entry-Remaps v 0 paged.words hv (omega arith)
                    (unchanged paged d (omega arith) (odd_of_present pde e)),
              ))
        | inr e ↦ rw e (inl (refl, λ w below page. no_table s v w paged e below page))
      ])
