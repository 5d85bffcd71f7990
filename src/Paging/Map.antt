-- ===== src/Paging/Map.antt =====
-- `paging_map`, `paging_unmap` and `paging_translate` against the mapping that they maintain.
use bobliu_os.Base.{
  ℕ, ◌+◌, ◌*◌, ◌/◌, ◌%◌, ◌^◌, ◌<◌, ◌≡◌, ◌⊎◌, refl, arith, Bool, true, ◌&&◌, if◌then◌else◌, ◌==◌,
  Option, none, some, Bool-cases, inl, inr, bit_and, bit_or,
}
use bobliu_os.Base.Bits.{bit_and_low, bit_or_fields}
use bobliu_os.Run.{Run, done, halt, ◌>>=◌, paging_oom}
use bobliu_os.Pmm.Alloc.{Keeps}
use bobliu_os.Paging.{
  Paging, PageDirectory, load, store, page_mask, p_present, pde_index, pte_index, translate,
  paging_map, paging_map_in, get_or_alloc_pt, get_or_alloc_pt_in, with_table, set_entry,
}
use bobliu_os.Paging.Entries.{
  is_present, IsEntry, page_mask_eq, has_present, pde_index_eq, pte_index_eq, pte-IsEntry,
  pte_in-IsEntry,
}
use bobliu_os.Paging.Walk.{walk, IsPaged}
use bobliu_os.Paging.Walk.Change.{IsSameRoot-IsPaged, entry-IsSameRoot, entry-walk, mapped}
use bobliu_os.Paging.Table.{IsReady, Readies, get_or_alloc_pt-Readies, get_or_alloc_pt_in-Readies}

-- The physical address, where the walk gives the frame; 0 where nothing is mapped.
abbrev pub address : Option ℕ → ℕ → ℕ
address none w = 0
address (some f) w = f * 4096 + w % 4096

pub translate_eq :
    (mem : ℕ → ℕ) (pd w : ℕ)
    → ((a : ℕ) → mem a < 2 ^ 32)
    → w < 2 ^ 32
    → translate mem pd w ≡ address (walk mem pd (w / 2 ^ 22) (w / 2 ^ 12 % 1024)) w
unfolding translate
translate_eq mem pd w words below =
    let e : ℕ = load mem pd (w / 2 ^ 22) in
    let q : ℕ = load mem (e / 4096 * 4096) (w / 2 ^ 12 % 1024) in
    let base : bit_and e page_mask ≡ e / 4096 * 4096 = page_mask_eq e (words _) in
    let frame : bit_and q page_mask ≡ q / 4096 * 4096 = page_mask_eq q (words _) in
    let offset : bit_and w 0xFFF ≡ w % 4096 = bit_and_low 12 w in
    let sum : bit_or (q / 4096 * 4096) (w % 4096) ≡ q / 4096 * 4096 + w % 4096 =
      bit_or_fields 12 (q / 4096) (w % 4096) (omega arith) in
    rw (pde_index_eq w below, pte_index_eq w, base, has_present e, has_present q)
      (elim (Bool-cases (is_present e)) [
        | inl g ↦ elim (Bool-cases (is_present q)) [
          | inl k ↦ rw (g, k, frame, offset, sum) refl
          | inr k ↦ rw (g, k) refl
        ]
        | inr g ↦ rw g refl
      ])

same_page :
    (v w : ℕ)
    → ((v / 2 ^ 22 == w / 2 ^ 22) && (v / 2 ^ 12 % 1024 == w / 2 ^ 12 % 1024))
      ≡ (w / 4096 == v / 4096)
same_page v w = ground arith

-- The frame that the page of an address is mapped to.
abbrev pub frame_of : (ℕ → ℕ) → ℕ → ℕ → Option ℕ
frame_of mem pd w = walk mem pd (w / 2 ^ 22) (w / 2 ^ 12 % 1024)

-- The state `t` maps what `s` maps, but the page of `v` to the frame that `r` gives.
pub record Remaps (pd v : ℕ) (r : Option ℕ) (s t : Paging) : Type 0 where
  pub root : t.pd ≡ s.pd
  pub paged : IsPaged pd t.mem t.pmm
  pub at :
      (w : ℕ)
      → w < 2 ^ 32
      → translate t.mem pd w ≡ (if w / 4096 == v / 4096 then address r w else translate s.mem pd w)
  pub frames :
      (w : ℕ)
      → w < 2 ^ 32
      → frame_of t.mem pd w ≡ (if w / 4096 == v / 4096 then r else frame_of s.mem pd w)
  pub kept : Keeps s.pmm t.pmm

-- The entry for the page is written into a table that is ready.
pub set_entry-Remaps :
    {pd : ℕ} {s : Paging} {pt : ℕ} {t : Paging} (v x : ℕ)
    → ((a : ℕ) → s.mem a < 2 ^ 32)
    → v < 2 ^ 32
    → x < 2 ^ 32
    → IsReady pd (v / 2 ^ 22) s pt t
    → Remaps pd v (mapped x) s (set_entry (v / 2 ^ 12 % 1024) x pt t)
set_entry-Remaps {pd} {s} {pt} {t} v x words below fits r =
    let d : ℕ = v / 2 ^ 22 in
    let i : ℕ = v / 2 ^ 12 % 1024 in
    let hd : d < 1024 = omega arith in
    let root = entry-IsSameRoot r.paged d i x hd (omega arith) r.here fits in
    let mem2 : ℕ → ℕ = store (load t.mem pd d / 4096 * 4096) i x t.mem in
    let frames : (w : ℕ)
        → w < 2 ^ 32
        → frame_of mem2 pd w ≡ (if w / 4096 == v / 4096 then mapped x else frame_of s.mem pd w) =
      λ w h.
        let e : ℕ = w / 2 ^ 22 in
        let j : ℕ = w / 2 ^ 12 % 1024 in
        let he : e < 1024 = omega arith in
        let hj : j < 1024 = omega arith in
        rw
          (
            entry-walk r.paged d i x hd (omega arith) r.here fits e j he hj,
            r.same e j he hj,
            same_page v w,
          )
          refl in
    rw r.table (record {
      root = r.root;
      paged = IsSameRoot-IsPaged root r.paged;
      at = λ w h.
          rw (translate_eq mem2 pd w root.words h, translate_eq s.mem pd w words h, frames w h)
            (elim (Bool-cases (w / 4096 == v / 4096)) [ inl g ↦ rw g refl | inr g ↦ rw g refl ]);
      frames = frames;
      kept = r.kept;
    })

-- The address that the code computes with is the page's.
pub page_index :
    (v : ℕ)
    → v < 2 ^ 32
    → (pde_index (bit_and v page_mask) ≡ v / 2 ^ 22)
      × (pte_index (bit_and v page_mask) ≡ v / 2 ^ 12 % 1024)
page_index v h =
    let base = page_mask_eq v h in
    rw (base, pde_index_eq (v / 4096 * 4096) (omega arith), pte_index_eq (v / 4096 * 4096))
      (omega arith, omega arith)

pub mapped_entry : (f x : ℕ) → IsEntry f x → mapped x ≡ some f
mapped_entry f x e =
    let odd : is_present x ≡ true = ground (arith, e.present) in rw (odd, e.frame) refl

-- A run that halts for want of a frame for a table, or returns with the page mapped.
abbrev pub MapsPage : ℕ → ℕ → Option ℕ → Paging → Run (Bool × Paging) → Type 0
MapsPage pd v r s run =
    (run ≡ halt paging_oom) ⊎ ((t : Paging) × (run ≡ done (true, t)) × Remaps pd v r s t)

with_table-MapsPage :
    {pd : ℕ} {s : Paging} (v f x : ℕ) (run : Run (Option ℕ × Paging))
    → ((a : ℕ) → s.mem a < 2 ^ 32)
    → v < 2 ^ 32
    → IsEntry f x
    → Readies pd (v / 2 ^ 22) s run
    → MapsPage pd v (some f) s (run >>= with_table (set_entry (v / 2 ^ 12 % 1024) x))
with_table-MapsPage v f x run words below entry (inl e) = rw e (inl refl)
with_table-MapsPage {pd} {s} v f x run words below entry (inr (pt, t, e, r)) =
    rw e
      (inr (_, refl, rw (← mapped_entry f x entry) (set_entry-Remaps v x words below entry.word r)))

-- Mapping a page in a well-formed address space, with flags that fit the entry's twelve bits, either
-- halts for want of a frame for a table, or succeeds: then the space stays
-- well-formed, every address in the page translates to the same offset in the frame, and every other
-- address translates as before.
pub paging_map-MapsPage :
    (v p flags : ℕ) (s : Paging)
    → IsPaged s.pd s.mem s.pmm
    → v < 2 ^ 32
    → p < 2 ^ 32
    → flags < 4096
    → MapsPage s.pd v (some (p / 4096)) s (paging_map v p flags s)
unfolding paging_map
paging_map-MapsPage v p flags s paged hv hp low =
    let at = page_index v hv in
    let va : ℕ = bit_and v page_mask in
    let va_below : va < 2 ^ 32 = omega (arith, page_mask_eq v hv) in
    let x : ℕ = bit_or (bit_and p page_mask) (bit_or flags p_present) in
    let entry : IsEntry (p / 4096) x =
      rw (page_mask_eq p hp) (pte-IsEntry (p / 4096) flags (omega arith) low) in
    rw at.1 (
      with_table-MapsPage v (p / 4096) x (get_or_alloc_pt va true flags s) paged.words hv entry
        (rw at.0 at (get_or_alloc_pt-Readies s va va_below flags paged)))

-- The same of `paging_map_in`, for the address space of the directory that it is given.
pub paging_map_in-MapsPage :
    (dir : PageDirectory) (v p flags : ℕ) (s : Paging)
    → IsPaged dir.pd_virt s.mem s.pmm
    → v < 2 ^ 32
    → p < 2 ^ 32
    → flags < 4096
    → MapsPage dir.pd_virt v (some (p / 4096)) s (paging_map_in dir v p flags s)
unfolding paging_map_in
paging_map_in-MapsPage dir v p flags s paged hv hp low =
    let at = page_index v hv in
    let va : ℕ = bit_and v page_mask in
    let va_below : va < 2 ^ 32 = omega (arith, page_mask_eq v hv) in
    let x : ℕ = bit_or (bit_or (bit_and p page_mask) flags) p_present in
    let entry : IsEntry (p / 4096) x =
      rw (page_mask_eq p hp) (pte_in-IsEntry (p / 4096) flags (omega arith) low) in
    rw at.1 (
      with_table-MapsPage v (p / 4096) x (get_or_alloc_pt_in dir va flags true s) paged.words hv
        entry (rw at.0 at (get_or_alloc_pt_in-Readies s va va_below dir flags paged)))
