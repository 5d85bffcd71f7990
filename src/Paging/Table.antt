-- ===== src/Paging/Table.antt =====
-- `alloc_table`, and the two routines of paging.c that find or make the table for an address.
use bobliu_os.Base.{
  ℕ, ◌*◌, ◌/◌, ◌%◌, ◌^◌, ◌<◌, ◌≡◌, ◌≢◌, ◌⊎◌, refl, sym, ap, ◌∙◌, arith, true, if◌then◌else◌, ◌==◌,
  Option, some, Bool-cases, inl, inr, bit_and, bit_or,
}
use bobliu_os.Run.{Run, done, halt, ◌>>=◌, paging_oom}
use bobliu_os.Pmm.{Pmm, pmm_alloc_frame}
use bobliu_os.Pmm.Inv.{IsValid}
use bobliu_os.Pmm.Alloc.{IsTaken, Keeps, taken-Keeps, alloc_first_fit}
use bobliu_os.Paging.{
  Paging, PageDirectory, load, store, clear_table, alloc_table, page_mask, p_present, p_rw, p_user,
  has, pde_index, wanted, table_flags, pde_upgrade, get_or_alloc_pt, get_or_alloc_pt_in,
}
use bobliu_os.Paging.Entries.{
  odd_of_present, even_of_absent, IsLike, IsEntry, page_mask_eq, pde_index_eq, or_flags-IsLike,
  or-IsEntry, wanted_even, table_flags_odd,
}
use bobliu_os.Paging.Walk.{walk, IsPaged}
use bobliu_os.Paging.Walk.Change.{
  IsSameRoot-IsPaged, flags-IsSameRoot, flags-walk, grown-IsPaged, grown-walk, grown_entry,
}

-- A new table is a frame that was free.
pub record IsNew (pmm : Pmm) (f : ℕ) (pmm2 : Pmm) : Type 0 where
  pub taken : IsTaken f pmm pmm2
  pub valid : IsValid pmm2
  pub small : f < 2 ^ 20

-- The state after it is filled with zeros.
abbrev pub with_new : ℕ → Pmm → Paging → Paging
with_new f pmm s = record s { mem = clear_table 1024 0 (f * 4096) s.mem; pmm = pmm }

abbrev pub Allocates : Paging → Run (ℕ × Paging) → Type 0
Allocates s r =
    (r ≡ halt paging_oom)
    ⊎ ((f : ℕ) × (pmm : Pmm) × (r ≡ done (f * 4096, with_new f pmm s)) × IsNew s.pmm f pmm)

pub alloc_table-Allocates : (s : Paging) → IsValid s.pmm → Allocates s (alloc_table s)
unfolding alloc_table
alloc_table-Allocates s v = elim (alloc_first_fit s.pmm v) [
  | inl (f, inside, at, before, taken, valid) ↦ elim (Bool-cases ((pmm_alloc_frame s.pmm).0 == 0)) [
    | inl e ↦ rw e (inl refl)
    | inr e ↦
        rw (e, at)
          (inr (
            f,
            _,
            refl,
            record { taken = taken; valid = valid; small = omega (arith, v.small, inside) },
          ))
  ]
  | inr (used, at, same) ↦ rw at (inl refl)
]

-- The table for entry `d` of the directory at `pd` is there, and nothing that is mapped has changed.
pub record IsReady (pd d : ℕ) (s : Paging) (pt : ℕ) (t : Paging) : Type 0 where
  pub root : t.pd ≡ s.pd
  pub paged : IsPaged pd t.mem t.pmm
  pub here : load t.mem pd d % 2 ≡ 1
  pub table : pt ≡ load t.mem pd d / 4096 * 4096
  pub same : (e i : ℕ) → e < 1024 → i < 1024 → walk t.mem pd e i ≡ walk s.mem pd e i
  pub kept : Keeps s.pmm t.pmm

abbrev pub Readies : ℕ → ℕ → Paging → Run (Option ℕ × Paging) → Type 0
Readies pd d s r =
    (r ≡ halt paging_oom)
    ⊎ ((pt : ℕ) × (t : Paging) × (r ≡ done (some pt, t)) × IsReady pd d s pt t)

module _ {pd : ℕ} {s : Paging} (p : IsPaged pd s.mem s.pmm) (d : ℕ) (h : d < 1024) where
  -- A table that is there, with flags added to its entry.
  upgraded :
      (x : ℕ)
      → load s.mem pd d % 2 ≡ 1
      → IsLike (load s.mem pd d) x
      → IsReady pd d s (bit_and (load s.mem pd d) page_mask) (record s { mem = store pd d x s.mem })
  upgraded x here l =
      let r = flags-IsSameRoot p d x h l in
      let k = r.likes d h in
      record {
        root = refl;
        paged = IsSameRoot-IsPaged r p;
        here = k.present ∙ here;
        table = page_mask_eq (load s.mem pd d) (p.words _) ∙ ap (λ (n : ℕ). n * 4096) (sym k.frame);
        same = flags-walk p d x h l;
        kept = λ f used. used;
      }

  pub unchanged : load s.mem pd d % 2 ≡ 1 → IsReady pd d s (bit_and (load s.mem pd d) page_mask) s
  unchanged here = record {
    root = refl;
    paged = p;
    here = here;
    table = page_mask_eq (load s.mem pd d) (p.words _);
    same = λ e i j k. refl;
    kept = λ f used. used;
  }

  -- A new table, put into the directory with flags that hold the present bit.
  made :
      (root : Paging → ℕ) (w : ℕ)
      → ((f : ℕ) (pmm : Pmm) → root (with_new f pmm s) ≡ pd)
      → w < 4096
      → w % 2 ≡ 1
      → load s.mem pd d % 2 ≢ 1
      → Readies pd d s (
          alloc_table s >>= λ r. done (
            some r.0,
            record r.1 { mem = store (root r.1) d (bit_or (bit_and r.0 page_mask) w) r.1.mem },
          ))
  made root w at_pd low odd absent = elim (alloc_table-Allocates s p.frames) [
    | inl e ↦ rw e (inl refl)
    | inr (f, pmm, e, n) ↦
        rw (e, at_pd f pmm)
          (let x : ℕ = bit_or (bit_and (f * 4096) page_mask) w in
            let base : bit_and (f * 4096) page_mask ≡ f * 4096 =
              page_mask_eq (f * 4096) (omega (arith, n.small)) ∙ omega arith in
            let entry : IsEntry f x = rw base (or-IsEntry f w n.small low odd) in
            let at = grown_entry p d f x h absent n.taken n.valid entry in
            inr (
              f * 4096,
              _,
              refl,
              record {
                root = refl;
                paged = grown-IsPaged p d f x h absent n.taken n.valid entry;
                here = at.0;
                table = ap (λ (k : ℕ). k * 4096) (sym at.1);
                same = grown-walk p d f x h absent n.taken n.valid entry;
                kept = taken-Keeps n.taken;
              },
            ))
  ]

  -- What `pde_upgrade` makes of an entry that is there.
  upgrade-IsReady :
      (flags : ℕ)
      → load s.mem pd d % 2 ≡ 1
      → IsReady pd d s
          (bit_and (load s.mem pd d) page_mask)
          (record s { mem = pde_upgrade pd d flags s.mem })
  unfolding pde_upgrade
  upgrade-IsReady flags here = elim (Bool-cases (wanted flags == 0)) [
    | inl e ↦ simp e (unchanged here)
    | inr e ↦ elim (Bool-cases (bit_and (load s.mem pd d) (wanted flags) == wanted flags)) [
      | inl g ↦ simp (e, g) (unchanged here)
      | inr g ↦
          simp (e, g)
            (let w = wanted_even flags in
              upgraded (bit_or (load s.mem pd d) (wanted flags)) here
                (or_flags-IsLike (load s.mem pd d) (wanted flags) (p.words _) w.0 w.1))
    ]
  ]

module _ (s : Paging) (vaddr : ℕ) (below : vaddr < 2 ^ 32) where
  abbrev directory_entry : ℕ
  directory_entry = pde_index vaddr

  entry_below : directory_entry < 1024
  entry_below = omega (arith, pde_index_eq vaddr below)

  -- `get_or_alloc_pt` that may make a table halts for want of a frame, or readies the table.
  pub get_or_alloc_pt-Readies :
      (flags : ℕ)
      → IsPaged s.pd s.mem s.pmm
      → Readies s.pd directory_entry s (get_or_alloc_pt vaddr true flags s)
  unfolding get_or_alloc_pt
  get_or_alloc_pt-Readies flags p =
      let pde : ℕ = load s.mem s.pd directory_entry in
      elim (Bool-cases (has p_present pde)) [
        | inl e ↦ rw e (
            inr (
              _,
              _,
              refl,
              upgrade-IsReady p directory_entry entry_below flags (odd_of_present pde e),
            ))
        | inr e ↦
            let w = table_flags_odd flags in
            rw e (
              made p directory_entry entry_below (λ t. t.pd) (table_flags flags) (λ f pmm. refl) w.0
                w.1 (even_of_absent pde e))
      ]

  -- The flags of a new table in `get_or_alloc_pt_in`.
  abbrev in_flags : ℕ → ℕ
  in_flags flags =
      if has p_user flags then bit_or (bit_or p_present p_rw) p_user else bit_or p_present p_rw

  in_flags_odd : (flags : ℕ) → (in_flags flags < 4096) × (in_flags flags % 2 ≡ 1)
  in_flags_odd flags = elim (Bool-cases (has p_user flags)) [
    | inl e ↦ rw e (omega arith, refl)
    | inr e ↦ rw e (omega arith, refl)
  ]

  pub as_user-IsReady :
      (pd flags : ℕ)
      → IsPaged pd s.mem s.pmm
      → load s.mem pd directory_entry % 2 ≡ 1
      → IsReady pd directory_entry s (bit_and (load s.mem pd directory_entry) page_mask) (record s {
        mem =
            if has p_user flags
            then (if has p_user (load s.mem pd directory_entry)
                then s.mem
                else store pd directory_entry (bit_or (load s.mem pd directory_entry) p_user) s.mem)
            else s.mem;
      })
  as_user-IsReady pd flags p here = elim (Bool-cases (has p_user flags)) [
    | inl e ↦ elim (Bool-cases (has p_user (load s.mem pd directory_entry))) [
      | inl g ↦ simp (e, g) (unchanged p directory_entry entry_below here)
      | inr g ↦
          simp (e, g)
            (upgraded p directory_entry entry_below (bit_or (load s.mem pd directory_entry) p_user)
              here
              (or_flags-IsLike (load s.mem pd directory_entry) p_user (p.words _) (omega arith)
                refl))
    ]
    | inr e ↦ simp e (unchanged p directory_entry entry_below here)
  ]

  pub get_or_alloc_pt_in-Readies :
      (dir : PageDirectory) (flags : ℕ)
      → IsPaged dir.pd_virt s.mem s.pmm
      → Readies dir.pd_virt directory_entry s (get_or_alloc_pt_in dir vaddr flags true s)
  unfolding get_or_alloc_pt_in
  get_or_alloc_pt_in-Readies dir flags p =
      let pde : ℕ = load s.mem dir.pd_virt directory_entry in
      elim (Bool-cases (has p_present pde)) [
        | inl e ↦
            rw e (inr (_, _, refl, as_user-IsReady dir.pd_virt flags p (odd_of_present pde e)))
        | inr e ↦
            let w = in_flags_odd flags in
            rw e (
              made p directory_entry entry_below (λ t. dir.pd_virt) (in_flags flags) (λ f pmm. refl)
                w.0 w.1 (even_of_absent pde e))
      ]
