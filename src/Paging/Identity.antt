-- ===== src/Paging/Identity.antt =====
-- `paging_init_identity` of kernel/arch/i386/mm/paging.c: the loop over the directory, and what the
-- finished directory translates.
pub mod Filled
use bobliu_os.Base.{
  ℕ, zero, suc, ◌+◌, ◌-◌, ◌*◌, ◌/◌, ◌%◌, ◌^◌, ◌≤◌, ◌<◌, ◌≡◌, ◌≢◌, ◌⊎◌, refl, sym, ap, subst, ◌∙◌,
  arith, true, false, if◌then◌else◌, ltb, ◌==◌, ==_refl, Option, none, some, Bool-cases, inl, inr,
  bit_or, bit_and,
}
use bobliu_os.Base.Bits.{bit_or_fields, bit_or-lt}
use bobliu_os.Word.{u32}
use bobliu_os.Run.{Run, done, halt, ◌>>=◌, paging_oom}
use bobliu_os.Pmm.{Pmm, bit_test}
use bobliu_os.Pmm.Inv.{IsValid}
use bobliu_os.Pmm.Alloc.{IsTaken, Keeps, free_before, taken-Keeps}
use bobliu_os.Paging.{
  Paging, load, store, clear_table, alloc_table, kernel_entry, fill_table, fill_directory,
  paging_init_identity, kernel_pde_end, page_mask, p_present, p_rw, translate,
}
use bobliu_os.Paging.Entries.{is_present, IsEntry, IsLike, page_mask_eq, or_flags}
use bobliu_os.Paging.Walk.{
  walk, IsPaged, store_same, store_ne, store_index, store_frame, store-words, clear_table_other,
  clear_table_at, clear_table-words,
}
use bobliu_os.Paging.Walk.Change.{
  IsSameRoot, IsSameRoot-IsPaged, walk_like, IsLike-self, grown-IsPaged, grown-walk, grown_entry,
}
use bobliu_os.Paging.Table.{IsNew, Allocates, with_new, alloc_table-Allocates}
use bobliu_os.Paging.Map.{frame_of, address, translate_eq}
use bobliu_os.Paging.Identity.Filled.{
  kernel_entry-IsEntry, full_table-IsPaged, full_table_other, full_table_here, full_table_root,
}

-- The directory at `pd` maps the first `n` of its entries' pages to themselves, and no others.
pub record IsIdentity (pd n : ℕ) (s0 s : Paging) : Type 0 where
  pub root : s.pd ≡ pd
  pub paged : IsPaged pd s.mem s.pmm
  pub maps : (d t : ℕ) → d < n → t < 1024 → walk s.mem pd d t ≡ some (d * 1024 + t)
  pub rest : (d : ℕ) → n ≤ d → d < 1024 → load s.mem pd d ≡ 0
  pub kept : Keeps s0.pmm s.pmm
  pub total : s.pmm.total_frames ≡ s0.pmm.total_frames
  pub fresh : bit_test s0.pmm.bitmap (pd / 4096) ≡ 0
  pub fresh_tables :
      (d : ℕ)
      → d < 1024
      → load s.mem pd d % 2 ≡ 1
      → bit_test s0.pmm.bitmap (load s.mem pd d / 4096) ≡ 0

abbrev pub Identifies : ℕ → ℕ → Paging → Run Paging → Type 0
Identifies pd n s0 run =
    (run ≡ halt paging_oom) ⊎ ((t : Paging) × (run ≡ done t) × IsIdentity pd n s0 t)

-- One round of the loop over the directory.
round-IsIdentity :
    {pd d : ℕ} {s0 s : Paging} (f : ℕ) (pmm : Pmm)
    → IsIdentity pd d s0 s
    → d < 64
    → IsNew s.pmm f pmm
    → IsIdentity pd (d + 1) s0 (record s {
      mem =
          store s.pd d
            (kernel_entry (f * 4096))
            (fill_table 1024 0 d (f * 4096) (clear_table 1024 0 (f * 4096) s.mem));
      pmm = pmm;
    })
round-IsIdentity {pd} {d} {s0} {s} f pmm i h n =
    let absent : load s.mem pd d % 2 ≢ 1 =
      λ odd. omega (arith, odd, i.rest d (omega arith) (omega (arith, h))) in
    let at = i.root in
    rw at (record {
      root = refl;
      paged = full_table-IsPaged i.paged d f h absent n;
      maps = λ e t k l. elim (Bool-cases (d == e)) [
        | inl g ↦
            let same : d ≡ e = ground (arith, g) in
            rw (← same) (full_table_here i.paged d f h absent n t l)
        | inr g ↦
            full_table_other i.paged d f h absent n e t (omega (arith, h, k)) l (ground (arith, g))
            ∙ i.maps e t (ground (arith, g, k)) l
      ];
      rest = λ e lo k.
          full_table_root i.paged d f h absent n e k (λ same. omega (arith, same, lo))
          ∙ i.rest e (omega (arith, lo)) k;
      kept = λ g used. taken-Keeps n.taken g (i.kept g used);
      total = n.taken.total ∙ i.total;
      fresh = i.fresh;
      fresh_tables = λ e k odd. elim (Bool-cases (d == e)) [
        | inl g ↦
            let same : d ≡ e = ground (arith, g) in
            rw
              (
                ← same,
                store_same (fill_table 1024 0 d (f * 4096) (clear_table 1024 0 (f * 4096) s.mem)) pd
                    d (kernel_entry (f * 4096)),
                (kernel_entry-IsEntry f n.small).frame,
              )
              (free_before s0.pmm s.pmm f i.kept n.taken.was_free)
        | inr g ↦
            let old = full_table_root i.paged d f h absent n e k (ground (arith, g)) in
            rw old (i.fresh_tables e k (ap (λ (x : ℕ). x % 2) (sym old) ∙ odd))
      ];
    })

fill_directory-Identifies :
    (left d : ℕ) {pd : ℕ} {s0 s : Paging}
    → d + left ≤ 64
    → IsIdentity pd d s0 s
    → Identifies pd (d + left) s0 (fill_directory left d s)
unfolding fill_directory
fill_directory-Identifies zero d {pd} {s0} {s} fits i =
    let sum : d + 0 ≡ d = omega arith in rw sum (inr (s, refl, i))
fill_directory-Identifies (suc left) d {pd} {s0} {s} fits i =
    elim (alloc_table-Allocates s i.paged.frames) [
      | inl e ↦ rw e (inl refl)
      | inr (f, pmm, e, n) ↦
          let sum : d + suc left ≡ d + 1 + left = omega arith in
          rw (e, sum)
            (fill_directory-Identifies left (d + 1) (omega (arith, fits))
              (round-IsIdentity f pmm i (omega (arith, fits)) n))
    ]

-- A cleared directory in a frame that was free.
first-IsIdentity :
    (s : Paging) (f : ℕ) (pmm : Pmm)
    → ((a : ℕ) → s.mem a < 2 ^ 32)
    → IsNew s.pmm f pmm
    → IsIdentity
        (f * 4096)
        0
        s
        (record s { mem = clear_table 1024 0 (f * 4096) s.mem; pd = f * 4096; pmm = pmm })
first-IsIdentity s f pmm words n =
    let zeros : (d : ℕ) → d < 1024 → load (clear_table 1024 0 (f * 4096) s.mem) (f * 4096) d ≡ 0 =
      λ d h. clear_table_at 1024 0 (f * 4096) s.mem d (omega arith) (omega (arith, h)) in
    let frame : f * 4096 / 4096 ≡ f = omega arith in
    record {
      root = refl;
      paged = record {
        words = clear_table-words 1024 0 (f * 4096) s.mem words;
        frames = n.valid;
        aligned = omega arith;
        root = rw (frame, n.taken.bits f, ==_refl f) (λ e. absurd (omega (arith, e)));
        tables = λ d h odd. absurd (omega (arith, odd, zeros d h));
        apart = λ d e h k odd. absurd (omega (arith, odd, zeros d h));
      };
      maps = λ d t h. absurd (omega (arith, h));
      rest = λ d lo h. zeros d h;
      kept = taken-Keeps n.taken;
      total = n.taken.total;
      fresh = rw frame n.taken.was_free;
      fresh_tables = λ d h odd. absurd (omega (arith, odd, zeros d h));
    }

-- What the finished directory translates.
identity :
    {s t : Paging}
    → IsIdentity t.pd 64 s t
    → (v : ℕ) → v < 2 ^ 32
    → translate t.mem t.pd v ≡ (if ltb v (2 ^ 28) then v else 0)
identity {s} {t} i v h = elim (Bool-cases (ltb v (2 ^ 28))) [
  | inl e ↦
      let frame = i.maps (v / 2 ^ 22) (v / 2 ^ 12 % 1024) (ground (arith, e)) (omega arith) in
      rw (translate_eq t.mem t.pd v i.paged.words h, e, frame) (omega arith)
  | inr e ↦
      let none_there = i.rest (v / 2 ^ 22) (ground (arith, e)) (omega arith) in
      rw (translate_eq t.mem t.pd v i.paged.words h, e, none_there) refl
]

-- `paging_init_identity`, for a valid allocator and words of memory below 2^32, halts for want of a frame
-- or leaves a well-formed address space, made of frames that were free, in which every address below 256 MiB
-- translates to itself and every other to 0.
pub paging_init_identity-Identifies :
    (s : Paging)
    → ((a : ℕ) → s.mem a < 2 ^ 32)
    → IsValid s.pmm
    → (paging_init_identity s ≡ halt paging_oom)
      ⊎ ((t : Paging) × (paging_init_identity s ≡ done t)
          × IsIdentity t.pd 64 s t
          × ((v : ℕ) → v < 2 ^ 32 → translate t.mem t.pd v ≡ (if ltb v (2 ^ 28) then v else 0)))
unfolding paging_init_identity
paging_init_identity-Identifies s words v = elim (alloc_table-Allocates s v) [
  | inl e ↦ rw e (inl refl)
  | inr (f, pmm, e, n) ↦
      rw e (
        named f _ (fill_directory-Identifies 64 0 (omega arith) (first-IsIdentity s f pmm words n)))
]
  where
    at : (f : ℕ) (t : Paging) → IsIdentity (f * 4096) 64 s t → IsIdentity t.pd 64 s t
    at f t i = subst (λ (x : ℕ). IsIdentity x 64 s t) (sym i.root) i

    named :
        (f : ℕ) (run : Run Paging)
        → Identifies (f * 4096) 64 s run
        → (run ≡ halt paging_oom)
          ⊎ ((t : Paging) × (run ≡ done t)
              × IsIdentity t.pd 64 s t
              × ((v : ℕ) → v < 2 ^ 32 → translate t.mem t.pd v ≡ (if ltb v (2 ^ 28) then v else 0)))
    named f run (inl e) = inl e
    named f run (inr (t, e, i)) = inr (t, e, at f t i, identity (at f t i))
