-- ===== src/Paging/Grow.antt =====
-- What a sequence of `paging_alloc_map_in` calls does to the address space of a directory: some pages
-- come to stand on frames that were free, and all else stays.
use bobliu_os.Base.{
  ℕ, ◌*◌, ◌/◌, ◌%◌, ◌^◌, ◌<◌, ◌≡◌, ◌≢◌, ◌⊎◌, refl, sym, ap, subst, ◌∙◌, arith, Bool, true, false,
  ◌||◌, if◌then◌else◌, ◌==◌, ==_refl, Option, some, Bool-cases, inl, inr,
}
use bobliu_os.Run.{Run, done, halt, paging_oom}
use bobliu_os.Pmm.{Pmm, bit_test, pmm_alloc_frame}
use bobliu_os.Pmm.Inv.{IsValid}
use bobliu_os.Pmm.Alloc.{Keeps, taken-Keeps, free_before, IsTaken, alloc_first_fit}
use bobliu_os.Paging.{Paging, PageDirectory, load, paging_map_in, paging_alloc_map_in}
use bobliu_os.Paging.Walk.{walk, IsPaged}
use bobliu_os.Paging.Map.{Remaps, MapsPage, paging_map_in-MapsPage, frame_of}

-- The frame that a page, by its number, is mapped to.
abbrev pub page_frame : ℕ → Paging → ℕ → Option ℕ
page_frame pd s p = walk s.mem pd (p / 1024) (p % 1024)

pub frame_of_page : (pd : ℕ) (s : Paging) (w : ℕ) → frame_of s.mem pd w ≡ page_frame pd s (w / 4096)
frame_of_page pd s w = let d : w / 2 ^ 22 ≡ w / 4096 / 1024 = omega arith in rw d refl

-- The page stands on a frame that was free before and is in use now.
abbrev pub Stands : ℕ → ℕ → Paging → Paging → Type 0
Stands pd p s t =
    (f : ℕ) × (page_frame pd t p ≡ some f)
    × (bit_test t.pmm.bitmap f ≢ 0)
    × (bit_test s.pmm.bitmap f ≡ 0)

-- From `s` to `t`, the pages of `pages` got frames of their own, and no other page has changed.
pub record Grows (pd : ℕ) (pages : ℕ → Bool) (s t : Paging) : Type 0 where
  pub root : t.pd ≡ s.pd
  pub paged : IsPaged pd t.mem t.pmm
  pub kept : Keeps s.pmm t.pmm
  pub new : (p : ℕ) → p < 2 ^ 20 → pages p ≡ true → Stands pd p s t
  pub apart :
      (p q : ℕ)
      → p < 2 ^ 20
      → q < 2 ^ 20
      → pages p ≡ true
      → pages q ≡ true
      → page_frame pd t p ≡ page_frame pd t q
      → p ≡ q
  pub old : (p : ℕ) → p < 2 ^ 20 → pages p ≡ false → page_frame pd t p ≡ page_frame pd s p

pub Grows-none : {pd : ℕ} {s : Paging} → IsPaged pd s.mem s.pmm → Grows pd (λ p. false) s s
Grows-none paged = record {
  root = refl;
  paged = paged;
  kept = λ f used. used;
  new = λ p h e. cc;
  apart = λ p q h k e g same. cc;
  old = λ p h e. refl;
}

pub Grows-same :
    {pd : ℕ} {a b : ℕ → Bool} {s t : Paging}
    → ((p : ℕ) → a p ≡ b p)
    → Grows pd a s t
    → Grows pd b s t
Grows-same same g = record {
  root = g.root;
  paged = g.paged;
  kept = g.kept;
  new = λ p h e. g.new p h (same p ∙ e);
  apart = λ p q h k e f. g.apart p q h k (same p ∙ e) (same q ∙ f);
  old = λ p h e. g.old p h (same p ∙ e);
}

some_inj : {a b : ℕ} → some a ≡ some b → a ≡ b
some_inj e = cc

module _ {pd : ℕ} {a b : ℕ → Bool} {s t u : Paging} (g : Grows pd a s t) (h : Grows pd b t u) where
  later : (p : ℕ) → p < 2 ^ 20 → b p ≡ true → Stands pd p s u
  later p below e =
      let n = h.new p below e in (n.0, n.1, n.2, free_before s.pmm t.pmm n.0 g.kept n.3)

  earlier : (p : ℕ) → p < 2 ^ 20 → a p ≡ true → b p ≡ false → Stands pd p s u
  earlier p below e f = let n = g.new p below e in (n.0, h.old p below f ∙ n.1, h.kept n.0 n.2, n.3)

  -- A page of the second sequence and one of the first only do not share a frame.
  crossed :
      (p q : ℕ)
      → p < 2 ^ 20
      → q < 2 ^ 20
      → b p ≡ true
      → a q ≡ true
      → b q ≡ false
      → page_frame pd u p ≢ page_frame pd u q
  crossed p q hp hq e f k same =
      let n = h.new p hp e in
      let m = g.new q hq f in
      let frames : m.0 ≡ n.0 = some_inj (sym m.1 ∙ sym (h.old q hq k) ∙ sym same ∙ n.1) in
      m.2 (ap (λ (i : ℕ). bit_test t.pmm.bitmap i) frames ∙ n.3)

  only : (p : ℕ) → a p || b p ≡ true → b p ≡ false → a p ≡ true
  only p e f = elim (Bool-cases (a p)) [ inl g ↦ g | inr g ↦ absurd (ground (arith, e, f, g)) ]

  neither : (p : ℕ) → a p || b p ≡ false → (a p ≡ false) × (b p ≡ false)
  neither p e = elim (Bool-cases (a p)) [
    | inl f ↦ absurd (ground (arith, e, f))
    | inr f ↦ elim (Bool-cases (b p)) [ inl g ↦ absurd (ground (arith, e, f, g)) | inr g ↦ (f, g) ]
  ]

  pub Grows-then : Grows pd (λ p. a p || b p) s u
  Grows-then = record {
    root = h.root ∙ g.root;
    paged = h.paged;
    kept = λ f used. h.kept f (g.kept f used);
    new = λ p below e. elim (Bool-cases (b p)) [
      | inl f ↦ later p below f
      | inr f ↦ earlier p below (only p e f) f
    ];
    apart = λ p q hp hq e f same. elim (Bool-cases (b p)) [
      | inl k ↦ elim (Bool-cases (b q)) [
        | inl l ↦ h.apart p q hp hq k l same
        | inr l ↦ absurd (crossed p q hp hq k (only q f l) l same)
      ]
      | inr k ↦ elim (Bool-cases (b q)) [
        | inl l ↦ absurd (crossed q p hq hp l (only p e k) k (sym same))
        | inr l ↦
            g.apart p q hp hq (only p e k) (only q f l) (sym (h.old p hp k) ∙ same ∙ h.old q hq l)
      ]
    ];
    old = λ p below e. let n = neither p e in h.old p below n.1 ∙ g.old p below n.0;
  }

-- The pages of `a` are among those of `b`.
abbrev pub IsWithin : (ℕ → Bool) → (ℕ → Bool) → Type 0
IsWithin a b = (p : ℕ) → a p ≡ true → b p ≡ true

-- The outcome of a run that maps the pages: it halts for want of a frame for a table, gives up when a
-- page gets no frame, having mapped some of the pages, or has mapped them all.
abbrev pub MapsAll : ℕ → (ℕ → Bool) → Paging → Run (Bool × Paging) → Type 0
MapsAll pd pages s run =
    (run ≡ halt paging_oom)
    ⊎ (((t : Paging) × (done_some : ℕ → Bool) × (run ≡ done (false, t))
          × Grows pd done_some s t
          × IsWithin done_some pages)
        ⊎ ((t : Paging) × (run ≡ done (true, t)) × Grows pd pages s t))

pub Remaps-Grows :
    {pd v f : ℕ} {s t : Paging} {pmm : Pmm}
    → v < 2 ^ 32
    → IsTaken f s.pmm pmm
    → Remaps pd v (some f) (record s { pmm = pmm }) t
    → Grows pd (λ p. p == v / 4096) s t
Remaps-Grows {pd} {v} {f} {s} {t} {pmm} below k r =
    let frames : (p : ℕ)
        → p < 2 ^ 20
        → page_frame pd t p ≡ (if p == v / 4096 then some f else page_frame pd s p) =
      λ p h.
        let page : p * 4096 / 4096 ≡ p = omega arith in
        let moved : page_frame pd t (p * 4096 / 4096)
            ≡ (if p * 4096 / 4096 == v / 4096 then some f else page_frame pd s (p * 4096 / 4096)) =
          sym (frame_of_page pd t (p * 4096))
          ∙ r.frames (p * 4096) (omega arith)
          ∙ rw (frame_of_page pd s (p * 4096)) refl in
        subst (λ (q : ℕ). page_frame pd t q ≡ (if q == v / 4096 then some f else page_frame pd s q))
          page moved in
    let taken_bit : bit_test pmm.bitmap f ≡ 1 = rw (k.bits f, ==_refl f) refl in
    record {
      root = r.root;
      paged = r.paged;
      kept = λ g used. r.kept g (taken-Keeps k g used);
      new = λ p h e. (
        f,
        rw (frames p h, e) refl,
        r.kept f (λ bad. absurd (omega (arith, bad, taken_bit))),
        k.was_free,
      );
      apart = λ p q h l e g same. ground (arith, e, g);
      old = λ p h e. rw (frames p h, e) refl;
    }

taken-IsPaged :
    {pd f : ℕ} {mem : ℕ → ℕ} {s t : Pmm}
    → IsPaged pd mem s
    → IsTaken f s t
    → IsValid t
    → IsPaged pd mem t
taken-IsPaged {pd} {f} {mem} p k valid = record {
  words = p.words;
  frames = valid;
  aligned = p.aligned;
  root = taken-Keeps k (pd / 4096) p.root;
  tables = λ d h here.
      let old = p.tables d h here in (old.0, taken-Keeps k (load mem pd d / 4096) old.1);
  apart = p.apart;
}

-- The frame of number 0 is taken and not used.
taken-Grows :
    (pd f : ℕ) (s : Paging) {pmm : Pmm}
    → IsPaged pd s.mem s.pmm
    → IsTaken f s.pmm pmm
    → IsValid pmm
    → Grows pd (λ p. false) s (record s { pmm = pmm })
taken-Grows pd f s p k valid = record {
  root = refl;
  paged = taken-IsPaged p k valid;
  kept = taken-Keeps k;
  new = λ q h e. cc;
  apart = λ q r h l e g same. cc;
  old = λ q h e. refl;
}

-- A page is mapped to a frame that was free.
pub paging_alloc_map_in-MapsAll :
    (dir : PageDirectory) (v flags : ℕ) (s : Paging)
    → IsPaged dir.pd_virt s.mem s.pmm
    → v < 2 ^ 32
    → flags < 4096
    → MapsAll dir.pd_virt (λ p. p == v / 4096) s (paging_alloc_map_in dir v flags s)
unfolding paging_alloc_map_in
paging_alloc_map_in-MapsAll dir v flags s p below low = elim (alloc_first_fit s.pmm p.frames) [
  | inl (f, inside, at, before, taken, valid) ↦ elim (Bool-cases ((pmm_alloc_frame s.pmm).0 == 0)) [
    | inl e ↦
        rw e (inr (inl (_, λ q. false, refl, taken-Grows dir.pd_virt f s p taken valid, λ q h. cc)))
    | inr e ↦
        rw (e, at)
          (grown f (pmm_alloc_frame s.pmm).1 taken (
            paging_map_in-MapsPage dir v (f * 4096) flags
              (record s { pmm = (pmm_alloc_frame s.pmm).1 }) (taken-IsPaged p taken valid) below
              (omega (arith, p.frames.small)) low))
  ]
  | inr (used, at, same) ↦ rw (at, same) (inr (inl (_, λ q. false, refl, Grows-none p, λ q h. cc)))
]
  where
    grown :
        (f : ℕ) (pmm : Pmm)
        → IsTaken f s.pmm pmm
        → MapsPage dir.pd_virt v
            (some (f * 4096 / 4096))
            (record s { pmm = pmm })
            (paging_map_in dir v (f * 4096) flags (record s { pmm = pmm }))
        → MapsAll dir.pd_virt
            (λ q. q == v / 4096)
            s
            (paging_map_in dir v (f * 4096) flags (record s { pmm = pmm }))
    grown f pmm k (inl e) = inl e
    grown f pmm k (inr (t, e, r)) =
        let frame : f * 4096 / 4096 ≡ f = omega arith in
        inr (
          inr (
            t,
            e,
            Remaps-Grows below k (
                subst (λ (i : ℕ). Remaps dir.pd_virt v (some i) (record s { pmm = pmm }) t) frame
                  r),
          ))
