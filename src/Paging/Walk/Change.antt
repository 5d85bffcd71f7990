-- ===== src/Paging/Walk/Change.antt =====
-- The three writes that mapping a page comes to: new flags in an entry of the directory, a new table,
-- and an entry of a table.
use bobliu_os.Base.{
  ℕ, ◌+◌, ◌*◌, ◌/◌, ◌%◌, ◌^◌, ◌<◌, ◌≡◌, ◌≢◌, ◌⊎◌, refl, sym, ap, ◌∙◌, arith, true, false,
  if◌then◌else◌, ◌==◌, ==_refl, ◌&&◌, Option, none, some, Bool-cases, inl, inr,
}
use bobliu_os.Pmm.{Pmm, bit_test}
use bobliu_os.Pmm.Inv.{IsValid}
use bobliu_os.Pmm.Alloc.{IsTaken}
use bobliu_os.Paging.{load, store, clear_table}
use bobliu_os.Paging.Entries.{is_present, IsLike, IsEntry}
use bobliu_os.Paging.Walk.{
  walk, IsPaged, store_same, store_index, store_frame, store-words, clear_table_other,
  clear_table_at, clear_table-words,
}

-- The directory's entries keep their frames and present bits.
pub record IsSameRoot (pd : ℕ) (mem mem2 : ℕ → ℕ) : Type 0 where
  pub words : (a : ℕ) → mem2 a < 2 ^ 32
  pub likes : (d : ℕ) → d < 1024 → IsLike (load mem pd d) (load mem2 pd d)

pub IsSameRoot-IsPaged :
    {pd : ℕ} {mem mem2 : ℕ → ℕ} {pmm : Pmm}
    → IsSameRoot pd mem mem2
    → IsPaged pd mem pmm
    → IsPaged pd mem2 pmm
IsSameRoot-IsPaged {pd} {mem} {mem2} {pmm} r p = record {
  words = r.words;
  frames = p.frames;
  aligned = p.aligned;
  root = p.root;
  tables = λ d h here. let l = r.likes d h in rw (l.frame) (p.tables d h (sym l.present ∙ here));
  apart = λ d e h k here there same.
      let l = r.likes d h in
      let m = r.likes e k in
      p.apart d e h k (sym l.present ∙ here) (sym m.present ∙ there) (sym l.frame ∙ same ∙ m.frame);
}

-- The walk through an entry depends on its frame and its present bit.
pub walk_like :
    (mem mem2 : ℕ → ℕ) (pd d t : ℕ)
    → IsLike (load mem pd d) (load mem2 pd d)
    → (load mem pd d % 2 ≡ 1
        → load mem2 (load mem pd d / 4096 * 4096) t ≡ load mem (load mem pd d / 4096 * 4096) t)
    → walk mem2 pd d t ≡ walk mem pd d t
walk_like mem mem2 pd d t l same = elim (Bool-cases (is_present (load mem pd d))) [
  | inl e ↦
      let odd : load mem pd d % 2 ≡ 1 = ground (arith, e) in rw (l.present, l.frame, same odd) refl
  | inr e ↦ rw (l.present, e) refl
]

pub IsLike-self : (mem : ℕ → ℕ) (a : ℕ) → mem a < 2 ^ 32 → IsLike (mem a) (mem a)
IsLike-self mem a h = record { word = h; frame = refl; present = refl }

-- What an entry of a table maps.
abbrev pub mapped : ℕ → Option ℕ
mapped x = if is_present x then some (x / 4096) else none

module _ {pd : ℕ} {mem : ℕ → ℕ} {pmm : Pmm} (p : IsPaged pd mem pmm) where
  -- A table is not the directory.
  table_apart :
      (d : ℕ) → d < 1024 → load mem pd d % 2 ≡ 1 → load mem pd d / 4096 * 4096 / 4096 ≢ pd / 4096
  table_apart d h here e = (p.tables d h here).0 (omega (arith, e))

  module _ (d0 x : ℕ) (h0 : d0 < 1024) (l : IsLike (load mem pd d0) x) where
    pub flags-IsSameRoot : IsSameRoot pd mem (store pd d0 x mem)
    flags-IsSameRoot = record {
      words = store-words mem pd d0 x l.word p.words;
      likes = λ d h. elim (Bool-cases (d0 == d)) [
        | inl e ↦ let same : d0 ≡ d = ground (arith, e) in rw (← same, store_same mem pd d0 x) l
        | inr e ↦
            rw (store_index mem pd d0 x d (ground (arith, e)))
              (IsLike-self mem (pd + 4 * d) (p.words _))
      ];
    }

    pub flags-walk :
        (d t : ℕ) → d < 1024 → t < 1024 → walk (store pd d0 x mem) pd d t ≡ walk mem pd d t
    flags-walk d t h k =
        walk_like mem (store pd d0 x mem) pd d t (flags-IsSameRoot.likes d h) (λ here.
          store_frame mem pd d0 x (load mem pd d / 4096 * 4096) t p.aligned (omega arith) h0 k
            (λ e. table_apart d h here (sym e)))

  module _ (d0 t0 x : ℕ) (h0 : d0 < 1024) (k0 : t0 < 1024) (here0 : load mem pd d0 % 2 ≡ 1)
      (fits : x < 2 ^ 32) where
    abbrev table : ℕ
    table = load mem pd d0 / 4096 * 4096

    root_kept : (d : ℕ) → d < 1024 → load (store table t0 x mem) pd d ≡ load mem pd d
    root_kept d h =
        store_frame mem table t0 x pd d (omega arith) p.aligned k0 h (table_apart d0 h0 here0)

    pub entry-IsSameRoot : IsSameRoot pd mem (store table t0 x mem)
    entry-IsSameRoot = record {
      words = store-words mem table t0 x fits p.words;
      likes = λ d h. rw (root_kept d h) (IsLike-self mem (pd + 4 * d) (p.words _));
    }

    written : walk (store table t0 x mem) pd d0 t0 ≡ mapped x
    written =
        let odd : is_present (load mem pd d0) ≡ true = ground (arith, here0) in
        rw (root_kept d0 h0, odd, store_same mem table t0 x) refl

    pub entry-walk :
        (d t : ℕ)
        → d < 1024
        → t < 1024
        → walk (store table t0 x mem) pd d t
          ≡ (if (d0 == d) && (t0 == t) then mapped x else walk mem pd d t)
    entry-walk d t h k = elim (Bool-cases (d0 == d)) [
      | inl e ↦
          let same : d0 ≡ d = ground (arith, e) in
          elim (Bool-cases (t0 == t)) [
            | inl g ↦ let at : t0 ≡ t = ground (arith, g) in rw (e, g, ← same, ← at) written
            | inr g ↦
                rw (e, g, ← same)
                  (walk_like mem (store table t0 x mem) pd d0 t (entry-IsSameRoot.likes d0 h0)
                    (λ here. store_index mem table t0 x t (ground (arith, g))))
          ]
      | inr e ↦
          let other : d0 ≢ d = ground (arith, e) in
          rw e (
            walk_like mem (store table t0 x mem) pd d t (entry-IsSameRoot.likes d h) (λ here.
              store_frame mem table t0 x (load mem pd d / 4096 * 4096) t (omega arith) (omega arith)
                k0 k (λ f. other (p.apart d0 d h0 h here0 here (omega (arith, f))))))
    ]

  -- A frame that was free becomes the table of an entry that was absent.
  module _ (d0 f x : ℕ) {pmm2 : Pmm} (h0 : d0 < 1024) (absent : load mem pd d0 % 2 ≢ 1)
      (taken : IsTaken f pmm pmm2) (valid : IsValid pmm2) (entry : IsEntry f x) where
    abbrev cleared : ℕ → ℕ
    cleared = clear_table 1024 0 (f * 4096) mem

    abbrev grown : ℕ → ℕ
    grown = store pd d0 x cleared

    used_ne : (g : ℕ) → bit_test pmm.bitmap g ≢ 0 → g ≢ f
    used_ne g used e = used (ap (λ (k : ℕ). bit_test pmm.bitmap k) e ∙ taken.was_free)

    still_used : (g : ℕ) → bit_test pmm.bitmap g ≢ 0 → bit_test pmm2.bitmap g ≢ 0
    still_used g used = elim (Bool-cases (f == g)) [
      | inl e ↦ rw (taken.bits g, e) (λ bad. absurd (omega (arith, bad)))
      | inr e ↦ rw (taken.bits g, e) used
    ]

    outside : (a : ℕ) → a / 4096 ≢ f → cleared a ≡ mem a
    outside a h = clear_table_other 1024 0 (f * 4096) mem a (λ j lo hi e. h (omega (arith, e)))

    root_other : (d : ℕ) → d < 1024 → d0 ≢ d → load grown pd d ≡ load mem pd d
    root_other d h ne =
        store_index cleared pd d0 x d ne
        ∙ outside (pd + 4 * d) (λ e. used_ne (pd / 4096) p.root (omega (arith, e, p.aligned)))

    root_here : load grown pd d0 ≡ x
    root_here = store_same cleared pd d0 x

    root_cases :
        (d : ℕ)
        → d < 1024
        → ((d0 ≡ d) × (load grown pd d ≡ x)) ⊎ ((d0 ≢ d) × (load grown pd d ≡ load mem pd d))
    root_cases d h = elim (Bool-cases (d0 == d)) [
      | inl e ↦ let same : d0 ≡ d = ground (arith, e) in inl (same, rw (← same) root_here)
      | inr e ↦ let ne : d0 ≢ d = ground (arith, e) in inr (ne, root_other d h ne)
    ]

    taken_used : (g : ℕ) → g ≡ f → bit_test pmm2.bitmap g ≢ 0
    taken_used g e = rw (e, taken.bits f, ==_refl f) (λ bad. absurd (omega (arith, bad)))

    tables_kept :
        (d : ℕ)
        → d < 1024
        → load grown pd d % 2 ≡ 1
        → (load grown pd d / 4096 ≢ pd / 4096) × (bit_test pmm2.bitmap (load grown pd d / 4096) ≢ 0)
    tables_kept d h here = elim (root_cases d h) [
      | inl (same, e) ↦
          let at : load grown pd d / 4096 ≡ f = ap (λ (k : ℕ). k / 4096) e ∙ entry.frame in
          (λ bad. used_ne (pd / 4096) p.root (sym bad ∙ at), taken_used (load grown pd d / 4096) at)
      | inr (ne, e) ↦
          let odd : load mem pd d % 2 ≡ 1 = ap (λ (k : ℕ). k % 2) (sym e) ∙ here in
          let old = p.tables d h odd in rw e (old.0, still_used (load mem pd d / 4096) old.1)
    ]

    -- An entry that was there maps another frame than the new one.
    fresh : (d : ℕ) → d < 1024 → load grown pd d % 2 ≡ 1 → d0 ≢ d → load grown pd d / 4096 ≢ f
    fresh d h here ne =
        let e = root_other d h ne in
        let odd : load mem pd d % 2 ≡ 1 = ap (λ (k : ℕ). k % 2) (sym e) ∙ here in
        rw e (used_ne (load mem pd d / 4096) (p.tables d h odd).1)

    apart_kept :
        (d e : ℕ)
        → d < 1024
        → e < 1024
        → load grown pd d % 2 ≡ 1
        → load grown pd e % 2 ≡ 1
        → load grown pd d / 4096 ≡ load grown pd e / 4096
        → d ≡ e
    apart_kept d e h k here there same = elim (root_cases d h) [
      | inl (at, v) ↦ elim (root_cases e k) [
        | inl (at2, v2) ↦ sym at ∙ at2
        | inr (ne2, v2) ↦
            absurd (fresh e k there ne2 (sym same ∙ ap (λ (n : ℕ). n / 4096) v ∙ entry.frame))
      ]
      | inr (ne, v) ↦ elim (root_cases e k) [
        | inl (at2, v2) ↦
            absurd (fresh d h here ne (same ∙ ap (λ (n : ℕ). n / 4096) v2 ∙ entry.frame))
        | inr (ne2, v2) ↦
            p.apart d e h k (ap (λ (n : ℕ). n % 2) (sym v) ∙ here)
              (ap (λ (n : ℕ). n % 2) (sym v2) ∙ there)
              (ap (λ (n : ℕ). n / 4096) (sym v) ∙ same ∙ ap (λ (n : ℕ). n / 4096) v2)
      ]
    ]

    pub grown-IsPaged : IsPaged pd grown pmm2
    grown-IsPaged = record {
      words =
          store-words cleared pd d0 x entry.word (clear_table-words 1024 0 (f * 4096) mem p.words);
      frames = valid;
      aligned = p.aligned;
      root = still_used (pd / 4096) p.root;
      tables = tables_kept;
      apart = apart_kept;
    }

    -- The new entry's table is the frame, so that its address is the frame's.
    pub grown_entry : (load grown pd d0 % 2 ≡ 1) × (load grown pd d0 / 4096 ≡ f)
    grown_entry = rw root_here (entry.present, entry.frame)

    empty : (t : ℕ) → t < 1024 → load grown (f * 4096) t ≡ 0
    empty t k =
        store_frame cleared pd d0 x (f * 4096) t p.aligned (omega arith) h0 k
          (λ b. used_ne (pd / 4096) p.root (omega (arith, b)))
        ∙ clear_table_at 1024 0 (f * 4096) mem t (omega arith) (omega arith)

    pub grown-walk : (d t : ℕ) → d < 1024 → t < 1024 → walk grown pd d t ≡ walk mem pd d t
    grown-walk d t h k = elim (root_cases d h) [
      | inl (same, e) ↦
          let off : is_present (load mem pd d0) ≡ false = ground (arith, absent) in
          let on : is_present x ≡ true = ground (arith, entry.present) in
          rw (← same, root_here, on, entry.frame, empty t k, off) refl
      | inr (ne, e) ↦
          walk_like mem grown pd d t (rw e (IsLike-self mem (pd + 4 * d) (p.words _))) (λ here.
            let odd : load mem pd d % 2 ≡ 1 = here in
            store_frame cleared pd d0 x (load mem pd d / 4096 * 4096) t p.aligned (omega arith) h0 k
              (λ b. table_apart d h odd (sym b))
            ∙ outside (load mem pd d / 4096 * 4096 + 4 * t)
                (λ b. used_ne (load mem pd d / 4096) (p.tables d h odd).1 (omega (arith, b))))
    ]
