-- ===== src/Paging/Identity/Filled.antt =====
-- `alloc_table` and the loop of `paging_init_identity` that fills a table, kernel/arch/i386/mm/paging.c.
use bobliu_os.Base.{
  ℕ, zero, suc, ◌+◌, ◌*◌, ◌/◌, ◌%◌, ◌^◌, ◌≤◌, ◌<◌, ◌≡◌, ◌≢◌, refl, ap, ◌∙◌, arith, true, ◌==◌, some,
  Bool-cases, inl, inr, bit_or, bit_and,
}
use bobliu_os.Base.Bits.{bit_or_fields}
use bobliu_os.Word.{u32}
use bobliu_os.Pmm.{Pmm, bit_test}
use bobliu_os.Paging.{load, store, clear_table, kernel_entry, fill_table, page_mask}
use bobliu_os.Paging.Entries.{is_present, IsEntry, page_mask_eq, or_flags}
use bobliu_os.Paging.Walk.{
  walk, IsPaged, store_same, store_ne, store_index, store_frame, store-words, clear_table_other,
  clear_table-words,
}
use bobliu_os.Paging.Walk.Change.{
  IsSameRoot, IsSameRoot-IsPaged, walk_like, IsLike-self, grown-IsPaged, grown-walk, grown_entry,
}
use bobliu_os.Paging.Table.{IsNew}

pub kernel_entry-IsEntry : (f : ℕ) → f < 2 ^ 20 → IsEntry f (kernel_entry (f * 4096))
unfolding kernel_entry
kernel_entry-IsEntry f fits =
    let base : bit_and (f * 4096) page_mask ≡ f * 4096 =
      page_mask_eq (f * 4096) (omega arith) ∙ omega arith in
    let one : bit_or (f * 4096) 1 ≡ f * 4096 + 1 = bit_or_fields 12 f 1 (omega arith) in
    let low : (f * 4096 + 1) % 4096 ≡ 1 = omega arith in
    let three : bit_or (f * 4096 + 1) 2 ≡ (f * 4096 + 1) / 4096 * 4096 + bit_or 1 2 =
      or_flags (f * 4096 + 1) 2 (omega arith) ∙ rw low refl in
    rw (base, one)
      (record {
        word = omega (arith, three);
        frame = omega (arith, three);
        present = omega (arith, three);
      })

-- The address that the loop computes for entry `t` of table `d`.
entry_address :
    (d t : ℕ)
    → d < 64
    → t < 1024
    → u32 (u32 (d * 0x400000) + u32 (t * 4096)) ≡ (d * 1024 + t) * 4096
entry_address d t h k = omega (arith, h, k)

-- `fill_table` writes the entries that it goes over, and nothing else.
fill_table_other :
    (left i d pt : ℕ) (mem : ℕ → ℕ) (a : ℕ)
    → ((j : ℕ) → i ≤ j → j < i + left → pt + 4 * j ≢ a)
    → fill_table left i d pt mem a ≡ mem a
unfolding fill_table
fill_table_other zero i d pt mem a out = refl
fill_table_other (suc left) i d pt mem a out =
    fill_table_other left (i + 1) d pt _ a (λ j lo hi. out j (omega arith) (omega arith))
    ∙ store_ne mem pt i _ a (out i (omega arith) (omega arith))

fill_table_at :
    (left i d pt : ℕ) (mem : ℕ → ℕ) (j : ℕ)
    → d < 64
    → i + left ≤ 1024
    → i ≤ j
    → j < i + left
    → load (fill_table left i d pt mem) pt j ≡ kernel_entry ((d * 1024 + j) * 4096)
unfolding fill_table
fill_table_at zero i d pt mem j h fits lo hi = absurd (omega arith)
fill_table_at (suc left) i d pt mem j h fits lo hi = elim (Bool-cases (i == j)) [
  | inl e ↦
      let same : i ≡ j = ground arith in
      let past : (k : ℕ) → i + 1 ≤ k → k < i + 1 + left → pt + 4 * k ≢ pt + 4 * j =
        λ k p q eq. omega (arith, same, eq) in
      let at = entry_address d i h (omega (arith, fits)) in
      fill_table_other left (i + 1) d pt _ (pt + 4 * j) past
      ∙ rw (← same, at) (store_same mem pt i _)
  | inr e ↦ fill_table_at left (i + 1) d pt _ j h (omega (arith, fits)) (ground arith) (omega arith)
]

fill_table-words :
    (left i d pt : ℕ) (mem : ℕ → ℕ)
    → d < 64
    → i + left ≤ 1024
    → ((a : ℕ) → mem a < 2 ^ 32)
    → (a : ℕ) → fill_table left i d pt mem a < 2 ^ 32
unfolding fill_table
fill_table-words zero i d pt mem h fits words = words
fill_table-words (suc left) i d pt mem h fits words =
    let at = entry_address d i h (omega (arith, fits)) in
    fill_table-words left (i + 1) d pt _ h (omega (arith, fits)) (
      store-words mem pt i _
        (rw at (kernel_entry-IsEntry (d * 1024 + i) (omega (arith, h, fits))).word) words)

module _ {pd : ℕ} {mem : ℕ → ℕ} {pmm0 : Pmm} (p : IsPaged pd mem pmm0) (d f : ℕ) {pmm : Pmm}
    (h : d < 64) (absent : load mem pd d % 2 ≢ 1) (n : IsNew pmm0 f pmm) where
  abbrev entry : ℕ
  entry = kernel_entry (f * 4096)

  abbrev cleared : ℕ → ℕ
  cleared = clear_table 1024 0 (f * 4096) mem

  -- With the table put in before it is filled, and after.
  abbrev empty_table : ℕ → ℕ
  empty_table = store pd d entry cleared

  abbrev filled : ℕ → ℕ
  filled = fill_table 1024 0 d (f * 4096) cleared

  abbrev full_table : ℕ → ℕ
  full_table = store pd d entry filled

  entry_lem : IsEntry f entry
  entry_lem = kernel_entry-IsEntry f n.small

  -- The two differ in the table only.
  outside : (a : ℕ) → a / 4096 ≢ f → full_table a ≡ empty_table a
  outside a out = elim (Bool-cases (pd + 4 * d == a)) [
    | inl e ↦ rw e refl
    | inr e ↦
        rw e
          (fill_table_other 1024 0 d (f * 4096) cleared a (λ j lo hi g. out (omega (arith, g, hi))))
  ]

  root_used : pd / 4096 ≢ f
  root_used e = p.root (ap (λ (i : ℕ). bit_test pmm0.bitmap i) e ∙ n.taken.was_free)

  same_root : IsSameRoot pd empty_table full_table
  same_root = record {
    words = store-words filled pd d entry entry_lem.word (
        fill_table-words 1024 0 d (f * 4096) cleared h (omega arith)
          (clear_table-words 1024 0 (f * 4096) mem p.words));
    likes = λ e k. rw (outside (pd + 4 * e) (λ g. root_used (omega (arith, g, p.aligned, k)))) (
        IsLike-self empty_table (pd + 4 * e) (
          store-words cleared pd d entry entry_lem.word
            (clear_table-words 1024 0 (f * 4096) mem p.words) (pd + 4 * e)));
  }

  hd : d < 1024
  hd = omega (arith, h)

  pub full_table-IsPaged : IsPaged pd full_table pmm
  full_table-IsPaged =
      IsSameRoot-IsPaged same_root (grown-IsPaged p d f entry hd absent n.taken n.valid entry_lem)

  -- The other entries map what they mapped.
  pub full_table_other :
      (e t : ℕ) → e < 1024 → t < 1024 → d ≢ e → walk full_table pd e t ≡ walk mem pd e t
  full_table_other e t k l ne =
      let g = grown-IsPaged p d f entry hd absent n.taken n.valid entry_lem in
      let here = grown_entry p d f entry hd absent n.taken n.valid entry_lem in
      walk_like empty_table full_table pd e t (same_root.likes e k) (λ there.
        outside (load empty_table pd e / 4096 * 4096 + 4 * t)
          (λ bad. ne (g.apart d e hd k here.0 there (here.1 ∙ omega (arith, bad, l)))))
      ∙ grown-walk p d f entry hd absent n.taken n.valid entry_lem e t k l

  -- The new entry maps its pages to themselves.
  pub full_table_here : (t : ℕ) → t < 1024 → walk full_table pd d t ≡ some (d * 1024 + t)
  full_table_here t l =
      let at : load full_table pd d ≡ entry = store_same filled pd d entry in
      let on : is_present entry ≡ true = ground (arith, entry_lem.present) in
      let q = kernel_entry-IsEntry (d * 1024 + t) (omega (arith, h, l)) in
      let word : load full_table (f * 4096) t ≡ kernel_entry ((d * 1024 + t) * 4096) =
        store_frame filled pd d entry (f * 4096) t p.aligned (omega arith) hd l
          (λ g. root_used (omega (arith, g)))
        ∙ fill_table_at 1024 0 d (f * 4096) cleared t h (omega arith) (omega arith) l in
      let present : is_present (kernel_entry ((d * 1024 + t) * 4096)) ≡ true =
        ground (arith, q.present) in
      rw (at, on, entry_lem.frame, word, present, q.frame) refl

  pub full_table_root : (e : ℕ) → e < 1024 → d ≢ e → load full_table pd e ≡ load mem pd e
  full_table_root e k ne =
      outside (pd + 4 * e) (λ g. root_used (omega (arith, g, p.aligned, k)))
      ∙ store_index cleared pd d entry e ne
      ∙ clear_table_other 1024 0 (f * 4096) mem (pd + 4 * e)
          (λ j lo hi g. root_used (omega (arith, g, p.aligned, hi, k)))
