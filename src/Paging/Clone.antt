-- ===== src/Paging/Clone.antt =====
-- `paging_clone_directory` of paging.c: a directory that shares the kernel's tables.
use bobliu_os.Base.{
  ℕ, zero, suc, ◌+◌, ◌*◌, ◌/◌, ◌%◌, ◌^◌, ◌≤◌, ◌<◌, ◌≡◌, ◌≢◌, ◌⊎◌, refl, sym, ap, ◌∙◌, arith, ◌==◌,
  ==_refl, ltb, Bool-cases, inl, inr,
}
use bobliu_os.Run.{done, halt, paging_oom}
use bobliu_os.Pmm.{Pmm, bit_test}
use bobliu_os.Paging.{
  Paging, PageDirectory, load, clear_table, copy_entries, paging_clone_directory, kernel_pde_end,
}
use bobliu_os.Paging.Walk.{
  walk, IsPaged, store_same, store_ne, store_frame, store-words, clear_table_other, clear_table_at,
  clear_table-words,
}
use bobliu_os.Paging.Walk.Change.{IsSameRoot, IsSameRoot-IsPaged, walk_like, IsLike-self}
use bobliu_os.Paging.Table.{IsNew, alloc_table-Allocates}

-- `copy_entries` writes the entries that it goes over, from another table, and nothing else.
copy_entries_other :
    (left i from to : ℕ) (mem : ℕ → ℕ) (a : ℕ)
    → ((j : ℕ) → i ≤ j → j < i + left → to + 4 * j ≢ a)
    → copy_entries left i from to mem a ≡ mem a
unfolding copy_entries
copy_entries_other zero i from to mem a out = refl
copy_entries_other (suc left) i from to mem a out =
    copy_entries_other left (i + 1) from to _ a (λ j lo hi. out j (omega arith) (omega arith))
    ∙ store_ne mem to i (load mem from i) a (out i (omega arith) (omega arith))

copy_entries_at :
    (left i from to : ℕ) (mem : ℕ → ℕ) (j : ℕ)
    → from % 4096 ≡ 0
    → to % 4096 ≡ 0
    → from / 4096 ≢ to / 4096
    → i + left ≤ 1024
    → i ≤ j
    → j < i + left
    → load (copy_entries left i from to mem) to j ≡ load mem from j
unfolding copy_entries
copy_entries_at zero i from to mem j hf ht ne room lo hi = absurd (omega arith)
copy_entries_at (suc left) i from to mem j hf ht ne room lo hi = elim (Bool-cases (i == j)) [
  | inl e ↦
      let same : i ≡ j = ground arith in
      let past : (k : ℕ) → i + 1 ≤ k → k < i + 1 + left → to + 4 * k ≢ to + 4 * j =
        λ k p q eq. omega (arith, same, eq) in
      copy_entries_other left (i + 1) from to _ (to + 4 * j) past
      ∙ rw (← same) (store_same mem to i (load mem from i))
  | inr e ↦
      copy_entries_at left (i + 1) from to _ j hf ht ne (omega arith) (ground arith) (omega arith)
      ∙ store_frame mem to i (load mem from i) from j ht hf (omega arith) (omega arith)
          (λ b. ne (sym b))
]

copy_entries-words :
    (left i from to : ℕ) (mem : ℕ → ℕ)
    → ((a : ℕ) → mem a < 2 ^ 32)
    → (a : ℕ) → copy_entries left i from to mem a < 2 ^ 32
unfolding copy_entries
copy_entries-words zero i from to mem words = words
copy_entries-words (suc left) i from to mem words =
    copy_entries-words left (i + 1) from to _
      (store-words mem to i (load mem from i) (words _) words)

-- The new directory `pd2` holds the first 64 entries of `pd`; memory outside it is as before.
pub record IsClone (pd pd2 : ℕ) (s t : Paging) : Type 0 where
  pub root : t.pd ≡ s.pd
  pub old : IsPaged pd t.mem t.pmm
  pub new : IsPaged pd2 t.mem t.pmm
  pub shared : (d : ℕ) → d < kernel_pde_end → load t.mem pd2 d ≡ load s.mem pd d
  pub cleared : (d : ℕ) → kernel_pde_end ≤ d → d < 1024 → load t.mem pd2 d ≡ 0
  pub kept : (d : ℕ) → d < 1024 → load t.mem pd d ≡ load s.mem pd d
  pub unused : bit_test s.pmm.bitmap (pd2 / 4096) ≡ 0
  pub same : (d i : ℕ) → d < 1024 → i < 1024 → walk t.mem pd d i ≡ walk s.mem pd d i

module _ {pd : ℕ} {mem : ℕ → ℕ} {pmm0 : Pmm} (p : IsPaged pd mem pmm0) {f : ℕ} {pmm : Pmm}
    (n : IsNew pmm0 f pmm) where
  abbrev copied : ℕ → ℕ
  copied = copy_entries 64 0 pd (f * 4096) (clear_table 1024 0 (f * 4096) mem)

  abbrev final : ℕ → ℕ
  final = clear_table 960 64 (f * 4096) copied

  outside : (a : ℕ) → a / 4096 ≢ f → final a ≡ mem a
  outside a h =
      clear_table_other 960 64 (f * 4096) copied a (λ j lo hi e. h (omega (arith, e)))
      ∙ copy_entries_other 64 0 pd (f * 4096) _ a (λ j lo hi e. h (omega (arith, e)))
      ∙ clear_table_other 1024 0 (f * 4096) mem a (λ j lo hi e. h (omega (arith, e)))

  used_ne : (g : ℕ) → bit_test pmm0.bitmap g ≢ 0 → g ≢ f
  used_ne g used e = used (ap (λ (k : ℕ). bit_test pmm0.bitmap k) e ∙ n.taken.was_free)

  still_used : (g : ℕ) → bit_test pmm0.bitmap g ≢ 0 → bit_test pmm.bitmap g ≢ 0
  still_used g used = elim (Bool-cases (f == g)) [
    | inl e ↦ rw (n.taken.bits g, e) (λ bad. absurd (omega (arith, bad)))
    | inr e ↦ rw (n.taken.bits g, e) used
  ]

  root_kept : (d : ℕ) → d < 1024 → load final pd d ≡ load mem pd d
  root_kept d h =
      outside (pd + 4 * d) (λ e. used_ne (pd / 4096) p.root (omega (arith, e, p.aligned)))

  final-words : (a : ℕ) → final a < 2 ^ 32
  final-words =
      clear_table-words 960 64 (f * 4096) copied
        (copy_entries-words 64 0 pd (f * 4096) _ (clear_table-words 1024 0 (f * 4096) mem p.words))

  shared_entry : (d : ℕ) → d < 64 → load final (f * 4096) d ≡ load mem pd d
  shared_entry d h =
      clear_table_other 960 64 (f * 4096) copied (f * 4096 + 4 * d)
        (λ j lo hi e. absurd (omega (arith, e)))
      ∙ copy_entries_at 64 0 pd (f * 4096) _ d p.aligned (omega arith)
          (λ e. used_ne (pd / 4096) p.root (omega (arith, e))) (omega arith) (omega arith)
          (omega arith)
      ∙ clear_table_other 1024 0 (f * 4096) mem (pd + 4 * d)
          (λ j lo hi e. used_ne (pd / 4096) p.root (omega (arith, e, p.aligned)))

  cleared_entry : (d : ℕ) → 64 ≤ d → d < 1024 → load final (f * 4096) d ≡ 0
  cleared_entry d lo hi = clear_table_at 960 64 (f * 4096) copied d lo (omega arith)

  taken_used : (g : ℕ) → g ≡ f → bit_test pmm.bitmap g ≢ 0
  taken_used g e = rw (e, n.taken.bits f, ==_refl f) (λ bad. absurd (omega (arith, bad)))

  -- A present entry of the new directory is a shared one.
  shared_only : (d : ℕ) → d < 1024 → load final (f * 4096) d % 2 ≡ 1 → d < 64
  shared_only d h here = elim (Bool-cases (ltb d 64)) [
    | inl e ↦ ground (arith, e)
    | inr e ↦
        let zero_at = cleared_entry d (ground (arith, e)) h in absurd (omega (arith, zero_at, here))
  ]

  entry_odd : (d : ℕ) → d < 64 → load final (f * 4096) d % 2 ≡ 1 → load mem pd d % 2 ≡ 1
  entry_odd d h here = ap (λ (k : ℕ). k % 2) (sym (shared_entry d h)) ∙ here

  new-IsPaged : IsPaged (f * 4096) final pmm
  new-IsPaged = record {
    words = final-words;
    frames = n.valid;
    aligned = omega arith;
    root = taken_used (f * 4096 / 4096) (omega arith);
    tables = λ d h here.
        let small = shared_only d h here in
        let old = p.tables d h (entry_odd d small here) in
        rw (shared_entry d small) (
          (λ e. used_ne (load mem pd d / 4096) old.1 (omega (arith, e))),
          still_used (load mem pd d / 4096) old.1,
        );
    apart = λ d e h k here there same.
        let hd = shared_only d h here in
        let he = shared_only e k there in
        p.apart d e h k (entry_odd d hd here) (entry_odd e he there) (
          ap (λ (m : ℕ). m / 4096) (sym (shared_entry d hd))
          ∙ same
          ∙ ap (λ (m : ℕ). m / 4096) (shared_entry e he));
  }

  old_root : IsSameRoot pd mem final
  old_root = record {
    words = final-words;
    likes = λ d h. rw (root_kept d h) (IsLike-self mem (pd + 4 * d) (p.words _));
  }

  old-IsPaged : IsPaged pd final pmm
  old-IsPaged =
      let q = IsSameRoot-IsPaged old_root p in
      record {
        words = q.words;
        frames = n.valid;
        aligned = q.aligned;
        root = still_used (pd / 4096) q.root;
        tables = λ d h here. let r = q.tables d h here in (r.0, still_used _ r.1);
        apart = q.apart;
      }

  old-walk : (d i : ℕ) → d < 1024 → i < 1024 → walk final pd d i ≡ walk mem pd d i
  old-walk d i h k = walk_like mem final pd d i (old_root.likes d h) (λ here.
      outside (load mem pd d / 4096 * 4096 + 4 * i)
        (λ e. used_ne (load mem pd d / 4096) (p.tables d h here).1 (omega (arith, e))))

-- Cloning the directory of a well-formed address space halts for want of a frame, or gives a new one,
-- in a frame that was free: it shares the tables of the first 256 MiB, maps nothing above them, and
-- leaves the old space as it was.
pub paging_clone_directory-IsClone :
    (src : PageDirectory) (s : Paging)
    → IsPaged src.pd_virt s.mem s.pmm
    → (paging_clone_directory src s ≡ halt paging_oom)
      ⊎ ((dir : PageDirectory) × (t : Paging) × (paging_clone_directory src s ≡ done (dir, t))
          × IsClone src.pd_virt dir.pd_virt s t)
unfolding paging_clone_directory
paging_clone_directory-IsClone src s p = elim (alloc_table-Allocates s p.frames) [
  | inl e ↦ rw e (inl refl)
  | inr (f, pmm, e, n) ↦ rw e (
      inr (
        _,
        _,
        refl,
        record {
          root = refl;
          old = old-IsPaged p n;
          new = new-IsPaged p n;
          shared = shared_entry p n;
          cleared = cleared_entry p n;
          kept = root_kept p n;
          unused = ap (λ (k : ℕ). bit_test s.pmm.bitmap k) (omega arith) ∙ n.taken.was_free;
          same = old-walk p n;
        },
      ))
]
