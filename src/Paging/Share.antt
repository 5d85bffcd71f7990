-- ===== src/Paging/Share.antt =====
-- What mapping a page in one directory does to another: below 256 MiB the kernel's tables are shared.
use bobliu_os.Base.{
  ℕ, ◌+◌, ◌*◌, ◌/◌, ◌%◌, ◌^◌, ◌<◌, ◌≡◌, ◌≢◌, refl, sym, ap, ◌∙◌, arith, true, if◌then◌else◌, some,
  Bool-cases, inl, inr, bit_and, bit_or,
}
use bobliu_os.Run.{done}
use bobliu_os.Pmm.{Pmm, bit_test}
use bobliu_os.Paging.{
  Paging, PageDirectory, load, store, page_mask, p_present, p_user, has, paging_map_in,
  get_or_alloc_pt_in,
}
use bobliu_os.Paging.Entries.{IsEntry, page_mask_eq, has_present, or_flags-IsLike, pte_in-IsEntry}
use bobliu_os.Paging.Walk.{walk, IsPaged, store_ne, store-words}
use bobliu_os.Paging.Walk.Change.{IsSameRoot, IsSameRoot-IsPaged, walk_like, IsLike-self}
use bobliu_os.Paging.Table.{IsReady, as_user-IsReady}
use bobliu_os.Paging.Map.{Remaps, page_index, set_entry-Remaps, mapped_entry}
use bobliu_os.Paging.Clone.{IsClone}

-- A write into frame `g` that is neither the directory nor a table of it.
record IsElsewhere (pd : ℕ) (mem : ℕ → ℕ) (b : ℕ) : Type 0 where
  aligned : b % 4096 ≡ 0
  root : pd / 4096 ≢ b / 4096
  tables : (d : ℕ) → d < 1024 → load mem pd d % 2 ≡ 1 → load mem pd d / 4096 ≢ b / 4096

module _ {pd : ℕ} {mem : ℕ → ℕ} {pmm : Pmm} (p : IsPaged pd mem pmm) (b i x : ℕ)
    (away : IsElsewhere pd mem b) (h : i < 1024) (fits : x < 2 ^ 32) where
  root_kept : (d : ℕ) → d < 1024 → load (store b i x mem) pd d ≡ load mem pd d
  root_kept d k =
      store_ne mem b i x (pd + 4 * d) (λ e. away.root (omega (arith, e, p.aligned, away.aligned)))

  elsewhere-IsSameRoot : IsSameRoot pd mem (store b i x mem)
  elsewhere-IsSameRoot = record {
    words = store-words mem b i x fits p.words;
    likes = λ d k. rw (root_kept d k) (IsLike-self mem (pd + 4 * d) (p.words _));
  }

  elsewhere-walk : (d t : ℕ) → d < 1024 → t < 1024 → walk (store b i x mem) pd d t ≡ walk mem pd d t
  elsewhere-walk d t k j =
      walk_like mem (store b i x mem) pd d t (elsewhere-IsSameRoot.likes d k) (λ here.
        store_ne mem b i x (load mem pd d / 4096 * 4096 + 4 * t)
          (λ e. away.tables d k here (omega (arith, e, away.aligned))))

-- A table of this directory is as ready as it was.
elsewhere-IsReady :
    {pd : ℕ} (s : Paging) (b i x pt d : ℕ)
    → IsPaged pd s.mem s.pmm
    → IsElsewhere pd s.mem b
    → i < 1024
    → x < 2 ^ 32
    → d < 1024
    → load s.mem pd d % 2 ≡ 1
    → pt ≡ load s.mem pd d / 4096 * 4096
    → IsReady pd d s pt (record s { mem = store b i x s.mem })
elsewhere-IsReady s b i x pt d p away h fits k here at =
    let r = elsewhere-IsSameRoot p b i x away h fits in
    let l = r.likes d k in
    record {
      root = refl;
      paged = IsSameRoot-IsPaged r p;
      here = l.present ∙ here;
      table = at ∙ ap (λ (n : ℕ). n * 4096) (sym l.frame);
      same = elsewhere-walk p b i x away h fits;
      kept = λ f used. used;
    }

still-IsReady :
    {pd : ℕ} (s : Paging) (pt d : ℕ)
    → IsPaged pd s.mem s.pmm
    → load s.mem pd d % 2 ≡ 1
    → pt ≡ load s.mem pd d / 4096 * 4096
    → IsReady pd d s pt s
still-IsReady s pt d p here at = record {
  root = refl;
  paged = p;
  here = here;
  table = at;
  same = λ e i j k. refl;
  kept = λ f used. used;
}

-- Two directories of which `d` is an entry to the same table.
pub record IsSharing (pd pd2 d : ℕ) (s : Paging) : Type 0 where
  pub old : IsPaged pd s.mem s.pmm
  pub new : IsPaged pd2 s.mem s.pmm
  pub here : load s.mem pd d % 2 ≡ 1
  pub shared : load s.mem pd2 d ≡ load s.mem pd d
  pub roots : pd / 4096 ≢ pd2 / 4096
  pub no_table : (e : ℕ) → e < 1024 → load s.mem pd e % 2 ≡ 1 → load s.mem pd e / 4096 ≢ pd2 / 4096

-- After a clone, a present entry below 256 MiB is shared.
pub IsClone-IsSharing :
    {pd pd2 : ℕ} {s t : Paging} (d : ℕ)
    → IsPaged pd s.mem s.pmm
    → IsClone pd pd2 s t
    → d < 64
    → load s.mem pd d % 2 ≡ 1
    → IsSharing pd pd2 d t
IsClone-IsSharing {pd} {pd2} {s} {t} d p c h here = record {
  old = c.old;
  new = c.new;
  here = rw (c.kept d (omega arith)) here;
  shared = c.shared d h ∙ sym (c.kept d (omega arith));
  roots = λ e. p.root (ap (λ (g : ℕ). bit_test s.pmm.bitmap g) e ∙ c.unused);
  no_table = λ e k odd.
      let was : load s.mem pd e % 2 ≡ 1 = ap (λ (n : ℕ). n % 2) (sym (c.kept e k)) ∙ odd in
      λ same. (p.tables e k was).1 (
        ap (λ (g : ℕ). bit_test s.pmm.bitmap g) (ap (λ (n : ℕ). n / 4096) (sym (c.kept e k)) ∙ same)
        ∙ c.unused);
}

module _ (pd : ℕ) (dir : PageDirectory) (s : Paging) (v : ℕ) (below : v < 2 ^ 32)
    (sh : IsSharing pd dir.pd_virt (v / 2 ^ 22) s) where
  -- The memory once the new directory's entry may be used by a user.
  abbrev as_user : ℕ → ℕ → ℕ
  as_user flags =
      let pde = load s.mem dir.pd_virt (v / 2 ^ 22) in
      if has p_user flags
      then (if has p_user pde
          then s.mem
          else store dir.pd_virt (v / 2 ^ 22) (bit_or pde p_user) s.mem)
      else s.mem

  old-IsReady :
      (flags : ℕ)
      → IsReady pd
          (v / 2 ^ 22)
          s
          (bit_and (load s.mem dir.pd_virt (v / 2 ^ 22)) page_mask)
          (record s { mem = as_user flags })
  old-IsReady flags =
      let d : ℕ = v / 2 ^ 22 in
      let pde : ℕ = load s.mem dir.pd_virt d in
      let at : bit_and pde page_mask ≡ load s.mem pd d / 4096 * 4096 =
        page_mask_eq pde (sh.old.words _) ∙ ap (λ (n : ℕ). n / 4096 * 4096) sh.shared in
      let l = or_flags-IsLike pde p_user (sh.old.words _) (omega arith) refl in
      elim (Bool-cases (has p_user flags)) [
        | inl e ↦ elim (Bool-cases (has p_user pde)) [
          | inl g ↦ simp (e, g) (still-IsReady s _ d sh.old sh.here at)
          | inr g ↦
              simp (e, g)
                (elsewhere-IsReady s dir.pd_virt d (bit_or pde p_user) _ d sh.old
                  (record { aligned = sh.new.aligned; root = sh.roots; tables = sh.no_table })
                  (omega arith) l.word (omega arith) sh.here at)
        ]
        | inr e ↦ simp e (still-IsReady s _ d sh.old sh.here at)
      ]

  -- Where two directories share the table for an address, mapping its page in one of them succeeds and
  -- maps the page to the same frame in both; every other address of both translates as before.
  pub paging_map_in-shared :
      (p flags : ℕ)
      → p < 2 ^ 32
      → flags < 4096
      → (t : Paging) × (paging_map_in dir v p flags s ≡ done (true, t))
        × Remaps dir.pd_virt v (some (p / 4096)) s t
        × Remaps pd v (some (p / 4096)) s t
  unfolding paging_map_in get_or_alloc_pt_in
  paging_map_in-shared p flags hp low =
      let at = page_index v below in
      let d : ℕ = v / 2 ^ 22 in
      let x : ℕ = bit_or (bit_or (bit_and p page_mask) flags) p_present in
      let entry : IsEntry (p / 4096) x =
        rw (page_mask_eq p hp) (pte_in-IsEntry (p / 4096) flags (omega arith) low) in
      let odd : load s.mem dir.pd_virt d % 2 ≡ 1 = ap (λ (n : ℕ). n % 2) sh.shared ∙ sh.here in
      let there : has p_present (load s.mem dir.pd_virt d) ≡ true =
        has_present (load s.mem dir.pd_virt d) ∙ ground (arith, odd) in
      let va : ℕ = bit_and v page_mask in
      let va_below : va < 2 ^ 32 = omega (arith, page_mask_eq v below) in
      let new = as_user-IsReady s va va_below dir.pd_virt flags sh.new (rw at.0 odd) in
      rw (at.0, at.1, there)
        (
          _,
          refl,
          rw (← mapped_entry (p / 4096) x entry)
              (set_entry-Remaps v x sh.new.words below entry.word (rw at.0 at new)),
          rw (← mapped_entry (p / 4096) x entry)
              (set_entry-Remaps v x sh.old.words below entry.word (old-IsReady flags)),
        )
