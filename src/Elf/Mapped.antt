-- ===== src/Elf/Mapped.antt =====
-- The mapping loops of `elf_load_image`, kernel/arch/i386/cpu/user_exec.c: `map_pages`, `map_segments`
-- and `map_stack`.
use bobliu_os.Base.{
  ℕ, zero, suc, ◌+◌, ◌-◌, ◌*◌, ◌/◌, ◌^◌, ◌≤◌, ◌<◌, ◌≡◌, refl, sym, ap, subst, ◌∙◌, arith, Bool,
  true, false, ◌&&◌, ◌||◌, leb, ltb, ◌==◌, Bool-cases, inl, inr, bit_or,
}
use bobliu_os.Word.{u32}
use bobliu_os.Run.{Run, done, ◌>>=◌, >>=-eq-done}
use bobliu_os.Paging.{Paging, PageDirectory, p_present, p_rw, p_user, paging_alloc_map_in}
use bobliu_os.Paging.Entries.{page_mask_eq}
use bobliu_os.Paging.Walk.{IsPaged}
use bobliu_os.Paging.Grow.{
  Grows, Grows-none, Grows-same, Grows-then, MapsAll, paging_alloc_map_in-MapsAll,
}
use bobliu_os.Elf.Image.{Phdr, segment_fits, is_apart, is_loaded, align_down, align_up}
use bobliu_os.Elf.Load.{
  user_stack_top, map_pages, max_pages, map_flags, map_segment, map_segments, map_stack,
}

-- What follows the mapping of some pages maps others.
pub MapsAll-then :
    {pd : ℕ} {a b : ℕ → Bool} {s : Paging} (run : Run (Bool × Paging))
    (more : Bool × Paging → Run (Bool × Paging))
    → MapsAll pd a s run
    → ((t : Paging) → more (false, t) ≡ done (false, t))
    → ((t : Paging) → Grows pd a s t → MapsAll pd b t (more (true, t)))
    → MapsAll pd (λ p. a p || b p) s (run >>= more)
MapsAll-then run more (inl e) stop next = rw e (inl refl)
MapsAll-then run more (inr (inl (t, c, e, g, within))) stop next =
    rw (e, stop t) (inr (inl (t, c, refl, g, λ p h. rw (within p h) refl)))
MapsAll-then {pd} {a} {b} {s} run more (inr (inr (t, e, g))) stop next = rw e (after (next t g))
  where
    either :
        (c : ℕ → Bool) (p : ℕ) → (c p ≡ true → b p ≡ true) → a p || c p ≡ true → a p || b p ≡ true
    either c p inside e = elim (Bool-cases (a p)) [
      | inl f ↦ rw f refl
      | inr f ↦ let g : c p ≡ true = ground (arith, e, f) in rw (f, inside g) refl
    ]

    after : MapsAll pd b t (more (true, t)) → MapsAll pd (λ p. a p || b p) s (more (true, t))
    after (inl f) = inl f
    after (inr (inl (u, c, f, h, within))) =
        inr (inl (u, (λ p. a p || c p), f, Grows-then g h, λ p e. either c p (within p) e))
    after (inr (inr (u, f, h))) = inr (inr (u, f, Grows-then g h))

pub MapsAll-same :
    {pd : ℕ} {a b : ℕ → Bool} {s : Paging} {run : Run (Bool × Paging)}
    → ((p : ℕ) → a p ≡ b p)
    → MapsAll pd a s run
    → MapsAll pd b s run
MapsAll-same same (inl e) = inl e
MapsAll-same same (inr (inl (t, c, e, g, within))) =
    inr (inl (t, c, e, g, λ p h. sym (same p) ∙ within p h))
MapsAll-same same (inr (inr (t, e, g))) = inr (inr (t, e, Grows-same same g))

pub MapsAll-none :
    {pd : ℕ} {a : ℕ → Bool} {s : Paging}
    → IsPaged pd s.mem s.pmm
    → ((p : ℕ) → a p ≡ false)
    → MapsAll pd a s (done (true, s))
MapsAll-none {s = s} p empty = inr (inr (s, refl, Grows-same (λ q. sym (empty q)) (Grows-none p)))

-- The pages from number `a` to `b`.
abbrev pub between : ℕ → ℕ → ℕ → Bool
between a b p = leb a p && ltb p b

pub map_pages_all :
    (fuel : ℕ) (dir : PageDirectory) (a b flags : ℕ) (s : Paging)
    → IsPaged dir.pd_virt s.mem s.pmm
    → b < 2 ^ 20
    → flags < 4096
    → b ≤ a + fuel
    → MapsAll dir.pd_virt (between a b) s (map_pages fuel dir (a * 4096) (b * 4096) flags s)
unfolding map_pages
map_pages_all zero dir a b flags s p top low enough =
    let test : ltb (a * 4096) (b * 4096) ≡ false = ground (arith, enough) in
    rw test (MapsAll-none p (λ q. ground (arith, enough)))
map_pages_all (suc fuel) dir a b flags s p top low enough =
    elim (Bool-cases (ltb (a * 4096) (b * 4096))) [
      | inr e ↦ rw e (MapsAll-none p (λ q. ground (arith, e)))
      | inl e ↦
          let next : u32 (a * 4096 + 0x1000) ≡ (a + 1) * 4096 = ground (arith, e, top) in
          let page : a * 4096 / 4096 ≡ a = omega arith in
          let covers : (q : ℕ) → (q == a * 4096 / 4096) || between (a + 1) b q ≡ between a b q =
            λ q. rw page (ground (arith, e)) in
          rw e (
            MapsAll-same covers (
              MapsAll-then (paging_alloc_map_in dir (a * 4096) flags s) _
                (paging_alloc_map_in-MapsAll dir (a * 4096) flags s p (ground (arith, e, top)) low)
                (λ t. refl)
                (λ t g. rw next (
                  map_pages_all fuel dir (a + 1) b flags t g.paged top low
                    (omega (arith, enough))))))
    ]

-- The pages that a segment is mapped to.
abbrev pub segment_pages : Phdr → ℕ → Bool
segment_pages p = between (p.p_vaddr / 4096) ((p.p_vaddr + p.p_memsz + 4095) / 4096)

-- The segment is above the identity map of 256 MiB, its end, rounded up to a page, is below 2^32, and its
-- part of the file is no longer than itself.
pub record IsSound (p : Phdr) : Type 0 where
  pub above : 2 ^ 28 ≤ p.p_vaddr
  pub ends : p.p_vaddr + p.p_memsz + 4095 < 2 ^ 32
  pub part : p.p_filesz ≤ p.p_memsz

pub IsSound-is_apart : (p : Phdr) → IsSound p → is_apart p ≡ true
IsSound-is_apart p o = ground (arith, o.above, o.ends, o.part)

pub segment_ends :
    (p : Phdr)
    → IsSound p
    → (align_down p.p_vaddr ≡ p.p_vaddr / 4096 * 4096)
      × (align_up (u32 (p.p_vaddr + p.p_memsz)) ≡ (p.p_vaddr + p.p_memsz + 4095) / 4096 * 4096)
unfolding align_down align_up
segment_ends p o =
    let inner : u32 (p.p_vaddr + p.p_memsz) ≡ p.p_vaddr + p.p_memsz = omega (arith, o.ends) in
    let outer : u32 (p.p_vaddr + p.p_memsz + 0xFFF) ≡ p.p_vaddr + p.p_memsz + 0xFFF =
      omega (arith, o.ends) in
    rw (inner, outer)
      (page_mask_eq p.p_vaddr (omega (arith, o.ends)), page_mask_eq _ (omega (arith, o.ends)))

map_flags_low : map_flags < 4096
map_flags_low = omega arith

pub map_segment-MapsAll :
    (dir : PageDirectory) (p : Phdr) (file_sz : ℕ) (s : Paging)
    → IsPaged dir.pd_virt s.mem s.pmm
    → (is_loaded p ≡ true → IsSound p)
    → MapsAll dir.pd_virt (λ q. is_loaded p && segment_pages p q) s (map_segment dir p file_sz s)
unfolding map_segment
map_segment-MapsAll dir p file_sz s paged sound = elim (Bool-cases (is_loaded p)) [
  | inr e ↦ rw e (MapsAll-none paged (λ q. refl))
  | inl e ↦ elim (Bool-cases (segment_fits p file_sz)) [
    | inr f ↦ rw (e, f) (inr (inl (s, _, refl, Grows-none paged, λ q h. cc)))
    | inl f ↦
        let o = sound e in
        let ends = segment_ends p o in
        rw (e, f, IsSound-is_apart p o, ends.0, ends.1)
          (map_pages_all max_pages dir (p.p_vaddr / 4096) ((p.p_vaddr + p.p_memsz + 4095) / 4096)
            map_flags s paged (omega (arith, o.ends)) map_flags_low (omega (arith, o.ends)))
  ]
]

-- The pages of `count` segments from `i` on.
unfoldable pub segments_pages : ℕ → ℕ → (ℕ → Phdr) → ℕ → Bool
segments_pages zero i phdrs q = false
segments_pages (suc count) i phdrs q =
    (is_loaded (phdrs i) && segment_pages (phdrs i) q) || segments_pages count (i + 1) phdrs q

-- All segments that are loaded are sound.
abbrev pub AllSound : ℕ → ℕ → (ℕ → Phdr) → Type 0
AllSound count i phdrs =
    (j : ℕ) → i ≤ j → j < i + count → is_loaded (phdrs j) ≡ true → IsSound (phdrs j)

pub map_segments-MapsAll :
    (count i : ℕ) (dir : PageDirectory) (phdrs : ℕ → Phdr) (file_sz : ℕ) (s : Paging)
    → IsPaged dir.pd_virt s.mem s.pmm
    → AllSound count i phdrs
    → MapsAll dir.pd_virt
        (segments_pages count i phdrs)
        s
        (map_segments count i dir phdrs file_sz s)
unfolding map_segments segments_pages
map_segments-MapsAll zero i dir phdrs file_sz s paged sound = MapsAll-none paged (λ q. refl)
map_segments-MapsAll (suc count) i dir phdrs file_sz s paged sound =
    MapsAll-then (map_segment dir (phdrs i) file_sz s) _
      (map_segment-MapsAll dir (phdrs i) file_sz s paged (sound i (omega arith) (omega arith)))
      (λ t. refl)
      (λ t g.
        map_segments-MapsAll count (i + 1) dir phdrs file_sz t g.paged
          (λ j lo hi. sound j (omega arith) (omega arith)))

-- The pages below the top of the stack, for `count` of them from `i` on.
abbrev pub stack_pages : ℕ → ℕ → ℕ → Bool
stack_pages count i = between (8193 - i - count) (8193 - i)

pub map_stack-MapsAll :
    (count i : ℕ) (dir : PageDirectory) (s : Paging)
    → IsPaged dir.pd_virt s.mem s.pmm
    → 1 ≤ i
    → i + count < 8192
    → MapsAll dir.pd_virt (stack_pages count i) s (map_stack count i dir s)
unfolding map_stack
map_stack-MapsAll zero i dir s paged lo hi = MapsAll-none paged (λ q. ground arith)
map_stack-MapsAll (suc count) i dir s paged lo hi =
    let va : ℕ = user_stack_top - i * 0x1000 in
    let covers : (q : ℕ)
        → (q == va / 4096) || stack_pages count (i + 1) q ≡ stack_pages (suc count) i q =
      λ q. ground (arith, lo, hi) in
    MapsAll-same covers (
      MapsAll-then (paging_alloc_map_in dir va (bit_or (bit_or p_present p_rw) p_user) s) _
        (paging_alloc_map_in-MapsAll dir va (bit_or (bit_or p_present p_rw) p_user) s paged
          (omega arith) (omega arith))
        (λ t. refl)
        (λ t g. map_stack-MapsAll count (i + 1) dir t g.paged (omega arith) (omega (arith, hi))))

-- The part of the file that each loaded segment has is inside it, as far as the check of the code goes.
abbrev pub AllFit : ℕ → ℕ → (ℕ → Phdr) → ℕ → Type 0
AllFit count i phdrs file_sz =
    (j : ℕ)
    → i ≤ j
    → j < i + count
    → is_loaded (phdrs j) ≡ true
    → segment_fits (phdrs j) file_sz ≡ true

map_segment_fits :
    (dir : PageDirectory) (p : Phdr) (file_sz : ℕ) (s t : Paging)
    → map_segment dir p file_sz s ≡ done (true, t)
    → is_loaded p ≡ true
    → segment_fits p file_sz ≡ true
unfolding map_segment
map_segment_fits dir p file_sz s t e loaded = elim (Bool-cases (segment_fits p file_sz)) [
  | inl f ↦ f
  | inr f ↦ let broken : done (false, s) ≡ done (true, t) = rw (loaded, f) at e in cc broken
]

pub map_segments-AllFit :
    (count i : ℕ) (dir : PageDirectory) (phdrs : ℕ → Phdr) (file_sz : ℕ) (s t : Paging)
    → map_segments count i dir phdrs file_sz s ≡ done (true, t)
    → AllFit count i phdrs file_sz
unfolding map_segments
map_segments-AllFit zero i dir phdrs file_sz s t e j lo hi loaded = absurd (omega (arith, lo, hi))
map_segments-AllFit (suc count) i dir phdrs file_sz s t e j lo hi loaded =
    let (r, first, rest) = >>=-eq-done (map_segment dir (phdrs i) file_sz s) _ e in
    elim (Bool-cases r.0) [
      | inr stopped ↦
          let broken : done (false, r.1) ≡ done (true, t) = rw stopped at rest in cc broken
      | inl more ↦
          let on : map_segments count (i + 1) dir phdrs file_sz r.1 ≡ done (true, t) =
            rw more at rest in
          elim (Bool-cases (j == i)) [
            | inl here ↦
                let same : j ≡ i = ground (arith, here) in
                let mapped : map_segment dir (phdrs i) file_sz s ≡ done (true, r.1) =
                  first ∙ ap (λ b. done (b, r.1)) more in
                rw same (
                  map_segment_fits dir (phdrs i) file_sz s r.1 mapped
                    (subst (λ (x : ℕ). is_loaded (phdrs x) ≡ true) same loaded))
            | inr later ↦
                map_segments-AllFit count (i + 1) dir phdrs file_sz r.1 t on j
                  (ground (arith, lo, later)) (omega (arith, hi)) loaded
          ]
    ]
