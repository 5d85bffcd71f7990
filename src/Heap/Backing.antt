-- ===== src/Heap/Backing.antt =====
-- The loop of `heap_ensure_backed` of kernel/arch/i386/mm/heap.c: the frames that it takes for the pages that it
-- backs.
use native.Mathlib.Nat.{mod-eq_of_lt}
use native.Mathlib.Decide.{dec_lt}
use bobliu_os.Base.{
  ℕ, zero, suc, ◌+◌, ◌*◌, ◌%◌, ◌^◌, ◌≤◌, ◌<◌, ◌≡◌, ◌⊎◌, ◌≢◌, refl, sym, ap, ◌∙◌, arith, inl, inr,
  List, true, ltb, ◌==◌, Bool-cases, false,
}
use bobliu_os.Word.{u32}
use bobliu_os.Run.{Run, done, halt, heap_oom}
use bobliu_os.Pmm.{Pmm, bit_test, pmm_alloc_frame}
use bobliu_os.Pmm.Count.{count_free}
use bobliu_os.Pmm.Inv.{IsValid}
use bobliu_os.Pmm.Alloc.{Keeps, taken-Keeps, free_before, alloc_first_fit}
use bobliu_os.Heap.{Heap, page_size, back_pages}

-- A frame is taken for each page that is backed, and no page but for `need`: from `m` to `n` the backed end has
-- moved, and the number of free frames from `a` to `b`.
pub record Takes (need m n a b : ℕ) : Type 0 where
  pub pages : ℕ
  pub count : a ≡ b + pages
  pub moved : n ≡ m + pages * page_size
  pub least : 1 ≤ pages → n < need + page_size

-- There are fewer free frames than `need` asks for, or the frame at address 0 is free, which is taken for
-- none.
abbrev pub Lacks : ℕ → Heap → Type 0
Lacks need h = (bit_test h.pmm.bitmap 0 ≡ 0) ⊎ (h.mapped_end + h.pmm.free_frames * page_size < need)

-- `t` is `h` with more pages backed, up to `need` at least.
pub record IsBacked (need : ℕ) (h t : Heap) : Type 0 where
  pub start : t.start ≡ h.start
  pub end : t.end ≡ h.end
  pub brk : t.brk ≡ h.brk
  pub reached : need ≤ t.mapped_end
  pub grown : h.mapped_end ≤ t.mapped_end
  pub frames : IsValid t.pmm
  pub kept : Keeps h.pmm t.pmm
  pub takes : Takes need h.mapped_end t.mapped_end h.pmm.free_frames t.pmm.free_frames

alloc-Keeps : (s : Pmm) → IsValid s → Keeps s (pmm_alloc_frame s).1
alloc-Keeps s v = elim (alloc_first_fit s v) [
  | inl (f, inside, at, before, taken, w) ↦ taken-Keeps taken
  | inr (used, at, same) ↦ rw same (λ f u. u)
]

alloc-IsValid : (s : Pmm) → IsValid s → IsValid (pmm_alloc_frame s).1
alloc-IsValid s v = elim (alloc_first_fit s v) [
  | inl (_, _, _, _, _, w) ↦ w
  | inr (_, _, same) ↦ rw same v
]

none_free :
    (bitmap : List ℕ) (n : ℕ) → ((j : ℕ) → j < n → bit_test bitmap j ≢ 0) → count_free bitmap n ≡ 0
unfolding count_free
none_free bitmap zero used = refl
none_free bitmap (suc n) used =
    let rest = none_free bitmap n (λ j below. used j (omega arith)) in
    let here : (bit_test bitmap n == 0) ≡ false = ground (arith, used n (omega arith)) in
    rw here (omega (arith, rest))

-- A frame that is handed out is counted; when none is, the first page lacks one.
alloc-count :
    (s : Pmm)
    → IsValid s
    → ((pmm_alloc_frame s).0 == 0) ≡ false
    → s.free_frames ≡ (pmm_alloc_frame s).1.free_frames + 1
alloc-count s v some_frame = elim (alloc_first_fit s v) [
  | inl (f, inside, at, before, taken, w) ↦ omega (arith, taken.count)
  | inr (used, at, same) ↦ absurd (ground (arith, some_frame, at))
]

alloc-Lacks :
    (need : ℕ) (h : Heap)
    → IsValid h.pmm
    → h.mapped_end < need
    → ((pmm_alloc_frame h.pmm).0 == 0) ≡ true
    → Lacks need h
alloc-Lacks need h v below out = elim (alloc_first_fit h.pmm v) [
  | inl (f, inside, at, before, taken, w) ↦
      let first : f ≡ 0 = ground (arith, at, out) in
      inl (ap (λ (x : ℕ). bit_test h.pmm.bitmap x) (sym first) ∙ taken.was_free)
  | inr (used, at, same) ↦
      let none_left =
        none_free h.pmm.bitmap h.pmm.total_frames (λ j below. used j (omega arith) below) in
      inr (omega (arith, v.counted, none_left))
]

-- A run that stops for want of a frame, or returns with the pages backed.
abbrev pub Backing : ℕ → Heap → Run Heap → Type 0
Backing need h r =
    (Lacks need h × (r ≡ halt heap_oom)) ⊎ ((t : Heap) × (r ≡ done t) × IsBacked need h t)

Backing-mono :
    (need : ℕ) (h : Heap) (m : ℕ) (pmm : Pmm) (r : Run Heap)
    → h.mapped_end < need
    → m ≡ h.mapped_end + page_size
    → Keeps h.pmm pmm
    → h.pmm.free_frames ≡ pmm.free_frames + 1
    → Backing need (record h { mapped_end = m; pmm = pmm }) r
    → Backing need h r
Backing-mono need h m pmm r below up more one (inl (inl free, out)) =
    inl (inl (free_before h.pmm pmm 0 more free), out)
Backing-mono need h m pmm r below up more one (inl (inr few, out)) =
    inl (inr (omega (arith, few, up, one)), out)
Backing-mono need h m pmm r below up more one (inr (t, e, b)) = inr (
  t,
  e,
  record {
    start = b.start;
    end = b.end;
    brk = b.brk;
    reached = b.reached;
    grown = omega (arith, b.grown, up);
    frames = b.frames;
    kept = λ f used. b.kept f (more f used);
    takes = record {
      pages = b.takes.pages + 1;
      count = omega (arith, b.takes.count, one);
      moved = omega (arith, b.takes.moved, up);
      least = λ some_pages. elim (dec_lt 0 b.takes.pages) [
        | yes more_pages ↦ b.takes.least more_pages
        | no last ↦ omega (arith, b.takes.moved, up, below, last)
      ];
    };
  },
)

-- The loop backs pages up to `need`, or halts since no frame is left; it does not run on.
pub back_pages-Backing :
    (fuel need : ℕ) (h : Heap)
    → IsValid h.pmm
    → need % page_size ≡ 0
    → need < 2 ^ 32
    → need + page_size ≤ h.mapped_end + fuel * page_size
    → 0 < fuel
    → Backing need h (back_pages fuel need h)
unfolding back_pages
back_pages-Backing zero need h v q small enough some_fuel = absurd (omega arith)
back_pages-Backing (suc fuel) need h v q small enough some_fuel =
    elim (Bool-cases (ltb h.mapped_end need)) [
      | inr last ↦ rw last (
          inr (
            h,
            refl,
            record {
              start = refl;
              end = refl;
              brk = refl;
              reached = ground arith;
              grown = omega arith;
              frames = v;
              kept = λ f used. used;
              takes = record {
                pages = 0;
                count = omega arith;
                moved = omega arith;
                least = λ some_pages. absurd (omega (arith, some_pages));
              };
            },
          ))
      | inl more ↦ elim (Bool-cases ((pmm_alloc_frame h.pmm).0 == 0)) [
        | inl out ↦ rw (more, out) (inl (alloc-Lacks need h v (ground (arith, more)) out, refl))
        | inr some_frame ↦
            let below : h.mapped_end < need = ground arith in
            let up : u32 (h.mapped_end + page_size) ≡ h.mapped_end + page_size =
              mod-eq_of_lt (omega arith) in
            let grown : Heap = record h {
              mapped_end = h.mapped_end + page_size;
              pmm = (pmm_alloc_frame h.pmm).1;
            } in
            let ih =
              back_pages-Backing fuel need grown (alloc-IsValid h.pmm v) q small (omega arith)
                (omega arith) in
            rw (more, some_frame, up)
              (Backing-mono need h (h.mapped_end + page_size) _ _ below refl (alloc-Keeps h.pmm v)
                (alloc-count h.pmm v some_frame) ih)
      ]
    ]
