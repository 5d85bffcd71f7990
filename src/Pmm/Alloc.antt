-- ===== src/Pmm/Alloc.antt =====
-- `pmm_alloc_frame` and `pmm_free_frame`: what they hand out, what they take back, what they refuse.
use native.Mathlib.Nat.{mod-eq_of_lt}
use bobliu_os.Base.{
  ℕ, zero, suc, ◌+◌, ◌*◌, ◌/◌, ◌%◌, ◌≤◌, ◌<◌, ◌≡◌, ◌≢◌, ◌⊎◌, refl, ◌∙◌, arith, inl, inr,
  if◌then◌else◌, leb, ◌==◌, Bool-cases,
}
use bobliu_os.Base.Bits.{bit_and_low}
use bobliu_os.Run.{Run, done, halt, not_aligned, out_of_range, double_free}
use bobliu_os.Pmm.{Pmm, frame_size, bit_test, alloc_scan, pmm_alloc_frame, pmm_free_frame}
use bobliu_os.Pmm.Bitmap.{bit_test-bit_set, bit_test-bit_clear}
use bobliu_os.Pmm.Count.{count_free-le, count_free-bit_set}
use bobliu_os.Pmm.Inv.{IsValid, taken, released, taken-IsValid, released-IsValid}

-- The frame is out for use; no other frame changes, and one fewer is free.
pub record IsTaken (f : ℕ) (s t : Pmm) : Type 0 where
  pub was_free : bit_test s.bitmap f ≡ 0
  pub bits : (j : ℕ) → bit_test t.bitmap j ≡ (if f == j then 1 else bit_test s.bitmap j)
  pub total : t.total_frames ≡ s.total_frames
  pub count : t.free_frames + 1 ≡ s.free_frames

-- Frames in use stay in use.
abbrev pub Keeps : Pmm → Pmm → Type 0
Keeps s t = (f : ℕ) → bit_test s.bitmap f ≢ 0 → bit_test t.bitmap f ≢ 0

pub taken-Keeps : {f : ℕ} {s t : Pmm} → IsTaken f s t → Keeps s t
taken-Keeps {f} {s} {t} k j used free = used (ground (arith, k.bits j, free))

-- A frame that is free stays what it was before any were taken.
pub free_before :
    (s t : Pmm) (f : ℕ) → Keeps s t → bit_test t.bitmap f ≡ 0 → bit_test s.bitmap f ≡ 0
free_before s t f kept free = elim (Bool-cases (bit_test s.bitmap f == 0)) [
  | inl e ↦ ground (arith, e)
  | inr e ↦ absurd (kept f (ground (arith, e)) free)
]

taken-IsTaken :
    {s : Pmm} (f : ℕ)
    → IsValid s
    → f < s.total_frames
    → bit_test s.bitmap f ≡ 0
    → IsTaken f s (taken f s)
taken-IsTaken {s} f v inside free = record {
  was_free = free;
  bits = λ j. bit_test-bit_set s.bitmap f j v.bytes (omega (arith, v.covers));
  total = refl;
  count = ground (
    arith,
    v.counted,
    count_free-bit_set s.bitmap f s.total_frames v.bytes (omega (arith, v.covers)) inside free,
  );
}

used_from :
    (s : Pmm) (f hi : ℕ)
    → bit_test s.bitmap f ≢ 0
    → ((j : ℕ) → f + 1 ≤ j → j < hi → bit_test s.bitmap j ≢ 0)
    → (j : ℕ) → f ≤ j
    → j < hi
    → bit_test s.bitmap j ≢ 0
used_from s f hi used rest j lo below = elim (Bool-cases (j == f)) [
  | inl e ↦ let here : j ≡ f = ground arith in rw here used
  | inr e ↦ rest j (ground arith) below
]

-- What the scan from frame `f` finds: the first free frame, or none.
abbrev pub Found : ℕ → ℕ → Pmm → ℕ × Pmm → Type 0
Found lo hi s (p, t) =
    ((f : ℕ) × (f < hi)
      × (p ≡ f * frame_size)
      × ((j : ℕ) → lo ≤ j → j < f → bit_test s.bitmap j ≢ 0)
      × IsTaken f s t
      × IsValid t)
    ⊎ (((j : ℕ) → lo ≤ j → j < hi → bit_test s.bitmap j ≢ 0) × (p ≡ 0) × (t ≡ s))

alloc_scan-Found :
    (left f : ℕ) {s : Pmm}
    → IsValid s
    → left + f ≡ s.total_frames
    → Found f s.total_frames s (alloc_scan left f s)
unfolding alloc_scan
alloc_scan-Found zero f {s} v e = inr (λ j p q. absurd (omega arith), refl, refl)
alloc_scan-Found (suc left) f {s} v e = elim (Bool-cases (bit_test s.bitmap f == 0)) [
  | inl free ↦
      let is_free : bit_test s.bitmap f ≡ 0 = ground arith in
      let inside : f < s.total_frames = omega arith in
      rw free (
        inl (
          f,
          inside,
          mod-eq_of_lt (omega (arith, v.small)),
          λ j p q. absurd (omega arith),
          taken-IsTaken f v inside is_free,
          taken-IsValid f v inside is_free,
        ))
  | inr used ↦ rw used (elim (alloc_scan-Found left (f + 1) v (omega arith)) [
    | inl (g, below, p, before, rest, w) ↦
        inl (g, below, p, used_from s f g (ground arith) before, rest, w)
    | inr (all, p, same) ↦ inr (used_from s f s.total_frames (ground arith) all, p, same)
  ])
]

-- A valid allocator hands out its first free frame: the address is that frame's, the frame's bit
-- and the count change and nothing else does, and the state stays valid. It returns 0 and changes
-- nothing exactly when no frame is free.
pub alloc_first_fit : (s : Pmm) → IsValid s → Found 0 s.total_frames s (pmm_alloc_frame s)
unfolding pmm_alloc_frame
alloc_first_fit s v = alloc_scan-Found s.total_frames 0 v (omega arith)

-- The frame is back; no other frame changes, and one more is free.
pub record IsReleased (f : ℕ) (s t : Pmm) : Type 0 where
  pub bits : (j : ℕ) → bit_test t.bitmap j ≡ (if f == j then 0 else bit_test s.bitmap j)
  pub total : t.total_frames ≡ s.total_frames
  pub count : t.free_frames ≡ s.free_frames + 1
  pub valid : IsValid t

released-IsReleased :
    {s : Pmm} (f : ℕ)
    → IsValid s
    → f < s.total_frames
    → bit_test s.bitmap f ≢ 0
    → IsReleased f s (released f s)
released-IsReleased {s} f v inside used = record {
  bits = λ j. bit_test-bit_clear s.bitmap f j v.bytes (omega (arith, v.covers));
  total = refl;
  count = mod-eq_of_lt (omega (arith, v.counted, v.small, count_free-le s.bitmap s.total_frames));
  valid = released-IsValid f v inside used;
}

-- What freeing an address comes to, with the condition of each outcome.
abbrev pub Freed : ℕ → Pmm → Run Pmm → Type 0
Freed p s r =
    ((p % frame_size ≢ 0) × (r ≡ halt not_aligned))
    ⊎ ((p % frame_size ≡ 0) × (s.total_frames ≤ p / frame_size) × (r ≡ halt out_of_range))
    ⊎ ((p % frame_size ≡ 0)
        × (p / frame_size < s.total_frames)
        × (bit_test s.bitmap (p / frame_size) ≡ 0)
        × (r ≡ halt double_free))
    ⊎ ((p % frame_size ≡ 0)
        × (p / frame_size < s.total_frames)
        × (bit_test s.bitmap (p / frame_size) ≢ 0)
        × ((t : Pmm) × (r ≡ done t) × IsReleased (p / frame_size) s t))

-- `pmm_free_frame` halts on an address that is not a frame's, that is past the last frame, or
-- whose frame is free; on any other it returns, and that frame is free again, no other bit changes,
-- one more frame is free, and the state is valid.
pub free_frame_cases : (p : ℕ) (s : Pmm) → IsValid s → Freed p s (pmm_free_frame p s)
unfolding pmm_free_frame
free_frame_cases p s v = rw (bit_and_low 12 p) (elim (Bool-cases (p % 4096 == 0)) [
  | inr crooked ↦ rw crooked (inl (ground arith, refl))
  | inl straight ↦ rw straight (
      inr (elim (Bool-cases (leb s.total_frames (p / frame_size))) [
        | inl past ↦ rw past (inl (ground arith, ground arith, refl))
        | inr inside ↦ rw inside (
            inr (elim (Bool-cases (bit_test s.bitmap (p / frame_size) == 0)) [
              | inl free ↦ rw free (inl (ground arith, ground arith, ground arith, refl))
              | inr used ↦ rw used (
                  inr (
                    ground arith,
                    ground arith,
                    ground arith,
                    (
                      released (p / frame_size) s,
                      refl,
                      released-IsReleased (p / frame_size) v (ground arith) (ground arith),
                    ),
                  ))
            ]))
      ]))
])

-- The state after an allocation and a release of the same frame shows what it showed before.
abbrev pub Restored : Pmm → Run Pmm → Type 0
Restored s r =
    (u : Pmm) × (r ≡ done u)
    × ((j : ℕ) → bit_test u.bitmap j ≡ bit_test s.bitmap j)
    × (u.free_frames ≡ s.free_frames)
    × IsValid u

Restored-at :
    (s t : Pmm) (f : ℕ)
    → f < s.total_frames
    → IsTaken f s t
    → Freed (f * frame_size) t (pmm_free_frame (f * frame_size) t)
    → Restored s (pmm_free_frame (f * frame_size) t)
Restored-at s t f h k (inl (crooked, _)) = absurd (omega arith)
Restored-at s t f h k (inr (inl (_, past, _))) = absurd (omega (arith, k.total))
Restored-at s t f h k (inr (inr (inl (_, _, free, _)))) =
    let here : f * frame_size / frame_size ≡ f = omega arith in
    absurd (ground (arith, k.bits f, here))
Restored-at s t f h k (inr (inr (inr (_, _, _, (u, e, back))))) =
    let here : f * frame_size / frame_size ≡ f = omega arith in
    (u, e, (λ j. same j here), omega (arith, k.count, back.count), back.valid)
  where
    same : (j : ℕ) → f * frame_size / frame_size ≡ f → bit_test u.bitmap j ≡ bit_test s.bitmap j
    same j here = ground (arith, back.bits j, k.bits j, k.was_free)

-- Of a valid allocator: a frame that `pmm_alloc_frame` hands out (a result other than 0) is
-- accepted by `pmm_free_frame`, after which every bit and the count are as they were.
pub free-alloc :
    (s : Pmm) {p : ℕ} {t : Pmm}
    → IsValid s
    → pmm_alloc_frame s ≡ (p, t)
    → p ≢ 0
    → Restored s (pmm_free_frame p t)
free-alloc s {p} {t} v e nonzero = go (rw e at (alloc_first_fit s v))
  where
    go : Found 0 s.total_frames s (p, t) → Restored s (pmm_free_frame p t)
    go (inl (f, inside, at, _, k, w)) =
        rw at (Restored-at s t f inside k (free_frame_cases (f * frame_size) t w))
    go (inr (_, zero_at, _)) = absurd (nonzero zero_at)

-- Of a valid allocator: a frame handed out is not handed out again by the next allocation.
pub alloc-alloc_ne :
    (s : Pmm) {p q : ℕ} {t u : Pmm}
    → IsValid s
    → pmm_alloc_frame s ≡ (p, t)
    → pmm_alloc_frame t ≡ (q, u)
    → p ≢ 0
    → p ≢ q
alloc-alloc_ne s {p} {q} {t} {u} v e e' nonzero = go (rw e at (alloc_first_fit s v))
  where
    next : (f : ℕ) → p ≡ f * frame_size → IsTaken f s t → Found 0 t.total_frames t (q, u) → p ≢ q
    next f at k (inl (g, _, at', _, k', _)) same =
        let here : f ≡ g = omega arith in absurd (ground (arith, k.bits g, k'.was_free, here))
    next f at k (inr (_, zero_at, _)) same = nonzero (same ∙ zero_at)

    go : Found 0 s.total_frames s (p, t) → p ≢ q
    go (inl (f, _, at, _, k, w)) = next f at k (rw e' at (alloc_first_fit t w))
    go (inr (_, zero_at, _)) = absurd (nonzero zero_at)
