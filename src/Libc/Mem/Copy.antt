-- ===== src/Libc/Mem/Copy.antt =====
-- What `memcpy`, `memset`, `memmove` and `memcmp` do, byte by byte.
use bobliu_os.Base.{
  ℕ, zero, suc, ◌+◌, ◌-◌, ◌≤◌, ◌<◌, ◌≡◌, ◌↔◌, refl, ap, ◌∙◌, arith, List, true, ◌&&◌, if◌then◌else◌,
  ltb, leb, ◌==◌, Bool-cases, inl, inr, length, get_or, set, length-set, get_or-set_self,
  get_or-set_ne,
}
use bobliu_os.Word.{u8}
use bobliu_os.Int.{is_zero}
use bobliu_os.Libc.Mem.{
  memcpy, memcpy_loop, memset, memset_loop, memmove, move_up, move_down, memcmp, memcmp_loop,
}

-- A write inside the array, read anywhere.
pub get_or-set :
    (xs : List ℕ) (i j v : ℕ)
    → i < length xs
    → get_or (set xs i v) j 0 ≡ (if i == j then v else get_or xs j 0)
get_or-set xs i j v h = elim (Bool-cases (i == j)) [
  | inl e ↦ let same : i ≡ j = ground arith in rw (e, ← same) (get_or-set_self xs i v 0 h)
  | inr e ↦ rw e (get_or-set_ne xs i j v 0 (ground arith))
]

memcpy_loop_at :
    (left i : ℕ) (dst src : List ℕ) (j : ℕ)
    → i + left ≤ length dst
    → get_or (memcpy_loop left i dst src) j 0
      ≡ (if leb i j && ltb j (i + left) then get_or src j 0 else get_or dst j 0)
unfolding memcpy_loop
memcpy_loop_at zero i dst src j h = ground arith
memcpy_loop_at (suc left) i dst src j h = ground (
  arith,
  memcpy_loop_at left (i + 1) (set dst i (get_or src i 0)) src j,
  length-set dst i (get_or src i 0),
  get_or-set dst i j (get_or src i 0),
)

-- `memcpy` copies the first `size` bytes and leaves the rest of the destination.
pub memcpy_at :
    (dst src : List ℕ) (size j : ℕ)
    → size ≤ length dst
    → get_or (memcpy dst src size) j 0 ≡ (if ltb j size then get_or src j 0 else get_or dst j 0)
unfolding memcpy
memcpy_at dst src size j h = ground (arith, memcpy_loop_at size 0 dst src j)

memset_loop_at :
    (left i : ℕ) (buf : List ℕ) (value j : ℕ)
    → i + left ≤ length buf
    → get_or (memset_loop left i buf value) j 0
      ≡ (if leb i j && ltb j (i + left) then u8 value else get_or buf j 0)
unfolding memset_loop
memset_loop_at zero i buf value j h = ground arith
memset_loop_at (suc left) i buf value j h = ground (
  arith,
  memset_loop_at left (i + 1) (set buf i (u8 value)) value j,
  length-set buf i (u8 value),
  get_or-set buf i j (u8 value),
)

pub memset_at :
    (buf : List ℕ) (value size j : ℕ)
    → size ≤ length buf
    → get_or (memset buf value size) j 0 ≡ (if ltb j size then u8 value else get_or buf j 0)
unfolding memset
memset_at buf value size j h = ground (arith, memset_loop_at size 0 buf value j)

-- One round of a move: the value that the later rounds read at `k` or leave at `j` is the old one.
pub up_round :
    (d x j i left v mk mj wk wj : ℕ)
    → d < x
    → wk ≡ (if d + i == x + (j - d) then v else mk)
    → wj ≡ (if d + i == j then v else mj)
    → (j ≡ d + i → v ≡ mk)
    → (if leb (d + (i + 1)) j && ltb j (d + (i + 1) + left) then wk else wj)
      ≡ (if leb (d + i) j && ltb j (d + i + suc left) then mk else mj)
up_round d x j i left v mk mj wk wj order ek ej here = elim (Bool-cases (d + i == j)) [
  | inl e ↦ let ev = here (ground arith) in rw (ek, ej, e) (ground arith)
  | inr e ↦ rw (ek, ej, e) (ground arith)
]

down_round :
    (d x j i v mk mj wk wj : ℕ)
    → x ≤ d
    → wk ≡ (if d + i == x + (j - d) then v else mk)
    → wj ≡ (if d + i == j then v else mj)
    → (j ≡ d + i → v ≡ mk)
    → (if leb d j && ltb j (d + i) then wk else wj)
      ≡ (if leb d j && ltb j (d + suc i) then mk else mj)
down_round d x j i v mk mj wk wj order ek ej here = elim (Bool-cases (d + i == j)) [
  | inl e ↦ let ev = here (ground arith) in rw (ek, ej, e) (ground arith)
  | inr e ↦ rw (ek, ej, e) (ground arith)
]

move_up_at :
    (dst src left i : ℕ) (mem : List ℕ) (j : ℕ)
    → dst < src
    → dst + i + left ≤ length mem
    → get_or (move_up dst src left i mem) j 0 ≡ (
        if leb (dst + i) j && ltb j (dst + i + left)
        then get_or mem (src + (j - dst)) 0
        else get_or mem j 0)
unfolding move_up
move_up_at dst src zero i mem j order h = ground arith
move_up_at dst src (suc left) i mem j order h =
    let v : ℕ = get_or mem (src + i) 0 in
    let inside : dst + i < length mem = omega arith in
    move_up_at dst src left (i + 1) (set mem (dst + i) v) j order
      (omega (arith, length-set mem (dst + i) v))
    ∙ up_round dst src j i left v _ _ _ _ order
        (get_or-set mem (dst + i) (src + (j - dst)) v inside) (get_or-set mem (dst + i) j v inside)
        (λ e. ap (λ (t : ℕ). get_or mem t 0) (omega arith))

move_down_at :
    (dst src i : ℕ) (mem : List ℕ) (j : ℕ)
    → src ≤ dst
    → dst + i ≤ length mem
    → get_or (move_down dst src i mem) j 0
      ≡ (if leb dst j && ltb j (dst + i) then get_or mem (src + (j - dst)) 0 else get_or mem j 0)
unfolding move_down
move_down_at dst src zero mem j order h = ground arith
move_down_at dst src (suc i) mem j order h =
    let v : ℕ = get_or mem (src + i) 0 in
    let inside : dst + i < length mem = omega arith in
    move_down_at dst src i (set mem (dst + i) v) j order (omega (arith, length-set mem (dst + i) v))
    ∙ down_round dst src j i v _ _ _ _ order (get_or-set mem (dst + i) (src + (j - dst)) v inside)
        (get_or-set mem (dst + i) j v inside) (λ e. ap (λ (t : ℕ). get_or mem t 0) (omega arith))

-- Where source and destination lie in one array: `memmove` moves `size` bytes as if through a copy,
-- also where the two overlap, and leaves every byte outside the destination.
pub memmove_at :
    (dst src size : ℕ) (mem : List ℕ) (j : ℕ)
    → dst + size ≤ length mem
    → src + size ≤ length mem
    → get_or (memmove dst src size mem) j 0
      ≡ (if leb dst j && ltb j (dst + size) then get_or mem (src + (j - dst)) 0 else get_or mem j 0)
unfolding memmove
memmove_at dst src size mem j fits fits' = elim (Bool-cases (ltb dst src)) [
  | inl up ↦ rw up (ground (arith, move_up_at dst src size 0 mem j))
  | inr down ↦ rw down (move_down_at dst src size mem j (ground arith) fits)
]

memcmp_loop_iff :
    (left i : ℕ) (a b : List ℕ)
    → (is_zero (memcmp_loop left i a b) ≡ true)
      ↔ ((j : ℕ) → i ≤ j → j < i + left → get_or a j 0 ≡ get_or b j 0)
unfolding memcmp_loop
memcmp_loop_iff zero i a b = ((λ e j lo hi. absurd (omega arith)), (λ same. refl))
memcmp_loop_iff (suc left) i a b = elim (Bool-cases (get_or a i 0 == get_or b i 0)) [
  | inr differ ↦ (
    (λ e j lo hi. absurd (ground arith)),
    (λ same. let at_i = same i (omega arith) (omega arith) in ground arith),
  )
  | inl equal ↦
      let at_i : get_or a i 0 ≡ get_or b i 0 = ground arith in
      let ih = memcmp_loop_iff left (i + 1) a b in
      (
        (λ e j lo hi. elim (Bool-cases (j == i)) [
          | inl here ↦ let same : j ≡ i = ground arith in rw same at_i
          | inr there ↦ ih.0 (ground arith) j (ground arith) (omega arith)
        ]),
        (λ same. let rest = ih.1 (λ j lo hi. same j (omega arith) (omega arith)) in ground arith),
      )
]

-- `memcmp` returns 0 exactly where the first `size` bytes agree.
pub memcmp_zero_iff :
    (a b : List ℕ) (size : ℕ)
    → (is_zero (memcmp a b size) ≡ true) ↔ ((j : ℕ) → j < size → get_or a j 0 ≡ get_or b j 0)
unfolding memcmp
memcmp_zero_iff a b size =
    let whole = memcmp_loop_iff size 0 a b in
    (
      (λ e j h. whole.0 e j (omega arith) (omega arith)),
      (λ same. whole.1 (λ j lo hi. same j (omega arith))),
    )
