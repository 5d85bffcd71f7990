-- ===== src/Pmm/Count.antt =====
-- The number of free frames that the bitmap shows, which `g_free_frames` is to keep.
use bobliu_os.Base.{
  ℕ, zero, suc, ◌+◌, ◌≤◌, ◌<◌, ◌≡◌, ◌≢◌, refl, arith, List, if◌then◌else◌, ◌==◌, length,
}
use bobliu_os.Base.{Bool-cases, inl, inr, ◌/◌}
use bobliu_os.Pmm.{bit_set, bit_clear, bit_test}
use bobliu_os.Pmm.Bitmap.{AllBytes, bit_test-bit_set, bit_test-bit_clear, bit_test_bit}

-- The free frames below `n`.
unfoldable pub count_free : List ℕ → ℕ → ℕ
count_free bitmap zero = 0
count_free bitmap (suc n) = (if bit_test bitmap n == 0 then 1 else 0) + count_free bitmap n

pub count_free-le : (bitmap : List ℕ) (n : ℕ) → count_free bitmap n ≤ n
unfolding count_free
count_free-le bitmap zero = omega arith
count_free-le bitmap (suc n) = ground (arith, count_free-le bitmap n)

-- Two bitmaps that agree below `n`, but at most at `i`.
count_free_away :
    (a b : List ℕ) (i n : ℕ)
    → ((j : ℕ) → j ≢ i → bit_test a j ≡ bit_test b j)
    → n ≤ i
    → count_free a n ≡ count_free b n
unfolding count_free
count_free_away a b i zero same h = refl
count_free_away a b i (suc n) same h =
    rw (same n (omega arith), count_free_away a b i n same (omega arith))

count_free_one :
    (a b : List ℕ) (i n : ℕ)
    → ((j : ℕ) → j ≢ i → bit_test a j ≡ bit_test b j)
    → bit_test a i ≡ 0
    → bit_test b i ≡ 1
    → i < n
    → count_free a n ≡ suc (count_free b n)
unfolding count_free
count_free_one a b i zero same ha hb h = absurd (omega arith)
count_free_one a b i (suc n) same ha hb h = elim (Bool-cases (n == i)) [
  | inl here ↦
      let e : n ≡ i = ground arith in
      rw (e, ha, hb, count_free_away a b i i same (omega arith)) (omega arith)
  | inr there ↦
      rw (same n (ground arith), count_free_one a b i n same ha hb (ground arith)) (omega arith)
]

module _ (bitmap : List ℕ) (i n : ℕ) (bytes : AllBytes bitmap)
    (inside : i / 8 < length bitmap) where
  set_away : (j : ℕ) → j ≢ i → bit_test bitmap j ≡ bit_test (bit_set bitmap i) j
  set_away j ne = ground (arith, bit_test-bit_set bitmap i j bytes inside)

  clear_away : (j : ℕ) → j ≢ i → bit_test (bit_clear bitmap i) j ≡ bit_test bitmap j
  clear_away j ne = ground (arith, bit_test-bit_clear bitmap i j bytes inside)

  -- Using a free frame takes one from the count, and freeing a used one gives it back.
  pub count_free-bit_set :
      i < n → bit_test bitmap i ≡ 0 → count_free bitmap n ≡ suc (count_free (bit_set bitmap i) n)
  count_free-bit_set h free =
      count_free_one bitmap (bit_set bitmap i) i n set_away free
        (ground (arith, bit_test-bit_set bitmap i i bytes inside)) h

  pub count_free-bit_clear :
      i < n → bit_test bitmap i ≢ 0 → count_free (bit_clear bitmap i) n ≡ suc (count_free bitmap n)
  count_free-bit_clear h used =
      count_free_one (bit_clear bitmap i) bitmap i n clear_away
        (ground (arith, bit_test-bit_clear bitmap i i bytes inside))
        (omega (arith, bit_test_bit bitmap i)) h
