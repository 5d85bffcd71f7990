-- ===== src/Paging/Walk.antt =====
-- What a directory maps: the walk over its tables, and how the writes of paging.c change it.
pub mod Change
use bobliu_os.Base.{
  ℕ, zero, suc, ◌+◌, ◌-◌, ◌*◌, ◌/◌, ◌%◌, ◌^◌, ◌≤◌, ◌<◌, ◌≡◌, ◌≢◌, refl, sym, ap, ◌∙◌, arith, Bool,
  true, false, if◌then◌else◌, ◌==◌, ==_refl, Option, none, some, Bool-cases, inl, inr,
}
use bobliu_os.Pmm.{Pmm, bit_test}
use bobliu_os.Pmm.Inv.{IsValid}
use bobliu_os.Paging.{load, store, clear_table}
use bobliu_os.Paging.Entries.{is_present}

-- The frame that entry `t` of table `d` of the directory maps, if both entries are present.
abbrev pub walk : (ℕ → ℕ) → ℕ → ℕ → ℕ → Option ℕ
walk mem pd d t =
    let e = load mem pd d in
    let q = load mem (e / 4096 * 4096) t in
    if is_present e then (if is_present q then some (q / 4096) else none) else none

-- The directory and its tables are frames in use, and no two of them are the same.
pub record IsPaged (pd : ℕ) (mem : ℕ → ℕ) (pmm : Pmm) : Type 0 where
  pub words : (a : ℕ) → mem a < 2 ^ 32
  pub frames : IsValid pmm
  pub aligned : pd % 4096 ≡ 0
  pub root : bit_test pmm.bitmap (pd / 4096) ≢ 0
  pub tables :
      (d : ℕ)
      → d < 1024
      → load mem pd d % 2 ≡ 1
      → (load mem pd d / 4096 ≢ pd / 4096) × (bit_test pmm.bitmap (load mem pd d / 4096) ≢ 0)
  pub apart :
      (d e : ℕ)
      → d < 1024
      → e < 1024
      → load mem pd d % 2 ≡ 1
      → load mem pd e % 2 ≡ 1
      → load mem pd d / 4096 ≡ load mem pd e / 4096
      → d ≡ e

pub store_same : (mem : ℕ → ℕ) (b i v : ℕ) → load (store b i v mem) b i ≡ v
store_same mem b i v = rw (==_refl (b + 4 * i)) refl

pub store_ne : (mem : ℕ → ℕ) (b i v a : ℕ) → b + 4 * i ≢ a → store b i v mem a ≡ mem a
store_ne mem b i v a h = let e : (b + 4 * i == a) ≡ false = ground (arith, h) in rw e refl

pub store_index : (mem : ℕ → ℕ) (b i v j : ℕ) → i ≢ j → load (store b i v mem) b j ≡ load mem b j
store_index mem b i v j h = store_ne mem b i v (b + 4 * j) (λ e. h (omega (arith, e)))

-- A write into one frame is not seen in another.
pub store_frame :
    (mem : ℕ → ℕ) (b i v c j : ℕ)
    → b % 4096 ≡ 0
    → c % 4096 ≡ 0
    → i < 1024
    → j < 1024
    → b / 4096 ≢ c / 4096
    → load (store b i v mem) c j ≡ load mem c j
store_frame mem b i v c j hb hc hi hj h = store_ne mem b i v (c + 4 * j) (λ e. h (omega (arith, e)))

pub store-words :
    (mem : ℕ → ℕ) (b i v : ℕ)
    → v < 2 ^ 32
    → ((a : ℕ) → mem a < 2 ^ 32)
    → (a : ℕ) → store b i v mem a < 2 ^ 32
store-words mem b i v h words a = elim (Bool-cases (b + 4 * i == a)) [
  | inl e ↦ rw e h
  | inr e ↦ rw e (words a)
]

-- `clear_table` writes zeros into the entries that it goes over, and nothing else.
pub clear_table_other :
    (left i t : ℕ) (mem : ℕ → ℕ) (a : ℕ)
    → ((j : ℕ) → i ≤ j → j < i + left → t + 4 * j ≢ a)
    → clear_table left i t mem a ≡ mem a
unfolding clear_table
clear_table_other zero i t mem a out = refl
clear_table_other (suc left) i t mem a out =
    clear_table_other left (i + 1) t (store t i 0 mem) a
      (λ j lo hi. out j (omega arith) (omega arith))
    ∙ store_ne mem t i 0 a (out i (omega arith) (omega arith))

pub clear_table_at :
    (left i t : ℕ) (mem : ℕ → ℕ) (j : ℕ)
    → i ≤ j
    → j < i + left
    → load (clear_table left i t mem) t j ≡ 0
unfolding clear_table
clear_table_at zero i t mem j lo hi = absurd (omega arith)
clear_table_at (suc left) i t mem j lo hi = elim (Bool-cases (i == j)) [
  | inl e ↦
      let same : i ≡ j = ground arith in
      let past : (k : ℕ) → i + 1 ≤ k → k < i + 1 + left → t + 4 * k ≢ t + 4 * j =
        λ k p q eq. omega (arith, same, eq) in
      clear_table_other left (i + 1) t (store t i 0 mem) (t + 4 * j) past
      ∙ rw (← same) (store_same mem t i 0)
  | inr e ↦ clear_table_at left (i + 1) t (store t i 0 mem) j (ground arith) (omega arith)
]

pub clear_table-words :
    (left i t : ℕ) (mem : ℕ → ℕ)
    → ((a : ℕ) → mem a < 2 ^ 32)
    → (a : ℕ) → clear_table left i t mem a < 2 ^ 32
unfolding clear_table
clear_table-words zero i t mem words = words
clear_table-words (suc left) i t mem words =
    clear_table-words left (i + 1) t (store t i 0 mem) (store-words mem t i 0 (omega arith) words)
