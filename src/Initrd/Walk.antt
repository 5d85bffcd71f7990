-- ===== src/Initrd/Walk.antt =====
-- The walk of kernel/arch/i386/fs/initrd_vfs.c over the headers of the image, and where it ends.
use native.Mathlib.Nat.{mod-eq_of_lt}
use bobliu_os.Base.{
  ℕ, zero, suc, ◌+◌, ◌-◌, ◌*◌, ◌/◌, ◌^◌, ◌≤◌, ◌<◌, ◌≡◌, ◌⊎◌, inl, inr, refl, arith, List, true,
  false, Option, none, some, leb, Bool-cases,
}
use bobliu_os.Word.{u32, align_up}
use bobliu_os.Word.Align.{align_up_eq}
use bobliu_os.Run.{Run, done, endless}
use bobliu_os.Initrd.{Tar, has_header, file_size, next_header, matches, find_from, tar_find_exact}

-- The walk goes from one header to another.
pub data Reach (t : Tar) : ℕ → ℕ → Type 0 where
  here : {off : ℕ} → Reach t off off
  there : {off h : ℕ} → has_header t off ≡ true → Reach t (next_header t off) h → Reach t off h

-- The walk goes from one header to another over headers whose names do not match.
pub data Skips (t : Tar) (path : List ℕ) : ℕ → ℕ → Type 0 where
  at : {off : ℕ} → Skips t path off off
  past :
      {off h : ℕ}
      → has_header t off ≡ true
      → matches t path off ≡ false
      → Skips t path (next_header t off) h
      → Skips t path off h

-- Small enough that no offset wraps: the image, and each file that a header on the walk is for, below 1 GiB.
pub record IsSane (t : Tar) : Type 0 where
  pub image : t.len ≤ 2 ^ 30
  pub files : (h : ℕ) → Reach t 0 h → has_header t h ≡ true → file_size t h < 2 ^ 30

further :
    {t : Tar} {off h : ℕ} → Reach t off h → has_header t h ≡ true → Reach t off (next_header t h)
further here header = there header here
further (there first more) header = there first (further more header)

in_image : (t : Tar) (off : ℕ) → off + 512 < 2 ^ 32 → has_header t off ≡ true → off + 512 ≤ t.len
unfolding has_header
in_image t off below header =
    let sum : u32 (off + 512) ≡ off + 512 = mod-eq_of_lt below in
    let fact : leb (u32 (off + 512)) t.len ≡ true = ground (arith, header) in
    ground (arith, sum, fact)

block_round : (sz : ℕ) → sz < 2 ^ 30 → align_up sz 512 ≤ sz + 511
block_round sz h =
    let e : align_up sz 512 ≡ u32 (sz + 511) / 512 * 512 = align_up_eq 9 23 sz refl in
    omega (arith, e)

next_header_bounds :
    (t : Tar) (off : ℕ)
    → t.len ≤ 2 ^ 30
    → file_size t off < 2 ^ 30
    → off + 512 ≤ t.len
    → (off + 512 ≤ next_header t off) × (next_header t off + 512 < 2 ^ 32)
unfolding next_header
next_header_bounds t off image size inside =
    let small : align_up (file_size t off) 512 ≤ 2 ^ 30 + 511 =
      omega (arith, size, block_round (file_size t off) size) in
    (omega (arith, image), omega (arith, image))

-- What the search from `off` gives: the first header on the walk whose name matches, or none.
abbrev pub Finds : Tar → List ℕ → ℕ → Run (Option ℕ) → Type 0
Finds t path off r =
    ((h : ℕ) × (r ≡ done (some h))
      × Skips t path off h
      × (has_header t h ≡ true)
      × (matches t path h ≡ true))
    ⊎ ((r ≡ done none)
        × ((h : ℕ) → Reach t off h → has_header t h ≡ true → matches t path h ≡ false))

Finds-next :
    (t : Tar) (path : List ℕ) (off : ℕ) (r : Run (Option ℕ))
    → has_header t off ≡ true
    → matches t path off ≡ false
    → Finds t path (next_header t off) r
    → Finds t path off r
Finds-next t path off r header differs (inl (h, found, reach, there_is, same)) =
    inl (h, found, past header differs reach, there_is, same)
Finds-next t path off r header differs (inr (none_found, all)) = inr (none_found, before)
  where
    before : (h : ℕ) → Reach t off h → has_header t h ≡ true → matches t path h ≡ false
    before h here there_is = differs
    before h (there _ reach) there_is = all h reach there_is

Finds-end :
    (t : Tar) (path : List ℕ) (off : ℕ)
    → has_header t off ≡ false
    → (h : ℕ) → Reach t off h
    → has_header t h ≡ true
    → matches t path h ≡ false
Finds-end t path off over h here there_is = absurd (cc)
Finds-end t path off over h (there header reach) there_is = absurd (cc)

find_from-Finds :
    (t : Tar) (path : List ℕ) (fuel off : ℕ)
    → IsSane t
    → Reach t 0 off
    → off + 512 < 2 ^ 32
    → 1 ≤ fuel
    → t.len < off + 512 * fuel
    → Finds t path off (find_from t path fuel off)
unfolding find_from
find_from-Finds t path zero off sane reach below some_fuel enough = absurd (omega arith)
find_from-Finds t path (suc fuel) off sane reach below some_fuel enough =
    elim (Bool-cases (has_header t off)) [
      | inl header ↦
          let inside : off + 512 ≤ t.len = in_image t off below header in
          let (ahead, bounded) =
            next_header_bounds t off sane.image (sane.files off reach header) inside in
          elim (Bool-cases (matches t path off)) [
            | inl same ↦ rw (header, same) (inl (off, refl, at, header, same))
            | inr differs ↦
                rw (header, differs)
                  (Finds-next t path off (find_from t path fuel (next_header t off)) header differs
                    (find_from-Finds t path fuel (next_header t off) sane (further reach header)
                      bounded (omega (arith, enough)) (omega (arith, enough))))
          ]
      | inr over ↦ rw over (inr (refl, Finds-end t path off over))
    ]

-- In an image whose size and whose files' sizes, by the headers on the walk, stay below 1 GiB, `tar_find_exact` returns, after at
-- most one round for each 512 bytes and one more: with the first header on the walk from the
-- image's start whose name matches the path, or with none when no header on the walk matches.
pub tar_find_exact-Finds :
    (t : Tar) (path : List ℕ) (fuel : ℕ)
    → IsSane t
    → t.len / 512 < fuel
    → Finds t path 0 (tar_find_exact t fuel path)
unfolding tar_find_exact
tar_find_exact-Finds t path fuel sane enough =
    find_from-Finds t path fuel 0 sane here (omega arith) (omega arith) (omega arith)

stuck :
    (t : Tar) (path : List ℕ) (fuel off : ℕ)
    → has_header t off ≡ true
    → matches t path off ≡ false
    → next_header t off ≡ off
    → find_from t path fuel off ≡ endless
unfolding find_from
stuck t path zero off header differs same = refl
stuck t path (suc fuel) off header differs same =
    rw (header, differs, same) (stuck t path fuel off header differs same)

-- A first header whose size field, rounded up to blocks, is 2^32 - 512 sends the walk back to the
-- same header: unless its own name matches, `tar_find_exact` does not end, whatever the number of
-- rounds.
pub tar_find_exact-stuck :
    (t : Tar) (path : List ℕ) (fuel : ℕ)
    → has_header t 0 ≡ true
    → matches t path 0 ≡ false
    → align_up (file_size t 0) 512 ≡ 2 ^ 32 - 512
    → tar_find_exact t fuel path ≡ endless
unfolding tar_find_exact next_header
tar_find_exact-stuck t path fuel header differs size =
    stuck t path fuel 0 header differs (rw size refl)
