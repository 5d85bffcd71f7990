-- ===== src/Vfs/Fds.antt =====
-- `vfs_open` of kernel/arch/i386/fs/vfs.c: which descriptor it hands out.
use bobliu_os.Base.{
  ℕ, zero, suc, ◌+◌, ◌<◌, ◌≡◌, ◌⊎◌, inl, inr, refl, arith, List, [], ◌∷◌, true, false, Option, none,
  some, length, get_or, set, Bool-cases,
}
use bobliu_os.Vfs.{VnodeOps, File, Vfs, no_file, free_fd, open_node}

abbrev AllUsed : (V : Type 0) → List (File V) → ℕ → Type 0
AllUsed V fds n = (j : ℕ) → j < n → (get_or fds j (no_file V)).used ≡ true

-- What the scan finds in the descriptors from number `lo` on.
abbrev Found : (V : Type 0) → List (File V) → ℕ → Option ℕ → Type 0
Found V fds lo (some fd) =
    (i : ℕ) × (fd ≡ lo + i)
    × (i < length fds)
    × ((get_or fds i (no_file V)).used ≡ false)
    × AllUsed V fds i
Found V fds lo none = AllUsed V fds (length fds)

AllUsed-cons :
    (V : Type 0) (f : File V) (fds : List (File V)) (n : ℕ)
    → f.used ≡ true
    → AllUsed V fds n
    → AllUsed V (f ∷ fds) (suc n)
AllUsed-cons V f fds n here rest zero below = here
AllUsed-cons V f fds n here rest (suc j) below = rest j (omega arith)

Found-cons :
    (V : Type 0) (f : File V) (fds : List (File V)) (lo : ℕ) (r : Option ℕ)
    → f.used ≡ true
    → Found V fds (lo + 1) r
    → Found V (f ∷ fds) lo r
Found-cons V f fds lo none here found = AllUsed-cons V f fds (length fds) here found
Found-cons V f fds lo (some fd) here (i, at, inside, free, before) =
    (suc i, omega (arith, at), omega arith, free, AllUsed-cons V f fds i here before)

free_fd_lem : (V : Type 0) (fds : List (File V)) (lo : ℕ) → Found V fds lo (free_fd fds lo)
unfolding free_fd
free_fd_lem V [] lo = λ j below. absurd (omega arith)
free_fd_lem V (f ∷ fds) lo = elim (Bool-cases f.used) [
  | inl e ↦ simp e (Found-cons V f fds lo (free_fd fds (lo + 1)) e (free_fd_lem V fds (lo + 1)))
  | inr e ↦ simp e (0, omega arith, omega arith, e, λ j below. absurd (omega arith))
]

module _ (V : Type 0) (ops : VnodeOps V) where
  -- The lowest unused descriptor, which then stands at the start of the file.
  abbrev pub OpensLowest : V → Vfs V → Option ℕ × Vfs V → Type 0
  OpensLowest vn s r =
      ((fd : ℕ) × (r.0 ≡ some fd)
        × (fd < length s.fds)
        × ((get_or s.fds fd (no_file V)).used ≡ false)
        × AllUsed V s.fds fd
        × (r.1 ≡ record s { fds = set s.fds fd (record { vn = some vn; off = 0; used = true }) }))
      ⊎ ((r.0 ≡ none) × (r.1 ≡ s) × AllUsed V s.fds (length s.fds))

  OpensLowest-Found :
      (vn : V) (s : Vfs V) (r : Option ℕ)
      → Found V s.fds 0 r
      → OpensLowest vn s (elim r [
        | none ↦ (none, s)
        | some fd ↦ (
          some fd,
          record s { fds = set s.fds fd (record { vn = some vn; off = 0; used = true }) },
        )
      ])
  OpensLowest-Found vn s none found = inr (refl, refl, found)
  OpensLowest-Found vn s (some fd) (i, at, inside, free, before) =
      let here : fd ≡ i = omega (arith, at) in
      inl (fd, refl, rw here inside, rw here free, rw here before, refl)

  -- Opening a file (a vnode that is not a directory) takes the lowest unused descriptor, sets it to
  -- the vnode and offset 0 and changes no other; it fails, changing nothing, only when every
  -- descriptor is used.
  pub open_node-OpensLowest :
      (vn : V) (s : Vfs V) → ops.is_dir vn ≡ false → OpensLowest vn s (open_node ops (some vn) s)
  unfolding open_node
  open_node-OpensLowest vn s file =
      rw file (OpensLowest-Found vn s (free_fd s.fds 0) (free_fd_lem V s.fds 0))
