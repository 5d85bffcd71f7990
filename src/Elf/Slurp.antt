-- ===== src/Elf/Slurp.antt =====
-- Reading a file whole: `read_all` and the loop of `elf_load_image`,
-- kernel/arch/i386/cpu/user_exec.c.
use bobliu_os.Base.{
  ℕ, zero, suc, ◌+◌, ◌-◌, ◌*◌, List, [], ◌∷◌, ◌++◌, if◌then◌else◌, ltb, Option, none, some, length,
}
use bobliu_os.Int.{ℤ}
use bobliu_os.Run.{Run, done, halt, endless}
use bobliu_os.Vfs.{VnodeOps, Vfs, vfs_read}

abbrev pub max_elf : ℕ
max_elf = 512 * 1024

-- What is read before the rest; none for -1.
abbrev pub before :
    {V : Type 0} → List ℕ → Run (Option (List ℕ) × Vfs V) → Run (Option (List ℕ) × Vfs V)
before bytes (done (none, s)) = done (none, s)
before bytes (done (some more, s)) = done (some (bytes ++ more), s)
before bytes (halt h) = halt h
before bytes endless = endless

module _ {V : Type 0} (ops : VnodeOps V) where
  -- One `vfs_read` of the loop in `read_all`: its result and what follows it.
  abbrev pub read_round :
      (List ℕ → Run (Option (List ℕ) × Vfs V))
      → Option (List ℕ)
      → Vfs V
      → Run (Option (List ℕ) × Vfs V)
  read_round k none s = done (none, s)
  read_round k (some []) s = done (none, s)
  read_round k (some (b ∷ bytes)) s = before (b ∷ bytes) (k (b ∷ bytes))

  -- The loop of `read_all` from `got` of `n` bytes on: the bytes that it still reads. With fuel: a round
  -- reads one byte at least.
  unfoldable pub read_rounds : ℕ → ℤ → ℕ → ℕ → Vfs V → Run (Option (List ℕ) × Vfs V)
  read_rounds zero fd n got s = if ltb got n then endless else done (some [], s)
  read_rounds (suc fuel) fd n got s =
      let r = vfs_read ops fd (n - got) s in
      let more = read_round (λ bytes. read_rounds fuel fd n (got + length bytes) r.1) r.0 r.1 in
      if ltb got n then more else done (some [], s)

  unfoldable pub read_all : ℤ → ℕ → Vfs V → Run (Option (List ℕ) × Vfs V)
  read_all fd n s = read_rounds n fd n 0 s

  abbrev pub slurp_round :
      (List ℕ → Run (Option (List ℕ) × Vfs V))
      → Option (List ℕ)
      → Vfs V
      → Run (Option (List ℕ) × Vfs V)
  slurp_round k none s = done (some [], s)
  slurp_round k (some []) s = done (some [], s)
  slurp_round k (some (b ∷ bytes)) s = before (b ∷ bytes) (k (b ∷ bytes))

  -- The loop that reads the rest of the file from `file_sz` on, until a read gives nothing.
  unfoldable pub slurp : ℕ → ℤ → ℕ → Vfs V → Run (Option (List ℕ) × Vfs V)
  slurp zero fd file_sz s = if ltb file_sz max_elf then endless else done (some [], s)
  slurp (suc fuel) fd file_sz s =
      let r = vfs_read ops fd (max_elf - file_sz) s in
      let more = slurp_round (λ bytes. slurp fuel fd (file_sz + length bytes) r.1) r.0 r.1 in
      if ltb file_sz max_elf then more else done (some [], s)
