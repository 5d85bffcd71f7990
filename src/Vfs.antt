-- ===== src/Vfs.antt =====
-- The virtual file system, kernel/arch/i386/fs/vfs.c with kernel/include/kernel/vfs.h, over any file
-- system that provides `vnode_ops_t`.
pub mod Fds
pub mod Reading
pub mod Tests
use bobliu_os.Base.{
  ℕ, zero, suc, ◌+◌, ◌-◌, List, [], ◌∷◌, Bool, true, false, ◌&&◌, ◌||◌, not, if◌then◌else◌, ltb,
  leb, ◌==◌, Option, none, some, length, get_or, set, take, drop, map,
}
use bobliu_os.Int.{ℤ, pos, negsuc}
use bobliu_os.Word.{u32}
use bobliu_os.Run.{Run, done, halt, endless, ◌>>=◌}
use bobliu_os.Libc.Str.{char_at, next}

-- What a call of `readdir` gives: an entry, the end (0), or an error (-1).
pub data Entry : Type 0 where
  entry : List ℕ → Entry
  end_of_dir bad_dir : Entry

-- A vnode's `size` and `is_dir`, and its operations. `read` gives the bytes that it stored into the
-- buffer, or none for -1; `lookup` gives none for the null pointer.
pub record VnodeOps (V : Type 0) : Type 0 where
  pub size : V → ℕ
  pub is_dir : V → Bool
  pub read : V → ℕ → ℕ → Option (List ℕ)
  pub readdir : V → ℕ → ℕ → Run Entry
  pub lookup : V → List ℕ → Run (Option V)

abbrev pub max_fd : ℕ
max_fd = 32

-- The characters of the next path component; at most 127 fit `part`.
unfoldable pub component_len : ℕ → List ℕ → ℕ
component_len zero p = 0
component_len (suc room) p =
    let rest = component_len room (next p) in
    if (char_at p == 0) || (char_at p == b'/') then 0 else suc rest

unfoldable pub skip_slashes : List ℕ → List ℕ
skip_slashes [] = []
skip_slashes (c ∷ p) = let rest = skip_slashes p in if c == b'/' then rest else c ∷ p

module _ (V : Type 0) where
  -- `file_t`; the vnode is none until the descriptor is first used.
  pub record File : Type 0 where
    pub vn : Option V
    pub off : ℕ
    pub used : Bool

  -- `g_root` and `g_fds`
  pub record Vfs : Type 0 where
    pub root : Option V
    pub fds : List File

  abbrev pub no_file : File
  no_file = record { vn = none; off = 0; used = false }

  pub record Stat : Type 0 where
    pub size : ℕ
    pub is_dir : Bool

-- The scan of `vfs_open` for an unused descriptor.
unfoldable pub free_fd : {V : Type 0} → List (File V) → ℕ → Option ℕ
free_fd [] fd = none
free_fd (f ∷ fds) fd = let rest = free_fd fds (fd + 1) in if f.used then rest else some fd

module _ {V : Type 0} (ops : VnodeOps V) where
  unfoldable pub vfs_init : V → Vfs V → Vfs V
  vfs_init root s = record s {
    root = some root;
    fds = map (λ (f : File V). record f { used = false }) s.fds;
  }

  -- The loop of `vfs_resolve`, with fuel.
  unfoldable pub resolve : ℕ → List ℕ → V → Run (Option V)
  resolve zero p cur = endless
  resolve (suc fuel) p cur =
      let q = skip_slashes p in
      let n = component_len 127 q in
      let step : Option V → Run (Option V) =
        λ found. elim found [ none ↦ done none | some v ↦ resolve fuel (drop n q) v ] in
      if char_at q == 0
      then done (some cur)
      else if not (ops.is_dir cur)
      then done none
      else (ops.lookup cur (take n q) >>= step)

  -- Each round takes a character at least.
  unfoldable pub vfs_resolve : List ℕ → Vfs V → Run (Option V)
  vfs_resolve path s = elim s.root [
    | none ↦ done none
    | some root ↦
        if char_at path == b'/' then resolve (length path + 1) (next path) root else done none
  ]

  -- The descriptor, or none for -1.
  unfoldable pub open_node : Option V → Vfs V → Option ℕ × Vfs V
  open_node none s = (none, s)
  open_node (some vn) s =
      let opened : File V = record { vn = some vn; off = 0; used = true } in
      if ops.is_dir vn then (none, s) else elim (free_fd s.fds 0) [
        | none ↦ (none, s)
        | some fd ↦ (some fd, record s { fds = set s.fds fd opened })
      ]

  unfoldable pub vfs_open : List ℕ → Vfs V → Run (Option ℕ × Vfs V)
  vfs_open path s = do vn ← vfs_resolve path s; done (open_node vn s)

  -- The descriptor that a number names, if it is in range and used.
  pub used_file : ℤ → Vfs V → Option (File V)
  used_file (negsuc n) s = none
  used_file (pos fd) s =
      let f = get_or s.fds fd (no_file V) in if ltb fd max_fd && f.used then some f else none

  abbrev pub index : ℤ → ℕ
  index (pos fd) = fd
  index (negsuc n) = 0

  -- The bytes read, or none for -1.
  unfoldable pub vfs_read : ℤ → ℕ → Vfs V → Option (List ℕ) × Vfs V
  vfs_read fd len s = elim (used_file fd s) [
    | none ↦ (none, s)
    | some f ↦ elim f.vn [
      | none ↦ (none, s)
      | some vn ↦ elim (ops.read vn f.off len) [
        | none ↦ (none, s)
        | some bytes ↦ (
          some bytes,
          record s { fds = set s.fds (index fd) (record f { off = u32 (f.off + length bytes) }) },
        )
      ]
    ]
  ]

  -- True for 0, false for -1.
  unfoldable pub vfs_close : ℤ → Vfs V → Bool × Vfs V
  vfs_close (negsuc n) s = (false, s)
  vfs_close (pos fd) s =
      let f = get_or s.fds fd (no_file V) in
      if ltb fd max_fd
      then (true, record s { fds = set s.fds fd (record f { used = false }) })
      else (false, s)

  -- The loop of `vfs_ls` from index `i`: whether it succeeds, and the names that it prints.
  pub list_entries : ℕ → V → ℕ → Run (Bool × List (List ℕ))
  list_entries zero vn i = endless
  list_entries (suc fuel) vn i =
      let step : Entry → Run (Bool × List (List ℕ)) = λ e. elim e [
        | end_of_dir ↦ done (true, [])
        | bad_dir ↦ done (false, [])
        | entry name ↦ list_entries fuel vn (u32 (i + 1)) >>= λ rest. done (rest.0, name ∷ rest.1)
      ] in
      ops.readdir vn i 128 >>= step

  unfoldable pub vfs_ls : ℕ → List ℕ → Vfs V → Run (Bool × List (List ℕ))
  vfs_ls fuel path s =
      let step : Option V → Run (Bool × List (List ℕ)) = λ found. elim found [
        | none ↦ done (false, [])
        | some vn ↦ if ops.is_dir vn then list_entries fuel vn 0 else done (false, [])
      ] in
      vfs_resolve path s >>= step

  unfoldable pub vfs_stat : List ℕ → Vfs V → Run (Option (Stat V))
  vfs_stat path s = do
    vn ← vfs_resolve path s
    done (elim vn [
      | none ↦ none
      | some v ↦ some (record { size = ops.size v; is_dir = ops.is_dir v })
    ])
