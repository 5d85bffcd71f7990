-- ===== src/Shell/Commands.antt =====
-- The commands on files of kernel/arch/i386/shell/shell.c, and `echo`, as what they print.
use bobliu_os.Base.{
  ℕ, zero, suc, ◌+◌, ◌-◌, List, [], ◌∷◌, ◌++◌, Bool, ◌&&◌, if◌then◌else◌, ltb, leb, ◌==◌, Option,
  none, some, length, map, get_or,
}
use bobliu_os.Int.{ℤ, pos}
use bobliu_os.Word.{u32}
use bobliu_os.Run.{Run, done, endless, ◌>>=◌}
use bobliu_os.Vfs.{VnodeOps, Vfs, vfs_open, vfs_read, vfs_close, vfs_ls, vfs_stat}
use bobliu_os.Shell.{shell_canon_path, shell_set_cwd}

-- The words after the first, with a space between two, and a line feed.
pub echo_words : List (List ℕ) → List ℕ
echo_words [] = b'\n' ∷ []
echo_words (w ∷ []) = w ++ (b'\n' ∷ [])
echo_words (w ∷ v ∷ ws) = w ++ (b' ' ∷ echo_words (v ∷ ws))

unfoldable pub cmd_echo : List (List ℕ) → List ℕ
cmd_echo [] = b'\n' ∷ []
cmd_echo (name ∷ ws) = echo_words ws

-- A byte that `cmd_hexdump` shows as a character.
unfoldable pub shown : ℕ → ℕ
shown c = if leb 32 c && leb c 126 then c else b'.'

-- A line of a dump: the offset, the bytes in hexadecimal, the places left blank, the characters.
pub record DumpLine : Type 0 where
  pub at : ℕ
  pub hex : List ℕ
  pub blank : ℕ
  pub chars : List ℕ

unfoldable pub dump_line : ℕ → List ℕ → DumpLine
dump_line off bytes = record {
  at = off;
  hex = bytes;
  blank = 16 - length bytes;
  chars = map shown bytes;
}

-- The operand of a command, or what stands for it.
abbrev pub operand : List (List ℕ) → List ℕ → List ℕ
operand argv default = if leb 2 (length argv) then get_or argv 1 [] else default

module _ {V : Type 0} (ops : VnodeOps V) where
  -- A round of the loop of `cmd_cat`: what was read, the state after it, and the later rounds.
  abbrev pub cat_round : Option (List ℕ) → Vfs V → Run (List ℕ × Vfs V) → Run (List ℕ × Vfs V)
  cat_round none s rest = done ([], s)
  cat_round (some bytes) s rest =
      if length bytes == 0 then done ([], s) else (rest >>= λ r. done (bytes ++ r.0, r.1))

  -- The loop, with fuel: the bytes that it prints.
  unfoldable pub cat_loop : ℕ → ℤ → Vfs V → Run (List ℕ × Vfs V)
  cat_loop zero fd s = endless
  cat_loop (suc fuel) fd s =
      let read = vfs_read ops fd 256 s in cat_round read.0 read.1 (cat_loop fuel fd read.1)

  -- The loop of `cmd_hexdump` from offset `off`, with fuel.
  unfoldable pub hexdump_loop : ℕ → ℤ → ℕ → Vfs V → Run (List DumpLine × Vfs V)
  hexdump_loop zero fd off s = endless
  hexdump_loop (suc fuel) fd off s =
      let read = vfs_read ops fd 16 s in
      let after : List ℕ → Run (List DumpLine × Vfs V) = λ bytes.
        let rest = hexdump_loop fuel fd (u32 (off + length bytes)) read.1 in
        if ltb (length bytes) 16
        then done (dump_line off bytes ∷ [], read.1)
        else (rest >>= λ r. done (dump_line off bytes ∷ r.0, r.1)) in
      elim read.0 [
        | none ↦ done ([], read.1)
        | some bytes ↦ if length bytes == 0 then done ([], read.1) else after bytes
      ]

  -- What `cmd_cat` prints; none when the path names no file or no descriptor is left.
  pub cmd_cat : ℕ → ℕ → List ℕ → List ℕ → Vfs V → Run (Option (List ℕ) × Vfs V)
  cmd_cat fuel last cwd arg s = vfs_open ops (shell_canon_path last cwd arg) s >>= λ opened.
      elim opened.0 [
        | none ↦ done (none, opened.1)
        | some fd ↦ do
          printed ← cat_loop fuel (pos fd) opened.1
          let (ok, t) = vfs_close ops (pos fd) printed.1 in
              done (some (printed.0 ++ (b'\n' ∷ [])), t)
      ]

  pub cmd_hexdump : ℕ → ℕ → List ℕ → List ℕ → Vfs V → Run (Option (List DumpLine) × Vfs V)
  cmd_hexdump fuel last cwd arg s = vfs_open ops (shell_canon_path last cwd arg) s >>= λ opened.
      elim opened.0 [
        | none ↦ done (none, opened.1)
        | some fd ↦ do
          lines ← hexdump_loop fuel (pos fd) 0 opened.1
          let (ok, t) = vfs_close ops (pos fd) lines.1 in done (some lines.0, t)
      ]

  -- The directory afterwards, or none when the path names no directory.
  pub cmd_cd : ℕ → List ℕ → List (List ℕ) → Vfs V → Run (Option (List ℕ))
  cmd_cd last cwd argv s =
      let path = shell_canon_path last cwd (operand argv (b'/' ∷ [])) in
      vfs_stat ops path s >>= λ st. elim st [
        | none ↦ done none
        | some found ↦ done (if found.is_dir then some (shell_set_cwd path) else none)
      ]

  pub cmd_ls : ℕ → ℕ → List ℕ → List (List ℕ) → Vfs V → Run (Bool × List (List ℕ))
  cmd_ls fuel last cwd argv s =
      vfs_ls ops fuel (shell_canon_path last cwd (operand argv (b'.' ∷ []))) s
