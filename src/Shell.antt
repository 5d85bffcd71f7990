-- ===== src/Shell.antt =====
-- The kernel shell, kernel/arch/i386/shell/shell.c: paths, the tokenizer, the choice of a command and
-- the commands on files. A string is the list of its characters before the 0.
pub mod Paths
pub mod Commands
pub mod Cat
pub mod Console
pub mod Memory
pub mod Return
mod Tests
use bobliu_os.Base.{
  ℕ, zero, suc, ◌+◌, ◌-◌, ◌*◌, List, [], ◌∷◌, ◌++◌, Bool, true, false, ◌&&◌, ◌||◌, not,
  if◌then◌else◌, ltb, leb, ◌==◌, Option, none, some, length, get_or, take, drop, map,
}
use bobliu_os.Int.{ℤ, pos, is_zero}
use bobliu_os.Word.{u32}
use bobliu_os.Run.{Run, done, endless, ◌>>=◌}
use bobliu_os.Libc.Str.{char_at, next, strlen, strcmp}
use bobliu_os.Vfs.{
  VnodeOps, Vfs, Stat, skip_slashes, component_len, vfs_open, vfs_read, vfs_close, vfs_ls, vfs_stat,
}

abbrev pub max_path : ℕ
max_path = 256

-- `g_cwd` after `shell_set_cwd`
unfoldable pub shell_set_cwd : List ℕ → List ℕ
shell_set_cwd s = if char_at s == 0 then b'/' ∷ [] else take (max_path - 1) s

-- The string that `snprintf` leaves in a buffer of `size` bytes when it prints `s`. A string that does
-- not fit keeps the byte that stood last in the buffer, `last`, and ends behind the buffer.
pub printed : ℕ → ℕ → List ℕ → List ℕ
printed size last s =
    if ltb (length s) size then s else take (size - 1) s ++ (if last == 0 then [] else last ∷ [])

-- The absolute path that `shell_canon_path` builds into `tmp`; `last` is what stood in its last byte.
pub candidate : ℕ → List ℕ → List ℕ → List ℕ
candidate last cwd given =
    let path = if char_at given == 0 then b'.' ∷ [] else given in
    let base = if char_at cwd == 0 then b'/' ∷ [] else cwd in
    if char_at path == b'/'
    then take (max_path - 1) path
    else if is_zero (strcmp base (b'/' ∷ []))
    then printed max_path last (b'/' ∷ path)
    else printed max_path last (base ++ (b'/' ∷ path))

-- `out` up to `out_len`, and the used part of `comp_starts`, its top first.
pub record Canon : Type 0 where
  pub out : List ℕ
  pub starts : List ℕ

-- A component `..`
unfoldable pub pop_component : Canon → Canon
pop_component c = elim c.starts [
  | [] ↦ c
  | start ∷ below ↦ record { out = take start c.out; starts = below }
]

-- An ordinary component
unfoldable pub push_component : List ℕ → Canon → Canon
push_component name c =
    let out = if ltb 1 (length c.out) then c.out ++ (b'/' ∷ []) else c.out in
    if ltb (length c.starts) 64 && ltb (length c.out + 1 + length name + 1) max_path
    then (record { out = out ++ name; starts = length out ∷ c.starts })
    else c

unfoldable pub component : List ℕ → Canon → Canon
component name c =
    if (length name == 1) && (get_or name 0 0 == b'.')
    then c
    else if (length name == 2) && ((get_or name 0 0 == b'.') && (get_or name 1 0 == b'.'))
    then pop_component c
    else push_component name c

-- The walk over the candidate, with fuel.
pub components : ℕ → List ℕ → Canon → Canon
components zero p c = c
components (suc fuel) p c =
    let q = skip_slashes p in
    let n = component_len (length q) q in
    let rest = components fuel (drop n q) (component (take n q) c) in
    if char_at q == 0 then c else rest

abbrev pub at_root : Canon
at_root = record { out = b'/' ∷ []; starts = [] }

-- Each round takes a character at least. `out_len` is never 0.
unfoldable pub shell_canon_path : ℕ → List ℕ → List ℕ → List ℕ
shell_canon_path last cwd given =
    let tmp = candidate last cwd given in
    let out = (components (length tmp) tmp at_root).out in
    if length out == 0 then b'/' ∷ [] else out

-- `shell_resolve_path` into a buffer of `out_sz` bytes.
pub shell_resolve_path : ℕ → List ℕ → ℕ → List ℕ → List ℕ
shell_resolve_path last cwd out_sz given =
    if char_at given == 0
    then take (out_sz - 1) cwd
    else if char_at given == b'/'
    then take (out_sz - 1) given
    else if is_zero (strcmp cwd (b'/' ∷ []))
    then printed out_sz last (b'/' ∷ given)
    else printed out_sz last (cwd ++ (b'/' ∷ given))

pub skip_spaces : List ℕ → List ℕ
skip_spaces [] = []
skip_spaces (c ∷ s) = let rest = skip_spaces s in if c == b' ' then rest else c ∷ s

-- The characters before the next space or the end.
pub word_len : List ℕ → ℕ
word_len [] = 0
word_len (c ∷ s) = let rest = word_len s in if (c == 0) || (c == b' ') then 0 else suc rest

-- The words of the line, `max_argv` of them at most.
pub shell_tokenize : ℕ → List ℕ → List (List ℕ)
shell_tokenize zero s = []
shell_tokenize (suc max_argv) s =
    let q = skip_spaces s in
    let n = word_len q in
    let rest = shell_tokenize max_argv (next (drop n q)) in
    if char_at q == 0 then [] else take n q ∷ rest

pub data Command : Type 0 where
  help clear echo ticks uptime mem alloc pwd cd ls cat hexdump exec panic : Command

-- `cmds`
abbrev pub cmds : List (List ℕ × Command)
cmds =
    (b'h' ∷ b'e' ∷ b'l' ∷ b'p' ∷ [], help)
    ∷ (b'c' ∷ b'l' ∷ b'e' ∷ b'a' ∷ b'r' ∷ [], clear)
    ∷ (b'e' ∷ b'c' ∷ b'h' ∷ b'o' ∷ [], echo)
    ∷ (b't' ∷ b'i' ∷ b'c' ∷ b'k' ∷ b's' ∷ [], ticks)
    ∷ (b'u' ∷ b'p' ∷ b't' ∷ b'i' ∷ b'm' ∷ b'e' ∷ [], uptime)
    ∷ (b'm' ∷ b'e' ∷ b'm' ∷ [], mem)
    ∷ (b'a' ∷ b'l' ∷ b'l' ∷ b'o' ∷ b'c' ∷ [], alloc)
    ∷ (b'p' ∷ b'w' ∷ b'd' ∷ [], pwd)
    ∷ (b'c' ∷ b'd' ∷ [], cd)
    ∷ (b'l' ∷ b's' ∷ [], ls)
    ∷ (b'c' ∷ b'a' ∷ b't' ∷ [], cat)
    ∷ (b'h' ∷ b'e' ∷ b'x' ∷ b'd' ∷ b'u' ∷ b'm' ∷ b'p' ∷ [], hexdump)
    ∷ (b'e' ∷ b'x' ∷ b'e' ∷ b'c' ∷ [], exec)
    ∷ (b'p' ∷ b'a' ∷ b'n' ∷ b'i' ∷ b'c' ∷ [], panic)
    ∷ []

pub find_command : List (List ℕ × Command) → List ℕ → Option Command
find_command [] word = none
find_command ((name, fn) ∷ more) word =
    let rest = find_command more word in if is_zero (strcmp word name) then some fn else rest

-- What a line makes the shell do before it prompts again: nothing, a command with its words, or a
-- complaint about the first word.
pub data Reaction : Type 0 where
  only_prompt : Reaction
  runs : Command → List (List ℕ) → Reaction
  unknown_command : List ℕ → Reaction

unfoldable pub shell_on_line : List ℕ → Reaction
shell_on_line line_in =
    let line = take 127 line_in in
    let argv = shell_tokenize 16 line in
    let word = get_or argv 0 [] in
    if (char_at line == 0) || (length argv == 0)
    then only_prompt
    else elim (find_command cmds word) [ none ↦ unknown_command word | some fn ↦ runs fn argv ]
