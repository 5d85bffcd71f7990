-- ===== src/Initrd/Nodes.antt =====
-- The vnodes of kernel/arch/i386/fs/initrd_vfs.c and its `g_ops`. The structures that `kmalloc`
-- allocates for them are values here: the code does not test its result.
use bobliu_os.Base.{
  ℕ, zero, suc, ◌+◌, ◌-◌, ◌^◌, List, [], ◌∷◌, ◌++◌, Bool, true, false, ◌||◌, not, if◌then◌else◌,
  ltb, leb, ◌==◌, Option, none, some, length, take, drop,
}
use bobliu_os.Int.{is_zero}
use bobliu_os.Word.{u32, sub32}
use bobliu_os.Run.{Run, done, endless, ◌>>=◌}
use bobliu_os.Libc.Str.{char_at, strlen, strcmp, strncmp}
use bobliu_os.Vfs.{VnodeOps, Entry, entry, end_of_dir, bad_dir, component_len}
use bobliu_os.Initrd.{
  Tar, typeflag_field, make_full, starts_with_dir, has_header, file_size, next_header,
  tar_find_exact,
}

-- `vnode_t` with its `fs_data`: a directory's prefix, or a file's header and size.
pub data Node : Type 0 where
  dir : List ℕ → Node
  file : ℕ → ℕ → Node

unfoldable pub vnode_make_dir : List ℕ → Node
vnode_make_dir prefix = dir (take 127 prefix)

unfoldable pub node_size : Node → ℕ
node_size (dir p) = 0
node_size (file h sz) = sz

unfoldable pub node_is_dir : Node → Bool
node_is_dir (dir p) = true
node_is_dir (file h sz) = false

-- The `n` bytes from `at`.
unfoldable pub bytes_from : (ℕ → ℕ) → ℕ → ℕ → List ℕ
bytes_from byte zero at = []
bytes_from byte (suc n) at = byte at ∷ bytes_from byte n (at + 1)

-- A count from 2^31 on is a negative `int`, none.
unfoldable pub initrd_read : Tar → Node → ℕ → ℕ → Option (List ℕ)
initrd_read t (dir p) off len = none
initrd_read t (file h sz) off len =
    let n = if ltb sz (u32 (off + len)) then sub32 sz off else len in
    if leb sz off
    then some []
    else if leb (2 ^ 31) n
    then none
    else some (bytes_from t.byte n (h + 512 + off))

-- The immediate child of the directory that a full name lies under, if it does.
pub child_of : List ℕ → List ℕ → Option (List ℕ)
child_of prefix full =
    let past = drop (strlen prefix) full in
    let rel =
      if char_at prefix == 0 then full else if char_at past == b'/' then drop 1 past else past in
    if not (starts_with_dir full prefix)
    then none
    else if char_at rel == 0
    then none
    else some (take (component_len 127 rel) rel)

abbrev pub same_child : Option (List ℕ) → List ℕ → Bool
same_child none child = false
same_child (some other) child = is_zero (strcmp other child)

-- The rescan of `initrd_readdir` from `off2`, with fuel: whether the child came before `off`.
pub seen_before : Tar → List ℕ → List ℕ → ℕ → ℕ → ℕ → Run Bool
seen_before t prefix child off zero off2 = endless
seen_before t prefix child off (suc fuel) off2 =
    let rest = seen_before t prefix child off fuel (next_header t off2) in
    if ltb off2 off
    then (if same_child (child_of prefix (make_full t.byte 256 off2)) child
        then done true
        else rest)
    else done false

-- The loop of `initrd_readdir` from offset `off`, with `found` entries behind it.
pub readdir_from : Tar → ℕ → List ℕ → ℕ → ℕ → ℕ → ℕ → ℕ → Run Entry
readdir_from t scan prefix index name_max zero off found = endless
readdir_from t scan prefix index name_max (suc fuel) off found =
    let full = make_full t.byte 256 off in
    let rest = readdir_from t scan prefix index name_max fuel (next_header t off) found in
    let rest_after =
      readdir_from t scan prefix index name_max fuel (next_header t off) (u32 (found + 1)) in
    let give : List ℕ → Run Entry = λ child. seen_before t prefix child off scan 0 >>= λ dup.
    if dup
    then rest
    else if found == index
    then done (entry (if leb name_max (strlen child) then take (sub32 name_max 1) child else child))
    else rest_after in
    if not (has_header t off)
    then done end_of_dir
    else if char_at full == 0
    then rest
    else elim (child_of prefix full) [ none ↦ rest | some child ↦ give child ]

unfoldable pub initrd_readdir : Tar → ℕ → Node → ℕ → ℕ → Run Entry
initrd_readdir t fuel (file h sz) index name_max = done bad_dir
initrd_readdir t fuel (dir prefix) index name_max =
    readdir_from t fuel prefix index name_max fuel 0 0

-- `target`: the directory's prefix and the name, cut to 255 characters.
pub lookup_target : List ℕ → List ℕ → List ℕ
lookup_target prefix name =
    let p = take 255 prefix in
    let q = if ltb (length p) 255 then p ++ (b'/' ∷ []) else p in
    if char_at prefix == 0 then take 255 name else q ++ take (255 - length q) name

-- The last loop of `initrd_lookup`: whether a name starts with `prefix2`.
pub any_under : Tar → List ℕ → ℕ → ℕ → Run Bool
any_under t prefix2 zero off = endless
any_under t prefix2 (suc fuel) off =
    let rest = any_under t prefix2 fuel (next_header t off) in
    if not (has_header t off)
    then done false
    else if is_zero (strncmp (make_full t.byte 256 off) prefix2 (strlen prefix2))
    then done true
    else rest

unfoldable pub found_node : Tar → List ℕ → ℕ → Node
found_node t target h =
    if t.byte (h + typeflag_field) == b'5' then vnode_make_dir target else file h (file_size t h)

unfoldable pub initrd_lookup : Tar → ℕ → Node → List ℕ → Run (Option Node)
initrd_lookup t fuel d name =
    let in_dir : List ℕ → Run (Option Node) = λ prefix.
      let target = lookup_target prefix name in
      tar_find_exact t fuel target >>= λ blk. elim blk [
        | some h ↦ done (some (found_node t target h))
        | none ↦ do
          under ← any_under t (take 258 target ++ (b'/' ∷ [])) fuel 0
          done (if under then some (vnode_make_dir target) else none)
      ] in
    if is_zero (strcmp name (b'.' ∷ [])) || is_zero (strcmp name (b'.' ∷ b'.' ∷ []))
    then done (some d)
    else elim d [ dir prefix ↦ in_dir prefix | file h sz ↦ done none ]

-- `g_ops`
unfoldable pub g_ops : Tar → ℕ → VnodeOps Node
g_ops t fuel = record {
  size = node_size;
  is_dir = node_is_dir;
  read = initrd_read t;
  readdir = initrd_readdir t fuel;
  lookup = initrd_lookup t fuel;
}
