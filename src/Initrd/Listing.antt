-- ===== src/Initrd/Listing.antt =====
-- `initrd_ls` and `initrd_cat` of kernel/arch/i386/fs/initrd_tar.c: what they print, item by item.
use bobliu_os.Base.{
  ℕ, zero, suc, ◌+◌, ◌-◌, List, [], ◌∷◌, ◌++◌, ◌&&◌, not, if◌then◌else◌, ◌==◌, Option, none, some,
}
use bobliu_os.Int.{is_zero}
use bobliu_os.Run.{Run, done, endless, ◌>>=◌}
use bobliu_os.Libc.Str.{char_at, strcmp}
use bobliu_os.Initrd.{
  Tar, prefix_field, typeflag_field, copy_string, has_header, file_size, next_header,
}
use bobliu_os.Initrd.Nodes.{bytes_from}
use bobliu_os.Shell.{printed}

-- `snprintf(full, 256, "%s/%s", h->prefix, h->name)`, or the name alone; `last` is what stood in the
-- last byte of `full`. A name that does not fit shows in its first 256 characters.
pub full_name : ℕ → (ℕ → ℕ) → ℕ → List ℕ
full_name last byte h =
    let prefix = copy_string byte 256 (h + prefix_field) in
    let name = copy_string byte 256 h in
    if byte (h + prefix_field) == 0
    then printed 256 last name
    else printed 256 last (prefix ++ (b'/' ∷ name))

pub data Line : Type 0 where
  dir_line : List ℕ → Line
  file_line : List ℕ → ℕ → Line

pub line_of : ℕ → Tar → ℕ → Line
line_of last t off =
    let full = full_name last t.byte off in
    if t.byte (off + typeflag_field) == b'5'
    then dir_line full
    else file_line full (file_size t off)

-- The loop of `initrd_ls`, with fuel.
pub initrd_ls : ℕ → Tar → ℕ → ℕ → Run (List Line)
initrd_ls last t zero off = endless
initrd_ls last t (suc fuel) off =
    let rest = initrd_ls last t fuel (next_header t off) in
    if not (has_header t off)
    then done []
    else if char_at (full_name last t.byte off) == 0
    then rest
    else (rest >>= λ lines. done (line_of last t off ∷ lines))

-- A line feed ends the file's text, unless it is empty or has one.
pub cat_text : Tar → ℕ → List ℕ
cat_text t off =
    let sz = file_size t off in
    let body = bytes_from t.byte sz (off + 512) in
    if not (sz == 0) && not (t.byte (off + 512 + (sz - 1)) == b'\n')
    then body ++ (b'\n' ∷ [])
    else body

-- The loop of `initrd_cat`, with fuel: what it prints, or none when it finds no such file.
pub initrd_cat : ℕ → Tar → List ℕ → ℕ → ℕ → Run (Option (List ℕ))
initrd_cat last t path zero off = endless
initrd_cat last t path (suc fuel) off =
    let rest = initrd_cat last t path fuel (next_header t off) in
    if not (has_header t off)
    then done none
    else if not (t.byte (off + typeflag_field) == b'5')
        && is_zero (strcmp (full_name last t.byte off) path)
    then done (some (cat_text t off))
    else rest
