-- ===== src/Initrd.antt =====
-- The tar image of the initial ram disk: the header parsing that kernel/arch/i386/fs/initrd_vfs.c
-- and kernel/arch/i386/fs/initrd_tar.c share, and the search of initrd_vfs.c.
pub mod Nodes
pub mod Listing
pub mod Messages
pub mod Slices
pub mod Walk
mod Tests
use bobliu_os.Base.{
  ℕ, zero, suc, ◌+◌, ◌-◌, ◌*◌, ◌<◌, List, [], ◌∷◌, ◌++◌, Bool, true, false, ◌&&◌, ◌||◌, not,
  if◌then◌else◌, ltb, leb, ◌==◌, Option, none, some, length, get_or, take, drop,
}
use bobliu_os.Int.{is_zero}
use bobliu_os.Word.{u32, align_up}
use bobliu_os.Run.{Run, done, endless}
use bobliu_os.Libc.Str.{char_at, next, strlen, strcmp, strncmp}

-- `g_tar` and `g_tar_len`: the byte at each offset from the image's start, in memory that goes on
-- behind the image.
pub record Tar : Type 0 where
  pub byte : ℕ → ℕ
  pub len : ℕ

-- Where the fields of `tar_hdr_t` stand.
abbrev pub size_field : ℕ
size_field = 124

abbrev pub typeflag_field : ℕ
typeflag_field = 156

abbrev pub prefix_field : ℕ
prefix_field = 345

-- The loop of `oct2u`.
pub oct_digits : (ℕ → ℕ) → ℕ → ℕ → ℕ → ℕ
oct_digits byte zero at v = v
oct_digits byte (suc n) at v =
    let c = byte at in
    let more = oct_digits byte n (at + 1) (u32 (v * 8 + (c - b'0'))) in
    if (c == 0) || (c == b' ') then v else if ltb c b'0' || ltb b'7' c then v else more

unfoldable pub oct2u : (ℕ → ℕ) → ℕ → ℕ → ℕ
oct2u byte at n = oct_digits byte n at 0

-- The 512 bytes are 0, as far as `k` more go.
pub all_zero : (ℕ → ℕ) → ℕ → ℕ → Bool
all_zero byte zero at = true
all_zero byte (suc k) at =
    let rest = all_zero byte k (at + 1) in if byte at == 0 then rest else false

pub is_zero_block : (ℕ → ℕ) → ℕ → Bool
is_zero_block byte at = all_zero byte 512 at

-- The bytes from `at` up to a 0, `room` of them at most.
pub copy_string : (ℕ → ℕ) → ℕ → ℕ → List ℕ
copy_string byte zero at = []
copy_string byte (suc room) at =
    let rest = copy_string byte room (at + 1) in if byte at == 0 then [] else byte at ∷ rest

-- The prefix and its slash, in a buffer for `room` characters.
pub full_prefix : (ℕ → ℕ) → ℕ → ℕ → List ℕ
full_prefix byte room h =
    let p = copy_string byte room (h + prefix_field) in
    if byte (h + prefix_field) == 0 then [] else if ltb (length p) room then p ++ (b'/' ∷ []) else p

abbrev pub strip_dot : List ℕ → List ℕ
strip_dot out = if (get_or out 0 0 == b'.') && (get_or out 1 0 == b'/') then drop 2 out else out

-- `make_full` of the header at `h`, into a buffer of `out_sz` bytes.
pub make_full : (ℕ → ℕ) → ℕ → ℕ → List ℕ
make_full byte out_sz h =
    let p = full_prefix byte (out_sz - 1) h in
    strip_dot (p ++ copy_string byte (out_sz - 1 - length p) h)

pub starts_with_dir : List ℕ → List ℕ → Bool
starts_with_dir full dir_prefix =
    let n = strlen dir_prefix in
    if char_at dir_prefix == 0
    then true
    else if not (is_zero (strncmp full dir_prefix n))
    then false
    else if get_or full n 0 == 0
    then true
    else (get_or full n 0 == b'/')

-- The walk over the headers: whether there is one at `off`, its file's size, and the next offset.
unfoldable pub has_header : Tar → ℕ → Bool
has_header t off = leb (u32 (off + 512)) t.len && not (is_zero_block t.byte off)

unfoldable pub file_size : Tar → ℕ → ℕ
file_size t off = oct2u t.byte (off + size_field) 12

unfoldable pub next_header : Tar → ℕ → ℕ
next_header t off = u32 (off + u32 (512 + align_up (file_size t off) 512))

-- A directory's name may end in a slash in the archive.
pub matches : Tar → List ℕ → ℕ → Bool
matches t path off =
    let full = make_full t.byte 256 off in
    let n = strlen full in
    is_zero (strcmp full path)
    || ((t.byte (off + typeflag_field) == b'5')
        && (not (n == 0)
            && ((get_or full (n - 1) 0 == b'/') && is_zero (strcmp (take (n - 1) full) path))))

-- The loop of `tar_find_exact` from offset `off`, with fuel: the offset of the header found.
unfoldable pub find_from : Tar → List ℕ → ℕ → ℕ → Run (Option ℕ)
find_from t path zero off = endless
find_from t path (suc fuel) off =
    let rest = find_from t path fuel (next_header t off) in
    if has_header t off then (if matches t path off then done (some off) else rest) else done none

unfoldable pub tar_find_exact : Tar → ℕ → List ℕ → Run (Option ℕ)
tar_find_exact t fuel path = find_from t path fuel 0
