-- ===== src/Initrd/Messages.antt =====
-- What kernel/arch/i386/fs/initrd_tar.c prints: the messages of `initrd_ls` and `initrd_cat` around the
-- lists of Initrd/Listing, and the image that `initrd_init_from_module` takes.
use bobliu_os.Base.{ℕ, ◌+◌, List, [], ◌∷◌, ◌++◌, if◌then◌else◌, ◌==◌, Option, none, some, codes}
use bobliu_os.Word.{sub32}
use bobliu_os.Run.{Run, done, ◌>>=◌}
use bobliu_os.Libc.Printf.Parse.{single, text}
use bobliu_os.Shell.Console.{say}
use bobliu_os.Initrd.{Tar}
use bobliu_os.Initrd.Listing.{Line, dir_line, file_line, initrd_ls, initrd_cat}

-- `g_initrd` and `g_initrd_len`, none for the null pointer, and what is printed.
unfoldable pub initrd_init_from_module : (ℕ → ℕ) → ℕ → ℕ → Option Tar × List ℕ
initrd_init_from_module memory start end =
    let image : Tar = record { byte = λ i. memory (start + i); len = sub32 end start } in
    (
      if start == 0 then none else some image,
      say (codes "initrd: %x..%x (%u bytes)\n") (single start ∷ single end ∷ single image.len ∷ []),
    )

unfoldable pub line_text : Line → List ℕ
line_text (dir_line full) = say (codes "[dir ] %s\n") (text (some full) ∷ [])
line_text (file_line full sz) = say (codes "[file] %s (%u)\n") (text (some full) ∷ single sz ∷ [])

unfoldable pub lines_text : List Line → List ℕ
lines_text [] = []
lines_text (l ∷ lines) = line_text l ++ lines_text lines

abbrev pub not_loaded : List ℕ
not_loaded = say (codes "initrd not loaded\n") []

-- `initrd_ls`, with fuel.
unfoldable pub print_ls : ℕ → ℕ → Option Tar → Run (List ℕ)
print_ls fuel last none = done not_loaded
print_ls fuel last (some t) = initrd_ls last t fuel 0 >>= λ lines. done (lines_text lines)

-- `initrd_cat`, with fuel: 0, or none for -1, and what is printed.
unfoldable pub print_cat : ℕ → ℕ → List ℕ → Option Tar → Run (Option ℕ × List ℕ)
print_cat fuel last path none = done (none, not_loaded)
print_cat fuel last path (some t) = initrd_cat last t path fuel 0 >>= λ found. elim found [
  | none ↦ done (none, say (codes "not found: %s\n") (text (some path) ∷ []))
  | some body ↦ done (some 0, body)
]
