-- ===== src/Elf/Image.antt =====
-- The headers of an ELF file in memory: kernel/include/kernel/elf.h, and the checks that
-- kernel/arch/i386/cpu/user_exec.c makes of them. `img` is the memory from the image's start on.
use bobliu_os.Base.{
  if◌then◌else◌, Bool-cases, inl, inr, ℕ, ◌+◌, ◌-◌, ◌*◌, ◌^◌, ◌≤◌, ◌<◌, ◌≡◌, arith, ◌↔◌, List, Bool,
  true, ◌&&◌, not, leb, ltb, ◌==◌, bit_and, get_or,
}
use bobliu_os.Word.{u32}

abbrev pub ehdr_size : ℕ
ehdr_size = 52

abbrev pub phdr_size : ℕ
phdr_size = 32

abbrev pub pt_load : ℕ
pt_load = 1

-- Little-endian fields
abbrev pub half_at : (ℕ → ℕ) → ℕ → ℕ
half_at img i = img i + 2 ^ 8 * img (i + 1)

abbrev pub word_at : (ℕ → ℕ) → ℕ → ℕ
word_at img i = img i + 2 ^ 8 * img (i + 1) + 2 ^ 16 * img (i + 2) + 2 ^ 24 * img (i + 3)

-- The fields of `Elf32_Ehdr` that are used.
pub record Ehdr : Type 0 where
  pub e_entry : ℕ
  pub e_phoff : ℕ
  pub e_phnum : ℕ

abbrev pub ehdr_of : (ℕ → ℕ) → Ehdr
ehdr_of img = record {
  e_entry = word_at img 24;
  e_phoff = word_at img 28;
  e_phnum = half_at img 44;
}

-- The fields of `Elf32_Phdr` that are used.
pub record Phdr : Type 0 where
  pub p_type : ℕ
  pub p_offset : ℕ
  pub p_vaddr : ℕ
  pub p_filesz : ℕ
  pub p_memsz : ℕ

-- `P[i]`
abbrev pub phdr_of : (ℕ → ℕ) → ℕ → ℕ → Phdr
phdr_of img phoff i =
    let at = phoff + phdr_size * i in
    record {
      p_type = word_at img at;
      p_offset = word_at img (at + 4);
      p_vaddr = word_at img (at + 8);
      p_filesz = word_at img (at + 16);
      p_memsz = word_at img (at + 20);
    }

-- The magic number, and 32 bits with the low byte first.
unfoldable pub is_elf : List ℕ → Bool
is_elf eh =
    (get_or eh 0 0 == 0x7F)
    && ((get_or eh 1 0 == b'E')
        && ((get_or eh 2 0 == b'L')
            && ((get_or eh 3 0 == b'F') && ((get_or eh 4 0 == 1) && (get_or eh 5 0 == 1)))))

-- The program headers pass their check.
unfoldable pub headers_fit : Ehdr → ℕ → Bool
headers_fit e file_sz = leb (u32 (e.e_phoff + u32 (e.e_phnum * phdr_size))) file_sz

-- A segment passes its check.
-- The identity map of the first 256 MiB, through which the kernel reaches its tables and its heap, has no
-- page of the segment, and neither the end of the segment wraps nor is its part of the file longer than
-- itself.
abbrev pub is_apart : Phdr → Bool
is_apart p =
    leb (2 ^ 28) p.p_vaddr
    && (ltb (p.p_vaddr + p.p_memsz + 4095) (2 ^ 32) && leb p.p_filesz p.p_memsz)

unfoldable pub segment_fits : Phdr → ℕ → Bool
segment_fits p file_sz = leb (u32 (p.p_offset + p.p_filesz)) file_sz

unfoldable pub align_down : ℕ → ℕ
align_down x = bit_and x 0xFFFFF000

unfoldable pub align_up : ℕ → ℕ
align_up x = bit_and (u32 (x + 0xFFF)) 0xFFFFF000

abbrev pub is_loaded : Phdr → Bool
is_loaded p = (p.p_type == pt_load) && not (p.p_memsz == 0)

fits_lem :
    (a b n : ℕ)
    → a < 2 ^ 32
    → b < 2 ^ 32
    → (leb (u32 (a + b)) n ≡ true) ↔ (a + b ≤ (if leb (2 ^ 32) (a + b) then n + 2 ^ 32 else n))
fits_lem a b n ha hb = elim (Bool-cases (leb (2 ^ 32) (a + b))) [
  | inl e ↦
      let less : u32 (a + b) ≡ a + b - 2 ^ 32 = ground (arith, e, ha, hb) in
      rw (e, less) (ground (arith, e))
  | inr e ↦ let whole : u32 (a + b) ≡ a + b = ground (arith, e) in rw (e, whole) (ground arith)
]

-- The check of a segment lets through exactly the segments inside the file, when the sum of the offset
-- and the size in the file does not wrap; when the sum is 2^32 or more, it lets through every segment
-- that ends not more than 2^32 behind the file's end, although none of these lies inside a file.
pub segment_fits_iff :
    (p : Phdr) (file_sz : ℕ)
    → p.p_offset < 2 ^ 32
    → p.p_filesz < 2 ^ 32
    → (segment_fits p file_sz ≡ true) ↔ (
        p.p_offset + p.p_filesz
        ≤ (if leb (2 ^ 32) (p.p_offset + p.p_filesz) then file_sz + 2 ^ 32 else file_sz))
unfolding segment_fits
segment_fits_iff p file_sz ho hs = fits_lem p.p_offset p.p_filesz file_sz ho hs
