-- ===== src/Elf/Starts.antt =====
-- `elf_load_image` of kernel/arch/i386/cpu/user_exec.c as a whole, on a file that the file system
-- serves: it is read up to the bound, its program is loaded.
use bobliu_os.Base.{
  ℕ, zero, suc, ◌+◌, ◌-◌, ◌≤◌, ◌≡◌, refl, sym, ap, ◌∙◌, arith, List, [], ◌∷◌, ◌++◌, true, some,
  take, drop, length,
}
use bobliu_os.Int.{pos}
use bobliu_os.Run.{done}
use bobliu_os.Heap.{Heap, kmalloc}
use bobliu_os.Vfs.{VnodeOps, Vfs, vfs_open, vfs_close}
use bobliu_os.Vfs.Reading.{IsOpenAt, Serves}
use bobliu_os.Paging.{PageDirectory}
use bobliu_os.Paging.Walk.{IsPaged}
use bobliu_os.Elf.Image.{ehdr_size, is_elf, ehdr_of, phdr_of}
use bobliu_os.Elf.Slurp.{max_elf}
use bobliu_os.Elf.Load.{Kernel, with_paging, kmalloc_in, image, elf_load_image, load_bytes}
use bobliu_os.Elf.Reads.{read_all-take, slurp-drop}
use bobliu_os.Elf.Mapped.{AllSound}
use bobliu_os.Elf.Loads.{Loads, load_bytes_all}

take_nil {ℓ} : {A : Type ℓ} (m : ℕ) → take {A = A} m [] ≡ []
take_nil zero = refl
take_nil (suc m) = refl

take_parts {ℓ} :
    {A : Type ℓ} (n m : ℕ) (xs : List A) → take n xs ++ take m (drop n xs) ≡ take (n + m) xs
take_parts zero m xs = let sum : m ≡ 0 + m = omega arith in ap (λ i. take i xs) sum
take_parts (suc n) m [] = take_nil m ∙ sym (take_nil (suc n + m))
take_parts (suc n) m (x ∷ xs) =
    let sum : suc n + m ≡ suc (n + m) = omega arith in
    ap (λ ys. x ∷ ys) (take_parts n m xs) ∙ ap (λ i. take i (x ∷ xs)) (sym sum)

module _ (V : Type 0) (ops : VnodeOps V) where
  -- The kernel after the image's memory is allocated and the file is closed.
  abbrev pub reading : Heap → Vfs V → Kernel V → Kernel V
  reading h t k =
      with_paging (record k.space.paging { pmm = h.pmm }) (record k { heap = h; vfs = t })

  module _ (memory : ℕ → ℕ) (path : List ℕ) (dir : PageDirectory) (k : Kernel V) (fd : ℕ) (vn : V)
      (s : Vfs V) (file : List ℕ) (at : ℕ) (h : Heap)
      (opens : vfs_open ops path k.vfs ≡ done (some fd, s)) (o : IsOpenAt V ops fd vn 0 s)
      (v : Serves V ops vn file) (long : ehdr_size ≤ length file)
      (good : is_elf (take ehdr_size file) ≡ true)
      (room : kmalloc max_elf (record k.heap { pmm = k.space.paging.pmm })
        ≡ done (some at, h)) where
    -- The file is read whole, or its first 512 KiB, and then closed and loaded.
    pub elf_load_image-load_bytes :
        (t : Vfs V) × (elf_load_image ops memory path dir k
          ≡ load_bytes (take max_elf file) (λ i. memory (at + i)) dir (reading h t k))
    unfolding elf_load_image kmalloc_in
    elf_load_image-load_bytes =
        let head = read_all-take V ops o v long in
        let rest = slurp-drop V ops (max_elf - 2) ehdr_size head.2 v (omega arith) in
        (
          (vfs_close ops (pos fd) rest.0).1,
          rw (opens, head.1, good, room, rest.1, take_parts ehdr_size (max_elf - ehdr_size) file)
              refl,
        )

    pub elf_load_image-Loads :
        IsPaged dir.pd_virt k.space.paging.mem h.pmm
        → AllSound (ehdr_of (image (take max_elf file) (λ i. memory (at + i)))).e_phnum 0 (
            phdr_of
              (image (take max_elf file) (λ i. memory (at + i)))
              (ehdr_of (image (take max_elf file) (λ i. memory (at + i)))).e_phoff)
        → (t : Vfs V) × Loads
            (length (take max_elf file))
            (image (take max_elf file) (λ i. memory (at + i)))
            dir
            (reading h t k)
            (elf_load_image ops memory path dir k)
    elf_load_image-Loads paged sound =
        let run = elf_load_image-load_bytes in
        (
          run.0,
          rw run.1 (
              load_bytes_all (take max_elf file) (λ i. memory (at + i)) dir (reading h run.0 k)
                paged sound),
        )
