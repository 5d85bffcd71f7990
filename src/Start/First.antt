-- ===== src/Start/First.antt =====
-- The first program after `kernel_main` of kernel/kernel/kernel.c: `user_exec` of
-- kernel/arch/i386/cpu/user_exec.c on the state that the start leaves.
use bobliu_os.Base.{
  ℕ, ◌*◌, ◌^◌, ◌≤◌, ◌<◌, ◌≡◌, ◌⊎◌, sym, subst, ◌∙◌, arith, List, true, some, inl, inr, take, length,
}
use bobliu_os.Run.{Run, done, halt, paging_oom}
use bobliu_os.Multiboot.{multiboot1_magic, info_mmap}
use bobliu_os.Pmm.{Pmm}
use bobliu_os.Pmm.Init.{flag, pmm_init}
use bobliu_os.Pmm.Init.Walk.{IsOrderly}
use bobliu_os.Heap.Bump.{IsSound}
use bobliu_os.Vfs.{VnodeOps, Vfs, vfs_open}
use bobliu_os.Vfs.Reading.{IsOpenAt, Serves}
use bobliu_os.Initrd.Nodes.{Node}
use bobliu_os.Cpu.Interrupts.{Build}
use bobliu_os.Elf.Slurp.{max_elf}
use bobliu_os.Elf.Image.{ehdr_size, is_elf}
use bobliu_os.Elf.Load.{Kernel, UserImage, user_exec}
use bobliu_os.Elf.Exec.{Executes, HasSoundHeaders, image_of, heap_of, user_exec-Executes}
use bobliu_os.Start.{Loader, System, kernel_main}
use bobliu_os.Start.Boots.{IsBooted, GivenBack, kernel_main-Boots}

-- The state of the components that a program's start uses; `ram` is what the frames hold.
abbrev pub kernel_of : {S : Type 0} → (ℕ → ℕ) → System S → Kernel Node
kernel_of ram t = record {
  vfs = t.vfs;
  heap = t.heap;
  space = record { paging = t.paging; ram = ram };
}

booted_heap :
    {S : Type 0} (ram : ℕ → ℕ) (t : System S)
    → IsBooted t.paging t.heap
    → IsSound (heap_of (kernel_of ram t))
booted_heap ram t k = record {
  started = k.sound.started;
  ended = k.sound.ended;
  room = k.sound.room;
  backed = k.sound.backed;
  frames = k.paged.frames;
}

module _ {S : Type 0} (b : Build S) (fuel : ℕ) (l : Loader) (s t : System S) (ram memory : ℕ → ℕ)
    (ops : VnodeOps Node) (enter : UserImage → Kernel Node → Run (ℕ × Kernel Node)) (path : List ℕ)
    (fd : ℕ) (vn : Node) (open_vfs : Vfs Node) (file : List ℕ) where
  -- After a start as above that returned, `user_exec` of an ELF file that the file system serves halts
  -- for want of memory, gives -1, or enters the program in a space of its own.
  pub first_exec-Executes :
      l.magic ≡ multiboot1_magic
      → flag info_mmap l.mbi ≡ true
      → IsOrderly l.mbi
      → ((a : ℕ) → s.paging.mem a < 2 ^ 32)
      → kernel_main b fuel l s ≡ done t
      → vfs_open ops path t.vfs ≡ done (some fd, open_vfs)
      → IsOpenAt Node ops fd vn 0 open_vfs
      → Serves Node ops vn file
      → ehdr_size ≤ length file
      → is_elf (take ehdr_size file) ≡ true
      → HasSoundHeaders (image_of memory file (kernel_of ram t))
      → t.paging.pmm.total_frames ≤ 8188
      → t.heap.end ≤ 8188 * 4096
      → Executes
          (length (take max_elf file))
          (image_of memory file (kernel_of ram t))
          enter
          (kernel_of ram t)
          (user_exec ops enter memory path (kernel_of ram t))
  first_exec-Executes good map orderly words runs opens o v long elf headers below under =
      let k = booted (kernel_main-Boots b fuel l s good map orderly words) in
      user_exec-Executes Node ops enter memory path fd vn open_vfs file (kernel_of ram t) opens o v
        long elf (omega (arith, k.empty)) headers k.paged (booted_heap ram t k) below under
    where
      booted :
          (kernel_main b fuel l s ≡ halt paging_oom)
            ⊎ ((u : System S) × (kernel_main b fuel l s ≡ done u)
                × IsBooted u.paging u.heap
                × (u.tss.esp0 ≡ l.stack_top)
                × ((before : Pmm) × (pmm_init l.magic l.mbi l.kernel_start l.kernel_end
                      ≡ done before)
                    × GivenBack before u.paging.pmm))
          → IsBooted t.paging t.heap
      booted (inl e) = let broken : halt paging_oom ≡ done t = sym e ∙ runs in cc broken
      booted (inr (u, e, k, stack, back)) =
          let same : done u ≡ done t = sym e ∙ runs in
          let same' : u ≡ t = cc same in subst (λ (x : System S). IsBooted x.paging x.heap) same' k
