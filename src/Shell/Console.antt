-- ===== src/Shell/Console.antt =====
-- The commands of kernel/arch/i386/shell/shell.c that print what the kernel knows, the prompt, `cmd_exec`,
-- and `cmd_mem` of kernel/arch/i386/shell/cmd_mem.c and `cmd_alloc` of
-- kernel/arch/i386/shell/cmd_alloc.c. Their texts are those of `printf`. `panic` is here too.
use bobliu_os.Base.{
  ℕ, ◌*◌, ◌/◌, List, [], ◌∷◌, ◌++◌, Bool, true, false, ltb, if◌then◌else◌, Option, none, some,
  length, get_or, codes,
}
use bobliu_os.Word.{u32}
use bobliu_os.Run.{Run, done, ◌>>=◌}
use bobliu_os.Libc.Printf.Parse.{VaArg, text, single}
use bobliu_os.Libc.Printf.Loop.{Printed, printf}
use bobliu_os.Pmm.{Pmm, pmm_total_frames, pmm_free_frames, pmm_used_frames}
use bobliu_os.Heap.{Heap, kmalloc, heap_bytes_used, heap_bytes_total}
use bobliu_os.Tty.{Terminal, terminal_initialize}
use bobliu_os.Cpu.Timer.{Timer, timer_ticks}
use bobliu_os.Boot.{parse_u32}
use bobliu_os.Elf.Load.{Kernel}
use bobliu_os.Keyboard.{Keyboard, keyboard_enable_shell}
use bobliu_os.Shell.{shell_canon_path}

-- What `printf` puts out.
abbrev pub text_of : Printed → List ℕ
text_of (Printed.done t n) = t
text_of Printed.undefined = []
text_of Printed.starved = []

abbrev pub say : List ℕ → List VaArg → List ℕ
say fmt args = text_of (printf fmt args)

-- `panic` of kernel/arch/i386/shell/panic.c, up to its endless loop.
unfoldable pub panic : Option (List ℕ) → List ℕ
panic none = say (codes "PANIC: %s\n") (text (some (codes "(null)")) ∷ [])
panic (some msg) = say (codes "PANIC: %s\n") (text (some msg) ∷ [])

unfoldable pub shell_prompt : List ℕ → List ℕ
shell_prompt cwd = say (codes "bobliu:%s> ") (text (some cwd) ∷ [])

unfoldable pub shell_init : List ℕ → List ℕ
shell_init cwd = say (codes "Kernel shell ready. Type 'help'.\n") [] ++ shell_prompt cwd

unfoldable pub cmd_help : List ℕ
cmd_help =
    say (codes "commands:\n") []
    ++ say (codes "  help            - show this\n") []
    ++ say (codes "  clear           - clear screen\n") []
    ++ say (codes "  echo <text...>  - print text\n") []
    ++ say (codes "  ticks           - show timer ticks\n") []
    ++ say (codes "  mem             - show physical memory stats\n") []
    ++ say (codes "  alloc <bytes>   - kmalloc test\n") []
    ++ say (codes "  pwd             - print cwd\n") []
    ++ say (codes "  cd [path]       - change directory\n") []
    ++ say (codes "  ls [path]       - list directory\n") []
    ++ say (codes "  cat <path>      - print file\n") []
    ++ say (codes "  hexdump <path>  - dump bytes\n") []
    ++ say (codes "  panic           - trigger crash\n") []

unfoldable pub cmd_clear : Terminal → Terminal
cmd_clear t = terminal_initialize t

unfoldable pub cmd_ticks : Timer → List ℕ
cmd_ticks t = say (codes "ticks=%u\n") (single (timer_ticks t) ∷ [])

unfoldable pub cmd_uptime : Timer → List ℕ
cmd_uptime t = say (codes "uptime=%u s\n") (single (timer_ticks t / 100) ∷ [])

unfoldable pub cmd_pwd : List ℕ → List ℕ
cmd_pwd cwd = say (codes "%s\n") (text (some cwd) ∷ [])

unfoldable pub print_kib : ℕ → List ℕ
print_kib frames = say (codes "%u KiB") (single (u32 (frames * 4)) ∷ [])

unfoldable pub cmd_mem : Pmm → List ℕ
cmd_mem s =
    let total = pmm_total_frames s in
    let free = pmm_free_frames s in
    let used = pmm_used_frames s in
    say (codes "frames: total=%u free=%u used=%u\n") (single total ∷ single free ∷ single used ∷ [])
    ++ say (codes "bytes : total=") []
    ++ print_kib total
    ++ say (codes " free=") []
    ++ print_kib free
    ++ say (codes " used=") []
    ++ print_kib used
    ++ say (codes "\n") []

-- The address is printed as 0 when there is none.
abbrev pub address_of : Option ℕ → ℕ
address_of none = 0
address_of (some p) = p

unfoldable pub cmd_alloc : List (List ℕ) → Heap → Run (List ℕ × Heap)
cmd_alloc argv h =
    let n = parse_u32 (get_or argv 1 []) in
    let allocated = kmalloc n h >>= λ r. done (
      say (codes "kmalloc(%u) = %x\n") (single n ∷ single (address_of r.0) ∷ [])
          ++ say (codes "heap used %u / %u bytes\n")
              (single (heap_bytes_used r.1) ∷ single (heap_bytes_total r.1) ∷ []),
      r.1,
    ) in
    if ltb (length argv) 2 then done (say (codes "usage: alloc <bytes>\n") [], h) else allocated

-- `exec` is `user_exec` on a path; `last` is what stood behind the path's buffer. The result is whether
-- the command succeeds, what it prints, and the kernel and the keyboard after it.
abbrev pub executed :
    {V : Type 0}
    → List ℕ
    → List ℕ
    → Keyboard
    → Option ℕ × Kernel V
    → Run (Bool × List ℕ × Kernel V × Keyboard)
executed cwd path kbd (none, k) =
    done (false, say (codes "exec: failed: %s\n") (text (some path) ∷ []), k, kbd)
executed cwd path kbd (some rc, k) = done (
  true,
  say (codes "done\n") [] ++ say (codes "\n") [] ++ say (codes "FINISHED\n") [] ++ shell_prompt cwd,
  k,
  keyboard_enable_shell true kbd,
)

unfoldable pub cmd_exec :
    {V : Type 0}
    → (List ℕ → Kernel V → Run (Option ℕ × Kernel V))
    → ℕ
    → List ℕ
    → List (List ℕ)
    → Kernel V
    → Keyboard
    → Run (Bool × List ℕ × Kernel V × Keyboard)
cmd_exec exec last cwd argv k kbd =
    let path = shell_canon_path last cwd (get_or argv 1 []) in
    let run = exec path k >>= executed cwd path kbd in
    if ltb (length argv) 2 then done (false, say (codes "usage: exec <path>\n") [], k, kbd) else run
