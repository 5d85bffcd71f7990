-- ===== src/Shell/Memory.antt =====
-- What `cmd_mem` of kernel/arch/i386/shell/cmd_mem.c reports.
use bobliu_os.Base.{ℕ, ◌-◌, ◌*◌, ◌^◌, ◌≤◌, ◌≡◌, refl, arith, List, [], ◌∷◌, ◌++◌, false, codes}
use bobliu_os.Word.{u32, sub32}
use bobliu_os.Libc.Printf.Text.{print_unsigned}
use bobliu_os.Libc.Printf.Parse.{single, parse_format, parse_flags, parse_digits}
use bobliu_os.Libc.Printf.Loop.{
  printf, printf_loop, printf_round, conversion, plain_text, after_plain, no_fmt,
}
use bobliu_os.Pmm.{Pmm, pmm_total_frames, pmm_free_frames, pmm_used_frames}
use bobliu_os.Pmm.Inv.{IsValid}
use bobliu_os.Pmm.Count.{count_free-le}
use bobliu_os.Shell.Console.{say, print_kib, cmd_mem}

-- A number in decimal, as `%u` prints it.
abbrev pub decimal : ℕ → List ℕ
decimal n = print_unsigned no_fmt n 10 false

say_kib : (n : ℕ) → say (codes "%u KiB") (single n ∷ []) ≡ decimal n ++ codes " KiB"
unfolding printf printf_loop printf_round conversion plain_text after_plain parse_format parse_flags
    parse_digits
say_kib n = refl

say_frames :
    (a b c : ℕ)
    → say (codes "frames: total=%u free=%u used=%u\n") (single a ∷ single b ∷ single c ∷ [])
      ≡ codes "frames: total="
        ++ (decimal a
            ++ (codes " free=" ++ (decimal b ++ (codes " used=" ++ (decimal c ++ codes "\n")))))
unfolding printf printf_loop printf_round conversion plain_text after_plain parse_format parse_flags
    parse_digits
say_frames a b c = refl

say_plain :
    (say (codes "bytes : total=") [] ≡ codes "bytes : total=")
    × (say (codes " free=") [] ≡ codes " free=")
    × (say (codes " used=") [] ≡ codes " used=")
    × (say (codes "\n") [] ≡ codes "\n")
unfolding printf printf_loop printf_round conversion plain_text after_plain parse_format parse_flags
    parse_digits
say_plain = (refl, refl, refl, refl)

-- For a valid allocator `cmd_mem` prints the numbers of all, of free and of used frames in decimal, the used
-- ones being those that are not free, and then four times each in KiB: no size wraps at 32 bits.
pub cmd_mem-Reports :
    (s : Pmm)
    → IsValid s
    → let free = s.free_frames in
      let used = s.total_frames - s.free_frames in
      cmd_mem s
      ≡ (codes "frames: total="
          ++ (decimal s.total_frames
              ++ (codes " free="
                  ++ (decimal free ++ (codes " used=" ++ (decimal used ++ codes "\n"))))))
        ++ codes "bytes : total="
        ++ (decimal (4 * s.total_frames) ++ codes " KiB")
        ++ codes " free="
        ++ (decimal (4 * free) ++ codes " KiB")
        ++ codes " used="
        ++ (decimal (4 * used) ++ codes " KiB")
        ++ codes "\n"
unfolding cmd_mem print_kib pmm_total_frames pmm_free_frames pmm_used_frames
cmd_mem-Reports s v =
    let few : s.free_frames ≤ s.total_frames =
      omega (arith, v.counted, count_free-le s.bitmap s.total_frames) in
    let used : sub32 s.total_frames s.free_frames ≡ s.total_frames - s.free_frames =
      ground (arith, few, v.small) in
    let kib : (n : ℕ) → n ≤ 2 ^ 20 → u32 (n * 4) ≡ 4 * n = λ n h. omega (arith, h) in
    rw
      (
        used,
        say_frames s.total_frames s.free_frames (s.total_frames - s.free_frames),
        kib s.total_frames v.small,
        kib s.free_frames (omega (arith, few, v.small)),
        kib (s.total_frames - s.free_frames) (omega (arith, v.small)),
        say_kib (4 * s.total_frames),
        say_kib (4 * s.free_frames),
        say_kib (4 * (s.total_frames - s.free_frames)),
        say_plain.0,
        say_plain.1,
        say_plain.2,
        say_plain.3,
      )
      refl
