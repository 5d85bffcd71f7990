-- ===== src/Elf/Segments.antt =====
-- The loop of `elf_load_image` that copies the segments, kernel/arch/i386/cpu/user_exec.c, against the
-- contents that the program headers ask for.
use bobliu_os.Base.{
  ℕ, zero, suc, ◌+◌, ◌-◌, ◌/◌, ◌≤◌, ◌<◌, ◌≡◌, refl, arith, Bool, true, false, ◌&&◌, if◌then◌else◌,
  leb, ltb, Option, Bool-cases, inl, inr,
}
use bobliu_os.Run.{◌>>=◌}
use bobliu_os.Paging.{Paging}
use bobliu_os.Elf.Image.{Phdr, is_loaded}
use bobliu_os.Elf.Load.{store_bytes, load_segment, load_segments}
use bobliu_os.Elf.Mapped.{segment_pages, segments_pages, IsSound, IsSound-is_apart, AllSound}
use bobliu_os.Elf.Stored.{
  IsBacked, Writes, Writes-then, Writes-same, Writes-none, put, store_bytes-Writes,
}

-- The byte of a segment at an address: from the file as far as the file has it, then 0.
abbrev pub segment_byte : (ℕ → ℕ) → Phdr → ℕ → ℕ
segment_byte img p w =
    if ltb (w - p.p_vaddr) p.p_filesz then img (p.p_offset + (w - p.p_vaddr)) else 0

-- What is at an address after a segment is loaded, from what was there before.
abbrev pub segment_contents : (ℕ → ℕ) → Phdr → ℕ → Option ℕ → Option ℕ
segment_contents img p w old =
    if is_loaded p then put p.p_vaddr (p.p_vaddr + p.p_memsz) (segment_byte img p) w old else old

-- The same of `count` segments from `i` on: the last one that has the address decides.
unfoldable pub contents : ℕ → ℕ → (ℕ → ℕ) → (ℕ → Phdr) → ℕ → Option ℕ → Option ℕ
contents zero i img phdrs w old = old
contents (suc count) i img phdrs w old =
    contents count (i + 1) img phdrs w (segment_contents img (phdrs i) w old)

-- The file's part and the zeros behind it.
parts_join :
    (img : ℕ → ℕ) (p : Phdr) (w : ℕ) (o : Option ℕ)
    → p.p_filesz ≤ p.p_memsz
    → put
        (p.p_vaddr + p.p_filesz)
        (p.p_vaddr + p.p_filesz + (p.p_memsz - p.p_filesz))
        (λ x. 0)
        w
        (put
          (p.p_vaddr + 0)
          (p.p_vaddr + 0 + p.p_filesz)
          (λ x. img (p.p_offset + (x - p.p_vaddr)))
          w
          o)
      ≡ put p.p_vaddr (p.p_vaddr + p.p_memsz) (segment_byte img p) w o
parts_join img p w o part =
    let lo : ℕ = p.p_vaddr in
    let mid : ℕ = lo + p.p_filesz in
    let hi : ℕ = lo + p.p_memsz in
    let whole : mid + (p.p_memsz - p.p_filesz) ≡ hi = omega (arith, part) in
    let start : lo + 0 ≡ lo = omega arith in
    simp (whole, start)
      (elim (Bool-cases (leb mid w && ltb w hi)) [
        | inl e ↦
            let all : leb lo w && ltb w hi ≡ true = ground (arith, e) in
            let zeros : ltb (w - lo) p.p_filesz ≡ false = ground (arith, e) in
            simp (e, all, zeros) refl
        | inr e ↦ elim (Bool-cases (leb lo w && ltb w mid)) [
          | inl f ↦
              let all : leb lo w && ltb w hi ≡ true = ground (arith, f, part) in
              let filed : ltb (w - lo) p.p_filesz ≡ true = ground (arith, f) in
              simp (e, f, all, filed) refl
          | inr f ↦
              let out : leb lo w && ltb w hi ≡ false = ground (arith, e, f) in simp (e, f, out) refl
        ]
      ])

-- An address of a segment is in its pages.
in_pages :
    (p : Phdr) (w : ℕ)
    → p.p_vaddr ≤ w
    → w < p.p_vaddr + p.p_memsz
    → segment_pages p (w / 4096) ≡ true
in_pages p w lo hi = ground (arith, lo, hi)

module _ {g : Paging} {pages : ℕ → Bool} (k : IsBacked g pages) (img : ℕ → ℕ) where
  -- The two loops over the bytes of a segment whose pages are mapped.
  pub copy-Writes :
      (p : Phdr) (ram : ℕ → ℕ)
      → IsSound p
      → ((q : ℕ) → segment_pages p q ≡ true → pages q ≡ true)
      → Writes g pages (put p.p_vaddr (p.p_vaddr + p.p_memsz) (segment_byte img p)) ram (
          store_bytes p.p_filesz 0 p.p_vaddr
            (λ b. img (p.p_offset + b))
            (record { paging = g; ram = ram })
          >>= store_bytes (p.p_memsz - p.p_filesz) p.p_filesz p.p_vaddr (λ b. 0))
  copy-Writes p ram o inside =
      let mapped : (w : ℕ) → p.p_vaddr ≤ w → w < p.p_vaddr + p.p_memsz → pages (w / 4096) ≡ true =
        λ w lo hi. inside (w / 4096) (in_pages p w lo hi) in
      Writes-same (λ w x. parts_join img p w x o.part)
        (Writes-then (store_bytes (p.p_memsz - p.p_filesz) p.p_filesz p.p_vaddr (λ b. 0))
          (store_bytes-Writes k p.p_filesz 0 p.p_vaddr (λ b. img (p.p_offset + b)) ram
            (omega (arith, o.ends, o.part))
            (λ w lo hi. mapped w (omega (arith, lo)) (omega (arith, hi, o.part))))
          (λ after.
            store_bytes-Writes k (p.p_memsz - p.p_filesz) p.p_filesz p.p_vaddr (λ b. 0) after
              (omega (arith, o.ends, o.part))
              (λ w lo hi. mapped w (omega (arith, lo)) (omega (arith, hi, o.part)))))

  pub load_segment-Writes :
      (p : Phdr) (ram : ℕ → ℕ)
      → (is_loaded p ≡ true → IsSound p)
      → ((q : ℕ) → is_loaded p && segment_pages p q ≡ true → pages q ≡ true)
      → Writes g pages
          (segment_contents img p)
          ram
          (load_segment img p (record { paging = g; ram = ram }))
  unfolding load_segment
  load_segment-Writes p ram sound inside = elim (Bool-cases (is_loaded p)) [
    | inr e ↦ rw e (Writes-none (λ w o. rw e refl))
    | inl e ↦
        rw (e, IsSound-is_apart p (sound e))
          (Writes-same (λ w x. rw e refl)
            (copy-Writes p ram (sound e) (λ q there. inside q (rw e there))))
  ]

  pub load_segments-Writes :
      (count i : ℕ) (phdrs : ℕ → Phdr) (ram : ℕ → ℕ)
      → AllSound count i phdrs
      → ((q : ℕ) → segments_pages count i phdrs q ≡ true → pages q ≡ true)
      → Writes g pages
          (contents count i img phdrs)
          ram
          (load_segments count i img phdrs (record { paging = g; ram = ram }))
  unfolding load_segments contents segments_pages
  load_segments-Writes zero i phdrs ram sound inside = Writes-none (λ w o. refl)
  load_segments-Writes (suc count) i phdrs ram sound inside =
      Writes-then (load_segments count (i + 1) img phdrs)
        (load_segment-Writes (phdrs i) ram (sound i (omega arith) (omega arith))
          (λ q e. inside q (rw e refl)))
        (λ after.
          load_segments-Writes count (i + 1) phdrs after
            (λ j lo hi. sound j (omega arith) (omega arith)) (λ q e. inside q (ground (arith, e))))
