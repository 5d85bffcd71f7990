-- ===== src/Elf/Reads.antt =====
-- What `elf_load_image` of kernel/arch/i386/cpu/user_exec.c reads of a file.
use bobliu_os.Base.{
  ℕ, zero, suc, ◌+◌, ◌-◌, ◌^◌, ◌≤◌, ◌<◌, ◌≡◌, refl, sym, ap, ◌∙◌, arith, List, [], ◌∷◌, true, false,
  ltb, ◌==◌, ◌&&◌, Option, none, some, Bool-cases, inl, inr, take, drop, length, length-take,
  length-drop, min, append-nil,
}
use bobliu_os.Int.{pos}
use bobliu_os.Run.{Run, done}
use bobliu_os.Vfs.{VnodeOps, Vfs}
use bobliu_os.Vfs.Reading.{
  IsOpenAt, Serves, moved, moved-IsOpenAt, IsAway, IsAway-then, moved-IsAway, same-IsAway,
  vfs_read_at,
}
use bobliu_os.Elf.Image.{ehdr_size}
use bobliu_os.Elf.Slurp.{max_elf, before, read_round, read_rounds, read_all, slurp_round, slurp}

is_empty {ℓ} : {A : Type ℓ} (xs : List A) → length xs ≡ 0 → xs ≡ []
is_empty [] e = refl
is_empty (x ∷ xs) e = absurd (omega (arith, e))

module _ (V : Type 0) (ops : VnodeOps V) where
  read_round-some :
      (k : List ℕ → Run (Option (List ℕ) × Vfs V)) (xs : List ℕ) (s : Vfs V)
      → 1 ≤ length xs
      → read_round ops k (some xs) s ≡ before xs (k xs)
  read_round-some k [] s h = absurd (omega (arith, h))
  read_round-some k (x ∷ xs) s h = refl

  read_rounds_end :
      (fuel fd n got : ℕ) (s : Vfs V)
      → ltb got n ≡ false
      → read_rounds ops fuel (pos fd) n got s ≡ done (some [], s)
  unfolding read_rounds
  read_rounds_end zero fd n got s e = rw e refl
  read_rounds_end (suc fuel) fd n got s e = rw e refl

  slurp_round-some :
      (k : List ℕ → Run (Option (List ℕ) × Vfs V)) (xs : List ℕ) (s : Vfs V)
      → 1 ≤ length xs
      → slurp_round ops k (some xs) s ≡ before xs (k xs)
  slurp_round-some k [] s h = absurd (omega (arith, h))
  slurp_round-some k (x ∷ xs) s h = refl

  slurp_end :
      (fuel fd got : ℕ) (s : Vfs V)
      → ltb got max_elf ≡ false
      → slurp ops fuel (pos fd) got s ≡ done (some [], s)
  unfolding slurp
  slurp_end zero fd got s e = rw e refl
  slurp_end (suc fuel) fd got s e = rw e refl

  module _ {fd : ℕ} {vn : V} {off : ℕ} {s : Vfs V} {content : List ℕ}
      (o : IsOpenAt V ops fd vn off s) (v : Serves V ops vn content) where
    -- A read in `read_all` with nothing left of the file.
    read_rounds_stop :
        (fuel n got : ℕ)
        → got < n
        → off + n < 2 ^ 32
        → length content ≤ off
        → (t : Vfs V) × (read_rounds ops (suc fuel) (pos fd) n got s ≡ done (none, t))
          × IsOpenAt V ops fd vn off t
          × IsAway V ops fd s t
    unfolding read_rounds
    read_rounds_stop fuel n got more small past =
        let test : ltb got n ≡ true = ground (arith, more) in
        let nothing : take (n - got) (drop off content) ≡ [] =
          is_empty _
            (omega (arith, length-take (n - got) (drop off content), length-drop off content)) in
        let same : off + 0 ≡ off = omega arith in
        rw (test, vfs_read_at V ops (n - got) o v (omega arith), nothing, same)
          (_, refl, moved-IsOpenAt V ops off o, moved-IsAway V ops vn off (same-IsAway V ops fd s))

    -- A read in `read_all` that gets something, and what follows it.
    read_rounds_more :
        (fuel n got : ℕ)
        → got < n
        → off + n < 2 ^ 32
        → off < length content
        → read_rounds ops (suc fuel) (pos fd) n got s
          ≡ before (take (n - got) (drop off content)) (
              read_rounds ops fuel
                (pos fd)
                n
                (got + length (take (n - got) (drop off content)))
                (moved V ops fd vn (off + length (take (n - got) (drop off content))) s))
    unfolding read_rounds
    read_rounds_more fuel n got more small inside =
        let test : ltb got n ≡ true = ground (arith, more) in
        let bytes = take (n - got) (drop off content) in
        let some_read : 1 ≤ length bytes =
          omega (arith, length-take (n - got) (drop off content), length-drop off content) in
        rw (test, vfs_read_at V ops (n - got) o v (omega arith))
          (read_round-some
            (λ x.
              read_rounds ops fuel (pos fd) n (got + length x)
                (moved V ops fd vn (off + length bytes) s))
            bytes (moved V ops fd vn (off + length bytes) s) some_read)

    slurp_more :
        (fuel got : ℕ)
        → got < max_elf
        → off + max_elf < 2 ^ 32
        → off < length content
        → slurp ops (suc fuel) (pos fd) got s
          ≡ before (take (max_elf - got) (drop off content)) (
              slurp ops fuel
                (pos fd)
                (got + length (take (max_elf - got) (drop off content)))
                (moved V ops fd vn (off + length (take (max_elf - got) (drop off content))) s))
    unfolding slurp
    slurp_more fuel got more small inside =
        let test : ltb got max_elf ≡ true = ground (arith, more) in
        let bytes = take (max_elf - got) (drop off content) in
        let some_read : 1 ≤ length bytes =
          omega (arith, length-take (max_elf - got) (drop off content), length-drop off content) in
        rw (test, vfs_read_at V ops (max_elf - got) o v (omega arith))
          (slurp_round-some
            (λ x.
              slurp ops fuel (pos fd) (got + length x) (moved V ops fd vn (off + length bytes) s))
            bytes (moved V ops fd vn (off + length bytes) s) some_read)

    slurp_stop :
        (fuel got : ℕ)
        → got < max_elf
        → off + max_elf < 2 ^ 32
        → length content ≤ off
        → (t : Vfs V) × (slurp ops (suc fuel) (pos fd) got s ≡ done (some [], t))
    unfolding slurp
    slurp_stop fuel got more small past =
        let test : ltb got max_elf ≡ true = ground (arith, more) in
        let nothing : take (max_elf - got) (drop off content) ≡ [] = is_empty _ (
          omega (arith, length-take (max_elf - got) (drop off content), length-drop off content)) in
        rw (test, vfs_read_at V ops (max_elf - got) o v (omega arith), nothing) (_, refl)

  module _ {fd : ℕ} {vn : V} {s : Vfs V} {content : List ℕ} (o : IsOpenAt V ops fd vn 0 s)
      (v : Serves V ops vn content) where
    -- The header of a file that has one.
    pub read_all-take :
        ehdr_size ≤ length content
        → (t : Vfs V) × (read_all ops (pos fd) ehdr_size s
            ≡ done (some (take ehdr_size content), t))
          × IsOpenAt V ops fd vn ehdr_size t
          × IsAway V ops fd s t
    unfolding read_all
    read_all-take long =
        let size : length (take ehdr_size content) ≡ ehdr_size =
          omega (arith, length-take ehdr_size content) in
        rw
          (
            read_rounds_more o v 51 ehdr_size 0 (omega arith) (omega arith) (omega arith),
            size,
            read_rounds_end 51 fd ehdr_size ehdr_size (moved V ops fd vn ehdr_size s) refl,
            append-nil (take ehdr_size content),
          )
          (
            _,
            refl,
            moved-IsOpenAt V ops ehdr_size o,
            moved-IsAway V ops vn ehdr_size (same-IsAway V ops fd s),
          )

    -- A file that is shorter than a header.
    pub read_all-short :
        length content < ehdr_size
        → (off : ℕ) × (t : Vfs V) × (read_all ops (pos fd) ehdr_size s ≡ done (none, t))
          × IsOpenAt V ops fd vn off t
          × IsAway V ops fd s t
    unfolding read_all
    read_all-short short = elim (Bool-cases (length content == 0)) [
      | inl e ↦
          let none_left : length content ≡ 0 = ground (arith, e) in
          let stop =
            read_rounds_stop o v 51 ehdr_size 0 (omega arith) (omega arith) (omega arith) in
          (0, stop.0, stop.1, stop.2, stop.3)
      | inr e ↦
          let some_left : 1 ≤ length content = ground (arith, e) in
          let size : length (take ehdr_size content) ≡ length content =
            omega (arith, length-take ehdr_size content) in
          let stop =
            read_rounds_stop (moved-IsOpenAt V ops (length content) o) v 50 ehdr_size
              (length content) (omega arith) (omega arith) (omega arith) in
          let start : 0 + length content ≡ length content = omega arith in
          rw
            (
              read_rounds_more o v 51 ehdr_size 0 (omega arith) (omega arith) (omega arith),
              size,
              start,
              stop.1,
            )
            (
              length content,
              stop.0,
              refl,
              stop.2,
              IsAway-then V ops (moved-IsAway V ops vn (length content) (same-IsAway V ops fd s))
                  stop.3,
            )
    ]

  -- From a descriptor at the offset `off` of a file on, the loop that reads the rest of the file ends after
  -- two rounds at most, and has read exactly what is left of the file, as far as there is room for it.
  pub slurp-drop :
      {fd : ℕ} {vn : V} {s : Vfs V} {content : List ℕ} (fuel off : ℕ)
      → IsOpenAt V ops fd vn off s
      → Serves V ops vn content
      → off ≤ max_elf
      → (t : Vfs V) × (slurp ops (suc (suc fuel)) (pos fd) off s
          ≡ done (some (take (max_elf - off) (drop off content)), t))
  slurp-drop {fd} {vn} {s} {content} fuel off o v inside =
      let bytes = take (max_elf - off) (drop off content) in
      let size : length bytes ≡ min (max_elf - off) (length content - off) =
        omega (arith, length-take (max_elf - off) (drop off content), length-drop off content) in
      elim (Bool-cases (ltb off max_elf && ltb off (length content))) [
        | inr e ↦
            let nothing : bytes ≡ [] = is_empty bytes (ground (arith, e, size)) in
            elim (Bool-cases (ltb off max_elf)) [
              | inr full ↦ (
                s,
                slurp_end (suc (suc fuel)) fd off s full ∙ ap (λ b. done (some b, s)) (sym nothing),
              )
              | inl room ↦
                  let stop =
                    slurp_stop o v (suc fuel) off (ground (arith, room)) (omega arith)
                      (ground (arith, e, room)) in
                  (stop.0, stop.1 ∙ ap (λ b. done (some b, stop.0)) (sym nothing))
            ]
        | inl e ↦
            let next = off + length bytes in
            let more =
              slurp_more o v (suc fuel) off (ground (arith, e)) (omega arith) (ground (arith, e)) in
            elim (Bool-cases (ltb next max_elf)) [
              | inr full ↦ (
                moved V ops fd vn next s,
                more
                    ∙ ap (before bytes)
                        (slurp_end (suc fuel) fd next (moved V ops fd vn next s) full)
                    ∙ ap (λ b. done (some b, moved V ops fd vn next s)) (append-nil bytes),
              )
              | inl room ↦
                  let stop =
                    slurp_stop (moved-IsOpenAt V ops next o) v fuel next (ground (arith, room))
                      (omega arith) (ground (arith, room, size)) in
                  (
                    stop.0,
                    more
                        ∙ ap (before bytes) stop.1
                        ∙ ap (λ b. done (some b, stop.0)) (append-nil bytes),
                  )
            ]
      ]
