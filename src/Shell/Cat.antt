-- ===== src/Shell/Cat.antt =====
-- `cmd_cat` of kernel/arch/i386/shell/shell.c: its loop prints the whole file and ends.
use bobliu_os.Base.{
  ℕ, zero, suc, ◌+◌, ◌-◌, ◌*◌, ◌^◌, ◌≤◌, ◌<◌, ◌≡◌, refl, sym, ap, ◌∙◌, arith, List, [], ◌∷◌, ◌++◌,
  ◌==◌, true, false, Bool-cases, inl, inr, take, drop, length, length-take, length-drop, min,
}
use bobliu_os.Int.{pos}
use bobliu_os.Run.{done}
use bobliu_os.Vfs.{VnodeOps, Vfs}
use bobliu_os.Vfs.Reading.{
  IsOpenAt, Serves, moved, moved-IsOpenAt, vfs_read_at, drop-drop, drop-length-take,
}
use bobliu_os.Shell.Commands.{cat_loop}

no_bytes {ℓ} : {A : Type ℓ} (xs : List A) → length xs ≡ 0 → [] ≡ xs
no_bytes [] e = refl
no_bytes (x ∷ xs) e = absurd (omega (arith, e))

is_zero : (n : ℕ) → (n == 0) ≡ true → n ≡ 0
is_zero n e = ground (arith, e)

is_positive : (n : ℕ) → (n == 0) ≡ false → 1 ≤ n
is_positive n e = ground (arith, e)

take-append-drop {ℓ} : {A : Type ℓ} (n : ℕ) (xs : List A) → take n xs ++ drop n xs ≡ xs
take-append-drop zero xs = refl
take-append-drop (suc n) [] = refl
take-append-drop (suc n) (x ∷ xs) = ap (λ (ys : List _). x ∷ ys) (take-append-drop n xs)

-- From a descriptor at an offset inside a file, whose size leaves room for a buffer below 2^32, the
-- loop of `cmd_cat` prints exactly the rest of the file, in order, and ends: a round for each 256
-- bytes of it and one more are enough.
pub cat_loop-drop :
    (V : Type 0) (ops : VnodeOps V) (fuel : ℕ) {fd : ℕ} {vn : V} {off : ℕ} {s : Vfs V}
    {content : List ℕ}
    → IsOpenAt V ops fd vn off s
    → Serves V ops vn content
    → off ≤ length content
    → length content + 256 < 2 ^ 32
    → length content + 256 ≤ off + 256 * fuel
    → (t : Vfs V) × (cat_loop ops fuel (pos fd) s ≡ done (drop off content, t))
unfolding cat_loop
cat_loop-drop V ops zero o v inside small enough = absurd (omega arith)
cat_loop-drop V ops (suc fuel) {fd} {vn} {off} {s} {content} o v inside small enough =
    let bytes : List ℕ = take 256 (drop off content) in
    let count : length bytes ≡ min 256 (length content - off) =
      omega (arith, length-take 256 (drop off content), length-drop off content) in
    let split : drop (off + length bytes) content ≡ drop 256 (drop off content) =
      sym (drop-drop off (length bytes) content) ∙ drop-length-take 256 (drop off content) in
    elim (Bool-cases (length bytes == 0)) [
      | inl e ↦
          let none_left : length (drop off content) ≡ 0 =
            omega (arith, is_zero (length bytes) e, count, length-drop off content) in
          rw (vfs_read_at V ops 256 o v (omega arith), e)
            (
              _,
              ap (λ (b : List ℕ). done (b, moved V ops fd vn (off + length bytes) s))
                  (no_bytes (drop off content) none_left),
            )
      | inr e ↦
          let some_left : 1 ≤ length bytes = is_positive (length bytes) e in
          let next : (t : Vfs V) × (cat_loop ops fuel (pos fd)
                  (moved V ops fd vn (off + length bytes) s)
                ≡ done (drop (off + length bytes) content, t)) =
            cat_loop-drop V ops fuel (moved-IsOpenAt V ops (off + length bytes) o) v (omega arith)
              small (omega arith) in
          rw (vfs_read_at V ops 256 o v (omega arith), e, next.1, split)
            (
              next.0,
              ap (λ (b : List ℕ). done (b, next.0)) (take-append-drop 256 (drop off content)),
            )
    ]
