-- ===== src/Initrd/Slices.antt =====
-- `initrd_read` against the file's bytes: the initial ram disk serves the virtual file system.
use native.Mathlib.Nat.{mod-eq_of_lt}
use bobliu_os.Base.{
  ℕ, zero, suc, ◌+◌, ◌-◌, ◌^◌, ◌<◌, ◌≡◌, refl, ap, ◌∙◌, arith, List, [], ◌∷◌, some, false, ltb, leb,
  Bool-cases, inl, inr, take, drop, min,
}
use bobliu_os.Word.{u32, sub32}
use bobliu_os.Vfs.Reading.{Serves}
use bobliu_os.Initrd.{Tar}
use bobliu_os.Initrd.Nodes.{Node, file, bytes_from, initrd_read, g_ops}

bytes_at : (byte : ℕ → ℕ) (n : ℕ) {a b : ℕ} → a ≡ b → bytes_from byte n a ≡ bytes_from byte n b
bytes_at byte n e = ap (λ (k : ℕ). bytes_from byte n k) e

bytes_from-drop :
    (byte : ℕ → ℕ) (off n at : ℕ)
    → drop off (bytes_from byte n at) ≡ bytes_from byte (n - off) (at + off)
unfolding bytes_from
bytes_from-drop byte zero n at =
    let e : at + 0 ≡ at = omega arith in let f : n - 0 ≡ n = omega arith in rw (e, f) refl
bytes_from-drop byte (suc off) zero at = let f : 0 - suc off ≡ 0 = omega arith in rw f refl
bytes_from-drop byte (suc off) (suc n) at =
    let e : at + 1 + off ≡ at + suc off = omega arith in
    let f : suc n - suc off ≡ n - off = omega arith in
    rw f (bytes_from-drop byte off n (at + 1) ∙ bytes_at byte (n - off) e)

bytes_from-take :
    (byte : ℕ → ℕ) (k n at : ℕ) → take k (bytes_from byte n at) ≡ bytes_from byte (min k n) at
unfolding bytes_from
bytes_from-take byte zero n at = let e : min 0 n ≡ 0 = omega arith in rw e refl
bytes_from-take byte (suc k) zero at = let e : min (suc k) 0 ≡ 0 = omega arith in rw e refl
bytes_from-take byte (suc k) (suc n) at =
    let e : min (suc k) (suc n) ≡ suc (min k n) = omega arith in
    rw e (ap (λ (r : List ℕ). byte at ∷ r) (bytes_from-take byte k n (at + 1)))

slice :
    (byte : ℕ → ℕ) (sz at off len : ℕ)
    → take len (drop off (bytes_from byte sz at)) ≡ bytes_from byte (min len (sz - off)) (at + off)
slice byte sz at off len =
    ap (λ (r : List ℕ). take len r) (bytes_from-drop byte off sz at)
    ∙ bytes_from-take byte len (sz - off) (at + off)

none_left : (byte : ℕ → ℕ) (n at : ℕ) → n ≡ 0 → [] ≡ bytes_from byte n at
unfolding bytes_from
none_left byte n at e = rw e refl

-- The vnode of a file of less than 2 GiB serves the bytes of the image that follow the file's header:
-- any `initrd_read` that ends within 32 bits gives those from the offset on, as many as asked for and as
-- there are.
pub initrd_read-Serves :
    (t : Tar) (fuel h sz : ℕ)
    → sz < 2 ^ 31
    → Serves Node (g_ops t fuel) (file h sz) (bytes_from t.byte sz (h + 512))
unfolding initrd_read g_ops
initrd_read-Serves t fuel h sz fits off len below =
    let sum : u32 (off + len) ≡ off + len = mod-eq_of_lt below in
    elim (Bool-cases (leb sz off)) [
      | inl e ↦
          rw (e, slice t.byte sz (h + 512) off len)
            (ap some (none_left t.byte (min len (sz - off)) (h + 512 + off) (ground (arith, e))))
      | inr e ↦
          rw (e, sum, slice t.byte sz (h + 512) off len)
            (elim (Bool-cases (ltb sz (off + len))) [
              | inl g ↦
                  let n : sub32 sz off ≡ min len (sz - off) = ground (arith, e, g) in
                  let small : leb (2 ^ 31) (min len (sz - off)) ≡ false = ground (arith, fits) in
                  rw (g, n, small) refl
              | inr g ↦
                  let n : len ≡ min len (sz - off) = ground (arith, e, g) in
                  let small : leb (2 ^ 31) len ≡ false = ground (arith, fits, e, g) in
                  rw (g, small) (ap (λ (k : ℕ). some (bytes_from t.byte k (h + 512 + off))) n)
            ])
    ]
