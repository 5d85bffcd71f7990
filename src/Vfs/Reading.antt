-- ===== src/Vfs/Reading.antt =====
-- `vfs_read` of kernel/arch/i386/fs/vfs.c called again and again, as `cmd_cat` of
-- kernel/arch/i386/shell/shell.c does.
use bobliu_os.Base.{
  ℕ, zero, suc, ◌+◌, ◌^◌, ◌<◌, ◌≡◌, refl, ap, sym, ◌∙◌, arith, List, [], ◌∷◌, ◌++◌, true, Option,
  none, some, length, get_or, set, take, drop, ltb, length-take, length-set, get_or-set_self,
  get_or-set_ne, ◌≢◌,
}
use native.Mathlib.Nat.{mod-eq_of_lt}
use bobliu_os.Int.{ℤ, pos}
use bobliu_os.Word.{u32}
use bobliu_os.Vfs.{VnodeOps, Vfs, File, no_file, used_file, vfs_read, max_fd}

take-nil {ℓ} : {A : Type ℓ} (n : ℕ) → take {A = A} n [] ≡ []
take-nil zero = refl
take-nil (suc n) = refl

drop-nil {ℓ} : {A : Type ℓ} (n : ℕ) → drop {A = A} n [] ≡ []
drop-nil zero = refl
drop-nil (suc n) = refl

take_split {ℓ} :
    {A : Type ℓ} (n m : ℕ) (xs : List A) → take n xs ++ take m (drop n xs) ≡ take (n + m) xs
take_split zero m xs = ap (λ (k : ℕ). take k xs) (omega arith)
take_split (suc n) m [] = take-nil m ∙ sym (take-nil (suc n + m))
take_split (suc n) m (x ∷ xs) =
    let shift : suc (n + m) ≡ suc n + m = omega arith in
    ap (λ (ys : List _). x ∷ ys) (take_split n m xs) ∙ ap (λ (k : ℕ). take k (x ∷ xs)) shift

pub drop-drop {ℓ} : {A : Type ℓ} (n m : ℕ) (xs : List A) → drop m (drop n xs) ≡ drop (n + m) xs
drop-drop zero m xs = ap (λ (k : ℕ). drop k xs) (omega arith)
drop-drop (suc n) m [] = drop-nil m ∙ sym (drop-nil (suc n + m))
drop-drop (suc n) m (x ∷ xs) =
    let shift : suc (n + m) ≡ suc n + m = omega arith in
    drop-drop n m xs ∙ ap (λ (k : ℕ). drop k (x ∷ xs)) shift

pub drop-length-take {ℓ} :
    {A : Type ℓ} (n : ℕ) (xs : List A) → drop (length (take n xs)) xs ≡ drop n xs
drop-length-take zero xs = refl
drop-length-take (suc n) [] = refl
drop-length-take (suc n) (x ∷ xs) = drop-length-take n xs

abbrev pub joined {ℓ} : {A : Type ℓ} → Option (List A) → Option (List A) → Option (List A)
joined none more = none
joined (some bytes) none = none
joined (some bytes) (some more) = some (bytes ++ more)

module _ (V : Type 0) (ops : VnodeOps V) where
  -- The bytes of successive reads of the lengths given; none when one of them fails.
  pub read_all : ℤ → List ℕ → Vfs V → Option (List ℕ)
  read_all fd [] s = some []
  read_all fd (n ∷ ns) s = let step = vfs_read ops fd n s in joined step.0 (read_all fd ns step.1)

  unfoldable pub total : List ℕ → ℕ
  total [] = 0
  total (n ∷ ns) = n + total ns

  -- Descriptor `fd` stands at offset `off` of the vnode.
  pub record IsOpenAt (fd : ℕ) (vn : V) (off : ℕ) (s : Vfs V) : Type 0 where
    pub named : fd < max_fd
    pub inside : fd < length s.fds
    pub here : get_or s.fds fd (no_file V) ≡ (record { vn = some vn; off = off; used = true })

  -- The vnode is a file with these bytes: a read that ends within 32 bits gives those from the
  -- offset on, as far as there are any.
  abbrev pub Serves : V → List ℕ → Type 0
  Serves vn content =
      (off len : ℕ) → off + len < 2 ^ 32 → ops.read vn off len ≡ some (take len (drop off content))

  unfoldable pub moved : ℕ → V → ℕ → Vfs V → Vfs V
  moved fd vn off s = record s {
    fds = set s.fds fd (record { vn = some vn; off = off; used = true });
  }

  pub moved-IsOpenAt :
      {fd : ℕ} {vn : V} {off : ℕ} {s : Vfs V} (off2 : ℕ)
      → IsOpenAt fd vn off s
      → IsOpenAt fd vn off2 (moved fd vn off2 s)
  unfolding moved
  moved-IsOpenAt {fd} {vn} {off} {s} off2 o = record {
    named = o.named;
    inside =
        omega
          (arith, o.inside, length-set s.fds fd (record { vn = some vn; off = off2; used = true }));
    here = get_or-set_self s.fds fd _ _ o.inside;
  }

  -- The two states differ in descriptor `fd` at most.
  pub record IsAway (fd : ℕ) (s t : Vfs V) : Type 0 where
    pub root : t.root ≡ s.root
    pub size : length t.fds ≡ length s.fds
    pub others : (j : ℕ) → fd ≢ j → get_or t.fds j (no_file V) ≡ get_or s.fds j (no_file V)

  pub moved-IsAway :
      {fd : ℕ} {s t : Vfs V} (vn : V) (off : ℕ) → IsAway fd s t → IsAway fd s (moved fd vn off t)
  unfolding moved
  moved-IsAway {fd} {s} {t} vn off a =
      let f : File V = record { vn = some vn; off = off; used = true } in
      record {
        root = a.root;
        size = length-set t.fds fd f ∙ a.size;
        others = λ j apart. get_or-set_ne t.fds fd j f (no_file V) apart ∙ a.others j apart;
      }

  pub same-IsAway : (fd : ℕ) (s : Vfs V) → IsAway fd s s
  same-IsAway fd s = record { root = refl; size = refl; others = λ j apart. refl }

  pub IsAway-then : {fd : ℕ} {s t u : Vfs V} → IsAway fd s t → IsAway fd t u → IsAway fd s u
  IsAway-then a b = record {
    root = b.root ∙ a.root;
    size = b.size ∙ a.size;
    others = λ j apart. b.others j apart ∙ a.others j apart;
  }

  used_file_at :
      {fd : ℕ} {vn : V} {off : ℕ} {s : Vfs V}
      → IsOpenAt fd vn off s
      → used_file ops (pos fd) s ≡ some (record { vn = some vn; off = off; used = true })
  unfolding used_file
  used_file_at {fd} {vn} {off} {s} o =
      let inside : ltb fd max_fd ≡ true = ground (arith, o.named) in simp (o.here, inside) refl

  pub vfs_read_at :
      {fd : ℕ} {vn : V} {off : ℕ} {s : Vfs V} {content : List ℕ} (len : ℕ)
      → IsOpenAt fd vn off s
      → Serves vn content
      → off + len < 2 ^ 32
      → vfs_read ops (pos fd) len s ≡ (
        some (take len (drop off content)),
        moved fd vn (off + length (take len (drop off content))) s,
      )
  unfolding moved vfs_read
  vfs_read_at {fd} {vn} {off} {s} {content} len o v below =
      let fits : u32 (off + length (take len (drop off content)))
          ≡ off + length (take len (drop off content)) =
        mod-eq_of_lt (omega (arith, length-take len (drop off content))) in
      rw (vfs_read, used_file_at o, v off len below, fits) refl

  -- Reads of the lengths `ns` from an open descriptor on, one after the other, give together the
  -- file's bytes from the descriptor's offset on, in order, none twice and none left out, up to the
  -- sum of the lengths or the end of the file, as long as the offset stays within 32 bits.
  pub read_all-take :
      (ns : List ℕ) {fd : ℕ} {vn : V} {off : ℕ} {s : Vfs V} {content : List ℕ}
      → IsOpenAt fd vn off s
      → Serves vn content
      → off + total ns < 2 ^ 32
      → read_all (pos fd) ns s ≡ some (take (total ns) (drop off content))
  unfolding read_all total
  read_all-take [] o v below = refl
  read_all-take (n ∷ ns) {fd} {vn} {off} {s} {content} o v below =
      let bytes : List ℕ = take n (drop off content) in
      let fits : off + length bytes + total ns < 2 ^ 32 =
        omega (arith, length-take n (drop off content)) in
      let left : drop (off + length bytes) content ≡ drop n (drop off content) =
        sym (drop-drop off (length bytes) content) ∙ drop-length-take n (drop off content) in
      rw
        (
          vfs_read_at n o v (omega arith),
          read_all-take ns (moved-IsOpenAt (off + length bytes) o) v fits,
          left,
        )
        (ap some (take_split n (total ns) (drop off content)))
