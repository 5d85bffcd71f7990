-- ===== src/Elf/Stored.antt =====
-- The copying loops of `elf_load_image`, kernel/arch/i386/cpu/user_exec.c: what a program reads through
-- its page tables after them.
use bobliu_os.Base.{
  ℕ, zero, suc, ◌+◌, ◌-◌, ◌*◌, ◌/◌, ◌%◌, ◌^◌, ◌≤◌, ◌<◌, ◌≡◌, refl, sym, ap, ◌∙◌, arith, Bool, true,
  false, ◌&&◌, if◌then◌else◌, leb, ltb, ◌==◌, Option, none, some, Bool-cases, inl, inr,
}
use bobliu_os.Word.{u32}
use bobliu_os.Run.{Run, done, ◌>>=◌}
use bobliu_os.Paging.{Paging, load, translate}
use bobliu_os.Paging.Entries.{is_present, page_mask_eq, has_present, pde_index_eq, pte_index_eq}
use bobliu_os.Paging.Map.{frame_of, address, translate_eq}
use bobliu_os.Paging.Grow.{page_frame, frame_of_page}
use bobliu_os.Elf.Load.{Space, is_mapped, store_byte, store_bytes}

some_inj : {a b : ℕ} → some a ≡ some b → a ≡ b
some_inj e = cc

is_some : Option ℕ → Bool
is_some none = false
is_some (some f) = true

is_mapped_eq :
    (s : Paging) (w : ℕ)
    → ((a : ℕ) → s.mem a < 2 ^ 32)
    → w < 2 ^ 32
    → is_mapped s w ≡ is_some (frame_of s.mem s.pd w)
unfolding is_some
is_mapped_eq s w words below =
    let e : ℕ = load s.mem s.pd (w / 2 ^ 22) in
    let q : ℕ = load s.mem (e / 4096 * 4096) (w / 2 ^ 12 % 1024) in
    rw
      (pde_index_eq w below, pte_index_eq w, page_mask_eq e (words _), has_present e, has_present q)
      (elim (Bool-cases (is_present e)) [
        | inl g ↦ elim (Bool-cases (is_present q)) [
          | inl k ↦ rw (g, k) refl
          | inr k ↦ rw (g, k) refl
        ]
        | inr g ↦ rw g refl
      ])

-- The pages of `pages` are mapped, each to a frame of its own.
pub record IsBacked (g : Paging) (pages : ℕ → Bool) : Type 0 where
  pub words : (a : ℕ) → g.mem a < 2 ^ 32
  pub stands : (p : ℕ) → p < 2 ^ 20 → pages p ≡ true → (f : ℕ) × (page_frame g.pd g p ≡ some f)
  pub apart :
      (p q : ℕ)
      → p < 2 ^ 20
      → q < 2 ^ 20
      → pages p ≡ true
      → pages q ≡ true
      → page_frame g.pd g p ≡ page_frame g.pd g q
      → p ≡ q

abbrev byte_in : Option ℕ → ℕ → (ℕ → ℕ) → Option ℕ
byte_in none w ram = none
byte_in (some f) w ram = some (ram (f * 4096 + w % 4096))

-- The byte that is read at an address through the page tables, or none where no page is mapped.
abbrev pub peek : Space → ℕ → Option ℕ
peek s w = byte_in (page_frame s.paging.pd s.paging (w / 4096)) w s.ram

-- The run returns, and leaves the page tables. What is read then at an address of the pages is what
-- `change` makes of what was read before.
pub record Writes (g : Paging) (pages : ℕ → Bool) (change : ℕ → Option ℕ → Option ℕ) (ram : ℕ → ℕ)
    (run : Run Space) : Type 0 where
  pub after : ℕ → ℕ
  pub runs : run ≡ done (record { paging = g; ram = after })
  pub reads :
      (w : ℕ)
      → w < 2 ^ 32
      → pages (w / 4096) ≡ true
      → peek (record { paging = g; ram = after }) w
        ≡ change w (peek (record { paging = g; ram = ram }) w)

pub Writes-then :
    {g : Paging} {pages : ℕ → Bool} {f h : ℕ → Option ℕ → Option ℕ} {ram : ℕ → ℕ} {run : Run Space}
    (more : Space → Run Space)
    → Writes g pages f ram run
    → ((after : ℕ → ℕ) → Writes g pages h after (more (record { paging = g; ram = after })))
    → Writes g pages (λ w o. h w (f w o)) ram (run >>= more)
Writes-then {h = h} more first next =
    let rest = next first.after in
    record {
      after = rest.after;
      runs = rw first.runs rest.runs;
      reads = λ w below e. rest.reads w below e ∙ ap (h w) (first.reads w below e);
    }

pub Writes-same :
    {g : Paging} {pages : ℕ → Bool} {f h : ℕ → Option ℕ → Option ℕ} {ram : ℕ → ℕ} {run : Run Space}
    → ((w : ℕ) (o : Option ℕ) → f w o ≡ h w o)
    → Writes g pages f ram run
    → Writes g pages h ram run
Writes-same same k = record {
  after = k.after;
  runs = k.runs;
  reads = λ w below e. k.reads w below e ∙ same w _;
}

-- Nothing is stored.
pub Writes-none :
    {g : Paging} {pages : ℕ → Bool} {f : ℕ → Option ℕ → Option ℕ} {ram : ℕ → ℕ}
    → ((w : ℕ) (o : Option ℕ) → f w o ≡ o)
    → Writes g pages f ram (done (record { paging = g; ram = ram }))
Writes-none {ram = ram} same = record {
  after = ram;
  runs = refl;
  reads = λ w below e. sym (same w _);
}

-- The bytes from `lo` to `hi` are those of `value`.
abbrev pub put : ℕ → ℕ → (ℕ → ℕ) → ℕ → Option ℕ → Option ℕ
put lo hi value w old = if leb lo w && ltb w hi then some (value w) else old

put-join :
    (lo mid hi : ℕ) (value : ℕ → ℕ) (w : ℕ) (o : Option ℕ)
    → lo ≤ mid
    → mid ≤ hi
    → put mid hi value w (put lo mid value w o) ≡ put lo hi value w o
put-join lo mid hi value w o a b = elim (Bool-cases (leb mid w && ltb w hi)) [
  | inl e ↦ let whole : leb lo w && ltb w hi ≡ true = ground (arith, e, a) in rw (e, whole) refl
  | inr e ↦ elim (Bool-cases (leb lo w && ltb w mid)) [
    | inl f ↦
        let whole : leb lo w && ltb w hi ≡ true = ground (arith, f, b) in rw (e, f, whole) refl
    | inr f ↦
        let whole : leb lo w && ltb w hi ≡ false = ground (arith, e, f) in rw (e, f, whole) refl
  ]
]

-- The first byte apart from the others.
put-first :
    (lo hi : ℕ) (value : ℕ → ℕ) (w : ℕ) (o : Option ℕ) (v : ℕ)
    → v ≡ value lo
    → lo < hi
    → put (lo + 1) hi value w (put lo (lo + 1) (λ x. v) w o) ≡ put lo hi value w o
put-first lo hi value w o v e below =
    let one : put lo (lo + 1) (λ x. v) w o ≡ put lo (lo + 1) value w o =
      elim (Bool-cases (leb lo w && ltb w (lo + 1))) [
        | inl f ↦ let here : lo ≡ w = ground (arith, f) in rw (f, e, here) refl
        | inr f ↦ rw f refl
      ] in
    rw one (put-join lo (lo + 1) hi value w o (omega arith) (omega (arith, below)))

module _ {g : Paging} {pages : ℕ → Bool} (k : IsBacked g pages) where
  frame_at :
      (w : ℕ) → w < 2 ^ 32 → pages (w / 4096) ≡ true → (f : ℕ) × (frame_of g.mem g.pd w ≡ some f)
  frame_at w below e =
      let at = k.stands (w / 4096) (omega arith) e in (at.0, frame_of_page g.pd g w ∙ at.1)

  -- Two addresses of the pages have one physical address only if they are the same.
  hit :
      (va w : ℕ) (i : va < 2 ^ 32) (j : w < 2 ^ 32) (e : pages (va / 4096) ≡ true)
      (l : pages (w / 4096) ≡ true)
      → ((frame_at va i e).0 * 4096 + va % 4096
          == (k.stands (w / 4096) (omega arith) l).0 * 4096 + w % 4096)
        ≡ (w == va)
  hit va w i j e l =
      let a = frame_at va i e in
      let b = k.stands (w / 4096) (omega arith) l in
      let there : page_frame g.pd g (va / 4096) ≡ some a.0 = sym (frame_of_page g.pd g va) ∙ a.1 in
      elim (Bool-cases (w == va)) [
        | inl n ↦
            let same : w ≡ va = ground (arith, n) in
            let frames : b.0 ≡ a.0 =
              some_inj (sym b.1 ∙ ap (λ (x : ℕ). page_frame g.pd g (x / 4096)) same ∙ there) in
            ground (arith, frames, same)
        | inr n ↦ elim (Bool-cases (a.0 * 4096 + va % 4096 == b.0 * 4096 + w % 4096)) [
          | inl m ↦
              let frames : a.0 ≡ b.0 = ground (arith, m) in
              let one =
                k.apart (w / 4096) (va / 4096) (omega arith) (omega arith) l e
                  (b.1 ∙ ap (λ (x : ℕ). some x) (sym frames) ∙ sym there) in
              absurd (ground (arith, n, m, one))
          | inr m ↦ m ∙ sym n
        ]
      ]

  -- A byte is stored where the page of its address is mapped, and is read there and at no other address
  -- of the pages.
  store_byte-Writes :
      (va v : ℕ) (ram : ℕ → ℕ)
      → va < 2 ^ 32
      → pages (va / 4096) ≡ true
      → Writes g pages
          (put va (va + 1) (λ w. v))
          ram
          (store_byte va v (record { paging = g; ram = ram }))
  unfolding is_some
  store_byte-Writes va v ram below here =
      let at = frame_at va below here in
      let to : translate g.mem g.pd va ≡ at.0 * 4096 + va % 4096 =
        translate_eq g.mem g.pd va k.words below ∙ ap (λ (o : Option ℕ). address o va) at.1 in
      let mapped : is_mapped g va ≡ true =
        is_mapped_eq g va k.words below ∙ ap (λ (o : Option ℕ). is_some o) at.1 in
      record {
        after = λ a. if translate g.mem g.pd va == a then v else ram a;
        runs = rw mapped refl;
        reads = λ w small there.
            let on = k.stands (w / 4096) (omega arith) there in
            let test : leb va w && ltb w (va + 1) ≡ (w == va) = ground arith in
            rw (on.1, to, hit va w below small here there, test)
              (elim (Bool-cases (w == va)) [ inl e ↦ rw e refl | inr e ↦ rw e refl ]);
      }

  -- The loop stores `count` bytes from `dst + b` on, in pages that are mapped.
  pub store_bytes-Writes :
      (count b dst : ℕ) (source ram : ℕ → ℕ)
      → dst + b + count < 2 ^ 32
      → ((w : ℕ) → dst + b ≤ w → w < dst + b + count → pages (w / 4096) ≡ true)
      → Writes g pages
          (put (dst + b) (dst + b + count) (λ w. source (w - dst)))
          ram
          (store_bytes count b dst source (record { paging = g; ram = ram }))
  unfolding store_bytes
  store_bytes-Writes zero b dst source ram fits inside = Writes-none (λ w o.
      let out : leb (dst + b) w && ltb w (dst + b + 0) ≡ false = ground arith in rw out refl)
  store_bytes-Writes (suc count) b dst source ram fits inside =
      let va : u32 (dst + b) ≡ dst + b = omega (arith, fits) in
      let hi : dst + (b + 1) + count ≡ dst + b + suc count = omega arith in
      let from : dst + (b + 1) ≡ dst + b + 1 = omega arith in
      rw va (
        Writes-same
          (λ w o.
            rw (hi, from)
              (put-first (dst + b) (dst + b + suc count) (λ x. source (x - dst)) w o (source b)
                (ap source (omega arith)) (omega arith)))
          (Writes-then (store_bytes count (b + 1) dst source)
            (store_byte-Writes (dst + b) (source b) ram (omega arith)
              (inside (dst + b) (omega arith) (omega arith)))
            (λ after.
              store_bytes-Writes count (b + 1) dst source after (omega arith)
                (λ w p q. inside w (omega arith) (omega arith)))))
