-- ===== src/Start/Constructors.antt =====
-- The global constructors that the entry code runs before kernel_main, kernel/arch/i386/cpu/call.c. The
-- arrays of pointers that the linker lays out are lists of words, and `call` is the call of a pointer.
use bobliu_os.Base.{
  ℕ, zero, suc, ◌-◌, ◌^◌, ◌≡◌, refl, List, [], ◌∷◌, ◌||◌, ◌==◌, if◌then◌else◌, length, get_or,
}

module _ {S : Type 0} (call : ℕ → S → S) where
  -- Forward, for the new style of array.
  unfoldable pub run_init_array : List ℕ → S → S
  run_init_array [] s = s
  run_init_array (f ∷ fs) s = run_init_array fs (if f == 0 then s else call f s)

  -- The sentinel and nulls are skipped.
  abbrev pub call_one : ℕ → S → S
  call_one v s = if v == 0 || v == 2 ^ 32 - 1 then s else call v s

  -- The loop from the end back, with `count` pointers left.
  unfoldable pub call_back : List ℕ → ℕ → S → S
  call_back ctors zero s = s
  call_back ctors (suc count) s = call_back ctors count (call_one (get_or ctors count 0) s)

  unfoldable pub call_global_constructors : List ℕ → S → S
  call_global_constructors ctors s = call_back ctors (length ctors) s

  -- The first pointer is the last to be called.
  call_back-cons :
      (v : ℕ) (ctors : List ℕ) (count : ℕ) (s : S)
      → call_back (v ∷ ctors) (suc count) s ≡ call_one v (call_back ctors count s)
  unfolding call_back
  call_back-cons v ctors zero s = refl
  call_back-cons v ctors (suc count) s =
      call_back-cons v ctors count (call_one (get_or ctors count 0) s)

  -- Every pointer of the array but the sentinel and nulls is called once, from the last to the first.
  pub call_global_constructors-cons :
      (v : ℕ) (ctors : List ℕ) (s : S)
      → call_global_constructors (v ∷ ctors) s ≡ call_one v (call_global_constructors ctors s)
  unfolding call_global_constructors
  call_global_constructors-cons v ctors s = call_back-cons v ctors (length ctors) s
