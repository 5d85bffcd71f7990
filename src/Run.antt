-- ===== src/Run.antt =====
-- What a kernel routine that may stop the machine does: it returns, it halts the processor in an
-- endless `hlt` after a message, or a loop of it does not end within its fuel.
use bobliu_os.Base.{◌≡◌, refl}

-- Where the code stops for good: `panic_vga` of kernel/arch/i386/mm/pmm.c, and the `hlt` loops of
-- kernel/arch/i386/mm/heap.c, kernel/arch/i386/mm/paging.c and `page_fault_handler` of
-- kernel/arch/i386/interrupts/page_fault.c. `outside` is no halt of the code: the model does not say what it does.
pub data Halt : Type 0 where
  bad_magic no_mmap no_memory_map : Halt
  not_aligned out_of_range double_free : Halt
  heap_oom paging_oom : Halt
  page_fault : Halt
  outside : Halt

pub data Run {ℓ} (A : Type ℓ) : Type ℓ where
  done : A → Run A
  halt : Halt → Run A
  endless : Run A

infixl 5 ◌>>=◌
abbrev pub ◌>>=◌ {ℓ κ} : {A : Type ℓ} {B : Type κ} → Run A → (A → Run B) → Run B
done a >>= f = f a
halt h >>= f = halt h
endless >>= f = endless

-- A successful sequence is two successful parts.
pub >>=-eq-done {ℓ κ} :
    {A : Type ℓ} {B : Type κ} (m : Run A) (f : A → Run B) {b : B}
    → (m >>= f) ≡ done b
    → (a : A) × (m ≡ done a) × (f a ≡ done b)
>>=-eq-done (done a) f h = (a, refl, h)
>>=-eq-done (halt x) f h = cc
>>=-eq-done endless f h = cc
