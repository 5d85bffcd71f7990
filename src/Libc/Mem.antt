-- ===== src/Libc/Mem.antt =====
-- The copying functions of libc/string, over byte arrays. A function returns the destination
-- array as it leaves it; `memmove` works within one array, at two offsets.
pub mod Copy
pub mod Strings
use bobliu_os.Base.{
  ℕ, zero, suc, ◌+◌, List, [], ◌∷◌, Bool, ◌&&◌, not, if◌then◌else◌, ltb, ◌==◌, get_or, set,
}
use bobliu_os.Int.{ℤ, pos, negsuc}
use bobliu_os.Word.{u8}

-- `for (i = 0; i < size; i++) dst[i] = src[i]`, with `left` bytes to go.
pub memcpy_loop : ℕ → ℕ → List ℕ → List ℕ → List ℕ
memcpy_loop zero i dst src = dst
memcpy_loop (suc left) i dst src = memcpy_loop left (i + 1) (set dst i (get_or src i 0)) src

unfoldable pub memcpy : List ℕ → List ℕ → ℕ → List ℕ
unfolding memcpy_loop
memcpy dst src size = memcpy_loop size 0 dst src

pub memset_loop : ℕ → ℕ → List ℕ → ℕ → List ℕ
memset_loop zero i buf value = buf
memset_loop (suc left) i buf value = memset_loop left (i + 1) (set buf i (u8 value)) value

unfoldable pub memset : List ℕ → ℕ → ℕ → List ℕ
unfolding memset_loop
memset buf value size = memset_loop size 0 buf value

-- Upwards, from index `i`.
pub move_up : ℕ → ℕ → ℕ → ℕ → List ℕ → List ℕ
move_up dst src zero i mem = mem
move_up dst src (suc left) i mem =
    move_up dst src left (i + 1) (set mem (dst + i) (get_or mem (src + i) 0))

-- Downwards: `for (i = size; i != 0; i--) dst[i-1] = src[i-1]`.
pub move_down : ℕ → ℕ → ℕ → List ℕ → List ℕ
move_down dst src zero mem = mem
move_down dst src (suc i) mem = move_down dst src i (set mem (dst + i) (get_or mem (src + i) 0))

unfoldable pub memmove : ℕ → ℕ → ℕ → List ℕ → List ℕ
unfolding move_up move_down
memmove dst src size mem =
    if ltb dst src then move_up dst src size 0 mem else move_down dst src size mem

pub memcmp_loop : ℕ → ℕ → List ℕ → List ℕ → ℤ
memcmp_loop zero i a b = pos 0
memcmp_loop (suc left) i a b =
    let rest = memcmp_loop left (i + 1) a b in
    if ltb (get_or a i 0) (get_or b i 0)
    then negsuc 0
    else if ltb (get_or b i 0) (get_or a i 0)
    then pos 1
    else rest

unfoldable pub memcmp : List ℕ → List ℕ → ℕ → ℤ
unfolding memcmp_loop
memcmp a b size = memcmp_loop size 0 a b

-- The source is walked to its end or its terminator, and the terminator is written too.
pub strcpy_loop : List ℕ → ℕ → List ℕ → List ℕ
strcpy_loop [] i dest = set dest i 0
strcpy_loop (c ∷ src) i dest =
    let rest = strcpy_loop src (i + 1) (set dest i c) in if not (c == 0) then rest else set dest i 0

unfoldable pub strcpy : List ℕ → List ℕ → List ℕ
unfolding strcpy_loop
strcpy dest src = strcpy_loop src 0 dest

-- The padding loop of `strncpy`.
pub pad_zero : ℕ → ℕ → List ℕ → List ℕ
pad_zero zero i dst = dst
pad_zero (suc left) i dst = pad_zero left (i + 1) (set dst i 0)

pub strncpy_loop : ℕ → ℕ → List ℕ → List ℕ → List ℕ
strncpy_loop zero i dst src = dst
strncpy_loop (suc left) i dst src =
    let rest = strncpy_loop left (i + 1) (set dst i (get_or src i 0)) src in
    if not (get_or src i 0 == 0) then rest else pad_zero (suc left) i dst

unfoldable pub strncpy : List ℕ → List ℕ → ℕ → List ℕ
unfolding strncpy_loop pad_zero
strncpy dst src n = strncpy_loop n 0 dst src
