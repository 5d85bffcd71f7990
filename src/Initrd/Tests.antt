-- ===== src/Initrd/Tests.antt =====
-- Images of a ram disk: one whose blocks are all letters, one with a file of three bytes behind its
-- first header, and one whose first size field is 2^32 - 512.
use bobliu_os.Base.{
  ℕ, ◌+◌, ◌-◌, ◌^◌, ◌≡◌, refl, arith, List, [], ◌∷◌, true, false, if◌then◌else◌, ltb, ◌==◌, get_or,
}
use bobliu_os.Word.{align_up}
use bobliu_os.Run.{endless}
use bobliu_os.Libc.Str.{strlen, strcmp}
use bobliu_os.Vfs.Reading.{Serves}
use bobliu_os.Initrd.{
  Tar, oct_digits, oct2u, all_zero, is_zero_block, copy_string, full_prefix, make_full, has_header,
  file_size, next_header, matches, tar_find_exact,
}
use bobliu_os.Initrd.Nodes.{Node, file, bytes_from, g_ops}
use bobliu_os.Initrd.Slices.{initrd_read-Serves}
use bobliu_os.Initrd.Walk.{
  Reach, here, there, IsSane, Finds, tar_find_exact-Finds, tar_find_exact-stuck,
}

abbrev pub small_byte : ℕ → ℕ
small_byte at =
    if ltb at 512
    then (if at == 0 then b'f' else if at == 124 then b'3' else 0)
    else b'0' + (at - 512)

abbrev pub small_image : Tar
small_image = record { byte = small_byte; len = 1024 }

-- The walk ends behind the file `f`, of three bytes.
small_end :
    (h off : ℕ) → off ≡ 1024 → Reach small_image off h → has_header small_image h ≡ true → h ≡ 0
unfolding has_header
small_end h off e here header = absurd (ground (arith, e, header))
small_end h off e (there header more) there_is = absurd (ground (arith, e, header))

small_next : next_header small_image 0 ≡ 1024
unfolding next_header file_size oct2u oct_digits align_up
small_next = refl

small_header : (h : ℕ) → Reach small_image 0 h → has_header small_image h ≡ true → h ≡ 0
small_header h here header = refl
small_header h (there first more) header =
    small_end h (next_header small_image 0) small_next more header

small_size : file_size small_image 0 ≡ 3
unfolding file_size oct2u oct_digits
small_size = refl

small_image-IsSane : IsSane small_image
small_image-IsSane = record {
  image = omega arith;
  files = λ h reach header.
      let same : h ≡ 0 = small_header h reach header in rw (same, small_size) (omega arith);
}

tar_find_exact-Finds_example :
    Finds small_image (b'f' ∷ []) 0 (tar_find_exact small_image 3 (b'f' ∷ []))
tar_find_exact-Finds_example =
    tar_find_exact-Finds small_image (b'f' ∷ []) 3 small_image-IsSane (omega arith)

initrd_read-Serves_example :
    Serves Node (g_ops small_image 3) (file 0 3) (bytes_from small_byte 3 (0 + 512))
initrd_read-Serves_example = initrd_read-Serves small_image 3 0 3 (omega arith)

abbrev size_digits : List ℕ
size_digits = b'3' ∷ b'7' ∷ b'7' ∷ b'7' ∷ b'7' ∷ b'7' ∷ b'7' ∷ b'7' ∷ b'0' ∷ b'0' ∷ b'0' ∷ []

abbrev turning_image : Tar
turning_image = record {
  byte =
      λ at. if ltb at 124 then (if at == 0 then b'f' else 0) else get_or size_digits (at - 124) 0;
  len = 4096;
}

turning_header : has_header turning_image 0 ≡ true
unfolding has_header is_zero_block all_zero
turning_header = refl

turning_size : align_up (file_size turning_image 0) 512 ≡ 2 ^ 32 - 512
unfolding align_up file_size oct2u oct_digits
turning_size = refl

turning_differs : matches turning_image (b'g' ∷ []) 0 ≡ false
unfolding matches make_full full_prefix copy_string strcmp strlen
turning_differs = refl

tar_find_exact-stuck_example : tar_find_exact turning_image 1000 (b'g' ∷ []) ≡ endless
tar_find_exact-stuck_example =
    tar_find_exact-stuck turning_image (b'g' ∷ []) 1000 turning_header turning_differs turning_size
