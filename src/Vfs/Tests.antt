-- ===== src/Vfs/Tests.antt =====
-- The virtual file system with one vnode, a file that holds three bytes.
use bobliu_os.Base.{
  ℕ, ◌+◌, ◌^◌, ◌<◌, ◌≡◌, refl, arith, List, [], ◌∷◌, true, false, none, some, take, drop,
}
use bobliu_os.Int.{pos}
use bobliu_os.Run.{done}
use bobliu_os.Vfs.{VnodeOps, Vfs, end_of_dir}
use bobliu_os.Vfs.Reading.{IsOpenAt, Serves, read_all, read_all-take, total}

abbrev pub three_bytes : List ℕ
three_bytes = 10 ∷ 20 ∷ 30 ∷ []

-- Vnodes are numbers, and each is the same file.
abbrev pub one_file : VnodeOps ℕ
one_file = record {
  size = λ v. 3;
  is_dir = λ v. false;
  read = λ v off len. some (take len (drop off three_bytes));
  readdir = λ v i n. done end_of_dir;
  lookup = λ v name. done none;
}

abbrev pub opened : Vfs ℕ
opened = record { root = none; fds = record { vn = some 7; off = 1; used = true } ∷ [] }

pub opened-IsOpenAt : IsOpenAt ℕ one_file 0 7 1 opened
opened-IsOpenAt = record { named = omega arith; inside = omega arith; here = refl }

pub one_file-Serves : Serves ℕ one_file 7 three_bytes
one_file-Serves off len below = refl

read_all-take_example :
    read_all ℕ one_file (pos 0) (1 ∷ 5 ∷ []) opened
    ≡ some (take (total ℕ one_file (1 ∷ 5 ∷ [])) (20 ∷ 30 ∷ []))
unfolding total
read_all-take_example = read_all-take ℕ one_file (1 ∷ 5 ∷ []) opened-IsOpenAt one_file-Serves below
  where
    below : 1 + total ℕ one_file (1 ∷ 5 ∷ []) < 2 ^ 32
    below = omega arith
