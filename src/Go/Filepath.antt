-- ===== src/Go/Filepath.antt =====
-- The functions of Go's package path/filepath that the source calls, as they are on Unix.
pub mod Names
use spokes_receive_pack.Base.{
  ℕ, ◌==◌, Bool, true, false, List, [], ◌∷◌, ◌++◌, Bytes, codes, equal, if◌then◌else◌,
}
use spokes_receive_pack.Base.Exec.{Result, ok, err, spent}
use spokes_receive_pack.Go.Strings.{has_prefix, split}

-- filepath.IsAbs
unfoldable pub is_abs : Bytes → Bool
unfolding has_prefix
is_abs path = has_prefix path (codes "/")

-- `..` behind the elements `done`, the last first: it takes one off, or stays where it cannot
unfoldable pub go_up : Bool → List Bytes → List Bytes
go_up true [] = []
go_up false [] = codes ".." ∷ []
go_up rooted (d ∷ done) = if equal d (codes "..") then codes ".." ∷ d ∷ done else done

-- One element of a path.
unfoldable pub add_element : Bool → Bytes → List Bytes → List Bytes
unfolding go_up
add_element rooted x done =
    if equal x []
    then done
    else if equal x (codes ".")
    then done
    else if equal x (codes "..")
    then go_up rooted done
    else x ∷ done

unfoldable pub add_elements : Bool → List Bytes → List Bytes → List Bytes
unfolding add_element
add_elements rooted [] done = done
add_elements rooted (x ∷ xs) done = add_elements rooted xs (add_element rooted x done)

-- The elements with slashes before them.
unfoldable pub slashed : List Bytes → Bytes
slashed [] = []
slashed (x ∷ done) = slashed done ++ (b'/' ∷ x)

-- The text of the elements, the last first.
unfoldable pub print_path : Bool → List Bytes → Bytes
unfolding slashed
print_path true [] = codes "/"
print_path false [] = codes "."
print_path true (x ∷ done) = slashed (x ∷ done)
print_path false (x ∷ []) = x
print_path false (x ∷ y ∷ done) = print_path false (y ∷ done) ++ (b'/' ∷ x)

-- filepath.Clean
unfoldable pub clean : Bytes → Bytes
unfolding add_elements print_path is_abs
clean path = print_path (is_abs path) (add_elements (is_abs path) (split path b'/') [])

-- strings.Join of the elements with a slash
abbrev with_slashes : List Bytes → Bytes
with_slashes [] = []
with_slashes (x ∷ []) = x
with_slashes (x ∷ y ∷ xs) = x ++ (b'/' ∷ with_slashes (y ∷ xs))

-- filepath.Join: the empty elements before the first other one are left out
unfoldable pub join_path : List Bytes → Bytes
join_path [] = []
join_path ([] ∷ xs) = join_path xs
join_path ((c ∷ x) ∷ xs) = clean (with_slashes ((c ∷ x) ∷ xs))

-- The text up to the last slash, with it.
unfoldable pub through_slash : Bytes → Bytes
through_slash [] = []
through_slash (c ∷ s) = elim (through_slash s) [
  | [] ↦ if c == b'/' then c ∷ [] else []
  | d ∷ t ↦ c ∷ d ∷ t
]

-- filepath.Dir
unfoldable pub dir : Bytes → Bytes
dir path = clean (through_slash path)

-- filepath.Abs, with the result of os.Getwd
unfoldable pub abs : Result Bytes → Bytes → Result Bytes
abs getwd path =
    if is_abs path
    then ok (clean path)
    else elim getwd [ ok wd ↦ ok (join_path (wd ∷ path ∷ [])) | err e ↦ err e | spent ↦ spent ]
