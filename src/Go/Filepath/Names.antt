-- ===== src/Go/Filepath/Names.antt =====
-- Absolute paths of plain names under Clean, Join and Dir.
use spokes_receive_pack.Base.{
  ◌==◌, if◌then◌else◌, true, false, List, [], ◌∷◌, ◌++◌, ◌≡◌, refl, ap, Bytes, codes, equal, All,
  append_assoc,
}
use spokes_receive_pack.Go.Strings.{Free, has_prefix, split, split-Free, split-append}
use spokes_receive_pack.Go.Filepath.{
  is_abs, add_element, add_elements, slashed, print_path, clean, join_path, through_slash, dir,
}

-- The name of a file: not empty, without a slash, and neither `.` nor `..`.
pub record IsName (x : Bytes) : Type 0 where
  pub no_slash : Free b'/' x
  pub not_empty : equal x [] ≡ false
  pub not_dot : equal x (codes ".") ≡ false
  pub not_up : equal x (codes "..") ≡ false

add_element-IsName : (x : Bytes) (done : List Bytes) → IsName x → add_element true x done ≡ x ∷ done
unfolding add_element
add_element-IsName x done h = rw (add_element, h.not_empty, h.not_dot, h.not_up) refl

-- What stands behind a path of names is added to these names.
pub add_elements-behind :
    (done : List Bytes) (t : Bytes)
    → All IsName done
    → add_elements true (split (slashed done ++ (b'/' ∷ t)) b'/') []
      ≡ add_elements true (split t b'/') done
unfolding add_elements add_element slashed split equal
add_elements-behind [] t h = refl
add_elements-behind (x ∷ done) t (h, hs) =
    rw
      (
        append_assoc (slashed done) (b'/' ∷ x) (b'/' ∷ t),
        add_elements-behind done (x ++ (b'/' ∷ t)) hs,
        split-append b'/' x t h.no_slash,
      )
      (ap (λ (d : List Bytes). add_elements true (split t b'/') d) (add_element-IsName x done h))

pub is_abs-slashed : (done : List Bytes) (t : Bytes) → is_abs (slashed done ++ (b'/' ∷ t)) ≡ true
unfolding is_abs has_prefix slashed
is_abs-slashed [] t = refl
is_abs-slashed (x ∷ done) t =
    rw (append_assoc (slashed done) (b'/' ∷ x) (b'/' ∷ t)) (is_abs-slashed done (x ++ (b'/' ∷ t)))

pub clean-behind :
    (done : List Bytes) (t : Bytes)
    → All IsName done
    → clean (slashed done ++ (b'/' ∷ t)) ≡ print_path true (add_elements true (split t b'/') done)
unfolding clean
clean-behind done t h = rw (clean, is_abs-slashed done t, add_elements-behind done t h) refl

-- Clean changes nothing of a path of names.
pub clean-slashed :
    (x : Bytes) (done : List Bytes)
    → All IsName (x ∷ done)
    → clean (slashed (x ∷ done)) ≡ slashed (x ∷ done)
unfolding slashed print_path add_elements
clean-slashed x done (h, hs) =
    rw (clean-behind done x hs, split-Free b'/' x h.no_slash, add_element-IsName x done h) refl

through_slash-Free : (x : Bytes) → Free b'/' x → through_slash x ≡ []
unfolding through_slash equal
through_slash-Free [] f = refl
through_slash-Free (c ∷ x) (n, f) = rw (through_slash-Free x f, n) refl

through_slash-append :
    (s x : Bytes) → Free b'/' x → through_slash (s ++ (b'/' ∷ x)) ≡ s ++ b'/' ∷ []
unfolding through_slash equal
through_slash-append [] x f = rw (through_slash-Free x f) refl
through_slash-append (c ∷ s) x f = rw (through_slash-append s x f) (longer s)
  where
    longer :
        (s : Bytes)
        → ◌≡◌ {A = Bytes}
            (elim (s ++ b'/' ∷ []) [ [] ↦ if c == b'/' then c ∷ [] else [] | d ∷ t ↦ c ∷ d ∷ t ])
            (c ∷ (s ++ b'/' ∷ []))
    longer [] = refl
    longer (d ∷ s) = refl

-- Dir takes the last name off.
pub dir-slashed :
    (x : Bytes) (done : List Bytes)
    → All IsName (x ∷ done)
    → dir (slashed (x ∷ done)) ≡ print_path true done
unfolding dir slashed add_elements add_element split equal
dir-slashed x done (h, hs) =
    rw (through_slash-append (slashed done) x h.no_slash, clean-behind done [] hs) refl

-- Join with a path of names first.
pub join_path-slashed :
    (x : Bytes) (done : List Bytes) (y : Bytes) (z : Bytes)
    → join_path (slashed (x ∷ done) ∷ y ∷ z ∷ [])
      ≡ clean (slashed (x ∷ done) ++ (b'/' ∷ (y ++ (b'/' ∷ z))))
unfolding join_path slashed
join_path-slashed x done y z = go (slashed done)
  where
    go :
        (s : Bytes)
        → join_path ((s ++ (b'/' ∷ x)) ∷ y ∷ z ∷ [])
          ≡ clean ((s ++ (b'/' ∷ x)) ++ (b'/' ∷ (y ++ (b'/' ∷ z))))
    go [] = refl
    go (c ∷ s) = refl
