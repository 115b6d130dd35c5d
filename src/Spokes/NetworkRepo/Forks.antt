-- ===== src/Spokes/NetworkRepo/Forks.antt =====
-- The network of a fork whose alternates name a repository (internal/spokes/spokes.go).
use spokes_receive_pack.Base.{
  true, List, [], ◌∷◌, ◌++◌, ◌≡◌, refl, Bytes, codes, equal, All, append_assoc,
}
use spokes_receive_pack.Base.Exec.{ok}
use spokes_receive_pack.Go.Strings.{
  lacks-Free, has_prefix, has_prefix-append, split, split-append, trim_suffix-append,
}
use spokes_receive_pack.Go.Filepath.{
  is_abs, add_element, add_elements, go_up, slashed, print_path, join_path, dir, abs,
}
use spokes_receive_pack.Go.Filepath.Names.{
  IsName, is_abs-slashed, clean-behind, clean-slashed, dir-slashed, join_path-slashed,
}
use spokes_receive_pack.Spokes.NetworkRepo.{
  Files, check_alternates, stat_alternates, absolute, from_alternates, network_repo_path,
}

objects_IsName : IsName (codes "objects")
unfolding equal
objects_IsName = record {
  no_slash = lacks-Free b'/' (codes "objects") refl;
  not_empty = refl;
  not_dot = refl;
  not_up = refl;
}

has_prefix-parents :
    (parents : List Bytes) (t : Bytes)
    → has_prefix (slashed parents ++ (b'/' ∷ t)) (print_path true parents) ≡ true
unfolding print_path has_prefix slashed
has_prefix-parents [] t = refl
has_prefix-parents (p ∷ ps) t = has_prefix-append (slashed (p ∷ ps)) (b'/' ∷ t)

module _ (fs : Files) (repo network : Bytes) (parents : List Bytes)
    (names : All IsName (repo ∷ parents)) (network_name : IsName network) where
  abbrev repo_path : Bytes
  repo_path = slashed (repo ∷ parents)

  abbrev objects_path : Bytes
  objects_path = slashed (codes "objects" ∷ network ∷ parents)

  abbrev relative : Bytes
  relative = codes "../../" ++ (network ++ codes "/objects")

  joined : join_path (repo_path ∷ codes "objects" ∷ relative ∷ []) ≡ objects_path
  unfolding split add_elements add_element go_up equal print_path
  joined =
      rw
        (
          join_path-slashed repo parents (codes "objects") relative,
          clean-behind (repo ∷ parents) (codes "objects" ++ (b'/' ∷ relative)) names,
          split-append b'/' network (codes "objects") network_name.no_slash,
          names.0.not_up,
          network_name.not_empty,
          network_name.not_dot,
          network_name.not_up,
        )
        refl

  objects_names : All IsName (codes "objects" ∷ network ∷ parents)
  objects_names = (objects_IsName, (network_name, names.1))

  found : abs fs.getwd objects_path ≡ ok objects_path
  unfolding abs slashed
  found =
      rw
        (
          abs,
          is_abs-slashed (network ∷ parents) (codes "objects"),
          clean-slashed (codes "objects") (network ∷ parents) objects_names,
        )
        refl

  inside : has_prefix objects_path (dir repo_path) ≡ true
  unfolding slashed
  inside =
      rw
        (
          dir-slashed repo parents names,
          append_assoc (slashed parents) (b'/' ∷ network) (b'/' ∷ codes "objects"),
        )
        (has_prefix-parents parents (network ++ (b'/' ∷ codes "objects")))

  -- If the repository and the network are directories with plain names below the same parents, the
  -- alternates hold the relative path of the network's objects and a newline, and that is a
  -- directory, then networkRepoPath returns the path of the network.
  pub network_repo_path-relative :
      fs.read_file
          (join_path (repo_path ∷ codes "objects" ∷ codes "info" ∷ codes "alternates" ∷ []))
        ≡ ok (relative ++ b'\n' ∷ [])
      → fs.is_dir objects_path ≡ ok true
      → network_repo_path fs repo_path ≡ ok (slashed (network ∷ parents))
  unfolding network_repo_path from_alternates absolute stat_alternates check_alternates is_abs
      has_prefix slashed print_path
  network_repo_path-relative r d =
      rw
        (
          r,
          trim_suffix-append relative (b'\n' ∷ []),
          joined,
          found,
          d,
          inside,
          dir-slashed (codes "objects") (network ∷ parents) objects_names,
        )
        refl

-- If the repository is a directory below a parent, the alternates hold the absolute path of the
-- objects of a network beside this parent, whose name only begins with the parent's, and that is
-- a directory, then networkRepoPath returns the path of this network.
network_repo_path_beside :
    (fs : Files) (repo parent x : Bytes) (above : List Bytes)
    → All IsName (repo ∷ parent ∷ above)
    → IsName (parent ++ x)
    → fs.read_file (
        join_path (
          slashed (repo ∷ parent ∷ above)
          ∷ codes "objects"
          ∷ codes "info"
          ∷ codes "alternates"
          ∷ []))
      ≡ ok (slashed (codes "objects" ∷ (parent ++ x) ∷ above) ++ b'\n' ∷ [])
    → fs.is_dir (slashed (codes "objects" ∷ (parent ++ x) ∷ above)) ≡ ok true
    → network_repo_path fs (slashed (repo ∷ parent ∷ above)) ≡ ok (slashed ((parent ++ x) ∷ above))
unfolding network_repo_path from_alternates absolute stat_alternates check_alternates slashed
    print_path
network_repo_path_beside fs repo parent x above names beside r d =
    let objects = slashed (codes "objects" ∷ (parent ++ x) ∷ above) in
    let prefix : has_prefix objects (slashed (parent ∷ above)) ≡ true =
      rw
        (
          append_assoc (slashed above) (b'/' ∷ (parent ++ x)) (b'/' ∷ codes "objects"),
          append_assoc parent x (b'/' ∷ codes "objects"),
          ← append_assoc (slashed above) (b'/' ∷ parent) (x ++ (b'/' ∷ codes "objects")),
        )
        (has_prefix-append (slashed (parent ∷ above)) (x ++ (b'/' ∷ codes "objects"))) in
    rw
      (
        r,
        trim_suffix-append objects (b'\n' ∷ []),
        is_abs-slashed ((parent ++ x) ∷ above) (codes "objects"),
        d,
        dir-slashed repo (parent ∷ above) names,
        prefix,
        dir-slashed (codes "objects") ((parent ++ x) ∷ above) (objects_IsName, (beside, names.1.1)),
      )
      refl
