-- ===== src/Spokes/Discovery.antt =====
-- performReferenceDiscoveryIsolatedPipes of internal/spokes/spokes.go: the references and the
-- capabilities, as packets that a flush ends.
pub mod Advertises
pub mod Announced
pub mod Shared
pub mod Ends
use spokes_receive_pack.Base.{
  ℕ, Bool, true, false, List, [], ◌∷◌, ◌++◌, Option, none, some, Bytes, codes, if◌then◌else◌,
  length, ltb, map, ◌==◌, equal,
}
use spokes_receive_pack.Base.Exec.{
  Result, ok, err, spent, Error, quoted, wrap, Exec, pure, raise, gets, wrapping, ◌>>=◌, ◌>>◌,
}
use spokes_receive_pack.Go.Strconv.{decimal}
use spokes_receive_pack.Go.Writer.{Writer, write}
use spokes_receive_pack.Config.{Config}
use spokes_receive_pack.ObjectFormat.{null_oid}
use spokes_receive_pack.Sockstat.{Environment, get_uint32}
use spokes_receive_pack.Spokes.HiddenRefs.{get_hidden_refs, split_rules}
use spokes_receive_pack.Spokes.Outside.{Git}
use spokes_receive_pack.Spokes.Packet.{write_packet}

-- The output, and the variable wroteCapabilities.
pub record Advert : Type 0 where
  pub writer : Writer
  pub wrote_capabilities : Bool

-- What the discovery reads of the spokesReceivePack and its surroundings.
pub record Announcement : Type 0 where
  pub capabilities : Bytes
  pub object_format : Bytes
  pub config : Config
  pub env : Environment
  pub git : Git
  -- networkRepoPath
  pub network_repo_path : Result Bytes

pub on_writer : Exec Writer (Unit {0}) → Exec Advert (Unit {0})
on_writer m s = let (r, w) = m s.writer in (r, record s { writer = w })

abbrev now_written : Exec Advert (Unit {0})
now_written s = (ok tt, record s { wrote_capabilities = true })

-- the two cases of advertiseRef
unfoldable pub advertise_next : Bytes → Bytes → Bool → Exec Advert (Unit {0})
unfolding on_writer
advertise_next capabilities line true =
    wrapping (codes "writing ref advertisement packet")
      (on_writer (write_packet (line ++ b'\n' ∷ [])))
advertise_next capabilities line false = do
  now_written
  wrapping (codes "writing capability packet")
      (on_writer (write_packet (line ++ (0 ∷ (capabilities ++ b'\n' ∷ [])))))

-- the closure advertiseRef
unfoldable pub advertise_ref : Bytes → Bytes → Exec Advert (Unit {0})
unfolding advertise_next
advertise_ref capabilities line =
    if ltb (length line) 41
    then raise (quoted (codes "malformed ref line: ") line)
    else do wrote ← gets (λ s. s.wrote_capabilities); advertise_next capabilities line wrote

-- the lines of one pipe
unfoldable pub advertise_lines : Bytes → List Bytes → Exec Advert (Unit {0})
advertise_lines capabilities [] = pure tt
advertise_lines capabilities (line ∷ lines) = do
  advertise_ref capabilities line
  advertise_lines capabilities lines

unfoldable pub ended : Option Error → Exec Advert (Unit {0})
ended none = pure tt
ended (some e) = raise e

-- p.Run for a pipe from `git for-each-ref` into advertiseRef
unfoldable pub run_pipe : Bytes → List Bytes × Option Error → Exec Advert (Unit {0})
unfolding ended
run_pipe capabilities (lines, end) = do advertise_lines capabilities lines; ended end

abbrev ref_format : Bytes
ref_format = codes "--format=%(objectname) %(refname)"

unfoldable pub advertise_unhidden : Announcement → List Bytes → Exec Advert (Unit {0})
advertise_unhidden a [] = pure tt
advertise_unhidden a (u ∷ unhidden) = wrapping (codes "collecting unhidden references") (
    run_pipe a.capabilities (a.git.for_each_ref (codes "for-each-ref" ∷ ref_format ∷ u ∷ unhidden)))

-- The argument with the patterns of the parent's references.
unfoldable pub parent_patterns : ℕ → Bytes → Bytes
parent_patterns id advertise_tags =
    codes "refs/remotes/"
    ++ (decimal id
        ++ (codes "/heads"
            ++ (if equal advertise_tags []
                then []
                else codes " refs/remotes/" ++ (decimal id ++ codes "/tags"))))

-- The arguments of git for the parent's references.
abbrev pub parent_arguments : Announcement → ℕ → Bytes → List Bytes
parent_arguments a id network =
    (codes "--git-dir=" ++ network)
    ∷ codes "for-each-ref"
    ∷ codes "--format=%(objectname) .have"
    ∷ parent_patterns id (a.env (codes "GIT_NW_ADVERTISE_TAGS"))
    ∷ []

unfoldable pub advertise_network : Announcement → ℕ → Result Bytes → Exec Advert (Unit {0})
advertise_network a id (ok network) =
    wrapping (codes "collecting alternate references")
      (run_pipe a.capabilities (a.git.for_each_ref (parent_arguments a id network)))
advertise_network a id _ = pure tt

-- The tips of the parent repository, if this is a fork.
unfoldable pub advertise_parent : Announcement → Exec Advert (Unit {0})
advertise_parent a =
    let id = get_uint32 a.env (codes "parent_repo_id") in
    if id == 0 then pure tt else advertise_network a id a.network_repo_path

-- `if !wroteCapabilities`
unfoldable pub lonely_unless : Announcement → Bool → Exec Advert (Unit {0})
unfolding on_writer
lonely_unless a true = pure tt
lonely_unless a false = wrapping (codes "writing lonely capability packet") (
    on_writer (
      write_packet
        (null_oid a.object_format ++ (codes " capabilities^{}" ++ (0 ∷ a.capabilities)))))

unfoldable pub lonely_capabilities : Announcement → Exec Advert (Unit {0})
unfolding lonely_unless
lonely_capabilities a = do wrote ← gets (λ s. s.wrote_capabilities); lonely_unless a wrote

-- performReferenceDiscoveryIsolatedPipes
unfoldable pub discover : Announcement → Exec Advert (Unit {0})
unfolding on_writer
discover a = do
  let rules = split_rules (get_hidden_refs a.config) [] []
  wrapping (codes "collecting references") (
      run_pipe a.capabilities (
        a.git.for_each_ref (
          codes "for-each-ref"
          ∷ ref_format
          ∷ map (λ (r : Bytes). codes "--exclude=" ++ r) rules.0)))
  advertise_unhidden a rules.1
  advertise_parent a
  lonely_capabilities a
  wrapping (codes "writing flush packet") (on_writer (write (codes "0000")))
