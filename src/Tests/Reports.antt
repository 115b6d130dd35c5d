-- ===== src/Tests/Reports.antt =====
-- Packets, checks and reports on concrete values.
use spokes_receive_pack.Base.{
  ◌++◌, ◌&&◌, not, true, false, List, [], ◌∷◌, ◌≡◌, ◌⊎◌, ◌↔◌, inl, inr, refl, arith, Bytes, codes,
  All, Option, none, some, equal, equal_iff, Bool-cases, if◌then◌else◌,
}
use spokes_receive_pack.Spokes.Outside.{Git}
use spokes_receive_pack.Base.Exec.{ok, eof, unexpected_eof, Error}
use spokes_receive_pack.Go.Writer.{holding}
use spokes_receive_pack.Pktline.Caps.{is_defined, lookup}
use spokes_receive_pack.Sockstat.{get_string}
use spokes_receive_pack.Spokes.Command.{not_rejected, is_delete}
use spokes_receive_pack.Spokes.Connectivity.{settle, settle_all}
use spokes_receive_pack.Spokes.Connectivity.Settles.{
  IsAccepted, IsSecured, settle-accepts, settle_all-IsSecured,
}
use spokes_receive_pack.Spokes.Programs.{Place}
use spokes_receive_pack.Spokes.Report.{
  report, report_line, flush, use_side_band, side_band_buf_size,
}
use spokes_receive_pack.Spokes.Report.Decodes.{
  report_text, AllFit, joined, band_frames, FitsBand, report-sideband,
}
use spokes_receive_pack.Go.Strings.{split}
use spokes_receive_pack.Go.Strings.{lacks-Free}
use spokes_receive_pack.Spokes.Supported.{
  capabilities_line, session_parts, push_options_parts, split-capabilities_line,
}
use spokes_receive_pack.Tests.World.{
  one, two, good_pack, git_with, no_config, side_band_caps, no_caps, accepted,
}

accepted-fits : AllFit (accepted ∷ [])
unfolding report_line not_rejected equal
accepted-fits = (omega arith, tt)

sidebanded : use_side_band side_band_caps ≡ true
unfolding use_side_band is_defined lookup equal
sidebanded = refl

plain : use_side_band no_caps ≡ false
unfolding use_side_band is_defined lookup
plain = refl

report-sideband_example :
    (ps : List Bytes) × (report true (accepted ∷ []) side_band_caps (holding [] eof)
      ≡ (ok tt, holding (band_frames ps ++ flush) eof))
    × (joined ps ≡ report_text true (accepted ∷ []))
    × All (FitsBand (side_band_buf_size side_band_caps)) ps
report-sideband_example =
    report-sideband true (accepted ∷ []) side_band_caps [] eof sidebanded accepted-fits

-- A repository that knows the object `two` alone.
abbrev knows : Bytes → Option Error
knows oid = if equal oid two then none else some unexpected_eof

abbrev all_known : List Bytes → Option Error
all_known [] = none
all_known (oid ∷ oids) = if equal oid two then all_known oids else some unexpected_eof

abbrev small_git : Git
small_git = record (git_with good_pack) { rev_list = all_known; rev_list_object = knows }

knows_sound : (oid : Bytes) → knows oid ≡ none → oid ≡ two
knows_sound oid h = elim (Bool-cases (equal oid two)) [
  | inl y ↦ (equal_iff oid two).0 y
  | inr n ↦ absurd (cc (rw n at h))
]

all_known_sound : (oids : List Bytes) → all_known oids ≡ none → All (λ oid. oid ≡ two) oids
all_known_sound [] h = tt
all_known_sound (oid ∷ oids) h = elim (Bool-cases (equal oid two)) [
  | inl y ↦ ((equal_iff oid two).0 y, all_known_sound oids (rw y at h))
  | inr n ↦ absurd (cc (rw n at h))
]

settle_all-IsSecured_example :
    All
      (IsSecured (λ oid. oid ≡ two))
      (settle_all small_git no_config (accepted ∷ record accepted { new_oid = one } ∷ []))
settle_all-IsSecured_example =
    settle_all-IsSecured small_git no_config (λ oid. oid ≡ two) all_known_sound knows_sound
      (accepted ∷ record accepted { new_oid = one } ∷ [])

abbrev place : Place
place = record { repo_path = codes "/r"; quarantine_folder = codes "/r/objects/q"; environ = [] }

settle-accepts_example : IsAccepted (settle (git_with good_pack) no_config true accepted) ↔ (
    IsAccepted accepted
    × ((true && not (is_delete accepted)) ≡ false
        ⊎ (git_with good_pack).rev_list_object two ≡ none))
settle-accepts_example = settle-accepts (git_with good_pack) no_config true accepted

split-capabilities_line_example :
    split (capabilities_line (codes "sha1") (codes "v1") (λ name. codes "id-1") no_config) b' '
    ≡ codes "report-status"
      ∷ codes "report-status-v2"
      ∷ codes "delete-refs"
      ∷ codes "side-band-64k"
      ∷ codes "ofs-delta"
      ∷ codes "atomic"
      ∷ codes "object-format=sha1"
      ∷ codes "quiet"
      ∷ codes "agent=github/spokes-receive-pack-v1"
      ∷ (session_parts (get_string (λ name. codes "id-1") (codes "request_id"))
          ++ push_options_parts no_config)
split-capabilities_line_example =
    split-capabilities_line (codes "sha1") (codes "v1") (λ name. codes "id-1") no_config
      (lacks-Free b' ' (codes "sha1") refl) (lacks-Free b' ' (codes "v1") refl)
