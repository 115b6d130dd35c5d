-- ===== src/Tests/Client.antt =====
-- Runs of the client on what the server writes.
use spokes_receive_pack.Base.{
  ◌+◌, ◌≤◌, true, false, List, [], ◌∷◌, ◌++◌, none, ◌≡◌, inl, refl, arith, Bytes, codes, length,
  All, equal,
}
use spokes_receive_pack.Base.Exec.{ok, eof}
use spokes_receive_pack.Go.Strings.{lacks-Free, to_lower, cut_prefix}
use spokes_receive_pack.Go.Writer.{holding}
use spokes_receive_pack.Config.{get_all}
use spokes_receive_pack.Sockstat.{get_uint32, uint32_value}
use spokes_receive_pack.Spokes.Command.{not_rejected}
use spokes_receive_pack.Spokes.HiddenRefs.{get_hidden_refs, split_rules}
use spokes_receive_pack.ObjectFormat.{null_oid, null_oid_sha1}
use spokes_receive_pack.Pktline.Caps.{is_defined, lookup}
use spokes_receive_pack.Pktline.Caps.Names.{names, IsSorted, has, names_lem}
use spokes_receive_pack.Pktline.Reads.{from}
use spokes_receive_pack.Spokes.Discovery.{Announcement, discover}
use spokes_receive_pack.Spokes.Discovery.Announced.{state}
use spokes_receive_pack.Spokes.Discovery.Advertises.{unhidden_reply, parent_reply}
use spokes_receive_pack.Spokes.Report.{
  report, use_side_band, side_band_buf_size, flush, report_line,
}
use spokes_receive_pack.Spokes.Report.Decodes.{band_frames, FitsBand, joined}
use spokes_receive_pack.Client.{read_adv}
use spokes_receive_pack.Client.Refs.{Ref, IsNamed, named}
use spokes_receive_pack.Client.Advertised.{discover-read_adv}
use spokes_receive_pack.Client.Statuses.{IsReadable, Tells, report-Tells}
use spokes_receive_pack.Tests.World.{
  one, main_line, session_with, good_pack, side_band_caps, accepted,
}

abbrev announcement : Announcement
announcement = (session_with good_pack).announcement

no_unhidden : unhidden_reply announcement ≡ ([], none)
unfolding split_rules get_hidden_refs get_all to_lower
no_unhidden = refl

no_parent : parent_reply announcement ≡ ([], none)
unfolding get_uint32 uint32_value cut_prefix
no_parent = refl

null_oid-short :
    length (null_oid announcement.object_format) + length announcement.capabilities ≤ 65499
unfolding null_oid equal null_oid_sha1
null_oid-short = omega arith

abbrev main_branch : Ref
main_branch = record { oid = one; name = codes "refs/heads/main" }

main_IsNamed : IsNamed main_branch
main_IsNamed = record {
  sha1 = refl;
  one_word = lacks-Free b' ' one refl;
  one_line = lacks-Free b'\n' (codes "refs/heads/main") refl;
  no_zero = lacks-Free 0 main_line refl;
}

discover-read_adv_example :
    ((discover announcement (state [] eof false)).0 ≡ ok tt)
    × (read_adv (from ((discover announcement (state [] eof false)).1.writer.out ++ []) eof)
        ≡ (ok (named (main_branch ∷ []), announcement.capabilities ++ b'\n' ∷ []), from [] eof))
discover-read_adv_example =
    discover-read_adv announcement (main_line ∷ []) [] [] main_branch [] [] eof eof refl no_unhidden
      no_parent refl ((omega arith, omega arith), tt) tt tt null_oid-short (main_IsNamed, tt)
      (tt, tt)

sidebanded : use_side_band side_band_caps ≡ true
unfolding use_side_band is_defined lookup equal
sidebanded = refl

accepted-IsReadable : IsReadable accepted
unfolding report_line not_rejected equal
accepted-IsReadable = record {
  status = λ y. inl refl;
  one_word = lacks-Free b' ' accepted.refname refl;
  fits = omega arith;
}

report-Tells_example :
    (ps : List Bytes) × (report true (accepted ∷ []) side_band_caps (holding [] eof)
      ≡ (ok tt, holding (band_frames ps ++ flush) eof))
    × All (FitsBand (side_band_buf_size side_band_caps)) ps
    × Tells true (accepted ∷ []) (joined ps)
report-Tells_example =
    report-Tells true (accepted ∷ []) side_band_caps [] eof sidebanded (accepted-IsReadable, tt)

names_lem_example :
    IsSorted (names side_band_caps)
    × ((k : Bytes) → has k (names side_band_caps) ≡ is_defined side_band_caps k)
names_lem_example = names_lem side_band_caps
