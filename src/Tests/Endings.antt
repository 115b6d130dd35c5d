-- ===== src/Tests/Endings.antt =====
-- The discovery, lost messages and the end of a push on concrete values.
use spokes_receive_pack.Base.{
  ℕ, zero, suc, ap, ◌+◌, ◌++◌, ◌≤◌, true, false, [], ◌∷◌, ◌≡◌, refl, arith, Bytes, codes, length,
  All, none, pos, equal,
}
use spokes_receive_pack.Spokes.Outside.{IndexPack}
use spokes_receive_pack.Base.Exec.{ok, eof}
use spokes_receive_pack.Config.{get_all}
use spokes_receive_pack.Go.Strings.{to_lower, cut_prefix}
use spokes_receive_pack.Spokes.HiddenRefs.{split_rules, get_hidden_refs}
use spokes_receive_pack.Go.Writer.{holding}
use spokes_receive_pack.ObjectFormat.{null_oid, null_oid_sha1}
use spokes_receive_pack.Pktline.Caps.{is_defined, lookup, side_band_64k}
use spokes_receive_pack.Sockstat.{get_uint32, uint32_value}
use spokes_receive_pack.Spokes.Discovery.{Announcement, discover}
use spokes_receive_pack.Spokes.Discovery.Announced.{state, sent}
use spokes_receive_pack.Spokes.Discovery.Advertises.{
  advertisement, unhidden_reply, parent_reply, discover-holding,
}
use spokes_receive_pack.Spokes.Execute.{Session, limit_push_options, commands_after}
use spokes_receive_pack.Spokes.Execute.Outcomes.{IsRejected, commands_after-over_limit}
use spokes_receive_pack.Spokes.Report.{side_band_buf_size}
use spokes_receive_pack.Spokes.Unpack.{forward_stderr}
use spokes_receive_pack.Spokes.Unpack.Bands.{forward_stderr_loses}
use spokes_receive_pack.Tests.World.{main_line, good_pack, side_band_caps, accepted, session_with}

abbrev a_session : Session
a_session = session_with good_pack

commands_after-over_limit_example :
    All IsRejected (commands_after a_session (ok tt) (limit_push_options (pos 1) 2 (accepted ∷ [])))
commands_after-over_limit_example =
    commands_after-over_limit a_session (ok tt) (pos 1) 2 (accepted ∷ []) refl refl

abbrev advertising : Session
advertising = record a_session { advertise_refs = true }

abbrev announcement : Announcement
announcement = a_session.announcement

no_rules : unhidden_reply announcement ≡ ([], none)
unfolding split_rules get_hidden_refs get_all to_lower
no_rules = refl

no_parent : parent_reply announcement ≡ ([], none)
unfolding get_uint32 uint32_value cut_prefix
no_parent = refl

null_oid-short :
    length (null_oid announcement.object_format) + length announcement.capabilities ≤ 65499
unfolding null_oid equal null_oid_sha1
null_oid-short = omega arith

discover-holding_example : discover announcement (state [] eof false) ≡ (
  ok tt,
  state
      (advertisement announcement (main_line ∷ []) ++ codes "0000")
      eof
      (sent false (main_line ∷ [])),
)
discover-holding_example =
    discover-holding announcement [] eof (main_line ∷ []) [] [] refl no_rules no_parent
      ((omega arith, omega arith), tt) tt tt null_oid-short

-- A line of some length.
unfoldable repeat : ℕ → Bytes
repeat zero = []
repeat (suc n) = b'x' ∷ repeat n

length-repeat : (n : ℕ) → length (repeat n) ≡ n
unfolding repeat
length-repeat zero = refl
length-repeat (suc n) = ap suc (length-repeat n)

long_line : Bytes
long_line = repeat 65516

length-long : length long_line ≡ 65516
unfolding long_line
length-long = length-repeat 65516

abbrev long_pack : IndexPack
long_pack = record good_pack { stderr_reads = λ n. long_line ∷ [] }

large_band : is_defined side_band_caps side_band_64k ≡ true
unfolding is_defined lookup equal
large_band = refl

large_buffer : length long_line ≤ side_band_buf_size side_band_caps
unfolding side_band_buf_size
large_buffer = rw large_band (omega (arith, length-long))

forward_stderr_loses_example :
    forward_stderr side_band_caps long_pack (holding [] eof) ≡ (false, holding [] eof)
forward_stderr_loses_example =
    forward_stderr_loses side_band_caps long_pack long_line [] (holding [] eof) large_band refl
      (omega (arith, length-long)) large_buffer
