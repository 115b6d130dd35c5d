-- ===== src/Tests/Delivery.antt =====
-- A push with a push option, from its bytes to the report, and the end of a run, on concrete values.
use spokes_receive_pack.Base.{
  if◌then◌else◌, ◌++◌, ◌+◌, true, false, List, [], ◌∷◌, Option, none, some, ◌≡◌, ◌≢◌, inr, refl,
  arith, Bytes, codes, pos, equal, length, ◌≤◌,
}
use spokes_receive_pack.Base.Exec.{ok, spent, eof}
use spokes_receive_pack.Config.{get, get_all}
use spokes_receive_pack.Go.Strings.{cut_prefix, lacks-Free, join, to_lower}
use spokes_receive_pack.Pktline
use spokes_receive_pack.Pktline.{Pktline}
use spokes_receive_pack.Pktline.Caps.{
  Capability, push_options, report_status, side_band, side_band_64k,
}
use spokes_receive_pack.Pktline.Caps.Parsing.{last_named}
use spokes_receive_pack.Pktline.Caps.RoundTrip.{ArePrintable, print_capabilities, print_capability}
use spokes_receive_pack.Sockstat.{Environment, get_bool, bool_value, get_uint32, uint32_value}
use spokes_receive_pack.Spokes.HiddenRefs.{split_rules, get_hidden_refs}
use spokes_receive_pack.Spokes.Limits.{
  get_push_options_count_limit, get_max_input_size, get_warn_object_size, numeric_setting,
  is_importing, skip_push_limit,
}
use spokes_receive_pack.Spokes.Execute.{Session, execute}
use spokes_receive_pack.Spokes.Execute.Delivers.{Delivered, execute-Delivered}
use spokes_receive_pack.Spokes.Execute.Ends.{DiscoveryRuns, execute-Ends}
use spokes_receive_pack.Spokes.Execute.Packs.{ReadsPack, connection}
use spokes_receive_pack.Spokes.Execute.Stages.{Asks, SendsOptions, behind_commands}
use spokes_receive_pack.Pktline.Reads.{reading}
use spokes_receive_pack.Spokes.ReadCommands.{dump_push_options}
use spokes_receive_pack.Spokes.ReadCommands.Options.{print_options, dump_push_options-print}
use spokes_receive_pack.Spokes.ReadCommands.Sent.{print_push, first_line}
use spokes_receive_pack.Spokes.Discovery.Shared.{queries, unhidden_query, parent_query}
use spokes_receive_pack.ObjectFormat.{null_oid, null_oid_sha1}
use spokes_receive_pack.Spokes.Discovery.Advertises.{unhidden_reply, parent_reply, advertisement}
use spokes_receive_pack.Spokes.Execute.Greets.{Greets, stateless-Greets, isolated-Greets}
use spokes_receive_pack.Tests.Push.{update-IsSendable, no_limit}
use spokes_receive_pack.Tests.World.{main_line, good_pack, no_config, session_with, start, update}

-- The isolated reference discovery is asked for.
abbrev env : Environment
env name =
    if equal name (codes "GIT_SOCKSTAT_VAR_spokes_receive_pack_isolated_reference_discovery")
    then codes "bool:true"
    else []

-- A push over a connection of its own, with the references first.
abbrev session : Session
session = record (session_with good_pack) {
  stateless_rpc = false;
  announcement = record (session_with good_pack).announcement { env = env };
}

isolated :
    get_bool session.announcement.env (codes "spokes_receive_pack_isolated_reference_discovery")
    ≡ true
unfolding get_bool bool_value equal
isolated = refl

no_rules : unhidden_reply session.announcement ≡ ([], none)
unfolding split_rules get_hidden_refs get_all to_lower
no_rules = refl

no_parent : parent_reply session.announcement ≡ ([], none)
unfolding get_uint32 uint32_value cut_prefix equal
no_parent = refl

null_oid-short :
    length (null_oid session.announcement.object_format) + length session.announcement.capabilities
    ≤ 65499
unfolding null_oid equal null_oid_sha1
null_oid-short = omega arith

abbrev greeting : Bytes
greeting = advertisement session.announcement (main_line ∷ []) ++ codes "0000"

greets : Greets session greeting
greets =
    isolated-Greets session (main_line ∷ []) [] [] refl isolated refl no_rules no_parent
      ((omega arith, omega arith), tt) tt tt null_oid-short

abbrev named : Bytes → Capability
named name = record { name = name; value = [] }

abbrev asked : List Capability
asked = named side_band_64k ∷ named report_status ∷ named push_options ∷ []

abbrev options : Option (List Bytes)
options = some (codes "ci.skip" ∷ [])

asked-ArePrintable : ArePrintable asked
asked-ArePrintable = (
  (lacks-Free b'=' side_band_64k refl, lacks-Free b' ' side_band_64k refl, tt, tt),
  (
    (lacks-Free b'=' report_status refl, lacks-Free b' ' report_status refl, tt, tt),
    ((lacks-Free b'=' push_options refl, lacks-Free b' ' push_options refl, tt, tt), tt),
  ),
)

one_band : last_named none asked side_band ≡ none
unfolding equal
one_band = refl

wants_report : Asks asked report_status
unfolding equal
wants_report = (named report_status, refl)

wants_band : Asks asked side_band_64k
unfolding equal
wants_band = (named side_band_64k, refl)

wants_options : Asks asked push_options
unfolding equal
wants_options = (named push_options, refl)

sends : SendsOptions asked options
sends = (wants_options, (((λ e. cc e), omega arith), tt))

first_line_fits : length (first_line update asked) ≤ 65520
unfolding print_capabilities join print_capability
first_line_fits = omega arith

no_options_limit : get_push_options_count_limit no_config ≡ ok (pos 0)
unfolding get_push_options_count_limit get numeric_setting
no_options_limit = refl

no_largest : get_max_input_size no_config env ≡ ok (pos 0)
unfolding equal get_max_input_size is_importing skip_push_limit get_bool bool_value get
    numeric_setting
no_largest = refl

no_warning : get_warn_object_size no_config ≡ ok (pos 0)
unfolding get_warn_object_size get numeric_setting
no_warning = refl

reads : ReadsPack session.announcement.git (codes "PACK") good_pack
reads = record { runs = λ args. refl; starts = refl; short = λ n. (omega arith, tt) }

-- A push over a stateless connection has no greeting.
no_greeting : Greets (session_with good_pack) []
no_greeting = stateless-Greets (session_with good_pack) refl refl

execute-Delivered_example :
    Delivered session asked (update ∷ []) options (pos 0) good_pack ([] ++ greeting) eof (
      connection Pktline.new
        (print_push update [] asked (behind_commands options (codes "PACK")))
        eof
        []
        eof
        false
        0)
execute-Delivered_example =
    execute-Delivered session update [] (named side_band_64k)
      (named report_status ∷ named push_options ∷ []) options (codes "PACK") good_pack (pos 0)
      (pos 0) (pos 0) (pos 0) greeting greets refl (update-IsSendable, tt)
      (lacks-Free b' ' update.refname refl, tt) asked-ArePrintable (inr one_band) first_line_fits
      (inr wants_report) (inr wants_band) sends no_limit refl no_options_limit no_largest no_warning
      refl reads (λ e h. absurd (cc h)) Pktline.new [] eof eof false 0

-- The pipe has one function, as no rule and no parent asks for more.
abbrev shared : Session
shared = record (session_with good_pack) { stateless_rpc = false; turns = 0 ∷ 0 ∷ 0 ∷ 0 ∷ [] }

discovers : DiscoveryRuns shared
unfolding queries split_rules get_hidden_refs get_all to_lower unhidden_query parent_query equal
discovers h = (omega arith, tt)

execute-Ends_example : (execute shared start).0 ≢ spent
execute-Ends_example = execute-Ends shared discovers start

dump_push_options-print_example :
    (pl : Pktline) × (dump_push_options
        (reading Pktline.new (print_options (codes "ci.skip" ∷ []) (codes "PACK")) eof)
      ≡ (ok 1, reading pl (codes "PACK") eof))
dump_push_options-print_example =
    dump_push_options-print (codes "ci.skip" ∷ []) Pktline.new (codes "PACK") eof
      (((λ e. cc e), omega arith), tt)
