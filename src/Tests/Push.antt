-- ===== src/Tests/Push.antt =====
-- A push on concrete bytes: its commands, its checks and its report.
use spokes_receive_pack.Base.{
  ◌&&◌, Bool, true, false, [], ◌∷◌, ◌≡◌, ◌↔◌, inl, refl, arith, Bytes, codes, length, All, none,
  some, pos, map, equal,
}
use spokes_receive_pack.Base.Exec.{ok, eof}
use spokes_receive_pack.Config.{get}
use spokes_receive_pack.Pktline
use spokes_receive_pack.Pktline.{Pktline, Input}
use spokes_receive_pack.Pktline.Caps.{Capability, Capabilities, quiet}
use spokes_receive_pack.Pktline.Caps.{get as get_capability}
use spokes_receive_pack.Pktline.Caps.Parsing.{last_named}
use spokes_receive_pack.Pktline.Reads.{reading}
use spokes_receive_pack.Spokes.HiddenRefs.{is_hidden_ref, is_negative_ref, get_hidden_refs}
use spokes_receive_pack.Spokes.HiddenRefs.Decides.{IsLastMatch, is_hidden_ref_iff}
use spokes_receive_pack.Spokes.Limits.{get_ref_update_command_limit, numeric_setting}
use spokes_receive_pack.Spokes.ReadCommands.{Received, read_commands, command_of}
use spokes_receive_pack.Spokes.ReadCommands.RoundTrip.{read_commands-print}
use spokes_receive_pack.Spokes.ReadCommands.Sent.{IsSendable, print_push}
use spokes_receive_pack.Spokes.ReadCommands.Sound.{IsReceived, KeepsLimit, read_commands_sound}
use spokes_receive_pack.Spokes.RefLine.{match_ref_line, is_hex_byte}
use spokes_receive_pack.Spokes.RefLine.Accepts.{
  IsOid, IsRefLine, ref_line, match_ref_line_complete, match_ref_line_sound,
}
use spokes_receive_pack.Go.Strings.{join}
use spokes_receive_pack.Pktline.Caps.RoundTrip.{print_capabilities, print_capability}
use spokes_receive_pack.Go.Strings.{lacks-Free}
use spokes_receive_pack.Tests.World.{one, two, no_config, update}

abbrev all_hex : Bytes → Bool
all_hex [] = true
all_hex (c ∷ s) = is_hex_byte c && all_hex s

hex_of : (s : Bytes) → all_hex s ≡ true → All (λ c. is_hex_byte c ≡ true) s
hex_of [] h = tt
hex_of (c ∷ s) h = (ground arith, hex_of s (ground arith))

one-IsOid : IsOid one
one-IsOid = record { digits = hex_of one refl; at_least = omega arith; at_most = omega arith }

two-IsOid : IsOid two
two-IsOid = record { digits = hex_of two refl; at_least = omega arith; at_most = omega arith }

update-IsRefLine : IsRefLine (ref_line update []) update
update-IsRefLine = record {
  tail = [];
  splits = refl;
  old_is_oid = one-IsOid;
  new_is_oid = two-IsOid;
  named = λ e. cc e;
  one_line = lacks-Free b'\n' update.refname refl;
  tailed = tt;
}

match_ref_line_complete_example : match_ref_line (ref_line update []) ≡ some update
match_ref_line_complete_example =
    match_ref_line_complete (ref_line update []) update update-IsRefLine

match_ref_line_sound_example : IsRefLine (ref_line update []) update
match_ref_line_sound_example =
    match_ref_line_sound (ref_line update []) update match_ref_line_complete_example

pub update-IsSendable : IsSendable update
update-IsSendable = record {
  old_is_oid = one-IsOid;
  new_is_oid = two-IsOid;
  named = λ e. cc e;
  one_line = lacks-Free b'\n' update.refname refl;
  no_zero = lacks-Free 0 (ref_line update []) refl;
  fits = omega arith;
}

abbrev quiet_capability : Capability
quiet_capability = record { name = quiet; value = [] }

pub no_limit : get_ref_update_command_limit no_config ≡ ok (pos 0)
unfolding get_ref_update_command_limit get numeric_setting
no_limit = refl

read_commands-print_example :
    (caps : Capabilities) × (pl : Pktline) × (read_commands no_config
        (reading Pktline.new (print_push update [] (quiet_capability ∷ []) (codes "PACK")) eof)
      ≡ (
        ok (record {
          commands = map (command_of (get_hidden_refs no_config)) (update ∷ []);
          shallow_info = [];
          capabilities = caps;
          first = false;
        }),
        reading pl (codes "PACK") eof,
      ))
    × ((k : Bytes) → get_capability caps k ≡ last_named none (quiet_capability ∷ []) k)
unfolding equal print_capabilities join print_capability
read_commands-print_example =
    read_commands-print no_config update [] quiet_capability [] (codes "PACK") eof (pos 0)
      (update-IsSendable, tt) ((lacks-Free b'=' quiet refl, lacks-Free b' ' quiet refl, tt, tt), tt)
      (inl refl) (omega arith) no_limit refl

abbrev push_input : Input
push_input = reading Pktline.new (print_push update [] (quiet_capability ∷ []) (codes "PACK")) eof

-- The push is read: the commands and the input behind it.
read_one : (t : Input) × (l : Received) × (read_commands no_config push_input ≡ (ok l, t))
read_one = let (caps, pl, e, g) = read_commands-print_example in (_, _, e)

read_commands_sound_example :
    All (IsReceived (get_hidden_refs no_config)) (read_one.1).commands
    × KeepsLimit (get_ref_update_command_limit no_config) (length (read_one.1).commands)
read_commands_sound_example =
    read_commands_sound no_config push_input (read_one.0) (read_one.1) (read_one.2)

is_hidden_ref_iff_example :
    (is_hidden_ref (codes "refs/a") (codes "refs/" ∷ codes "!refs/b" ∷ []) ≡ true) ↔ (
      (rule : Bytes) × IsLastMatch (codes "refs/a") (codes "refs/" ∷ codes "!refs/b" ∷ []) rule
      × ((is_negative_ref rule).0 ≡ false))
is_hidden_ref_iff_example =
    is_hidden_ref_iff (codes "refs/a") (codes "refs/" ∷ codes "!refs/b" ∷ [])
