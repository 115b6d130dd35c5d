-- ===== src/Spokes/ReadCommands.antt =====
-- readCommands and dumpPushOptions of internal/spokes/spokes.go.
pub mod Ends
pub mod Options
pub mod Sent
pub mod RoundTrip
pub mod Sound
use spokes_receive_pack.Base.{
  ℕ, zero, suc, ◌+◌, Bool, true, false, ◌&&◌, List, [], ◌∷◌, ◌++◌, Option, none, some, Bytes, codes,
  if◌then◌else◌, length, ℤ, is_positive, exceeds,
}
use spokes_receive_pack.Base.Exec.{
  Result, ok, err, spent, Error, quoted, numbered, message, wrap, Exec, pure, raise, lift, gets,
  out_of_fuel, wrapping, ◌>>=◌, ◌>>◌,
}
use spokes_receive_pack.Go.Strings.{has_prefix, split}
use spokes_receive_pack.Pktline.{Pktline, Input, read, is_flush, payload_bytes}
use spokes_receive_pack.Pktline
use spokes_receive_pack.Pktline.Caps.{Capabilities, no_capabilities}
use spokes_receive_pack.Config.{Config}
use spokes_receive_pack.Spokes.Command.{Command}
use spokes_receive_pack.Spokes.HiddenRefs.{is_hidden_ref, get_hidden_refs}
use spokes_receive_pack.Spokes.RefLine.{RefUpdate, match_ref_line}
use spokes_receive_pack.Spokes.Limits.{get_ref_update_command_limit}

-- The variables of the loop of readCommands, which are also what it returns.
pub record Received : Type 0 where
  pub commands : List Command
  pub shallow_info : List Bytes
  pub capabilities : Capabilities
  pub first : Bool

abbrev pub nothing_received : Received
nothing_received = record {
  commands = [];
  shallow_info = [];
  capabilities = no_capabilities;
  first = true;
}

abbrev pub hidden_error : Bytes
hidden_error = codes "deny updating a hidden ref"

abbrev pub ng : Bytes
ng = codes "ng"

-- The command of a line that the pattern matched.
unfoldable pub command_of : List Bytes → RefUpdate → Command
command_of hidden m =
    let rejected = is_hidden_ref m.refname hidden in
    record {
      refname = m.refname;
      old_oid = m.old_oid;
      new_oid = m.new_oid;
      err = if rejected then hidden_error else [];
      report_ff = if rejected then ng else [];
    }

unfoldable pub accept_shallow : Bytes → List Bytes → Received → Result Received
accept_shallow payload (word ∷ oid ∷ []) l =
    ok (record l { shallow_info = l.shallow_info ++ oid ∷ [] })
accept_shallow payload _ l = err (quoted (codes "wrong shallow structure: ") payload)

-- `if first { … }`
unfoldable pub take_capabilities : Pktline → Received → Result Received
take_capabilities pl l =
    if l.first
    then elim (Pktline.capabilities pl) [
      | ok caps ↦ ok (record l { capabilities = caps; first = false })
      | err e ↦ err (wrap (codes "processing capabilities") e)
      | spent ↦ spent
    ]
    else ok l

unfoldable pub accept_command : List Bytes → Bytes → Received → Result Received
accept_command hidden payload l = elim (match_ref_line payload) [
  | some m ↦ ok (record l { commands = l.commands ++ command_of hidden m ∷ [] })
  | none ↦ err (quoted (codes "bogus command: ") payload)
]

-- The body of the loop for a line that is no flush.
unfoldable pub accept_line : List Bytes → Pktline → Received → Result Received
accept_line hidden pl l =
    let payload = payload_bytes pl in
    if has_prefix payload (codes "shallow")
    then accept_shallow payload (split payload b' ') l
    else elim (take_capabilities pl l) [
      | ok l' ↦ accept_command hidden payload l'
      | err e ↦ err e
      | spent ↦ spent
    ]

-- The loop of readCommands.
unfoldable pub read_loop : ℕ → List Bytes → Received → Exec Input Received
read_loop zero hidden l = out_of_fuel
read_loop (suc fuel) hidden l = do
  wrapping (codes "reading commands") read
  pl ← gets (λ s. s.line)
  if is_flush pl then pure l else do l' ← lift (accept_line hidden pl l); read_loop fuel hidden l'

-- Each line takes bytes off the input, so its length is enough fuel.
abbrev pub fuel_for : Input → ℕ
fuel_for s = suc (length s.reader.bytes)

abbrev too_many : ℕ → Error
too_many n = numbered (codes "maximum ref updates exceeded: ") n

unfoldable pub check_limit : Result ℤ → Received → Result Received
check_limit (ok limit) l =
    if is_positive limit && exceeds (length l.commands) limit
    then err (too_many (length l.commands))
    else ok l
check_limit (err e) l = err e
check_limit spent l = spent

-- readCommands, with the Pktline that it creates
unfoldable pub read_commands : Config → Exec Input Received
read_commands c = do
  fuel ← gets fuel_for
  l ← read_loop fuel (get_hidden_refs c) nothing_received
  lift (check_limit (get_ref_update_command_limit c) l)

-- the loop of dumpPushOptions
unfoldable pub dump_loop : ℕ → ℕ → Exec Input ℕ
dump_loop zero count = out_of_fuel
dump_loop (suc fuel) count = do
  wrapping (codes "error reading push-options") read
  pl ← gets (λ s. s.line)
  if is_flush pl then pure count else dump_loop fuel (count + 1)

-- dumpPushOptions, with the Pktline that it creates
unfoldable pub dump_push_options : Exec Input ℕ
dump_push_options = do fuel ← gets fuel_for; dump_loop fuel 0
