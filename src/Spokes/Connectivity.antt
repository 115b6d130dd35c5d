-- ===== src/Spokes/Connectivity.antt =====
-- The checks of the commands once the pack is read (internal/spokes/spokes.go).
pub mod Settles
use spokes_receive_pack.Base.{
  ℕ, Bool, true, false, not, ◌&&◌, List, [], ◌∷◌, Option, none, some, Bytes, codes, if◌then◌else◌,
  map,
}
use spokes_receive_pack.Base.Exec.{Error}
use spokes_receive_pack.Config.{Config}
use spokes_receive_pack.Spokes.Command.{
  Command, is_update, is_delete, not_rejected, commands_for_connectivity_check,
}
use spokes_receive_pack.Spokes.Limits.{is_report_status_ff_config_enabled}
use spokes_receive_pack.Spokes.Outside.{Git}

-- The check of all new object ids, or no check where no command needs one.
unfoldable pub check_unless_none : Git → List Command → List Command → Option Error
check_unless_none git [] commands = none
check_unless_none git (c ∷ cs) commands = git.rev_list (map (λ (d : Command). d.new_oid) commands)

-- performCheckConnectivity
unfoldable pub perform_check_connectivity : Git → List Command → Option Error
perform_check_connectivity git commands =
    check_unless_none git (commands_for_connectivity_check commands) commands

abbrev pub missing_objects : Bytes
missing_objects = codes "missing necessary objects"

-- A command whose objects are there: "ok", or whether it is a fast-forward.
unfoldable pub accept : Git → Config → Command → Command
accept git config c = record c {
  report_ff =
      if is_update c && is_report_status_ff_config_enabled config
      then if git.is_ancestor c.old_oid c.new_oid then codes "ff" else codes "nf"
      else codes "ok";
}

-- The outcome of a command by the check of its own object.
unfoldable pub judge : Git → Config → Command → Option Error → Command
judge git config c (some e) = record c { err = missing_objects; report_ff = codes "ng" }
judge git config c none = accept git config c

-- One round of the loop of execute over the commands; the flag says that the common check failed.
unfoldable pub settle : Git → Config → Bool → Command → Command
settle git config failed c =
    if not_rejected c
    then judge git config c
        (if failed && not (is_delete c) then git.rev_list_object c.new_oid else none)
    else c

abbrev pub is_some {ℓ} : {A : Type ℓ} → Option A → Bool
is_some none = false
is_some (some a) = true

-- the branch of execute for a pack that was read
unfoldable pub settle_all : Git → Config → List Command → List Command
settle_all git config commands =
    map (settle git config (is_some (perform_check_connectivity git commands))) commands
