-- ===== src/Spokes/Execute.antt =====
-- execute of internal/spokes/spokes.go: one push from the discovery to the report.
pub mod Outcomes
pub mod Ends
pub mod Readable
pub mod Packs
pub mod Stages
pub mod Greets
pub mod Delivers
use spokes_receive_pack.Base.{
  ℕ, Bool, true, false, not, ◌&&◌, ◌||◌, List, [], ◌∷◌, ◌++◌, Option, none, some, Bytes, codes,
  if◌then◌else◌, ℤ, is_positive, exceeds, ◌==◌,
}
use spokes_receive_pack.Base.Exec.{
  Result, ok, err, spent, Error, wrap, message, Exec, pure, raise, gets, lift, out_of_fuel, ◌>>=◌,
  ◌>>◌,
}
use spokes_receive_pack.Go.Writer.{Writer}
use spokes_receive_pack.Pktline
use spokes_receive_pack.Pktline.{Input}
use spokes_receive_pack.Pktline.Caps.{
  Capabilities, is_defined, push_options, report_status, report_status_v2,
}
use spokes_receive_pack.Config.{Config}
use spokes_receive_pack.Sockstat.{Environment, get_bool}
use spokes_receive_pack.Spokes.Command.{Command, include_non_deletes, reject_all}
use spokes_receive_pack.Spokes.Connectivity.{settle_all}
use spokes_receive_pack.Spokes.Discovery.{Advert, Announcement, discover}
use spokes_receive_pack.Spokes.Discovery.Shared.{discover_shared}
use spokes_receive_pack.Spokes.Limits.{get_push_options_count_limit}
use spokes_receive_pack.Spokes.Outside.{IndexPack, Git}
use spokes_receive_pack.Spokes.ReadCommands.{Received, read_commands, dump_push_options, ng}
use spokes_receive_pack.Spokes.Report.{report}
use spokes_receive_pack.Spokes.Unpack.{index_pack_arguments, forward_stderr, pack_id}

-- The fields of spokesReceivePack that do not change, and its surroundings.
pub record Session : Type 0 where
  pub announcement : Announcement
  open announcement use {config, env, git}
  pub stateless_rpc : Bool
  pub advertise_refs : Bool
  pub quarantine_folder : Bytes
  -- what the pipe of performReferenceDiscovery returns for the errors of its stages
  pub pipe_error : List (Option Error) → Option Error
  -- the order in which the functions of this pipe run
  pub turns : List ℕ

-- What a push changes.
pub record World : Type 0 where
  pub input : Input
  pub output : Writer
  -- the quarantine directories were made
  pub quarantined : Bool
  -- the size that the governor is told, 0 if none
  pub pack_size : ℕ

-- A step on the input, with a new Pktline.
unfoldable pub on_input {ℓ} : {A : Type ℓ} → (Input → Result A × Input) → World → Result A × World
on_input m s = let (r, i) = m (record s.input { line = Pktline.new }) in (r, record s { input = i })

unfoldable pub on_output {ℓ} :
    {A : Type ℓ} → (Writer → Result A × Writer) → World → Result A × World
on_output m s = let (r, w) = m s.output in (r, record s { output = w })

unfoldable pub on_advert : Exec Advert (Unit {0}) → Exec World (Unit {0})
on_advert m s =
    let (r, a) = m (record { writer = s.output; wrote_capabilities = false }) in
    (r, record s { output = a.writer })

-- the reference discovery phase
unfoldable pub discovery_phase : Session → Exec World (Unit {0})
discovery_phase r =
    if r.advertise_refs || not r.stateless_rpc
    then if get_bool r.announcement.env (codes "spokes_receive_pack_isolated_reference_discovery")
      then on_advert (discover r.announcement)
      else on_advert (discover_shared r.pipe_error r.turns r.announcement)
    else pure tt

-- The size of the pack in the quarantine, where there is one.
unfoldable pub found_size : Git → Bytes → Option Bytes → ℕ → ℕ
found_size git folder none before = before
found_size git folder (some id) before =
    elim (git.file_size (folder ++ (codes "/pack/pack-" ++ (id ++ codes ".pack")))) [
      | none ↦ before
      | some n ↦ if n == 0 then before else n
    ]

-- readPack, once index-pack has ended
unfoldable pub finish_unpack : Session → IndexPack → Option Error → Exec World (Unit {0})
finish_unpack r run (some e) s = (err e, s)
finish_unpack r run none s = (
  ok tt,
  record s {
    pack_size = found_size r.announcement.git r.quarantine_folder (pack_id run.stdout) s.pack_size;
  },
)

-- readPack, from the start of index-pack on
unfoldable pub run_index_pack :
    Session → Capabilities → IndexPack → Option Error → Exec World (Unit {0})
run_index_pack r caps run (some e) s = (err (wrap (codes "starting 'index-pack'") e), s)
run_index_pack r caps run none s =
    let (whole, w) = forward_stderr caps run s.output in
    finish_unpack r run (run.exit_error whole) (record s {
      output = w;
      input = record s.input { reader = record s.input.reader { bytes = run.unread } };
    })

unfoldable pub unpack_with : Session → Capabilities → List Bytes → Exec World (Unit {0})
unpack_with r caps args s =
    let run = r.announcement.git.index_pack args s.input.reader.bytes in
    run_index_pack r caps run run.start_error s

-- readPack
unfoldable pub read_pack : Session → List Command → Capabilities → Exec World (Unit {0})
read_pack r commands caps =
    if include_non_deletes commands
    then (lift
          (index_pack_arguments r.announcement.git r.announcement.config r.announcement.env caps)
        >>= unpack_with r caps)
    else pure tt

-- `if optionsCountLimit > 0 && pushOptionsCount > optionsCountLimit`
unfoldable pub limit_push_options : ℤ → ℕ → List Command → List Command
limit_push_options limit count commands =
    if is_positive limit && exceeds count limit
    then reject_all (codes "push options count exceeds maximum") ng commands
    else commands

unfoldable pub count_push_options : Capabilities → Exec World ℕ
count_push_options caps =
    if is_defined caps push_options then on_input dump_push_options else pure 0

-- makeQuarantineDirs
unfoldable pub make_quarantine_dirs : Option Error → Exec World (Unit {0})
make_quarantine_dirs (some e) s = (err e, s)
make_quarantine_dirs none s = (ok tt, record s { quarantined = true })

-- The commands behind readPack: all rejected if it failed, otherwise settled one by one.
unfoldable pub commands_after : Session → Result (Unit {0}) → List Command → List Command
commands_after r (ok u) commands = settle_all r.announcement.git r.announcement.config commands
commands_after r (err e) commands =
    reject_all (codes "error processing packfiles: " ++ r.announcement.git.error_text e) ng commands
commands_after r spent commands = commands

unfoldable pub unpack_is_ok : Result (Unit {0}) → Bool
unpack_is_ok (ok u) = true
unpack_is_ok _ = false

-- the report, if the client asked for one
unfoldable pub report_phase :
    Session → Result (Unit {0}) → List Command → Capabilities → Exec World (Unit {0})
report_phase r unpacked commands caps =
    if is_defined caps report_status_v2 || is_defined caps report_status
    then on_output (report (unpack_is_ok unpacked) (commands_after r unpacked commands) caps)
    else pure tt

-- the last lines of execute
unfoldable pub final_error : Result (Unit {0}) → Exec World (Unit {0})
final_error (ok u) = pure tt
final_error (err e) = raise (wrap (codes "index-pack") e)
final_error spent = out_of_fuel

-- The outcome of a step, where an error does not end the function.
unfoldable pub attempt : Exec World (Unit {0}) → World → Result (Result (Unit {0})) × World
attempt m s = let (u, t) = m s in (ok u, t)

-- execute, from the commands on
unfoldable pub process : Session → Received → Exec World (Unit {0})
process r l = do
  count ← count_push_options l.capabilities
  limit ← lift (get_push_options_count_limit r.announcement.config)
  let commands = limit_push_options limit count l.commands
  make_quarantine_dirs r.announcement.git.make_quarantine_dirs
  unpacked ← attempt (read_pack r commands l.capabilities)
  report_phase r unpacked commands l.capabilities
  final_error unpacked

-- `if len(commands) == 0 { return nil }`
unfoldable pub process_unless_empty : Session → Received → List Command → Exec World (Unit {0})
process_unless_empty r l [] = pure tt
process_unless_empty r l (c ∷ cs) = process r l

-- execute
unfoldable pub execute : Session → Exec World (Unit {0})
execute r = do
  discovery_phase r
  if r.advertise_refs then pure tt else do
    l ← on_input (read_commands r.announcement.config)
    process_unless_empty r l l.commands
