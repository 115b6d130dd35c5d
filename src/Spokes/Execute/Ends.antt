-- ===== src/Spokes/Execute/Ends.antt =====
-- execute of internal/spokes/spokes.go ends, whatever is sent and whatever git answers.
use spokes_receive_pack.Base.{
  false, not, ◌||◌, List, [], ◌∷◌, Option, none, some, ◌≡◌, ◌≢◌, refl, Bytes, codes, Bool-cases,
  inl, inr, ℤ,
}
use spokes_receive_pack.Base.Exec.{Result, ok, err, spent, Error, Exec, wrap, lift, pure, ◌>>=◌}
use spokes_receive_pack.Base.Ends.{Ends, pure-Ends, raise-Ends, lift-Ends, >>=-Ends, >>-Ends}
use spokes_receive_pack.Go.Writer.{Writer}
use spokes_receive_pack.Pktline.{Input}
use spokes_receive_pack.Pktline.Caps.{
  Capabilities, is_defined, push_options, report_status, report_status_v2,
}
use spokes_receive_pack.Config.{Config, get}
use spokes_receive_pack.Sockstat.{Environment, get_bool}
use spokes_receive_pack.Spokes.Command.{Command, include_non_deletes}
use spokes_receive_pack.Spokes.Discovery.{Advert, discover}
use spokes_receive_pack.Spokes.Discovery.Ends.{discover-Ends}
use spokes_receive_pack.Spokes.Discovery.Shared.{discover_shared}
use spokes_receive_pack.Spokes.Discovery.Shared.Ends.{HasTurns, discover_shared-Ends}
use spokes_receive_pack.Spokes.Limits.{
  is_importing, skip_push_limit, get_max_input_size, get_warn_object_size,
  get_push_options_count_limit,
}
use spokes_receive_pack.Spokes.Outside.{IndexPack, Git}
use spokes_receive_pack.Spokes.ReadCommands.{Received, read_commands, dump_push_options}
use spokes_receive_pack.Spokes.ReadCommands.Ends.{
  numeric_setting-ne-spent, read_commands-ne-spent, dump_push_options-ne-spent,
}
use spokes_receive_pack.Spokes.Report.{report}
use spokes_receive_pack.Spokes.Report.Ends.{report-Ends}
use spokes_receive_pack.Spokes.Unpack.{
  add_sizes, base_arguments, index_pack_arguments, forward_stderr,
}
use spokes_receive_pack.Spokes.Execute.{
  Session, World, on_input, on_output, on_advert, discovery_phase, finish_unpack, run_index_pack,
  unpack_with, read_pack, limit_push_options, count_push_options, make_quarantine_dirs,
  commands_after, unpack_is_ok, report_phase, final_error, attempt, process, process_unless_empty,
  execute,
}

on_input-Ends : {A : Type 0} (m : Input → Result A × Input) → Ends m → Ends (on_input m)
unfolding on_input
on_input-Ends m k s h = k _ h

on_output-Ends : {A : Type 0} (m : Writer → Result A × Writer) → Ends m → Ends (on_output m)
unfolding on_output
on_output-Ends m k s h = k s.output h

on_advert-Ends : (m : Exec Advert (Unit {0})) → Ends m → Ends (on_advert m)
unfolding on_advert
on_advert-Ends m k s h = k _ h

attempt-Ends :
    (m : Exec World (Unit {0})) (f : Result (Unit {0}) → Exec World (Unit {0}))
    → Ends m
    → ((u : Result (Unit {0})) → u ≢ spent → Ends (f u))
    → Ends (attempt m >>= f)
unfolding attempt
attempt-Ends m f k g s h = g (m s).0 (k s) (m s).1 h

-- The discovery that is chosen, if it is the shared one, has turns enough.
abbrev pub DiscoveryRuns : Session → Type 0
DiscoveryRuns r =
    get_bool r.announcement.env (codes "spokes_receive_pack_isolated_reference_discovery") ≡ false
    → HasTurns r.announcement r.turns

discovery_phase-Ends : (r : Session) → DiscoveryRuns r → Ends (discovery_phase r)
unfolding discovery_phase
discovery_phase-Ends r k = elim (Bool-cases (r.advertise_refs || not r.stateless_rpc)) [
  | inl y ↦
      elim (Bool-cases
        (get_bool r.announcement.env (codes "spokes_receive_pack_isolated_reference_discovery"))) [
          | inl i ↦
              rw (discovery_phase, y, i)
                (on_advert-Ends (discover r.announcement) (discover-Ends r.announcement))
          | inr i ↦
              rw (discovery_phase, y, i)
                (on_advert-Ends (discover_shared r.pipe_error r.turns r.announcement)
                  (discover_shared-Ends r.announcement r.pipe_error r.turns (k i)))
        ]
  | inr n ↦ rw (discovery_phase, n) (pure-Ends tt)
]

finish_unpack-Ends :
    (r : Session) (run : IndexPack) (e : Option Error) → Ends (finish_unpack r run e)
unfolding finish_unpack
finish_unpack-Ends r run (some e) s h = cc h
finish_unpack-Ends r run none s h = cc h

run_index_pack-Ends :
    (r : Session) (caps : Capabilities) (run : IndexPack) (e : Option Error)
    → Ends (run_index_pack r caps run e)
unfolding run_index_pack
run_index_pack-Ends r caps run (some e) s h = cc h
run_index_pack-Ends r caps run none s h =
    let (whole, w) = forward_stderr caps run s.output in
    finish_unpack-Ends r run (run.exit_error whole) _ h

get_max_input_size-ne-spent : (c : Config) (env : Environment) → get_max_input_size c env ≢ spent
unfolding get_max_input_size
get_max_input_size-ne-spent c env h = elim (Bool-cases (is_importing env || skip_push_limit env)) [
  | inl y ↦ absurd (cc (rw (get_max_input_size, y) at h))
  | inr n ↦
      numeric_setting-ne-spent (get c (codes "receive.maxsize")) (rw (get_max_input_size, n) at h)
]

add_sizes-ne-spent :
    (args : List Bytes) (m w : Result ℤ) → m ≢ spent → w ≢ spent → add_sizes args m w ≢ spent
unfolding add_sizes
add_sizes-ne-spent args (ok m) (ok w) p q h = cc h
add_sizes-ne-spent args (ok m) (err e) p q h = cc h
add_sizes-ne-spent args (ok m) spent p q h = absurd (q refl)
add_sizes-ne-spent args (err e) w p q h = cc h
add_sizes-ne-spent args spent w p q h = absurd (p refl)

index_pack_arguments-ne-spent :
    (git : Git) (c : Config) (env : Environment) (caps : Capabilities)
    → index_pack_arguments git c env caps ≢ spent
unfolding index_pack_arguments get_warn_object_size
index_pack_arguments-ne-spent git c env caps =
    add_sizes-ne-spent (base_arguments git c env caps) (get_max_input_size c env)
      (get_warn_object_size c) (get_max_input_size-ne-spent c env)
      (numeric_setting-ne-spent (get c (codes "receive.warnobjectsize")))

read_pack-Ends :
    (r : Session) (cs : List Command) (caps : Capabilities) → Ends (read_pack r cs caps)
unfolding read_pack
read_pack-Ends r cs caps = elim (Bool-cases (include_non_deletes cs)) [
  | inl y ↦
      rw (read_pack, y)
        (>>=-Ends
          (lift
            (index_pack_arguments r.announcement.git r.announcement.config r.announcement.env caps))
          (unpack_with r caps)
          (lift-Ends _ (
            index_pack_arguments-ne-spent r.announcement.git r.announcement.config
              r.announcement.env caps))
          (λ args.
            unfold unpack_with in
            λ s.
              let run = r.announcement.git.index_pack args s.input.reader.bytes in
              run_index_pack-Ends r caps run run.start_error s))
  | inr n ↦ rw (read_pack, n) (pure-Ends tt)
]

count_push_options-Ends : (caps : Capabilities) → Ends (count_push_options caps)
unfolding count_push_options
count_push_options-Ends caps = elim (Bool-cases (is_defined caps push_options)) [
  | inl y ↦ rw (count_push_options, y) (on_input-Ends dump_push_options dump_push_options-ne-spent)
  | inr n ↦ rw (count_push_options, n) (pure-Ends 0)
]

make_quarantine_dirs-Ends : (o : Option Error) → Ends (make_quarantine_dirs o)
unfolding make_quarantine_dirs
make_quarantine_dirs-Ends (some e) s h = cc h
make_quarantine_dirs-Ends none s h = cc h

report_phase-Ends :
    (r : Session) (u : Result (Unit {0})) (cs : List Command) (caps : Capabilities)
    → Ends (report_phase r u cs caps)
unfolding report_phase
report_phase-Ends r u cs caps =
    elim (Bool-cases (is_defined caps report_status_v2 || is_defined caps report_status)) [
      | inl y ↦
          rw (report_phase, y)
            (on_output-Ends (report (unpack_is_ok u) (commands_after r u cs) caps)
              (report-Ends (unpack_is_ok u) (commands_after r u cs) caps))
      | inr n ↦ rw (report_phase, n) (pure-Ends tt)
    ]

final_error-Ends : (u : Result (Unit {0})) → u ≢ spent → Ends (final_error u)
unfolding final_error
final_error-Ends (ok u) k = pure-Ends tt
final_error-Ends (err e) k = raise-Ends (wrap (codes "index-pack") e)
final_error-Ends spent k = absurd (k refl)

process-Ends : (r : Session) (l : Received) → Ends (process r l)
unfolding process
process-Ends r l =
    >>=-Ends (count_push_options l.capabilities) _ (count_push_options-Ends l.capabilities)
      (λ count.
        >>=-Ends (lift (get_push_options_count_limit r.announcement.config)) _
          (lift-Ends _ (
            unfold get_push_options_count_limit in
            numeric_setting-ne-spent
              (get r.announcement.config (codes "receive.pushoptionscountlimit"))))
          (λ limit.
            let cs = limit_push_options limit count l.commands in
            >>-Ends (make_quarantine_dirs r.announcement.git.make_quarantine_dirs) _
              (make_quarantine_dirs-Ends r.announcement.git.make_quarantine_dirs)
              (attempt-Ends (read_pack r cs l.capabilities) _ (read_pack-Ends r cs l.capabilities)
                (λ u k.
                  >>-Ends (report_phase r u cs l.capabilities) (final_error u)
                    (report_phase-Ends r u cs l.capabilities) (final_error-Ends u k)))))

process_unless_empty-Ends :
    (r : Session) (l : Received) (cs : List Command) → Ends (process_unless_empty r l cs)
unfolding process_unless_empty
process_unless_empty-Ends r l [] = pure-Ends tt
process_unless_empty-Ends r l (c ∷ cs) = process-Ends r l

-- If the functions in the pipe of the shared reference discovery have at least four turns for each
-- line that git sends them, where this discovery is chosen, then execute ends, with or without an
-- error, whatever the client sends, git answers and the writer takes.
pub execute-Ends : (r : Session) → DiscoveryRuns r → (w : World) → (execute r w).0 ≢ spent
unfolding execute
execute-Ends r k = elim (Bool-cases r.advertise_refs) [
  | inl y ↦
      simp (y) (>>-Ends (discovery_phase r) (pure tt) (discovery_phase-Ends r k) (pure-Ends tt))
  | inr n ↦ simp (n) (
      >>-Ends (discovery_phase r) _ (discovery_phase-Ends r k) (
        >>=-Ends (on_input (read_commands r.announcement.config)) _
          (on_input-Ends (read_commands r.announcement.config)
            (read_commands-ne-spent r.announcement.config))
          (λ l. process_unless_empty-Ends r l l.commands)))
]
