-- ===== src/Spokes/Execute/Stages.antt =====
-- The stages of execute behind the reading of the commands, where each but the pack succeeds
-- (internal/spokes/spokes.go).
use spokes_receive_pack.Base.{
  ℕ, Bool, true, false, ◌||◌, List, [], ◌∷◌, ◌++◌, Option, none, some, ◌≡◌, ◌⊎◌, inl, inr, refl,
  ◌∙◌, arith, Bytes, codes, length, All, ℤ,
}
use spokes_receive_pack.Base.Exec.{Result, err, spent, wrap, ok, Error}
use spokes_receive_pack.Client.Statuses.{IsReadable, Tells, report-Tells}
use spokes_receive_pack.Pktline.{Pktline}
use spokes_receive_pack.Pktline
use spokes_receive_pack.Pktline.Caps.{
  Capability, Capabilities, get, lookup, is_defined, push_options, report_status, report_status_v2,
}
use spokes_receive_pack.Pktline.Caps.Parsing.{last_named}
use spokes_receive_pack.Spokes.Command.{Command}
use spokes_receive_pack.Spokes.Limits.{get_push_options_count_limit}
use spokes_receive_pack.Spokes.ReadCommands.{Received, read_commands}
use spokes_receive_pack.Spokes.ReadCommands.Options.{
  print_options, IsOption, dump_push_options-print,
}
use spokes_receive_pack.Spokes.ReadCommands.RoundTrip.{is_defined-none}
use spokes_receive_pack.Spokes.Report.{use_side_band, side_band_buf_size, flush}
use spokes_receive_pack.Spokes.Report.Decodes.{band_frames, FitsBand, joined}
use spokes_receive_pack.Spokes.Execute.{
  Session, World, on_input, on_output, discovery_phase, read_pack, limit_push_options,
  count_push_options, make_quarantine_dirs, commands_after, unpack_is_ok, report_phase, final_error,
  attempt, process, process_unless_empty, execute,
}
use spokes_receive_pack.Spokes.Execute.Packs.{connection}

-- The client sends a capability of this name.
abbrev pub Asks : List Capability → Bytes → Type 0
Asks cs k = (c : Capability) × (last_named none cs k ≡ some c)

-- The push options behind the commands, if the client has any to send.
abbrev pub behind_commands : Option (List Bytes) → Bytes → Bytes
behind_commands none pack = pack
behind_commands (some ps) pack = print_options ps pack

abbrev pub option_count : Option (List Bytes) → ℕ
option_count none = 0
option_count (some ps) = length ps

-- The client announces push options exactly if it sends them, and each of them fits.
abbrev pub SendsOptions : List Capability → Option (List Bytes) → Type 0
SendsOptions cs none = last_named none cs push_options ≡ none
SendsOptions cs (some ps) = Asks cs push_options × All IsOption ps

is_defined-some :
    (caps : Capabilities) (k : Bytes) (c : Capability)
    → get caps k ≡ some c
    → is_defined caps k ≡ true
unfolding is_defined get
is_defined-some caps k c e = let q : lookup caps.caps k ≡ some c = e in rw (is_defined, q) refl

-- The capabilities that the server goes by are those that were sent.
abbrev pub Heard : Capabilities → List Capability → Type 0
Heard caps cs = (k : Bytes) → get caps k ≡ last_named none cs k

module _ (caps : Capabilities) (cs : List Capability) (heard : Heard caps cs) where
  asked : (k : Bytes) → Asks cs k → is_defined caps k ≡ true
  asked k (c, h) = is_defined-some caps k c (heard k ∙ h)

  not_asked : (k : Bytes) → last_named none cs k ≡ none → is_defined caps k ≡ false
  not_asked k h = is_defined-none caps k (heard k ∙ h)

  pub either_asked :
      (j k : Bytes) → Asks cs j ⊎ Asks cs k → (is_defined caps j || is_defined caps k) ≡ true
  either_asked j k (inl h) = rw (asked j h) refl
  either_asked j k (inr h) = let y = asked k h in ground (arith, y)

  pub count_push_options-sent :
      (options : Option (List Bytes)) (pl : Pktline) (pack o : Bytes) (e f : Error) (q : Bool)
      (n : ℕ)
      → SendsOptions cs options
      → (pl' : Pktline) × (count_push_options caps
            (connection pl (behind_commands options pack) e o f q n)
          ≡ (ok (option_count options), connection pl' pack e o f q n))
  unfolding count_push_options on_input
  count_push_options-sent none pl pack o e f q n h = (pl, rw (not_asked push_options h) refl)
  count_push_options-sent (some ps) pl pack o e f q n (h, w) =
      let (pl', k) = dump_push_options-print ps Pktline.new pack e w in
      (pl', rw (asked push_options h, k) refl)

-- The report is written, and the client reads it.
pub report_phase-Tells :
    (r : Session) (commands : List Command) (caps : Capabilities) (pl : Pktline) (bytes o : Bytes)
    (e f : Error) (n : ℕ) (u : Result (Unit {0}))
    → (is_defined caps report_status_v2 || is_defined caps report_status) ≡ true
    → use_side_band caps ≡ true
    → All IsReadable (commands_after r u commands)
    → (ps : List Bytes) × (report_phase r u commands caps (connection pl bytes e o f true n)
        ≡ (ok tt, connection pl bytes e (o ++ (band_frames ps ++ flush)) f true n))
      × All (FitsBand (side_band_buf_size caps)) ps
      × Tells (unpack_is_ok u) (commands_after r u commands) (joined ps)
unfolding report_phase on_output
report_phase-Tells r commands caps pl bytes o e f n u y band h =
    let (ps, q, w, t) =
      report-Tells (unpack_is_ok u) (commands_after r u commands) caps o f band h in
    (ps, rw (y, q) refl, w, t)

module _ (r : Session) (l : Received) where
  some_commands :
      (cs commands : List Command) (c : Command)
      → commands ≡ c ∷ cs
      → process_unless_empty r l commands ≡ process r l
  unfolding process_unless_empty
  some_commands cs [] c h = absurd (cc h)
  some_commands cs (d ∷ commands) c h = refl

-- The result of execute, for that of readPack.
abbrev pub concluded : Result (Unit {0}) → Result (Unit {0})
concluded (ok u) = ok tt
concluded (err e) = err (wrap (codes "index-pack") e)
concluded spent = spent

module _ (r : Session) (l : Received) (count : ℕ) (limit : ℤ) (s s1 s2 s3 : World) where
  -- The steps of execute behind the commands, where each of them but the pack succeeds.
  pub process-steps :
      (u : Result (Unit {0}))
      → count_push_options l.capabilities s ≡ (ok count, s1)
      → get_push_options_count_limit r.announcement.config ≡ ok limit
      → make_quarantine_dirs r.announcement.git.make_quarantine_dirs s1
        ≡ (ok tt, record s1 { quarantined = true })
      → read_pack r
          (limit_push_options limit count l.commands)
          l.capabilities
          (record s1 { quarantined = true })
        ≡ (u, s2)
      → report_phase r u (limit_push_options limit count l.commands) l.capabilities s2 ≡ (ok tt, s3)
      → process r l s ≡ (concluded u, s3)
  unfolding process final_error attempt
  process-steps (ok x) p q m u v = rw (p, q, m, u, v) refl
  process-steps (err e) p q m u v = rw (p, q, m, u, v) refl
  process-steps spent p q m u v = rw (p, q, m, u, v) refl

  pub execute-steps :
      (c : Command) (cs : List Command) (out : Result (Unit {0}) × World)
      → discovery_phase r s ≡ (ok tt, s1)
      → r.advertise_refs ≡ false
      → on_input (read_commands r.announcement.config) s1 ≡ (ok l, s2)
      → l.commands ≡ c ∷ cs
      → process r l s2 ≡ out
      → execute r s ≡ out
  unfolding execute
  execute-steps c cs out d a p q h = rw d (simp (a) (rw (p, some_commands r l cs l.commands c q) h))
