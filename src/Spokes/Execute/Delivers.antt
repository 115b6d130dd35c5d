-- ===== src/Spokes/Execute/Delivers.antt =====
-- A push from the bytes of the client to the bytes of the report (execute of
-- internal/spokes/spokes.go).
use spokes_receive_pack.Base.{
  ℕ, ◌≤◌, Bool, true, false, ◌&&◌, List, [], ◌∷◌, ◌++◌, Option, none, some, ◌≡◌, ◌⊎◌, inl, inr,
  refl, Bytes, length, Bool-cases, map, All, ℤ, is_positive, exceeds,
}
use spokes_receive_pack.Base.Exec.{ok, Error}
use spokes_receive_pack.Client.Statuses.{Tells}
use spokes_receive_pack.Go.Writer.{holding}
use spokes_receive_pack.Pktline.{Pktline}
use spokes_receive_pack.Pktline.Caps.{
  Capability, Capabilities, report_status, report_status_v2, side_band, side_band_64k,
}
use spokes_receive_pack.Pktline.Caps.RoundTrip.{ArePrintable}
use spokes_receive_pack.Spokes.Command.{Command, include_non_deletes}
use spokes_receive_pack.Spokes.HiddenRefs.{get_hidden_refs}
use spokes_receive_pack.Spokes.Limits.{
  get_ref_update_command_limit, get_push_options_count_limit, get_max_input_size,
  get_warn_object_size,
}
use spokes_receive_pack.Spokes.Outside.{IndexPack}
use spokes_receive_pack.Spokes.ReadCommands.{Received, command_of}
use spokes_receive_pack.Spokes.ReadCommands.RoundTrip.{OneBand, read_commands-print}
use spokes_receive_pack.Spokes.ReadCommands.Sent.{AreSendable, first_line, print_push}
use spokes_receive_pack.Spokes.RefLine.{RefUpdate}
use spokes_receive_pack.Spokes.Report.{use_side_band, side_band_buf_size, flush}
use spokes_receive_pack.Spokes.Report.Decodes.{band_frames, FitsBand, joined}
use spokes_receive_pack.Spokes.Unpack.Bands.{error_frames}
use spokes_receive_pack.Spokes.Execute.{
  unpack_is_ok, Session, World, on_input, limit_push_options, execute,
}
use spokes_receive_pack.Spokes.Execute.Outcomes.{make_quarantine_dirs-none}
use spokes_receive_pack.Spokes.Execute.Readable.{IsBrief, AreWords, outcomes, outcomes-IsReadable}
use spokes_receive_pack.Spokes.Execute.Packs.{
  ReadsPack, notes, connection, unpacked, unpack_result, read_pack-unpacked,
}
use spokes_receive_pack.Spokes.Execute.Greets.{Greets}
use spokes_receive_pack.Spokes.Execute.Stages.{
  concluded, Asks, behind_commands, option_count, SendsOptions, Heard, either_asked,
  count_push_options-sent, report_phase-Tells, process-steps, execute-steps,
}

-- What a client gets for a push that is printed so, behind the announcement of the references.
abbrev pub Delivered :
    Session
    → List Capability
    → List RefUpdate
    → Option (List Bytes)
    → ℤ
    → IndexPack
    → Bytes
    → Error
    → World
    → Type 0
Delivered r cs ms options limit run o f w =
    let commands = map (command_of (get_hidden_refs r.announcement.config)) ms in
    let count = option_count options in
    let limited = limit_push_options limit count commands in
    let unpacking = unpack_result limited run in
    (caps : Capabilities) × (ps : List Bytes) × (v : World) × (execute r w
      ≡ (concluded unpacking, v))
    × Heard caps cs
    × (v.quarantined ≡ true)
    × (v.output
        ≡ holding ((o ++ error_frames (notes limited run caps)) ++ (band_frames ps ++ flush)) f)
    × All (FitsBand (side_band_buf_size caps)) ps
    × Tells (unpack_is_ok unpacking) (outcomes r unpacking limit count commands) (joined ps)

module _ (r : Session) (m : RefUpdate) (ms : List RefUpdate) (c : Capability) (cs : List Capability)
    (options : Option (List Bytes)) (pack : Bytes) (run : IndexPack)
    (limit options_limit max_size warn_size : ℤ) (greeting : Bytes) (greets : Greets r greeting)
    (pushing : r.advertise_refs ≡ false) (sendable : AreSendable (m ∷ ms))
    (words : AreWords (m ∷ ms)) (printable : ArePrintable (c ∷ cs)) (one_band : OneBand (c ∷ cs))
    (fits : length (first_line m (c ∷ cs)) ≤ 65520)
    (wants_report : Asks (c ∷ cs) report_status_v2 ⊎ Asks (c ∷ cs) report_status)
    (wants_band : Asks (c ∷ cs) side_band ⊎ Asks (c ∷ cs) side_band_64k)
    (sends : SendsOptions (c ∷ cs) options)
    (limited : get_ref_update_command_limit r.announcement.config ≡ ok limit)
    (below : (is_positive limit && exceeds (length (m ∷ ms)) limit) ≡ false)
    (options_limited : get_push_options_count_limit r.announcement.config ≡ ok options_limit)
    (largest : get_max_input_size r.announcement.config r.announcement.env ≡ ok max_size)
    (warned : get_warn_object_size r.announcement.config ≡ ok warn_size)
    (made : r.announcement.git.make_quarantine_dirs ≡ none)
    (reads : ReadsPack r.announcement.git pack run)
    (brief : (e : Error)
      → run.exit_error true ≡ some e
      → length (r.announcement.git.error_text e) ≤ 40) where
  unpack_result-IsBrief :
      (commands : List Command) → IsBrief r.announcement.git (unpack_result commands run)
  unpack_result-IsBrief commands = elim (Bool-cases (include_non_deletes commands)) [
    | inl y ↦ rw y (by_exit (run.exit_error true) refl)
    | inr n ↦ rw n tt
  ]
    where
      by_exit :
          (o : Option Error) → run.exit_error true ≡ o → IsBrief r.announcement.git (unpacked o)
      by_exit none h = tt
      by_exit (some e) h = brief e h

  -- If a push is asked for, and execute sends a greeting before it reads the commands; the client
  -- sends updates, each of two object ids and a name of one word with no zero byte, that fit into
  -- packets, the first of them with printable capabilities that name one sideband and ask for a
  -- report, then a flush, then its push options with a flush exactly if it announced them, and
  -- then a pack; the settings are numbers and the limit on updates allows so many; the quarantine
  -- directories can be made; and git index-pack starts on the pack, whatever its arguments, with
  -- reads of at most 65515 bytes from its standard error, and its error has a text of at most 40
  -- bytes, if it has one: then execute ends with the error of index-pack, or with none if that has
  -- none or the push only deletes, and goes by the capabilities as sent; behind the greeting it
  -- writes these reads as packets of the second band, none if the push only deletes, then packets
  -- of the first band, none of them empty or longer than the band, and a flush; and from the
  -- joined data of the latter the client of the integration tests reads whether the pack was
  -- unpacked, and for each name the outcome of its last command, as execute decides it: by its
  -- checks if the pack was unpacked, and all rejected if it was not or if the limit on push
  -- options is exceeded.
  pub execute-Delivered :
      (pl : Pktline) (o : Bytes) (e f : Error) (q : Bool) (n : ℕ)
      → Delivered r
          (c ∷ cs)
          (m ∷ ms)
          options
          options_limit
          run
          (o ++ greeting)
          f
          (connection pl (print_push m ms (c ∷ cs) (behind_commands options pack)) e o f q n)
  unfolding on_input
  execute-Delivered pl o e f q n =
      let hidden = get_hidden_refs r.announcement.config in
      let all = map (command_of hidden) (m ∷ ms) in
      let commands = limit_push_options options_limit (option_count options) all in
      let behind = behind_commands options pack in
      let u = unpack_result commands run in
      let greeted = o ++ greeting in
      let (caps, pl1, received, heard) =
        read_commands-print r.announcement.config m ms c cs behind e limit sendable printable
          one_band fits limited below in
      let l : Received = record {
        commands = all;
        shallow_info = [];
        capabilities = caps;
        first = false;
      } in
      let band : use_side_band caps ≡ true =
        unfold use_side_band in
        either_asked caps (c ∷ cs) heard side_band side_band_64k wants_band in
      let (pl2, counted) =
        count_push_options-sent caps (c ∷ cs) heard options pl1 pack greeted e f q n sends in
      let (rest, k, packed) =
        read_pack-unpacked r caps pack run band reads commands max_size warn_size pl2 greeted e f n
          largest warned in
      let said = greeted ++ error_frames (notes commands run caps) in
      let (ps, reported, pieces, told) =
        report_phase-Tells r commands caps pl2 rest said e f k u
          (either_asked caps (c ∷ cs) heard report_status_v2 report_status wants_report) band
          (outcomes-IsReadable r u options_limit (option_count options) hidden (m ∷ ms)
            (unpack_result-IsBrief commands) sendable words) in
      let s1 = connection pl2 pack e greeted f q n in
      let s2 = connection pl2 rest e said f true k in
      let s3 = connection pl2 rest e (said ++ (band_frames ps ++ flush)) f true k in
      let start = connection pl1 behind e greeted f q n in
      let ready = connection pl (print_push m ms (c ∷ cs) behind) e greeted f q n in
      let w = connection pl (print_push m ms (c ∷ cs) behind) e o f q n in
      (
        caps,
        ps,
        s3,
        execute-steps r l 0 options_limit w ready start s3 (command_of hidden m)
            (map (command_of hidden) ms) (concluded u, s3)
            (greets pl (print_push m ms (c ∷ cs) behind) o e f q n) pushing (rw received refl) refl
            (process-steps r l (option_count options) options_limit start s1 s2 s3 u counted
              options_limited
              (make_quarantine_dirs-none r.announcement.git.make_quarantine_dirs s1 made) packed
              reported),
        heard,
        refl,
        refl,
        pieces,
        told,
      )
