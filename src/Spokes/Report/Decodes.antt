-- ===== src/Spokes/Report/Decodes.antt =====
-- What the client gets from report: the status of the push, and of each command in order.
use spokes_receive_pack.Base.{
  ℕ, zero, suc, ◌+◌, ◌-◌, ◌≤◌, ◌<◌, Bool, true, false, List, [], ◌∷◌, ◌++◌, ◌≡◌, ◌≢◌, inl, inr,
  refl, ap, ◌∙◌, arith, Bytes, length, take, drop, if◌then◌else◌, Bool-cases, append_assoc,
  append-nil, take-append-drop, length-take, length-drop, length-append, All,
}
use spokes_receive_pack.Base.Exec.{ok, Error}
use spokes_receive_pack.Go.Strconv.{format_hex, length-format_hex}
use spokes_receive_pack.Go.Writer.{holding, write-holding}
use spokes_receive_pack.Pktline.Caps.{Capabilities}
use spokes_receive_pack.Pktline.Reads.{frame}
use spokes_receive_pack.Spokes.Command.{Command, not_rejected}
use spokes_receive_pack.Spokes.Packet.Written.{write_packet_line-fits, write_packet-fits}
use spokes_receive_pack.Spokes.Report.{
  unpack_ok, unpack_failed, flush, report_line, write_commands, write_report, use_side_band,
  side_band_buf_size, chunk_size, write_chunks, ignoring_error, send_report, report,
}

-- The lines of the commands, each in a packet.
abbrev pub command_frames : List Command → Bytes
command_frames [] = []
command_frames (c ∷ cs) = frame (report_line c) ++ command_frames cs

-- The report as bytes: the status of the pack, a line for each command, and a flush.
abbrev pub report_text : Bool → List Command → Bytes
report_text unpack_is_ok cs =
    frame (if unpack_is_ok then unpack_ok else unpack_failed) ++ (command_frames cs ++ flush)

-- Each line fits into a packet.
abbrev pub AllFit : List Command → Type 0
AllFit cs = All (λ c. length (report_line c) ≤ 65516) cs

report_line-ne-nil : (c : Command) → report_line c ≢ []
unfolding report_line
report_line-ne-nil c e = elim (Bool-cases (not_rejected c)) [
  | inl y ↦
      omega (
        arith,
        ap length (rw y at e),
        length-append c.report_ff (b' ' ∷ (c.refname ++ (b'\n' ∷ []))),
      )
  | inr n ↦ cc (rw n at e)
]

write_commands-holding :
    (cs : List Command) (o : Bytes) (e : Error)
    → AllFit cs
    → write_commands cs (holding o e) ≡ (ok tt, holding (o ++ command_frames cs) e)
unfolding write_commands
write_commands-holding [] o e h = rw append-nil refl
write_commands-holding (c ∷ cs) o e (f, h) =
    rw
      (
        write_packet-fits (report_line c) o e (report_line-ne-nil c) f,
        write_commands-holding cs (o ++ frame (report_line c)) e h,
      )
      (ap (λ (s : Bytes). (ok tt, holding s e))
        (append_assoc o (frame (report_line c)) (command_frames cs)))

status-fits : (b : Bool) → length (if b then unpack_ok else unpack_failed) ≤ 65516
status-fits true = omega arith
status-fits false = omega arith

-- Without a sideband the report is written as it is.
pub write_report-holding :
    (b : Bool) (cs : List Command) (o : Bytes) (e : Error)
    → AllFit cs
    → write_report b cs (holding o e) ≡ (ok tt, holding (o ++ report_text b cs) e)
unfolding write_report
write_report-holding b cs o e h =
    let status = frame (if b then unpack_ok else unpack_failed) in
    rw
      (
        write_packet_line-fits (if b then unpack_ok else unpack_failed) o e (status-fits b),
        write_commands-holding cs (o ++ status) e h,
        write-holding,
      )
      (ap (λ (s : Bytes). (ok tt, holding s e))
        (append_assoc (o ++ status) (command_frames cs) flush
          ∙ append_assoc o status (command_frames cs ++ flush)))

-- Pieces one behind the other.
abbrev pub joined : List Bytes → Bytes
joined [] = []
joined (p ∷ ps) = p ++ joined ps

-- Each piece in a packet of the first sideband.
abbrev pub band_frames : List Bytes → Bytes
band_frames [] = []
band_frames (p ∷ ps) = frame (1 ∷ p) ++ band_frames ps

-- A piece is not empty, and its packet is within the limit, the length of four bytes included.
abbrev pub FitsBand : ℕ → Bytes → Type 0
FitsBand packet_max p = (p ≢ []) × (length (frame (1 ∷ p)) ≤ packet_max)

pub chunk_size_bounds :
    (n : ℕ) (output : Bytes)
    → 0 < n
    → output ≢ []
    → (chunk_size n output ≤ n) × (chunk_size n output ≤ length output) × (0 < chunk_size n output)
unfolding chunk_size
chunk_size_bounds n [] h ne = absurd (ne refl)
chunk_size_bounds n (c ∷ output) h ne = ground arith

write_chunks-holding :
    (fuel packet_max : ℕ) (output o : Bytes) (e : Error)
    → length output ≤ fuel
    → 5 < packet_max
    → packet_max ≤ 65519
    → (ps : List Bytes) × (write_chunks fuel packet_max output (holding o e)
        ≡ (ok tt, holding (o ++ band_frames ps) e))
      × (joined ps ≡ output)
      × All (FitsBand packet_max) ps
unfolding write_chunks
write_chunks-holding fuel packet_max [] o e h lo hi = ([], rw append-nil refl, refl, tt)
write_chunks-holding zero packet_max (c ∷ output) o e h lo hi = absurd (omega arith)
write_chunks-holding (suc fuel) packet_max (c ∷ output) o e h lo hi =
    let whole = c ∷ output in
    let n = chunk_size (packet_max - 5) whole in
    let p = take n whole in
    let (small, short, some_bytes) =
      chunk_size_bounds (packet_max - 5) whole (omega arith) (λ x. cc x) in
    let size : length p ≡ n = omega (arith, length-take n whole) in
    let (ps, q, j, f) =
      write_chunks-holding fuel packet_max (drop n whole) (o ++ frame (1 ∷ p)) e
        (omega (arith, length-drop n whole)) lo hi in
    (
      p ∷ ps,
      rw (write_packet-fits (1 ∷ p) o e (λ x. cc x) (omega arith), q)
          (ap (λ (s : Bytes). (ok tt, holding s e))
            (append_assoc o (frame (1 ∷ p)) (band_frames ps))),
      ap (λ (s : Bytes). p ++ s) j ∙ take-append-drop n whole,
      (
        (
          (λ x. absurd (omega (arith, size, some_bytes, ap length x))),
          omega (
            arith,
            size,
            length-append (format_hex (4 + length (1 ∷ p))) (1 ∷ p),
            length-format_hex (4 + length (1 ∷ p)),
          ),
        ),
        f,
      ),
    )

pub side_band_buf_size_bounds :
    (c : Capabilities) → (5 < side_band_buf_size c) × (side_band_buf_size c ≤ 65519)
unfolding side_band_buf_size
side_band_buf_size_bounds c = ground arith

-- If the client asked for a sideband and each line of the report fits into a packet, then report
-- writes packets of the first band, none of them empty and none longer than the size of the band,
-- whose data joined in order are the whole report, and a flush packet behind them.
pub report-sideband :
    (b : Bool) (cs : List Command) (c : Capabilities) (o : Bytes) (e : Error)
    → use_side_band c ≡ true
    → AllFit cs
    → (ps : List Bytes) × (report b cs c (holding o e)
        ≡ (ok tt, holding (o ++ (band_frames ps ++ flush)) e))
      × (joined ps ≡ report_text b cs)
      × All (FitsBand (side_band_buf_size c)) ps
unfolding report send_report ignoring_error
report-sideband b cs c o e y h =
    let text = report_text b cs in
    let (lo, hi) = side_band_buf_size_bounds c in
    let (ps, q, j, f) =
      write_chunks-holding (length text) (side_band_buf_size c) text o e (omega arith) lo hi in
    (
      ps,
      rw (y, write_report-holding b cs [] Error.eof h, q, write-holding)
          (ap (λ (s : Bytes). (ok tt, holding s e)) (append_assoc o (band_frames ps) flush)),
      j,
      f,
    )

-- If the client asked for no sideband and each line of the report fits into a packet, then report
-- writes the report itself.
pub report_plain :
    (b : Bool) (cs : List Command) (c : Capabilities) (o : Bytes) (e : Error)
    → use_side_band c ≡ false
    → AllFit cs
    → report b cs c (holding o e) ≡ (ok tt, holding (o ++ report_text b cs) e)
unfolding report
report_plain b cs c o e n h = rw n (write_report-holding b cs o e h)
