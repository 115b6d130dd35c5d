-- ===== src/Spokes/Report/Ends.antt =====
-- writeReport and report of internal/spokes/spokes.go end.
use spokes_receive_pack.Base.{
  refl, if◌then◌else◌, ℕ, zero, suc, ◌≤◌, ◌-◌, Bool, List, [], ◌∷◌, Bytes, codes, length,
  length-drop, take, drop, ◌≢◌, arith, Bool-cases, inl, inr,
}
use spokes_receive_pack.Base.Exec.{Result, ok, err, spent, wrapping, ◌>>◌}
use spokes_receive_pack.Base.Ends.{Ends, pure-Ends, raise-Ends, >>-Ends, wrapping-Ends}
use spokes_receive_pack.Go.Writer.{write, buffer}
use spokes_receive_pack.Pktline.Caps.{Capabilities}
use spokes_receive_pack.Spokes.Command.{Command}
use spokes_receive_pack.Spokes.Packet.{write_packet_line, write_packet}
use spokes_receive_pack.Spokes.Packet.Ends.{write-Ends, write_packet_line-Ends, write_packet-Ends}
use spokes_receive_pack.Spokes.Report.{
  unpack_ok, unpack_failed, flush, report_line, write_commands, write_report, use_side_band,
  side_band_buf_size, chunk_size, write_chunks, ignoring_error, send_report, report,
}
use spokes_receive_pack.Spokes.Report.Decodes.{chunk_size_bounds, side_band_buf_size_bounds}

write_commands-Ends : (cs : List Command) → Ends (write_commands cs)
unfolding write_commands
write_commands-Ends [] = pure-Ends tt
write_commands-Ends (c ∷ cs) =
    >>-Ends (write_packet (report_line c)) (write_commands cs) (write_packet-Ends (report_line c))
      (write_commands-Ends cs)

write_report-Ends : (b : Bool) (cs : List Command) → Ends (write_report b cs)
unfolding write_report
write_report-Ends b cs =
    let line = if b then unpack_ok else unpack_failed in
    >>-Ends (write_packet_line line) (write_commands cs >> write flush)
      (write_packet_line-Ends line)
      (>>-Ends (write_commands cs) (write flush) (write_commands-Ends cs) (write-Ends flush))

write_chunks-Ends :
    (fuel packet_max : ℕ) (output : Bytes)
    → length output ≤ fuel
    → 6 ≤ packet_max
    → Ends (write_chunks fuel packet_max output)
unfolding write_chunks
write_chunks-Ends fuel packet_max [] k m = pure-Ends tt
write_chunks-Ends zero packet_max (c ∷ output) k m = absurd (omega arith)
write_chunks-Ends (suc fuel) packet_max (c ∷ output) k m =
    let n = chunk_size (packet_max - 5) (c ∷ output) in
    let (_, _, lo) = chunk_size_bounds (packet_max - 5) (c ∷ output) (omega arith) (λ x. cc x) in
    >>-Ends (wrapping (codes "writing output to client") (write_packet (1 ∷ take n (c ∷ output))))
      (write_chunks fuel packet_max (drop n (c ∷ output)))
      (wrapping-Ends (codes "writing output to client") _
        (write_packet-Ends (1 ∷ take n (c ∷ output))))
      (write_chunks-Ends fuel packet_max (drop n (c ∷ output))
        (omega (arith, length-drop n (c ∷ output))) m)

send_report-Ends :
    (r : Result (Unit {0})) (output : Bytes) (c : Capabilities)
    → r ≢ spent
    → Ends (send_report r output c)
unfolding send_report ignoring_error
send_report-Ends (ok u) output c k =
    >>-Ends (write_chunks (length output) (side_band_buf_size c) output)
      (ignoring_error (write flush))
      (write_chunks-Ends (length output) (side_band_buf_size c) output (omega arith)
        (side_band_buf_size_bounds c).0)
      (λ s h. cc h)
send_report-Ends (err e) output c k = raise-Ends e
send_report-Ends spent output c k = absurd (k refl)

-- report ends, whatever the writer does.
pub report-Ends : (b : Bool) (cs : List Command) (c : Capabilities) → Ends (report b cs c)
unfolding report
report-Ends b cs c = elim (Bool-cases (use_side_band c)) [
  | inl y ↦
      rw (report, y)
        (send_report-Ends (write_report b cs buffer).0 (write_report b cs buffer).1.out c
          (write_report-Ends b cs buffer))
  | inr n ↦ rw (report, n) (write_report-Ends b cs)
]
