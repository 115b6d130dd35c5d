-- ===== src/Spokes/Report.antt =====
-- writeReport and report of internal/spokes/spokes.go: the outcome of the push for the client.
pub mod Decodes
pub mod Ends
use spokes_receive_pack.Base.{
  ℕ, zero, suc, ◌-◌, Bool, true, false, ◌||◌, List, [], ◌∷◌, ◌++◌, Bytes, codes, ltb, if◌then◌else◌,
  length, take, drop,
}
use spokes_receive_pack.Base.Exec.{
  Result, ok, err, spent, Exec, pure, raise, out_of_fuel, wrapping, ◌>>=◌, ◌>>◌,
}
use spokes_receive_pack.Go.Writer.{Writer, write, buffer}
use spokes_receive_pack.Pktline.Caps.{Capabilities, is_defined, side_band, side_band_64k}
use spokes_receive_pack.Pktline.Caps
use spokes_receive_pack.Spokes.Command.{Command, not_rejected}
use spokes_receive_pack.Spokes.Packet.{write_packet_line, write_packet}

abbrev pub unpack_ok : Bytes
unpack_ok = codes "unpack ok\n"

abbrev pub unpack_failed : Bytes
unpack_failed = codes "unpack index-pack failed\n"

abbrev pub flush : Bytes
flush = codes "0000"

-- The line of a command in the report.
unfoldable pub report_line : Command → Bytes
report_line c =
    if not_rejected c
    then c.report_ff ++ (b' ' ∷ (c.refname ++ (b'\n' ∷ [])))
    else codes "ng " ++ (c.refname ++ (b' ' ∷ (c.err ++ (b'\n' ∷ []))))

-- the loop of writeReport
unfoldable pub write_commands : List Command → Exec Writer (Unit {0})
write_commands [] = pure tt
write_commands (c ∷ cs) = do write_packet (report_line c); write_commands cs

-- writeReport
unfoldable pub write_report : Bool → List Command → Exec Writer (Unit {0})
write_report unpack_is_ok commands = do
  write_packet_line (if unpack_is_ok then unpack_ok else unpack_failed)
  write_commands commands
  write flush

-- useSideBand
unfoldable pub use_side_band : Capabilities → Bool
use_side_band c = is_defined c side_band || is_defined c side_band_64k

-- sideBandBufSize
unfoldable pub side_band_buf_size : Capabilities → ℕ
side_band_buf_size c = if is_defined c side_band_64k then 65519 else 999

-- isQuiet
unfoldable pub is_quiet : Capabilities → Bool
is_quiet c = is_defined c Caps.quiet

-- `if len(output) < n { n = len(output) }`
unfoldable pub chunk_size : ℕ → Bytes → ℕ
chunk_size n output = if ltb (length output) n then length output else n

-- the loop of report: the output in packets of the first sideband
unfoldable pub write_chunks : ℕ → ℕ → Bytes → Exec Writer (Unit {0})
write_chunks fuel packet_max [] = pure tt
write_chunks zero packet_max (c ∷ output) = out_of_fuel
write_chunks (suc fuel) packet_max (c ∷ output) = do
  wrapping (codes "writing output to client")
      (write_packet (1 ∷ take (chunk_size (packet_max - 5) (c ∷ output)) (c ∷ output)))
  write_chunks fuel packet_max (drop (chunk_size (packet_max - 5) (c ∷ output)) (c ∷ output))

-- The error of the last write is dropped: `if _, err := …; err != nil { return nil }`.
unfoldable pub ignoring_error : Exec Writer (Unit {0}) → Exec Writer (Unit {0})
ignoring_error m w = (ok tt, (m w).1)

-- `if err := writeReport(&buf, …); err != nil { return err }`, and then the output
unfoldable pub send_report : Result (Unit {0}) → Bytes → Capabilities → Exec Writer (Unit {0})
send_report (ok u) output c = do
  write_chunks (length output) (side_band_buf_size c) output
  ignoring_error (write flush)
send_report (err e) output c = raise e
send_report spent output c = out_of_fuel

-- report
unfoldable pub report : Bool → List Command → Capabilities → Exec Writer (Unit {0})
report unpack_is_ok commands c =
    if use_side_band c
    then send_report (write_report unpack_is_ok commands buffer).0
        (write_report unpack_is_ok commands buffer).1.out c
    else write_report unpack_is_ok commands
