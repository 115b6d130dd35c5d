-- ===== src/Spokes/Packet.antt =====
-- writePacketLine and writePacketf of internal/spokes/spokes.go.
pub mod Written
pub mod Ends
use spokes_receive_pack.Base.{ℕ, ◌+◌, Bytes, [], ◌∷◌, codes, ltb, if◌then◌else◌, length}
use spokes_receive_pack.Base.Exec.{Exec, pure, raise, numbered, wrapping, ◌>>=◌, ◌>>◌}
use spokes_receive_pack.Go.Strconv.{format_hex}
use spokes_receive_pack.Go.Writer.{Writer, write}

-- maximum length of a pkt-line's data component
abbrev pub max_packet_data_length : ℕ
max_packet_data_length = 65516

-- writePacketLine
unfoldable pub write_packet_line : Bytes → Exec Writer (Unit {0})
write_packet_line line =
    if ltb max_packet_data_length (length line)
    then raise (numbered (codes "data exceeds maximum pkt-line length: ") (length line))
    else do
      wrapping (codes "writing packet length") (write (format_hex (4 + length line)))
      wrapping (codes "writing packet") (write line)

-- writePacketf, on the formatted text: an empty packet is not sent
unfoldable pub write_packet : Bytes → Exec Writer (Unit {0})
write_packet [] = pure tt
write_packet (b ∷ text) = write_packet_line (b ∷ text)
