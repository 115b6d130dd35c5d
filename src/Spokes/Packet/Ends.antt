-- ===== src/Spokes/Packet/Ends.antt =====
-- Writes, and writePacketLine and writePacketf of internal/spokes/spokes.go, end.
use spokes_receive_pack.Base.{
  Bytes, [], ◌∷◌, ltb, length, Bool-cases, inl, inr, zero, suc, none, some, Option, ℕ, codes, ◌+◌,
  ◌≢◌,
}
use spokes_receive_pack.Base.Exec.{spent, numbered, wrapping}
use spokes_receive_pack.Base.Ends.{Ends, pure-Ends, raise-Ends, >>-Ends, wrapping-Ends}
use spokes_receive_pack.Go.Strconv.{format_hex}
use spokes_receive_pack.Go.Writer.{write}
use spokes_receive_pack.Spokes.Packet.{max_packet_data_length, write_packet_line, write_packet}

pub write-Ends : (d : Bytes) → Ends (write d)
unfolding write
write-Ends d w h = go w.room h
  where
    go : (room : Option ℕ) → (write d (record w { room = room })).0 ≢ spent
    go none h = cc h
    go (some zero) h = cc h
    go (some (suc k)) h = cc h

pub write_packet_line-Ends : (d : Bytes) → Ends (write_packet_line d)
unfolding write_packet_line
write_packet_line-Ends d = elim (Bool-cases (ltb max_packet_data_length (length d))) [
  | inl y ↦
      rw (write_packet_line, y)
        (raise-Ends (numbered (codes "data exceeds maximum pkt-line length: ") (length d)))
  | inr n ↦
      rw (write_packet_line, n)
        (>>-Ends (wrapping (codes "writing packet length") (write (format_hex (4 + length d))))
          (wrapping (codes "writing packet") (write d))
          (wrapping-Ends (codes "writing packet length") (write (format_hex (4 + length d)))
            (write-Ends (format_hex (4 + length d))))
          (wrapping-Ends (codes "writing packet") (write d) (write-Ends d)))
]

pub write_packet-Ends : (d : Bytes) → Ends (write_packet d)
unfolding write_packet
write_packet-Ends [] = pure-Ends tt
write_packet-Ends (b ∷ d) = write_packet_line-Ends (b ∷ d)
