-- ===== src/Spokes/Packet/Written.antt =====
-- What the packet writers put out: framed packets that a Pktline reads back, and on a connection
-- that breaks a beginning of them.
use spokes_receive_pack.Base.{
  ◌≤◌, [], ◌∷◌, ◌++◌, ◌≡◌, ◌≢◌, refl, Bytes, length, le→ltb, append_assoc,
}
use spokes_receive_pack.Base.Exec.{ok, Error}
use spokes_receive_pack.Go.Writer.{holding, write-holding}
use spokes_receive_pack.Pktline.Reads.{frame}
use spokes_receive_pack.Spokes.Packet.{write_packet_line, write_packet}

-- If data have at most 65516 bytes, then writePacketLine writes their length with the header in
-- four hexadecimal digits and the data, and no more.
pub write_packet_line-fits :
    (line o : Bytes) (e : Error)
    → length line ≤ 65516
    → write_packet_line line (holding o e) ≡ (ok tt, holding (o ++ frame line) e)
unfolding write_packet_line
write_packet_line-fits line o e h =
    rw (le→ltb 65516 (length line) h, write-holding, write-holding, append_assoc) refl

pub write_packet-fits :
    (line o : Bytes) (e : Error)
    → line ≢ []
    → length line ≤ 65516
    → write_packet line (holding o e) ≡ (ok tt, holding (o ++ frame line) e)
unfolding write_packet
write_packet-fits [] o e ne h = absurd (ne refl)
write_packet-fits (c ∷ line) o e ne h = write_packet_line-fits (c ∷ line) o e h
