-- ===== src/Spokes/Unpack/Bands.antt =====
-- What of index-pack's standard error reaches the client.
use spokes_receive_pack.Base.{
  suc, ◌≤◌, ◌<◌, Bool, true, false, ◌||◌, List, [], ◌∷◌, ◌++◌, ◌≡◌, refl, ap, arith, Bytes, codes,
  length, All, append_assoc, append-nil, lt→ltb,
}
use spokes_receive_pack.Base.Exec.{ok, err, Error, numbered, wrap}
use spokes_receive_pack.Go.Writer.{Writer, holding}
use spokes_receive_pack.Pktline.Caps.{Capabilities, is_defined, side_band_64k}
use spokes_receive_pack.Pktline.Reads.{frame}
use spokes_receive_pack.Spokes.Outside.{IndexPack}
use spokes_receive_pack.Spokes.Packet.{write_packet, write_packet_line}
use spokes_receive_pack.Spokes.Packet.Written.{write_packet-fits}
use spokes_receive_pack.Spokes.Report.{use_side_band, side_band_buf_size}
use spokes_receive_pack.Spokes.Unpack.{multiplex, forward_stderr, succeeded}

-- Each read in a packet of the second sideband.
abbrev pub error_frames : List Bytes → Bytes
error_frames [] = []
error_frames (chunk ∷ chunks) = frame (2 ∷ chunk) ++ error_frames chunks

multiplex-holding :
    (chunks : List Bytes) (o : Bytes) (e : Error)
    → All (λ p. length p ≤ 65515) chunks
    → multiplex chunks (holding o e) ≡ (ok tt, holding (o ++ error_frames chunks) e)
unfolding multiplex
multiplex-holding [] o e h = rw append-nil refl
multiplex-holding (p ∷ chunks) o e (k, h) =
    rw
      (
        write_packet-fits (2 ∷ p) o e (λ x. cc x) (omega arith),
        multiplex-holding chunks (o ++ frame (2 ∷ p)) e h,
      )
      (ap (λ (s : Bytes). (ok tt, holding s e))
        (append_assoc o (frame (2 ∷ p)) (error_frames chunks)))

-- If the client asked for a sideband and every read of index-pack's standard error has at most
-- 65515 bytes, then all of them are written in order as packets of the second band, and the
-- standard error is read to its end.
pub forward_stderr-holding :
    (caps : Capabilities) (run : IndexPack) (o : Bytes) (e : Error)
    → use_side_band caps ≡ true
    → All (λ p. length p ≤ 65515) (run.stderr_reads (side_band_buf_size caps))
    → forward_stderr caps run (holding o e)
      ≡ (true, holding (o ++ error_frames (run.stderr_reads (side_band_buf_size caps))) e)
unfolding forward_stderr succeeded
forward_stderr-holding caps run o e y h =
    rw (y, multiplex-holding (run.stderr_reads (side_band_buf_size caps)) o e h) refl

too_long :
    (p : Bytes) (chunks : List Bytes) (w : Writer)
    → 65515 < length p
    → multiplex (p ∷ chunks) w ≡ (
      err (
          wrap
            (codes "writing to error sideband")
            (numbered (codes "data exceeds maximum pkt-line length: ") (suc (length p)))),
      w,
    )
unfolding multiplex write_packet write_packet_line
too_long p chunks w h = rw (lt→ltb 65516 (suc (length p)) (omega arith)) refl

-- If the client asked for side-band-64k and the first read of index-pack's standard error has more
-- than 65515 bytes, as its buffer allows, then nothing is written, and the standard error is not
-- read to its end.
pub forward_stderr_loses :
    (caps : Capabilities) (run : IndexPack) (p : Bytes) (chunks : List Bytes) (w : Writer)
    → is_defined caps side_band_64k ≡ true
    → run.stderr_reads 65519 ≡ p ∷ chunks
    → 65515 < length p
    → length p ≤ side_band_buf_size caps
    → forward_stderr caps run w ≡ (false, w)
unfolding forward_stderr succeeded
forward_stderr_loses caps run p chunks w y e h k =
    let band : use_side_band caps ≡ true = unfold use_side_band in or_true _ y in
    let size : side_band_buf_size caps ≡ 65519 = unfold side_band_buf_size in rw y refl in
    rw (band, size, e, too_long p chunks w h) refl
  where
    or_true : (a : Bool) {b : Bool} → b ≡ true → (a || b) ≡ true
    or_true true q = refl
    or_true false q = q
