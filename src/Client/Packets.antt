-- ===== src/Client/Packets.antt =====
-- readPktline on what the server writes (internal/integration/parse.go).
use spokes_receive_pack.Base.{
  ℕ, ◌+◌, ◌-◌, ◌≤◌, ◌<◌, false, ◌++◌, none, some, ◌≡◌, refl, arith, Bytes, codes, length, ◌==◌, ltb,
  append_assoc,
}
use spokes_receive_pack.Base.Exec.{ok, Error}
use spokes_receive_pack.Go.Reader.{read_full-append}
use spokes_receive_pack.Go.Strconv.{parse_uint, format_hex, parse_uint-format_hex}
use spokes_receive_pack.Pktline.Reads.{frame, from}
use spokes_receive_pack.Client.{read_size, size_of, read_data, read_pktline}

read_size-hex :
    (n : ℕ) (rest : Bytes) (e : Error)
    → read_size (from (format_hex n ++ rest) e) ≡ (ok (format_hex n), from rest e)
unfolding read_size format_hex
read_size-hex n rest e = refl

size_of-hex : (n : ℕ) → n < 65536 → size_of (format_hex n) ≡ ok n
unfolding size_of
size_of-hex n h = rw (size_of, parse_uint-format_hex n h) refl

read_data-append :
    (d rest : Bytes) (e : Error)
    → read_data (length d) (from (d ++ rest) e) ≡ (ok (some d), from rest e)
unfolding read_data
read_data-append d rest e = rw (read_full-append d rest e) refl

-- The client reads the data of a packet, and nothing behind them.
pub read_pktline-frame :
    (d rest : Bytes) (e : Error)
    → length d ≤ 65531
    → read_pktline (from (frame d ++ rest) e) ≡ (ok (some d), from rest e)
unfolding read_pktline
read_pktline-frame d rest e h =
    let n = 4 + length d in
    let not_zero : (n == 0) ≡ false = ground arith in
    let not_short : ltb n 4 ≡ false = ground arith in
    let size : n - 4 ≡ length d = omega arith in
    rw
      (
        append_assoc (format_hex n) d rest,
        read_size-hex n (d ++ rest) e,
        size_of-hex n (omega arith),
        not_zero,
        not_short,
        size,
        read_data-append d rest e,
      )
      refl

pub read_pktline-flush :
    (rest : Bytes) (e : Error)
    → read_pktline (from (codes "0000" ++ rest) e) ≡ (ok none, from rest e)
unfolding read_pktline read_size size_of parse_uint
read_pktline-flush rest e = refl
