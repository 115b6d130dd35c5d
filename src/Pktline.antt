-- ===== src/Pktline.antt =====
-- internal/pktline/pktline.go: the reader of pkt-lines. `Read` fills the array of the Pktline,
-- and `Payload` and `CapabilitiesPayload` are slices of it.
pub mod Slices
pub mod Caps
pub mod Reads
pub mod Progress
use spokes_receive_pack.Base.{
  ℕ, suc, ◌+◌, Bool, true, false, not, ◌&&◌, List, [], ◌∷◌, Option, none, some, Bytes, codes, ltb,
  leb, if◌then◌else◌, equal, ◌-◌,
}
use spokes_receive_pack.Base.Exec.{
  Result, ok, err, spent, Error, eof, unexpected_eof, numbered, quoted, wrap, message, Exec, pure,
  raise, lift, gets, fail_by, ◌>>=◌, ◌>>◌,
}
use spokes_receive_pack.Go.Strings.{index_byte}
use spokes_receive_pack.Go.Strconv.{Parsed, valid, bad_syntax, out_of_range, parse_uint}
use spokes_receive_pack.Go.Reader.{Reader, read_full}
use Slices.{Buffer, zeros, Slice, contents, overwrite}
use Caps.{Capabilities, parse_capabilities, side_band, side_band_64k, is_defined}

abbrev pub max_payload : ℕ
max_payload = 65519

abbrev pub header_size : ℕ
header_size = 4

pub record Pktline : Type 0 where
  pub buf : Buffer
  pub payload_size : Slice
  pub payload : Slice
  pub capabilities_payload : Slice
  pub processed_capabilities : Bool

abbrev slice : ℕ → ℕ → Slice
slice i j = record { start = i; stop = j }

-- the length of `buf`
abbrev pub buf_size : ℕ
buf_size = header_size + max_payload + 1

-- Reset
abbrev pub reset : Pktline → Pktline
reset pl = record pl { payload_size = slice 0 4; payload = slice 4 buf_size }

-- New
abbrev pub new : Pktline
new = reset (record {
  buf = zeros;
  payload_size = slice 0 0;
  payload = slice 0 0;
  capabilities_payload = slice 0 0;
  processed_capabilities = false;
})

abbrev pub size_bytes : Pktline → Bytes
size_bytes pl = contents pl.buf pl.payload_size

-- string(pl.Payload)
abbrev pub payload_bytes : Pktline → Bytes
payload_bytes pl = contents pl.buf pl.payload

abbrev pub capabilities_bytes : Pktline → Bytes
capabilities_bytes pl = contents pl.buf pl.capabilities_payload

-- IsFlush
unfoldable pub is_flush : Pktline → Bool
is_flush pl = equal (size_bytes pl) (codes "0000")

-- IsHeartbeat
unfoldable pub is_heartbeat : Pktline → Bool
is_heartbeat pl = equal (size_bytes pl) (codes "0004")

abbrev both_bands : Error
both_bands =
    message (codes "side-band-64k and side-band capabilities cannot requested at the same time")

-- the rules that the capabilities must satisfy
unfoldable pub check_rules : Capabilities → Result Capabilities
check_rules caps =
    if is_defined caps side_band_64k && is_defined caps side_band then err both_bands else ok caps

-- Pktline.Caps
unfoldable pub capabilities : Pktline → Result Capabilities
unfolding check_rules
capabilities pl = elim (parse_capabilities (capabilities_bytes pl)) [
  | ok caps ↦ check_rules caps
  | err e ↦ err e
  | spent ↦ spent
]

abbrev ill_formed : Error → Error
ill_formed = wrap (codes "read-header: illformed pktline size")

unfoldable pub check_size : Bytes → Parsed → Result ℕ
check_size text (valid n) =
    if ltb buf_size n
    then err (numbered (codes "read-header: invalid pkt-line length: ") n)
    else ok n
check_size text bad_syntax =
    err (ill_formed (quoted (codes "strconv.ParseUint: invalid syntax") text))
check_size text (out_of_range n) =
    err (ill_formed (quoted (codes "strconv.ParseUint: value out of range") text))

-- Size
unfoldable pub size : Pktline → Result ℕ
size pl = check_size (size_bytes pl) (parse_uint (size_bytes pl) 16 16)

-- A Pktline and the reader that it reads from.
pub record Input : Type 0 where
  pub line : Pktline
  pub reader : Reader

-- io.ReadFull(r, pl.buf[start:stop])
unfoldable pub fill : ℕ → ℕ → Exec Input (Unit {0})
fill start stop s =
    let (res, got, rest) = read_full s.reader (stop - start) in
    (res, record s { reader = rest; line = record s.line { buf = overwrite s.line.buf start got } })

-- the error of reading the header
unfoldable pub header_error : Error → Error
header_error eof = eof
header_error e = wrap (codes "reading pktline size") e

-- the error of reading the payload
unfoldable pub data_error : Error → Error
data_error eof = wrap (codes "reading pktline data") unexpected_eof
data_error e = wrap (codes "reading pktline data") e

abbrev pub modify : (Pktline → Pktline) → Exec Input (Unit {0})
modify f s = (ok tt, record s { line = f s.line })

-- The payload of a line of `n` bytes, and the capabilities behind its first zero byte.
unfoldable pub cut_capabilities : ℕ → Pktline → Pktline
cut_capabilities n pl =
    let whole = record pl { payload = slice 4 n } in
    if pl.processed_capabilities then whole else elim (index_byte (payload_bytes whole) 0) [
      | none ↦ whole
      | some i ↦ record whole {
        capabilities_payload = slice (4 + (i + 1)) n;
        processed_capabilities = true;
        payload = slice 4 (4 + i);
      }
    ]

-- Read, behind the header of a line of `n` bytes
unfoldable pub read_payload : ℕ → Exec Input (Unit {0})
read_payload n =
    if leb n header_size
    then modify (λ pl. record pl { payload = slice 4 4 })
    else do fail_by data_error (fill 4 n); modify (cut_capabilities n)

-- Read
unfoldable pub read : Exec Input (Unit {0})
unfolding read_payload
read = do modify reset; fail_by header_error (fill 0 4); n ← (λ s. (size s.line, s)); read_payload n
