-- ===== src/Go/Reader.antt =====
-- io.Reader as the bytes that are still to come and the error at their end, and io.ReadFull.
use spokes_receive_pack.Base.{
  ℕ, Bytes, ◌∷◌, ◌++◌, ◌≡◌, arith, leb, if◌then◌else◌, length, take, drop, take-append, drop-append,
  length-append,
}
use spokes_receive_pack.Base.Exec.{Result, ok, err, Error, eof, unexpected_eof}

pub record Reader : Type 0 where
  pub bytes : Bytes
  -- what a read at the end returns: io.EOF, or the error of a connection that broke
  pub ending : Error

-- The error of a read that ended early, behind some bytes or none.
unfoldable pub short_read : Bytes → Error → Error
short_read (c ∷ got) eof = unexpected_eof
short_read _ e = e

-- io.ReadFull into a buffer of `n` bytes: the outcome, the bytes read, and the rest.
unfoldable pub read_full : Reader → ℕ → Result (Unit {0}) × Bytes × Reader
unfolding short_read
read_full r n = (
  if leb n (length r.bytes) then ok tt else err (short_read r.bytes r.ending),
  take n r.bytes,
  record r { bytes = drop n r.bytes },
)

-- A read of bytes that are there.
pub read_full-append :
    (s rest : Bytes) (e : Error)
    → read_full (record { bytes = s ++ rest; ending = e }) (length s)
      ≡ (ok tt, s, record { bytes = rest; ending = e })
unfolding read_full
read_full-append s rest e = rw (take-append, drop-append) (ground (arith, length-append s rest))
