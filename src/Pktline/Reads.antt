-- ===== src/Pktline/Reads.antt =====
-- What `Read` makes of the bytes that come: one pkt-line at a time.
use mathlib.Core.Path.{ap₂}
use spokes_receive_pack.Base.{
  ℕ, suc, ◌+◌, ◌-◌, ◌≤◌, ◌<◌, ◌^◌, true, false, [], ◌∷◌, ◌++◌, none, some, ◌≡◌, ◌≢◌, refl, sym, ap,
  ◌∙◌, arith, Bytes, codes, equal, equal_iff, length, take, drop, length-append, append_assoc,
  drop_behind, ==_iff, ◌==◌, Option-cases, le→leb, lt→leb, le→ltb, Bool-cases, inl, inr,
  take-append, ◌⊎◌,
}
use spokes_receive_pack.Base.Exec.{ok, Error}
use spokes_receive_pack.Go.Strings.{Free, index_byte, index_byte-Free, index_byte-append}
use spokes_receive_pack.Go.Strconv.{
  format_hex, parse_uint-format_hex, length-format_hex, format_hex-injective,
}
use spokes_receive_pack.Go.Reader.{Reader, read_full-append}
use spokes_receive_pack.Pktline.Slices.{
  Buffer, Slice, contents, range, overwrite, range-overwrite, range-overwrite_behind, drop-range,
  take-range,
}
use spokes_receive_pack.Pktline.{
  Pktline, Input, reset, size, size_bytes, payload_bytes, capabilities_bytes, check_size, fill,
  read, cut_capabilities, is_flush, buf_size,
}

-- A pkt-line: the length of the whole line in four hexadecimal digits, and the data.
abbrev pub frame : Bytes → Bytes
frame d = format_hex (4 + length d) ++ d

abbrev pub from : Bytes → Error → Reader
from bytes e = record { bytes = bytes; ending = e }

abbrev pub reading : Pktline → Bytes → Error → Input
reading pl bytes e = record { line = pl; reader = from bytes e }

abbrev with_buf : Pktline → Buffer → Pktline
with_buf pl b = record pl { buf = b }

fill_lem :
    (start stop : ℕ) (d rest : Bytes) (e : Error) (pl : Pktline)
    → stop - start ≡ length d
    → fill start stop (reading pl (d ++ rest) e)
      ≡ (ok tt, reading (with_buf pl (overwrite pl.buf start d)) rest e)
unfolding fill
fill_lem start stop d rest e pl h = rw (h, read_full-append d rest e) refl

-- The Pktline after its header was read.
abbrev headed : Pktline → ℕ → Pktline
headed pl n = with_buf (reset pl) (overwrite pl.buf 0 (format_hex n))

range-header : (b : Buffer) (n : ℕ) → range (overwrite b 0 (format_hex n)) 0 4 ≡ format_hex n
range-header b n =
    ap (range (overwrite b 0 (format_hex n)) 0) (sym (length-format_hex n))
    ∙ range-overwrite (format_hex n) b 0

size-headed : (pl : Pktline) (n : ℕ) → n ≤ buf_size → size (headed pl n) ≡ ok n
unfolding size contents check_size
size-headed pl n h =
    rw (range-header pl.buf n, parse_uint-format_hex n (omega arith), le→ltb buf_size n h) refl

-- The Pktline after a line with these data was read.
unfoldable pub holding : Pktline → Bytes → Pktline
holding pl d = cut_capabilities (4 + length d) (
    with_buf (headed pl (4 + length d))
      (overwrite (overwrite pl.buf 0 (format_hex (4 + length d))) 4 d))

pub read-frame :
    (pl : Pktline) (d rest : Bytes) (e : Error)
    → d ≢ []
    → length d ≤ 65520
    → read (reading pl (frame d ++ rest) e) ≡ (ok tt, reading (holding pl d) rest e)
unfolding read holding
read-frame pl d rest e ne h =
    let n = 4 + length d in
    let h1 = fill_lem 0 4 (format_hex n) (d ++ rest) e (reset pl) (sym (length-format_hex n)) in
    let h2 = fill_lem 4 n d rest e (headed pl n) (omega arith) in
    rw (append_assoc, h1, size-headed pl n (omega arith), lt→leb n 4 (ground arith), h2) refl

-- A line of at most four bytes has no data, whatever its length says.
abbrev pub short_line : Pktline → ℕ → Pktline
short_line pl n = record (headed pl n) { payload = record { start = 4; stop = 4 } }

pub read_short :
    (pl : Pktline) (n : ℕ) (rest : Bytes) (e : Error)
    → n ≤ 4
    → read (reading pl (format_hex n ++ rest) e) ≡ (ok tt, reading (short_line pl n) rest e)
unfolding read
read_short pl n rest e h =
    let h1 = fill_lem 0 4 (format_hex n) rest e (reset pl) (sym (length-format_hex n)) in
    rw (h1, size-headed pl n (omega arith), le→leb n 4 h) refl

is_flush-header :
    (pl : Pktline) (n : ℕ) → n < 2 ^ 16 → size_bytes pl ≡ format_hex n → is_flush pl ≡ (n == 0)
unfolding is_flush
is_flush-header pl n h e = rw e (elim (Bool-cases (equal (format_hex n) (codes "0000"))) [
  | inl same ↦
      let zero_lem =
        format_hex-injective n 0 h (omega arith)
          ((equal_iff _ _).0 same ∙ unfold format_hex in refl) in
      same ∙ ground arith
  | inr other ↦
      other ∙ sym (elim (Bool-cases (n == 0)) [ inl z ↦ absurd (differ z other) | inr p ↦ p ])
])
  where
    differ : (n == 0) ≡ true → equal (format_hex n) (codes "0000") ≡ false → ⊥
    differ z other =
        let zero_lem : n ≡ 0 = (==_iff n 0).0 z in
        let same : format_hex n ≡ codes "0000" =
          ap format_hex zero_lem ∙ unfold format_hex in refl in
        cc ((equal_iff _ _).1 same)

cut-whole :
    (n : ℕ) (p : Pktline)
    → (p.processed_capabilities ≡ true) ⊎ (index_byte (range p.buf 4 (n - 4)) 0 ≡ none)
    → cut_capabilities n p ≡ record p { payload = record { start = 4; stop = n } }
unfolding cut_capabilities contents
cut-whole n p (inl e) = rw e refl
cut-whole n p (inr e) = elim (Bool-cases p.processed_capabilities) [
  | inl y ↦ rw y refl
  | inr f ↦ simp (f, e) refl
]

cut-at :
    (n i : ℕ) (p : Pktline)
    → p.processed_capabilities ≡ false
    → index_byte (range p.buf 4 (n - 4)) 0 ≡ some i
    → cut_capabilities n p ≡ record p {
      capabilities_payload = record { start = 4 + (i + 1); stop = n };
      processed_capabilities = true;
      payload = record { start = 4; stop = 4 + i };
    }
unfolding cut_capabilities contents
cut-at n i p f e = simp (f, e) refl

-- The header stays, whatever the capabilities.
cut-header :
    (n : ℕ) (p : Pktline)
    → ((cut_capabilities n p).buf ≡ p.buf) × ((cut_capabilities n p).payload_size ≡ p.payload_size)
cut-header n p = elim (Bool-cases p.processed_capabilities) [
  | inl y ↦ rw (cut-whole n p (inl y)) (refl, refl)
  | inr f ↦ elim (Option-cases (index_byte (range p.buf 4 (n - 4)) 0)) [
    | inl e ↦ rw (cut-whole n p (inr e)) (refl, refl)
    | inr (i, e) ↦ rw (cut-at n i p f e) (refl, refl)
  ]
]

-- The array after a header and data were read.
abbrev filled : Pktline → Bytes → Pktline
filled pl d =
    with_buf (headed pl (4 + length d))
      (overwrite (overwrite pl.buf 0 (format_hex (4 + length d))) 4 d)

range-filled : (pl : Pktline) (d : Bytes) → range (filled pl d).buf 4 (4 + length d - 4) ≡ d
range-filled pl d =
    ap (range (filled pl d).buf 4) (omega arith)
    ∙ range-overwrite d (overwrite pl.buf 0 (format_hex (4 + length d))) 4

size_bytes-holding :
    (pl : Pktline) (d : Bytes) → size_bytes (holding pl d) ≡ format_hex (4 + length d)
unfolding holding contents
size_bytes-holding pl d =
    let (b, s) = cut-header (4 + length d) (filled pl d) in
    ap₂ (λ (t : Buffer) (u : Slice). range t u.start (u.stop - u.start)) b s
    ∙ range-overwrite_behind 4 d _ 0 4 (omega arith)
    ∙ range-header pl.buf (4 + length d)

-- After a line with at most 65520 bytes of data the Pktline is no flush.
pub is_flush-holding :
    (pl : Pktline) (d : Bytes) → length d ≤ 65520 → is_flush (holding pl d) ≡ false
is_flush-holding pl d h =
    is_flush-header (holding pl d) (4 + length d) (omega arith) (size_bytes-holding pl d)
    ∙ ground arith

pub is_flush-short_line : (pl : Pktline) (n : ℕ) → n ≤ 4 → is_flush (short_line pl n) ≡ (n == 0)
is_flush-short_line pl n h =
    is_flush-header (short_line pl n) n (omega arith) (unfold contents in range-header pl.buf n)

holding-whole :
    (pl : Pktline) (d : Bytes)
    → (pl.processed_capabilities ≡ true) ⊎ Free 0 d
    → holding pl d ≡ record (filled pl d) { payload = record { start = 4; stop = 4 + length d } }
unfolding holding
holding-whole pl d (inl y) = cut-whole (4 + length d) (filled pl d) (inl y)
holding-whole pl d (inr f) =
    cut-whole (4 + length d) (filled pl d) (inr (rw (range-filled pl d) (index_byte-Free 0 d f)))

-- If the capabilities were read before or a line has no zero byte, then all its data are the
-- payload, and the Pktline has capabilities exactly if it had them before.
pub payload-holding :
    (pl : Pktline) (d : Bytes)
    → (pl.processed_capabilities ≡ true) ⊎ Free 0 d
    → (payload_bytes (holding pl d) ≡ d)
      × ((holding pl d).processed_capabilities ≡ pl.processed_capabilities)
payload-holding pl d h = rw (holding-whole pl d h) (unfold contents in range-filled pl d, refl)

-- If no capabilities were read before, the data before the first zero byte of a line are its
-- payload, the bytes behind it are the capabilities, and the Pktline remembers that it has them.
pub capabilities-holding :
    (pl : Pktline) (d c : Bytes)
    → pl.processed_capabilities ≡ false
    → Free 0 d
    → (payload_bytes (holding pl (d ++ 0 ∷ c)) ≡ d)
      × (capabilities_bytes (holding pl (d ++ 0 ∷ c)) ≡ c)
      × ((holding pl (d ++ 0 ∷ c)).processed_capabilities ≡ true)
unfolding holding contents
capabilities-holding pl d c h f =
    let whole = d ++ 0 ∷ c in
    let n = 4 + length whole in
    let b = (filled pl whole).buf in
    let all : range b 4 (length whole) ≡ whole = range-overwrite whole _ 4 in
    let longer : suc (length d) ≤ length whole = omega (arith, length-append d (0 ∷ c)) in
    let found : index_byte (range b 4 (n - 4)) 0 ≡ some (length d) =
      ap (λ s. index_byte s 0) (range-filled pl whole) ∙ index_byte-append 0 d c f in
    rw (cut-at n (length d) (filled pl whole) h found) (
      ap (range b 4) (omega arith)
          ∙ sym (take-range (length d) (length whole) b 4 (omega arith))
          ∙ ap (take (length d)) all
          ∙ take-append d (0 ∷ c),
      ap₂ (range b) (omega arith) (omega arith)
          ∙ sym (drop-range (suc (length d)) (length whole) b 4 longer)
          ∙ ap (drop (suc (length d))) all
          ∙ drop_behind d 0 c,
      refl,
    )
