-- ===== src/Pktline/Progress.antt =====
-- `Read` takes bytes off its input whenever it succeeds.
use spokes_receive_pack.Base.{
  ℕ, ◌-◌, ◌+◌, ◌≤◌, ◌≡◌, ◌≢◌, ap, arith, length, length-drop, leb, Bool-cases, inl, inr,
}
use spokes_receive_pack.Base.Exec.{Result, ok, spent, fail_by}
use spokes_receive_pack.Base.Inversion.{
  continue-ok, continue-spent, failed_by-ok, failed_by-spent, Result-cases,
}
use spokes_receive_pack.Pktline.Caps.{Capabilities, parse_capabilities}
use spokes_receive_pack.Pktline.Caps.Parsing.{parse_capabilities-ne-spent}
use spokes_receive_pack.Go.Reader.{read_full}
use spokes_receive_pack.Pktline.{
  Pktline, Input, reset, fill, size, check_size, read, read_payload, capabilities, check_rules,
  capabilities_bytes, header_error, data_error, header_size,
}

abbrev pub left : Input → ℕ
left s = length s.reader.bytes

-- A successful fill takes its bytes off the input.
fill-takes : (i j : ℕ) (s t : Input) (u : Unit) → fill i j s ≡ (ok u, t) → left t + (j - i) ≡ left s
unfolding fill read_full
fill-takes i j s t u h =
    let rest = ap (λ (p : Result (Unit {0}) × Input). left p.1) h in
    let fits = ap (λ (p : Result (Unit {0}) × Input). p.0) h in
    ground (arith, rest, fits, length-drop (j - i) s.reader.bytes)

fill-ne-spent : (i j : ℕ) (s : Input) → (fill i j s).0 ≢ spent
unfolding fill read_full
fill-ne-spent i j s = ground arith

size-ne-spent : (pl : Pktline) → size pl ≢ spent
unfolding size check_size
size-ne-spent pl = ground arith

read_payload-takes :
    (n : ℕ) (s t : Input) (u : Unit) → read_payload n s ≡ (ok u, t) → left t ≤ left s
unfolding read_payload
read_payload-takes n s t u h = elim (Bool-cases (leb n header_size)) [
  | inl y ↦ omega (arith, ap (λ (p : Result (Unit {0}) × Input). left p.1) (rw y at h))
  | inr y ↦
      let (v, w, p, q) = continue-ok (fail_by data_error (fill 4 n) s) _ (rw y at h) in
      omega (
        arith,
        fill-takes 4 n s w v (failed_by-ok data_error (fill 4 n s) p),
        ap (λ (p : Result (Unit {0}) × Input). left p.1) q,
      )
]

-- If Read succeeds, then it took at least the four bytes of the header off the input.
pub read-takes : (s t : Input) (u : Unit) → read s ≡ (ok u, t) → left t + 4 ≤ left s
unfolding read
read-takes s t u h =
    let s0 = record s { line = reset s.line } in
    let (v, s1, p, q) = continue-ok (fail_by header_error (fill 0 4) s0) _ h in
    let (n, s2, p', q') = continue-ok (size s1.line, s1) read_payload q in
    omega (
      arith,
      fill-takes 0 4 s0 s1 v (failed_by-ok header_error (fill 0 4 s0) p),
      ap (λ (p : Result ℕ × Input). left p.1) p',
      read_payload-takes n s2 t u q',
    )

read_payload-ne-spent : (n : ℕ) (s : Input) → (read_payload n s).0 ≢ spent
unfolding read_payload
read_payload-ne-spent n s h = elim (Bool-cases (leb n header_size)) [
  | inl y ↦ cc (rw y at h)
  | inr y ↦ elim (continue-spent (fail_by data_error (fill 4 n) s) _ (rw y at h)) [
    | inl e ↦ fill-ne-spent 4 n s (failed_by-spent data_error (fill 4 n s) e)
    | inr (v, w, p, q) ↦ cc q
  ]
]

-- Reading ends, with a line or an error.
pub read-ne-spent : (s : Input) → (read s).0 ≢ spent
unfolding read
read-ne-spent s h =
    let s0 = record s { line = reset s.line } in
    elim (continue-spent (fail_by header_error (fill 0 4) s0) _ h) [
      | inl e ↦ fill-ne-spent 0 4 s0 (failed_by-spent header_error (fill 0 4 s0) e)
      | inr (v, s1, p, q) ↦ elim (continue-spent (size s1.line, s1) read_payload q) [
        | inl e ↦ size-ne-spent s1.line e
        | inr (n, s2, p', q') ↦ read_payload-ne-spent n s2 q'
      ]
    ]

-- The capabilities of a line are a value or an error.
pub capabilities-ne-spent : (pl : Pktline) → capabilities pl ≢ spent
unfolding capabilities check_rules
capabilities-ne-spent pl h = elim (Result-cases (parse_capabilities (capabilities_bytes pl))) [
  | inl (caps, e) ↦ rules-ne-spent caps (rw (capabilities, e) at h)
  | inr (inl (e, q)) ↦ cc (rw (capabilities, q) at h)
  | inr (inr q) ↦ parse_capabilities-ne-spent (capabilities_bytes pl) q
]
  where
    rules-ne-spent : (caps : Capabilities) → check_rules caps ≢ spent
    rules-ne-spent caps = ground arith
