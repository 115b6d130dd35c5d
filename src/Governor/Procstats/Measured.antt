-- ===== src/Governor/Procstats/Measured.antt =====
-- What the statistics of the process are (internal/governor/procstats_linux.go).
use spokes_receive_pack.Base.{
  ℕ, zero, suc, ◌+◌, ◌-◌, ◌*◌, ◌^◌, true, false, List, [], ◌∷◌, Option, none, some, ◌≡◌, refl, sym,
  ap, ◌∙◌, arith, Bytes, codes, drop, ltb, ◌⊎◌, inl, inr, Bool-cases, if◌then◌else◌,
}
use spokes_receive_pack.Go.Strings.{has_prefix, index, split, append-drop_prefix}
use spokes_receive_pack.Go.Strconv.{
  Parsed, bad_syntax, out_of_range, parse_uint, scan_digits, digit_value, returned, failed,
}
use spokes_receive_pack.Governor.Procstats.{
  Proc, get_proc_stats, Disk, or_zero, peak_of, peak_prefix, get_peak_rss, cancel, read_io_line,
  read_io_lines, disk_of,
}

found :
    (c : ℕ) (s p : Bytes) (i : ℕ)
    → has_prefix (c ∷ s) p ≡ true
    → ◌≡◌ {A = Option ℕ} (some 0) (some i)
    → has_prefix (drop i (c ∷ s)) p ≡ true
found c s p zero y h = y
found c s p (suc i) y h = absurd (cc h)

abbrev one_later : Option ℕ → Option ℕ
one_later x = elim x [ none ↦ none | some i ↦ some (suc i) ]

later :
    (c : ℕ) (s p : Bytes) (i : ℕ) (x : Option ℕ)
    → has_prefix (c ∷ s) p ≡ false
    → index s p ≡ x
    → ((j : ℕ) → index s p ≡ some j → has_prefix (drop j s) p ≡ true)
    → one_later x ≡ some i
    → has_prefix (drop i (c ∷ s)) p ≡ true
later c s p i none n q f h = absurd (cc h)
later c s p zero (some j) n q f h = absurd (cc h)
later c s p (suc i) (some j) n q f h = let same : j ≡ i = cc h in f i (q ∙ ap some same)

index-has_prefix : (s p : Bytes) (i : ℕ) → index s p ≡ some i → has_prefix (drop i s) p ≡ true
unfolding index
index-has_prefix [] p i h = absurd (cc h)
index-has_prefix (c ∷ s) p i h = elim (Bool-cases (has_prefix (c ∷ s) p)) [
  | inl y ↦ found c s p i y (rw (index, y) at h)
  | inr n ↦ later c s p i (index s p) n refl (λ j. index-has_prefix s p j) (rw (index, n) at h)
]

not_a_number : (s : Bytes) → has_prefix s peak_prefix ≡ true → parse_uint s 10 64 ≡ bad_syntax
unfolding parse_uint scan_digits digit_value
not_a_number s h = rw (sym (append-drop_prefix s peak_prefix h)) refl

peak_of-zero : (status : Bytes) (i : Option ℕ) → index status peak_prefix ≡ i → peak_of status i ≡ 0
unfolding peak_of or_zero
peak_of-zero status none h = refl
peak_of-zero status (some i) h =
    rw (not_a_number (drop i status) (index-has_prefix status peak_prefix i h)) refl

-- The peak of the resident memory is 0, for each text of /proc/self/status.
pub get_peak_rss-zero : (status : Option Bytes) → get_peak_rss status ≡ 0
unfolding get_peak_rss
get_peak_rss-zero none = refl
get_peak_rss-zero (some status) = peak_of-zero status (index status peak_prefix) refl

abbrev digit_step : Bytes → ℕ → Option ℕ → Parsed
digit_step s n x = elim x [
  | none ↦ bad_syntax
  | some d ↦
      let rest = scan_digits 10 (2 ^ 64 - 1) s (n * 10 + d) in
      if ltb (2 ^ 64 - 1) (n * 10 + d) then out_of_range (2 ^ 64 - 1) else rest
]

-- What ParseUint returns beside an error for 64 bits.
abbrev pub IsExtreme : ℕ → Type 0
IsExtreme n = (n ≡ 0) ⊎ (n ≡ 2 ^ 64 - 1)

scan_digits-failed :
    (s : Bytes) (n : ℕ)
    → failed (scan_digits 10 (2 ^ 64 - 1) s n) ≡ true
    → IsExtreme (returned (scan_digits 10 (2 ^ 64 - 1) s n))
unfolding scan_digits failed returned
scan_digits-failed [] n h = absurd (cc h)
scan_digits-failed (c ∷ s) n h =
    next c s n (digit_value 10 c) (λ d. scan_digits-failed s (n * 10 + d)) h
  where
    next :
        (c : ℕ) (s : Bytes) (n : ℕ) (d : Option ℕ)
        → ((d : ℕ)
            → failed (scan_digits 10 (2 ^ 64 - 1) s (n * 10 + d)) ≡ true
            → IsExtreme (returned (scan_digits 10 (2 ^ 64 - 1) s (n * 10 + d))))
        → failed (digit_step s n d) ≡ true
        → IsExtreme (returned (digit_step s n d))
    next c s n none f h = inl refl
    next c s n (some d) f h = elim (Bool-cases (ltb (2 ^ 64 - 1) (n * 10 + d))) [
      | inl y ↦ rw y (inr refl)
      | inr q ↦ rw q (f d (rw q at h))
    ]

parse_uint-failed :
    (s : Bytes) → failed (parse_uint s 10 64) ≡ true → IsExtreme (returned (parse_uint s 10 64))
unfolding parse_uint returned
parse_uint-failed [] h = inl refl
parse_uint-failed (c ∷ s) h = scan_digits-failed (c ∷ s) 0 h

abbrev AreExtreme : Disk → Type 0
AreExtreme d = IsExtreme d.read_bytes × IsExtreme d.write_bytes

cancel-IsExtreme : (v : ℕ) (d : Disk) → IsExtreme v → AreExtreme d → AreExtreme (cancel v d)
unfolding cancel
cancel-IsExtreme v d (inl q) (r, w) = (
  r,
  (let none_left : ltb d.write_bytes 0 ≡ false = ground arith in
      let same : d.write_bytes - 0 ≡ d.write_bytes = omega arith in simp (q, none_left, same) w),
)
cancel-IsExtreme v d (inr q) (r, inl w) = (r, simp (q, w) (inl refl))
cancel-IsExtreme v d (inr q) (r, inr w) = (r, simp (q, w) (inl refl))

read_io_line-AreExtreme :
    (line : Bytes) (d : Disk) → AreExtreme d → AreExtreme (read_io_line line d)
unfolding read_io_line
read_io_line-AreExtreme line d (r, w) = elim (Bool-cases (has_prefix line (codes "read_bytes: "))) [
  | inl y ↦ elim (Bool-cases (failed (parse_uint (drop 12 line) 10 64))) [
    | inl f ↦ rw (read_io_line, y, f) (parse_uint-failed (drop 12 line) f, w)
    | inr f ↦ rw (read_io_line, y, f) (r, w)
  ]
  | inr y ↦ elim (Bool-cases (has_prefix line (codes "write_bytes: "))) [
    | inl z ↦ elim (Bool-cases (failed (parse_uint (drop 13 line) 10 64))) [
      | inl f ↦ rw (read_io_line, y, z, f) (r, parse_uint-failed (drop 13 line) f)
      | inr f ↦ rw (read_io_line, y, z, f) (r, w)
    ]
    | inr z ↦ elim (Bool-cases (has_prefix line (codes "cancelled_write_bytes: "))) [
      | inl x ↦ elim (Bool-cases (failed (parse_uint (drop 23 line) 10 64))) [
        | inl f ↦
            rw (read_io_line, y, z, x, f)
              (cancel-IsExtreme (returned (parse_uint (drop 23 line) 10 64)) d
                (parse_uint-failed (drop 23 line) f) (r, w))
        | inr f ↦ rw (read_io_line, y, z, x, f) (r, w)
      ]
      | inr x ↦ rw (read_io_line, y, z, x) (r, w)
    ]
  ]
]

read_io_lines-AreExtreme :
    (lines : List Bytes) (d : Disk) → AreExtreme d → AreExtreme (read_io_lines lines d)
unfolding read_io_lines
read_io_lines-AreExtreme [] d h = h
read_io_lines-AreExtreme (l ∷ lines) d h =
    read_io_lines-AreExtreme lines (read_io_line l d) (read_io_line-AreExtreme l d h)

-- For all that the operating system answers, the peak of the resident memory is 0, and the bytes
-- read and the bytes written are 0 or 2 ^ 64 - 1.
pub get_proc_stats-IsExtreme :
    (p : Proc)
    → (get_peak_rss p.status ≡ 0)
      × IsExtreme (get_proc_stats p).disk_read_bytes
      × IsExtreme (get_proc_stats p).disk_write_bytes
unfolding get_proc_stats disk_of
get_proc_stats-IsExtreme p = let (r, w) = go p.io in (get_peak_rss-zero p.status, r, w)
  where
    go : (io : Option Bytes) → AreExtreme (disk_of io)
    go none = (inl refl, inl refl)
    go (some io) =
        read_io_lines-AreExtreme (split io b'\n') (record { read_bytes = 0; write_bytes = 0 })
          (inl refl, inl refl)
