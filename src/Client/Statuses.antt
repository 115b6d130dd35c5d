-- ===== src/Client/Statuses.antt =====
-- parseSideband1 reads the report that the server writes (internal/integration/parse.go).
use spokes_receive_pack.Base.{
  ℕ, zero, suc, ◌+◌, ◌≤◌, ◌<◌, Bool, true, false, ◌&&◌, List, [], ◌∷◌, ◌++◌, Option, none, some,
  ◌≡◌, ◌⊎◌, inl, inr, refl, sym, ap, ◌∙◌, arith, Bytes, codes, length, length-append, equal,
  equal_iff, ◌==◌, append_assoc, if◌then◌else◌, Bool-cases, All,
}
use spokes_receive_pack.Base.Exec.{Result, ok, Error}
use spokes_receive_pack.Go.Strings.{
  Free, split_n-append, trim_suffix, trim_suffix-append, has_prefix,
}
use spokes_receive_pack.Go.Reader.{Reader}
use spokes_receive_pack.Go.Strconv.{format_hex, length-format_hex}
use spokes_receive_pack.Pktline.Reads.{frame, from}
use spokes_receive_pack.Spokes.Command.{Command, not_rejected}
use spokes_receive_pack.Spokes.Report.{
  report, use_side_band, side_band_buf_size, report_line, flush, unpack_ok, unpack_failed,
}
use spokes_receive_pack.Spokes.Report.Decodes.{
  command_frames, report_text, AllFit, band_frames, FitsBand, joined, report-sideband, report_plain,
}
use spokes_receive_pack.Go.Writer.{holding}
use spokes_receive_pack.Pktline.Caps.{Capabilities}
use spokes_receive_pack.Client.{
  Dict, find, put, Status, no_status, refuse_ref, has_code, accept_status, status_loop,
  parse_sideband1,
}
use spokes_receive_pack.Client.Packets.{read_pktline-frame, read_pktline-flush}

-- What the client is told of a command.
abbrev pub told : Command → Bytes
told c = if not_rejected c then c.report_ff else codes "ng " ++ c.err

-- The map of the commands, the last of a name deciding.
abbrev pub told_all : List Command → Dict → Dict
told_all [] m = m
told_all (c ∷ cs) m = told_all cs (put m c.refname (told c))

-- A command that is not rejected has one of three outcomes; the name has no space and the line fits.
pub record IsReadable (c : Command) : Type 0 where
  pub status :
      not_rejected c ≡ true
      → (c.report_ff ≡ codes "ok") ⊎ ((c.report_ff ≡ codes "ff") ⊎ (c.report_ff ≡ codes "nf"))
  pub one_word : Free b' ' c.refname
  pub fits : length (report_line c) ≤ 65516

trim-line : (a b : Bytes) → trim_suffix (a ++ (b ++ b'\n' ∷ [])) (codes "\n") ≡ a ++ b
trim-line a b = rw (sym (append_assoc a b (b'\n' ∷ []))) (trim_suffix-append (a ++ b) (b'\n' ∷ []))

accept_status-rejected :
    (c : Command) (s : Status)
    → not_rejected c ≡ false
    → Free b' ' c.refname
    → accept_status (report_line c) s
      ≡ ok (record s { refs = put s.refs c.refname (codes "ng " ++ c.err) })
unfolding accept_status report_line has_prefix
accept_status-rejected c s n f =
    rw (n, trim-line c.refname (b' ' ∷ c.err), split_n-append b' ' c.refname c.err f)
      (unfold refuse_ref in refl)

has_code-line : (a b : ℕ) (r : Bytes) → has_code (a ∷ b ∷ b' ' ∷ (r ++ b'\n' ∷ [])) ≡ true
unfolding has_code
has_code-line a b [] = refl
has_code-line a b (c ∷ r) = refl

accept_status-code :
    (a b : ℕ) (r : Bytes) (s : Status)
    → (b == b'g') ≡ false
    → accept_status (a ∷ b ∷ b' ' ∷ (r ++ b'\n' ∷ [])) s
      ≡ ok (record s { refs = put s.refs r (a ∷ b ∷ []) })
unfolding accept_status has_prefix
accept_status-code a b r s k =
    let unpack : (a == b'u' && (b == b'n' && false)) ≡ false = ground arith in
    let ng : (a == b'n' && (b == b'g' && true)) ≡ false = ground arith in
    rw (unpack, ng, has_code-line a b r, trim_suffix-append r (b'\n' ∷ [])) refl

accept_status-accepted :
    (c : Command) (s : Status)
    → not_rejected c ≡ true
    → (c.report_ff ≡ codes "ok") ⊎ ((c.report_ff ≡ codes "ff") ⊎ (c.report_ff ≡ codes "nf"))
    → accept_status (report_line c) s ≡ ok (record s { refs = put s.refs c.refname c.report_ff })
unfolding report_line
accept_status-accepted c s y (inl h) = rw y (simp h (accept_status-code b'o' b'k' c.refname s refl))
accept_status-accepted c s y (inr (inl h)) =
    rw y (simp h (accept_status-code b'f' b'f' c.refname s refl))
accept_status-accepted c s y (inr (inr h)) =
    rw y (simp h (accept_status-code b'n' b'f' c.refname s refl))

accept_status-line :
    (c : Command) (s : Status)
    → IsReadable c
    → accept_status (report_line c) s ≡ ok (record s { refs = put s.refs c.refname (told c) })
accept_status-line c s h = elim (Bool-cases (not_rejected c)) [
  | inl y ↦ rw y (accept_status-accepted c s y (h.status y))
  | inr n ↦ rw n (accept_status-rejected c s n h.one_word)
]

status_loop-line :
    (fuel : ℕ) (p rest : Bytes) (e : Error) (s s' : Status)
    → length p ≤ 65516
    → accept_status p s ≡ ok s'
    → status_loop (suc fuel) s (from (frame p ++ rest) e) ≡ status_loop fuel s' (from rest e)
unfolding status_loop
status_loop-line fuel p rest e s s' h a = rw (read_pktline-frame p rest e (omega arith), a) refl

status_loop-flush :
    (fuel : ℕ) (rest : Bytes) (e : Error) (s : Status)
    → status_loop (suc fuel) s (from (flush ++ rest) e) ≡ (ok s, from rest e)
unfolding status_loop
status_loop-flush fuel rest e s = rw (read_pktline-flush rest e) refl

status_loop-commands :
    (cs : List Command) (fuel : ℕ) (rest : Bytes) (e : Error) (s : Status)
    → All IsReadable cs
    → length cs < fuel
    → status_loop fuel s (from (command_frames cs ++ (flush ++ rest)) e)
      ≡ (ok (record s { refs = told_all cs s.refs }), from rest e)
status_loop-commands [] (suc fuel) rest e s h k = status_loop-flush fuel rest e s
status_loop-commands (c ∷ cs) (suc fuel) rest e s (r, h) k =
    let s' = record s { refs = put s.refs c.refname (told c) } in
    ap (λ (t : Bytes). status_loop (suc fuel) s (from t e))
      (append_assoc (frame (report_line c)) (command_frames cs) (flush ++ rest))
    ∙ status_loop-line fuel (report_line c) (command_frames cs ++ (flush ++ rest)) e s s' r.fits
        (accept_status-line c s r)
    ∙ status_loop-commands cs fuel rest e s' h (omega arith)
status_loop-commands cs zero rest e s h k = absurd (omega arith)

-- The line on the pack.
abbrev pub unpacked : Bool → Bytes
unpacked b = if b then unpack_ok else unpack_failed

accept_status-unpacked :
    (b : Bool)
    → accept_status (unpacked b) no_status ≡ ok (record { refs = []; unpack = unpacked b })
unfolding accept_status has_prefix
accept_status-unpacked true = refl
accept_status-unpacked false = refl

length-unpacked : (b : Bool) → length (unpacked b) ≤ 65516
length-unpacked true = omega arith
length-unpacked false = omega arith

length-command_frames : (cs : List Command) → length cs ≤ length (command_frames cs)
length-command_frames [] = omega arith
length-command_frames (c ∷ cs) = omega (
  arith,
  length-command_frames cs,
  length-append (frame (report_line c)) (command_frames cs),
  length-append (format_hex (4 + length (report_line c))) (report_line c),
  length-format_hex (4 + length (report_line c)),
)

-- What the client makes of the report.
pub parse_sideband1-report :
    (b : Bool) (cs : List Command)
    → All IsReadable cs
    → parse_sideband1 (report_text b cs)
      ≡ ok (record { refs = told_all cs []; unpack = unpacked b })
unfolding parse_sideband1
parse_sideband1-report b cs h =
    let text = command_frames cs ++ flush in
    let short = length-append (frame (unpacked b)) text in
    let n = length-append (command_frames cs) flush in
    let m = length-append (format_hex (4 + length (unpacked b))) (unpacked b) in
    ap (λ (p : Result Status × Reader). p.0)
      (status_loop-line (length (report_text b cs)) (unpacked b) text Error.eof no_status
          (record { refs = []; unpack = unpacked b }) (length-unpacked b) (accept_status-unpacked b)
        ∙ status_loop-commands cs (length (report_text b cs)) [] Error.eof
            (record { refs = []; unpack = unpacked b }) h
            (omega (
              arith,
              short,
              n,
              m,
              length-command_frames cs,
              length-format_hex (4 + length (unpacked b)),
            )))

find-put :
    (m : Dict) (j k v : Bytes) → find (put m j v) k ≡ (if equal j k then some v else find m k)
unfolding find put
find-put [] j k v = refl
find-put ((i, w) ∷ m) j k v =
    ground (arith, find-put m j k v, equal_iff i j, equal_iff i k, equal_iff j k)

-- What the last command with the name is told, or what was told before.
abbrev pub last_told : Option Bytes → List Command → Bytes → Option Bytes
last_told d [] k = d
last_told d (c ∷ cs) k = last_told (if equal c.refname k then some (told c) else d) cs k

find-told_all :
    (cs : List Command) (m : Dict) (k : Bytes) → find (told_all cs m) k ≡ last_told (find m k) cs k
find-told_all [] m k = refl
find-told_all (c ∷ cs) m k =
    find-told_all cs (put m c.refname (told c)) k
    ∙ ap (λ (d : Option Bytes). last_told d cs k) (find-put m c.refname k (told c))

-- The text is a report that says this of the pack and of each command.
pub record Tells (b : Bool) (cs : List Command) (text : Bytes) : Type 0 where
  pub result : Status
  pub parsed : parse_sideband1 text ≡ ok result
  pub of_pack : result.unpack ≡ unpacked b
  pub of_ref : (k : Bytes) → find result.refs k ≡ last_told none cs k

report_text-Tells :
    (b : Bool) (cs : List Command) → All IsReadable cs → Tells b cs (report_text b cs)
report_text-Tells b cs h = record {
  result = record { refs = told_all cs []; unpack = unpacked b };
  parsed = parse_sideband1-report b cs h;
  of_pack = refl;
  of_ref = λ k. find-told_all cs [] k ∙ unfold find in refl;
}

IsReadable-fits : (cs : List Command) → All IsReadable cs → AllFit cs
IsReadable-fits [] h = tt
IsReadable-fits (c ∷ cs) (r, h) = (r.fits, IsReadable-fits cs h)

-- If the client asked for a sideband, each command that is not rejected has the outcome ok, ff or
-- nf, and each has a name without a space and a line that fits into a packet, then report writes,
-- behind what was written before, packets of the first band, none of them empty and none longer
-- than the band, and a flush packet; and from their joined data the client of the integration
-- tests reads whether the pack was unpacked, and for each name the outcome of its last command, or
-- ng with the error if that was rejected.
pub report-Tells :
    (b : Bool) (cs : List Command) (c : Capabilities) (o : Bytes) (e : Error)
    → use_side_band c ≡ true
    → All IsReadable cs
    → (ps : List Bytes) × (report b cs c (holding o e)
        ≡ (ok tt, holding (o ++ (band_frames ps ++ flush)) e))
      × All (FitsBand (side_band_buf_size c)) ps
      × Tells b cs (joined ps)
report-Tells b cs c o e u h =
    let (ps, r, j, f) = report-sideband b cs c o e u (IsReadable-fits cs h) in
    (ps, r, f, rw j (report_text-Tells b cs h))

-- If the client asked for no sideband, and each command has an outcome ok, ff or nf, a name without
-- a space and a line that fits, then report writes a text from which the client reads these outcomes.
report_plain-Tells :
    (b : Bool) (cs : List Command) (c : Capabilities) (e : Error)
    → use_side_band c ≡ false
    → All IsReadable cs
    → (text : Bytes) × (report b cs c (holding [] e) ≡ (ok tt, holding text e)) × Tells b cs text
report_plain-Tells b cs c e u h =
    (report_text b cs, report_plain b cs c [] e u (IsReadable-fits cs h), report_text-Tells b cs h)
