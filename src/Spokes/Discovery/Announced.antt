-- ===== src/Spokes/Discovery/Announced.antt =====
-- The lines of a pipe as packets: the first reference has the capabilities (advertiseRef of
-- internal/spokes/spokes.go).
use spokes_receive_pack.Base.{
  ◌+◌, ◌≤◌, Bool, true, false, List, [], ◌∷◌, ◌++◌, ◌≡◌, refl, sym, ap, ◌∙◌, arith, Bytes, length,
  All, append_assoc, append-nil, le→ltb, length-append, none,
}
use spokes_receive_pack.Base.Exec.{ok, Error}
use spokes_receive_pack.Go.Writer.{holding}
use spokes_receive_pack.Pktline.Reads.{frame}
use spokes_receive_pack.Spokes.Packet.Written.{write_packet-fits}
use spokes_receive_pack.Spokes.Discovery.{Advert, advertise_ref, advertise_lines, run_pipe}

-- The packets of references behind the first.
abbrev pub line_frames : List Bytes → Bytes
line_frames [] = []
line_frames (l ∷ ls) = frame (l ++ b'\n' ∷ []) ++ line_frames ls

-- The packets of references, where the first has the capabilities if none had them before.
abbrev pub announced : Bool → Bytes → List Bytes → Bytes
announced wrote caps [] = []
announced true caps (l ∷ ls) = line_frames (l ∷ ls)
announced false caps (l ∷ ls) = frame (l ++ (0 ∷ (caps ++ b'\n' ∷ []))) ++ line_frames ls

-- A line of at least an id and a space that fits into a packet with the capabilities.
abbrev pub Advertisable : Bytes → Bytes → Type 0
Advertisable caps l = (41 ≤ length l) × (length l + length caps ≤ 65514)

abbrev pub state : Bytes → Error → Bool → Advert
state o e wrote = record { writer = holding o e; wrote_capabilities = wrote }

advertise_ref-again :
    (caps l o : Bytes) (e : Error)
    → Advertisable caps l
    → advertise_ref caps l (state o e true) ≡ (ok tt, state (o ++ frame (l ++ b'\n' ∷ [])) e true)
unfolding advertise_ref
advertise_ref-again caps l o e (lo, hi) =
    let n = length-append l (b'\n' ∷ []) in
    rw
      (
        le→ltb (length l) 41 lo,
        write_packet-fits (l ++ b'\n' ∷ []) o e (λ x. absurd (omega (arith, n, ap length x)))
            (omega (arith, n)),
      )
      refl

advertise_ref-first :
    (caps l o : Bytes) (e : Error)
    → Advertisable caps l
    → advertise_ref caps l (state o e false)
      ≡ (ok tt, state (o ++ frame (l ++ (0 ∷ (caps ++ b'\n' ∷ [])))) e true)
unfolding advertise_ref
advertise_ref-first caps l o e (lo, hi) =
    let n = length-append l (0 ∷ (caps ++ b'\n' ∷ [])) in
    let m = length-append caps (b'\n' ∷ []) in
    rw
      (
        le→ltb (length l) 41 lo,
        write_packet-fits (l ++ (0 ∷ (caps ++ b'\n' ∷ []))) o e
            (λ x. absurd (omega (arith, n, ap length x))) (omega (arith, n, m)),
      )
      refl

advertise_lines-again :
    (ls : List Bytes) (caps o : Bytes) (e : Error)
    → All (Advertisable caps) ls
    → advertise_lines caps ls (state o e true) ≡ (ok tt, state (o ++ line_frames ls) e true)
unfolding advertise_lines
advertise_lines-again [] caps o e h = rw append-nil refl
advertise_lines-again (l ∷ ls) caps o e (k, h) =
    rw
      (
        advertise_ref-again caps l o e k,
        advertise_lines-again ls caps (o ++ frame (l ++ b'\n' ∷ [])) e h,
      )
      (ap (λ (s : Bytes). (ok tt, state s e true))
        (append_assoc o (frame (l ++ b'\n' ∷ [])) (line_frames ls)))

-- Were the capabilities sent, once these lines are?
abbrev pub sent : Bool → List Bytes → Bool
sent wrote [] = wrote
sent wrote (l ∷ ls) = true

pub advertise_lines-holding :
    (ls : List Bytes) (wrote : Bool) (caps o : Bytes) (e : Error)
    → All (Advertisable caps) ls
    → advertise_lines caps ls (state o e wrote)
      ≡ (ok tt, state (o ++ announced wrote caps ls) e (sent wrote ls))
unfolding advertise_lines
advertise_lines-holding [] wrote caps o e h = rw append-nil refl
advertise_lines-holding (l ∷ ls) true caps o e h =
    unfold advertise_lines in advertise_lines-again (l ∷ ls) caps o e h
advertise_lines-holding (l ∷ ls) false caps o e (k, h) =
    let first = frame (l ++ (0 ∷ (caps ++ b'\n' ∷ []))) in
    rw (advertise_ref-first caps l o e k, advertise_lines-again ls caps (o ++ first) e h)
      (ap (λ (s : Bytes). (ok tt, state s e true)) (append_assoc o first (line_frames ls)))

line_frames-append :
    (xs ys : List Bytes) → line_frames (xs ++ ys) ≡ line_frames xs ++ line_frames ys
line_frames-append [] ys = refl
line_frames-append (x ∷ xs) ys =
    ap (λ (s : Bytes). frame (x ++ b'\n' ∷ []) ++ s) (line_frames-append xs ys)
    ∙ sym (append_assoc (frame (x ++ b'\n' ∷ [])) (line_frames xs) (line_frames ys))

pub announced-again : (caps : Bytes) (ys : List Bytes) → announced true caps ys ≡ line_frames ys
announced-again caps [] = refl
announced-again caps (y ∷ ys) = refl

-- Lines of one pipe behind those of another are announced as one list.
pub announced-append :
    (xs ys : List Bytes) (wrote : Bool) (caps : Bytes)
    → announced wrote caps xs ++ announced (sent wrote xs) caps ys ≡ announced wrote caps (xs ++ ys)
announced-append [] ys wrote caps = refl
announced-append (x ∷ xs) ys true caps =
    rw (announced-again caps ys) (sym (line_frames-append (x ∷ xs) ys))
announced-append (x ∷ xs) ys false caps =
    let first = frame (x ++ (0 ∷ (caps ++ b'\n' ∷ []))) in
    rw (announced-again caps ys, line_frames-append xs ys)
      (append_assoc first (line_frames xs) (line_frames ys))

pub sent-append :
    (xs ys : List Bytes) (wrote : Bool) → sent (sent wrote xs) ys ≡ sent wrote (xs ++ ys)
sent-append [] ys wrote = refl
sent-append (x ∷ xs) [] wrote = refl
sent-append (x ∷ xs) (y ∷ ys) wrote = refl

pub run_pipe-holding :
    (ls : List Bytes) (wrote : Bool) (caps o : Bytes) (e : Error)
    → All (Advertisable caps) ls
    → run_pipe caps (ls, none) (state o e wrote)
      ≡ (ok tt, state (o ++ announced wrote caps ls) e (sent wrote ls))
unfolding run_pipe
run_pipe-holding ls wrote caps o e h = rw (advertise_lines-holding ls wrote caps o e h) refl
