-- ===== src/Spokes/Discovery/Shared/Chunks.antt =====
-- What one function of the pipe of performReferenceDiscovery writes, in pieces that no other
-- function can break (internal/spokes/spokes.go).
use mathlib.Core.Path.{subst}
use spokes_receive_pack.Base.{
  ◌+◌, Bool, true, false, List, [], ◌∷◌, ◌++◌, Option, none, some, ◌≡◌, ◌⊎◌, inl, inr, refl, sym,
  ap, arith, Bytes, length, length-append, le→ltb,
}
use spokes_receive_pack.Base.Exec.{Error}
use spokes_receive_pack.Go.Strconv.{format_hex}
use spokes_receive_pack.Go.Writer.{write}
use spokes_receive_pack.Spokes.Packet.{max_packet_data_length}
use spokes_receive_pack.Spokes.Discovery.{Advert}
use spokes_receive_pack.Spokes.Discovery.Announced.{state}
use spokes_receive_pack.Spokes.Discovery.Shared.{
  Task, idle, marking, sending, finishing, failed, Collector, take_line, wrote_out, send_size, move,
}
use spokes_receive_pack.Spokes.Discovery.Shared.Alone.{IsGood}
use spokes_receive_pack.Spokes.Discovery.Shared.Mixed.{with_caps}

-- The data of the packet for a line, without the capabilities or with them.
abbrev pub IsPacket : Bytes → Bytes → Bytes → Type 0
IsPacket caps l p = (p ≡ l ++ b'\n' ∷ []) ⊎ (p ≡ with_caps caps l)

-- For each line in order, two chunks: the length of its packet, and the data.
pub data AreChunks (caps : Bytes) : List Bytes → List Bytes → Type 0 where
  no_chunks : AreChunks caps [] []
  two_chunks :
      {l p : Bytes} {ls cs : List Bytes}
      → IsPacket caps l p
      → AreChunks caps ls cs
      → AreChunks caps (l ∷ ls) (format_hex (4 + length p) ∷ p ∷ cs)

-- The chunks of a packet, and those of the lines behind it.
abbrev Pending : Bytes → Bytes → List Bytes → List Bytes → Type 0
Pending caps p ls cs =
    (rest : List Bytes) × (cs ≡ format_hex (4 + length p) ∷ p ∷ rest) × AreChunks caps ls rest

-- What a function still writes, chunk by chunk.
abbrev pub Rest : Bytes → Task → List Bytes → List Bytes → Type 0
Rest caps idle ls cs = AreChunks caps ls cs
Rest caps (marking l) ls cs = Pending caps (with_caps caps l) ls cs
Rest caps (sending text p) ls cs = Pending caps p ls cs
Rest caps (finishing text p) ls cs = (rest : List Bytes) × (cs ≡ p ∷ rest) × AreChunks caps ls rest
Rest caps (failed e) ls cs = ⊥

Pending-AreChunks :
    (caps l p : Bytes) (ls cs : List Bytes)
    → IsPacket caps l p
    → Pending caps p ls cs
    → AreChunks caps (l ∷ ls) cs
Pending-AreChunks caps l p ls cs k (rest, q, s) =
    subst (AreChunks caps (l ∷ ls)) (sym q) (two_chunks k s)

-- The function has nothing more to do.
abbrev pub Quiet : Task → List Bytes → Type 0
Quiet idle [] = Unit
Quiet idle (l ∷ ls) = ⊥
Quiet (marking l) ls = ⊥
Quiet (sending text p) ls = ⊥
Quiet (finishing text p) ls = ⊥
Quiet (failed e) ls = ⊥

-- The output with a chunk, if there is one.
abbrev pub added : Bytes → Option Bytes → Bytes
added o none = o
added o (some x) = o ++ x

abbrev pub with_chunk : Option Bytes → List Bytes → List Bytes
with_chunk none cs = cs
with_chunk (some x) cs = x ∷ cs

-- A move: it writes a chunk or none, and what it has left is what it had less this chunk.
pub record Moved (caps : Bytes) (t : Task) (ls : List Bytes) (o : Bytes) (e : Error) (w : Bool)
    (c : Collector) (a : Advert) : Type 0 where
  pub chunk : Option Bytes
  pub wrote : Bool
  pub is_state : a ≡ state (added o chunk) e wrote
  pub good : IsGood caps c.task c.lines wrote
  pub keeps : w ≡ true → wrote ≡ true
  pub back : (cs : List Bytes) → Rest caps c.task c.lines cs → Rest caps t ls (with_chunk chunk cs)
  pub quiet : wrote ≡ false → Quiet c.task c.lines → Quiet t ls

pub move-Moved :
    (caps : Bytes) (t : Task) (ls : List Bytes) (o : Bytes) (e : Error) (w : Bool)
    → IsGood caps t ls w
    → Moved caps t ls o e w (move caps t ls (state o e w)).0 (move caps t ls (state o e w)).1
unfolding move send_size wrote_out write
move-Moved caps idle [] o e w g = record {
  chunk = none;
  wrote = w;
  is_state = refl;
  good = g;
  keeps = λ h. h;
  back = λ cs r. r;
  quiet = λ h q. q;
}
move-Moved caps idle (l ∷ ls) o e true ((lo, hi), g) =
    let k = length-append l (b'\n' ∷ []) in
    rw (take_line, le→ltb (length l) 41 lo)
      (record {
        chunk = none;
        wrote = true;
        is_state = refl;
        good = (omega (arith, k), omega (arith, k, hi), refl, g);
        keeps = λ h. h;
        back = λ cs. Pending-AreChunks caps l (l ++ b'\n' ∷ []) ls cs (inl refl);
        quiet = λ h q. q;
      })
move-Moved caps idle (l ∷ ls) o e false ((lo, hi), g) =
    rw (take_line, le→ltb (length l) 41 lo)
      (record {
        chunk = none;
        wrote = false;
        is_state = refl;
        good = (hi, g);
        keeps = λ h. h;
        back = λ cs. Pending-AreChunks caps l (with_caps caps l) ls cs (inr refl);
        quiet = λ h q. q;
      })
move-Moved caps (marking l) ls o e w (hi, g) =
    let k = length-append l (0 ∷ (caps ++ b'\n' ∷ [])) in
    let m = length-append caps (b'\n' ∷ []) in
    record {
      chunk = none;
      wrote = true;
      is_state = refl;
      good = (omega (arith, k), omega (arith, k, m), refl, g);
      keeps = λ h. refl;
      back = λ cs r. r;
      quiet = λ h q. q;
    }
move-Moved caps (sending text []) ls o e w (lo, hi, m, g) = absurd (omega (arith, lo))
move-Moved caps (sending text (b ∷ d)) ls o e false (lo, hi, m, g) = absurd (cc m)
move-Moved caps (sending text (b ∷ d)) ls o e true (lo, hi, m, g) =
    let size = format_hex (4 + length (b ∷ d)) in
    rw (send_size, le→ltb max_packet_data_length (length (b ∷ d)) hi)
      (record {
        chunk = some size;
        wrote = true;
        is_state = refl;
        good = (refl, g);
        keeps = λ h. h;
        back = λ cs (rest, q, s). (rest, ap (λ (x : List Bytes). size ∷ x) q, s);
        quiet = λ h q. q;
      })
move-Moved caps (finishing text d) ls o e false (m, g) = absurd (cc m)
move-Moved caps (finishing text d) ls o e true (m, g) = record {
  chunk = some d;
  wrote = true;
  is_state = refl;
  good = g;
  keeps = λ h. h;
  back = λ cs s. (cs, refl, s);
  quiet = λ h q. absurd (cc h);
}
move-Moved caps (failed x) ls o e w g = absurd g
