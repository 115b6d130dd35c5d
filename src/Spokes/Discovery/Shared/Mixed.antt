-- ===== src/Spokes/Discovery/Shared/Mixed.antt =====
-- performReferenceDiscovery where two functions of its pipe have a line at the same time.
use spokes_receive_pack.Base.{
  ℕ, ◌+◌, ◌≤◌, true, false, List, [], ◌∷◌, ◌++◌, ◌≡◌, refl, ap, ◌∙◌, arith, Bytes, codes, length,
  length-append, append_assoc, le→ltb,
}
use spokes_receive_pack.Base.Exec.{Error}
use spokes_receive_pack.Go.Strconv.{format_hex}
use spokes_receive_pack.Go.Writer.{write}
use spokes_receive_pack.Pktline.Reads.{frame}
use spokes_receive_pack.Spokes.Packet.{max_packet_data_length}
use spokes_receive_pack.Spokes.Discovery.Announced.{Advertisable, state}
use spokes_receive_pack.Spokes.Discovery.Shared.{
  idle, marking, sending, finishing, Collector, take_line, move, send_size, wrote_out, turn, run,
}

abbrev pub waiting : List Bytes → Collector
waiting lines = record { task = idle; lines = lines }

abbrev pub with_caps : Bytes → Bytes → Bytes
with_caps caps l = l ++ (0 ∷ (caps ++ b'\n' ∷ []))

take_line-first : (l : Bytes) → 41 ≤ length l → take_line l false ≡ marking l
unfolding take_line
take_line-first l h = rw (le→ltb (length l) 41 h) refl

move-sending :
    (caps text p : Bytes) (ls : List Bytes) (o : Bytes) (e : Error)
    → 1 ≤ length p
    → length p ≤ 65516
    → move caps (sending text p) ls (state o e true) ≡ (
      record { task = finishing text p; lines = ls },
      state (o ++ format_hex (4 + length p)) e true,
    )
unfolding move send_size wrote_out write
move-sending caps text [] ls o e k h = absurd (omega (arith, k))
move-sending caps text (b ∷ p) ls o e k h =
    rw (send_size, le→ltb max_packet_data_length (length (b ∷ p)) h) refl

length-with_caps : (caps l : Bytes) → length (with_caps caps l) ≡ length l + length caps + 2
length-with_caps caps l =
    let k = length-append l (0 ∷ (caps ++ b'\n' ∷ [])) in
    let n = length-append caps (b'\n' ∷ []) in omega (arith, k, n)

-- If two functions of the pipe each have a line that can be announced, and no capabilities were
-- sent, then in some order of their turns the packets of both have the capabilities.
run_announces_twice :
    (caps l m : Bytes) (ls ms : List Bytes) (o : Bytes) (e : Error)
    → Advertisable caps l
    → Advertisable caps m
    → (turns : List ℕ) × (run caps turns (waiting (l ∷ ls) ∷ waiting (m ∷ ms) ∷ [], state o e false)
        ≡ (
          waiting ls ∷ waiting ms ∷ [],
          state (o ++ (frame (with_caps caps l) ++ frame (with_caps caps m))) e true,
        ))
unfolding run turn move wrote_out write
run_announces_twice caps l m ls ms o e (a, b) (c, d) =
    let p = with_caps caps l in
    let q = with_caps caps m in
    let np = length-with_caps caps l in
    let nq = length-with_caps caps m in
    let hex = format_hex (4 + length p) in
    (
      0 ∷ 1 ∷ 0 ∷ 1 ∷ 0 ∷ 0 ∷ 1 ∷ 1 ∷ [],
      rw
          (
            take_line-first l a,
            take_line-first m c,
            move-sending caps (codes "writing capability packet") p ls o e (omega (arith, np))
                (omega (arith, np, b)),
            move-sending caps (codes "writing capability packet") q ms ((o ++ hex) ++ p) e
                (omega (arith, nq)) (omega (arith, nq, d)),
          )
          (ap (λ (t : Bytes). (waiting ls ∷ waiting ms ∷ [], state t e true))
            (append_assoc (o ++ hex ++ p) (format_hex (4 + length q)) q
              ∙ ap (λ (t : Bytes). t ++ frame q) (append_assoc o hex p)
              ∙ append_assoc o (frame p) (frame q))),
    )

take_line-again :
    (l : Bytes)
    → 41 ≤ length l
    → take_line l true ≡ sending (codes "writing ref advertisement packet") (l ++ b'\n' ∷ [])
unfolding take_line
take_line-again l h = rw (le→ltb (length l) 41 h) refl

-- If two functions of the pipe of the shared reference discovery each have a line that can be
-- announced, and the capabilities were sent, then in some order of their turns the lengths of both
-- packets are written before the data of either.
pub run_tears :
    (caps l m : Bytes) (ls ms : List Bytes) (o : Bytes) (e : Error)
    → Advertisable caps l
    → Advertisable caps m
    → (turns : List ℕ) × (run caps turns (waiting (l ∷ ls) ∷ waiting (m ∷ ms) ∷ [], state o e true)
        ≡ (
          waiting ls ∷ waiting ms ∷ [],
          state
              (o
                ++ (format_hex (5 + length l)
                    ++ (format_hex (5 + length m) ++ ((l ++ b'\n' ∷ []) ++ (m ++ b'\n' ∷ [])))))
              e
              true,
        ))
unfolding run turn move wrote_out write
run_tears caps l m ls ms o e (a, b) (c, d) =
    let p = l ++ b'\n' ∷ [] in
    let q = m ++ b'\n' ∷ [] in
    let np = length-append l (b'\n' ∷ []) in
    let nq = length-append m (b'\n' ∷ []) in
    let hp = format_hex (4 + length p) in
    let hq = format_hex (4 + length q) in
    let p_size : 4 + length p ≡ 5 + length l = omega (arith, np) in
    let q_size : 4 + length q ≡ 5 + length m = omega (arith, nq) in
    let text = codes "writing ref advertisement packet" in
    (
      0 ∷ 1 ∷ 0 ∷ 1 ∷ 0 ∷ 1 ∷ [],
      rw
          (
            take_line-again l a,
            take_line-again m c,
            move-sending caps text p ls o e (omega (arith, np)) (omega (arith, np, b)),
            move-sending caps text q ms (o ++ hp) e (omega (arith, nq)) (omega (arith, nq, d)),
          )
          (ap (λ (t : Bytes). (waiting ls ∷ waiting ms ∷ [], state t e true))
            (append_assoc (o ++ hp ++ hq) p q
              ∙ append_assoc (o ++ hp) hq (p ++ q)
              ∙ append_assoc o hp (hq ++ (p ++ q))
              ∙ ap (λ (n : ℕ). o ++ (format_hex n ++ (hq ++ (p ++ q)))) p_size
              ∙ ap (λ (n : ℕ). o ++ (format_hex (5 + length l) ++ (format_hex n ++ (p ++ q))))
                  q_size)),
    )
