-- ===== src/Spokes/ReadCommands/Options.antt =====
-- dumpPushOptions counts the push options that a client sends (internal/spokes/spokes.go).
use spokes_receive_pack.Base.{
  ℕ, zero, suc, ◌+◌, ◌≤◌, ◌<◌, true, false, List, [], ◌∷◌, ◌++◌, ◌≡◌, ◌≢◌, refl, ap, ◌∙◌, arith,
  Bytes, codes, length, All,
}
use spokes_receive_pack.Base.Exec.{ok, Error}
use spokes_receive_pack.Go.Strconv.{format_hex}
use spokes_receive_pack.Pktline.{Pktline, Input, read, is_flush}
use spokes_receive_pack.Pktline.Reads.{
  frame, reading, holding, read-frame, read_short, short_line, is_flush-holding,
  is_flush-short_line,
}
use spokes_receive_pack.Spokes.ReadCommands.{dump_loop, dump_push_options}
use spokes_receive_pack.Spokes.ReadCommands.Sent.{length-frame}

-- The push options as a client prints them, each in a packet, with the flush and what follows.
unfoldable pub print_options : List Bytes → Bytes → Bytes
print_options [] rest = codes "0000" ++ rest
print_options (p ∷ ps) rest = frame p ++ print_options ps rest

-- An option is some bytes that fit into a packet.
abbrev pub IsOption : Bytes → Type 0
IsOption p = (p ≢ []) × (length p ≤ 65520)

module _ (fuel count : ℕ) (s t : Input) (step : read s ≡ (ok tt, t)) where
  dump_loop_flush : is_flush t.line ≡ true → dump_loop (suc fuel) count s ≡ (ok count, t)
  unfolding dump_loop
  dump_loop_flush f = rw (step, f) refl

  dump_loop_line :
      is_flush t.line ≡ false → dump_loop (suc fuel) count s ≡ dump_loop fuel (count + 1) t
  unfolding dump_loop
  dump_loop_line f = rw (step, f) refl

dump_loop-options :
    (ps : List Bytes) (fuel count : ℕ) (pl : Pktline) (rest : Bytes) (e : Error)
    → All IsOption ps
    → length (print_options ps rest) < fuel
    → (pl' : Pktline) × (dump_loop fuel count (reading pl (print_options ps rest) e)
        ≡ (ok (count + length ps), reading pl' rest e))
unfolding print_options
dump_loop-options ps zero count pl rest e w k = elim k [ ]
dump_loop-options [] (suc fuel) count pl rest e w k = (
  short_line pl 0,
  dump_loop_flush fuel count (reading pl (print_options [] rest) e)
        (reading (short_line pl 0) rest e)
        (unfold format_hex in read_short pl 0 rest e (omega arith))
        (is_flush-short_line pl 0 (omega arith))
      ∙ ap (λ n. (ok n, reading (short_line pl 0) rest e)) (omega arith),
)
dump_loop-options (p ∷ ps) (suc fuel) count pl rest e ((some_bytes, fits), w) k =
    let behind = print_options ps rest in
    let (pl', q) =
      dump_loop-options ps fuel (count + 1) (holding pl p) rest e w
        (omega (arith, length-frame p behind, k)) in
    (
      pl',
      dump_loop_line fuel count (reading pl (print_options (p ∷ ps) rest) e)
            (reading (holding pl p) behind e) (read-frame pl p behind e some_bytes fits)
            (is_flush-holding pl p fits)
          ∙ q
          ∙ ap (λ n. (ok n, reading pl' rest e)) (omega arith),
    )

-- If a client sends push options, each of some bytes that fit into a packet, a flush, and any
-- bytes behind it, then dumpPushOptions returns their number and leaves exactly the bytes behind
-- the flush.
pub dump_push_options-print :
    (ps : List Bytes) (pl : Pktline) (rest : Bytes) (e : Error)
    → All IsOption ps
    → (pl' : Pktline) × (dump_push_options (reading pl (print_options ps rest) e)
        ≡ (ok (length ps), reading pl' rest e))
unfolding dump_push_options
dump_push_options-print ps pl rest e w =
    let (pl', q) =
      dump_loop-options ps (suc (length (print_options ps rest))) 0 pl rest e w (omega arith) in
    (pl', q ∙ ap (λ n. (ok n, reading pl' rest e)) (omega arith))
