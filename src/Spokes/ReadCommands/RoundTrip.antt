-- ===== src/Spokes/ReadCommands/RoundTrip.antt =====
-- readCommands reads back the commands that a client sends (internal/spokes/spokes.go).
use spokes_receive_pack.Base.{
  length-map, ◌≤◌, false, ◌&&◌, List, [], ◌∷◌, ◌≡◌, ◌≢◌, ◌⊎◌, inl, inr, refl, ap, ◌∙◌, arith, Bytes,
  length, length-append, ℤ, is_positive, exceeds, none, map,
}
use spokes_receive_pack.Base.Exec.{Result, ok, Error}
use spokes_receive_pack.Pktline
use spokes_receive_pack.Pktline.{Pktline, Input, read, is_flush, payload_bytes, capabilities_bytes}
use spokes_receive_pack.Pktline.Caps.{
  Capability, Capabilities, get, lookup, is_defined, side_band, side_band_64k,
}
use spokes_receive_pack.Pktline.Caps.Parsing.{last_named}
use spokes_receive_pack.Pktline.Caps.RoundTrip.{
  print_capabilities, ArePrintable, parse-print_capabilities,
}
use spokes_receive_pack.Pktline.Reads.{
  reading, holding, read-frame, is_flush-holding, capabilities-holding,
}
use spokes_receive_pack.Config.{Config}
use spokes_receive_pack.Spokes.HiddenRefs.{get_hidden_refs}
use spokes_receive_pack.Spokes.Limits.{get_ref_update_command_limit}
use spokes_receive_pack.Spokes.RefLine.{RefUpdate}
use spokes_receive_pack.Spokes.ReadCommands.{
  Received, nothing_received, command_of, take_capabilities, check_limit, read_commands,
}
use spokes_receive_pack.Spokes.ReadCommands.Sent.{
  print_update, IsSendable, AreSendable, print_updates, first_line, print_push, read_loop_line,
  received, accept_line-update, length-frame, read_loop-updates,
}

-- A client may ask for one sideband, not for both.
abbrev pub OneBand : List Capability → Type 0
OneBand cs = (last_named none cs side_band_64k ≡ none) ⊎ (last_named none cs side_band ≡ none)

pub is_defined-none :
    (caps : Capabilities) (k : Bytes) → get caps k ≡ none → is_defined caps k ≡ false
unfolding is_defined get
is_defined-none caps k e = let q : lookup caps.caps k ≡ none = e in rw (is_defined, q) refl

check_rules-one :
    (caps : Capabilities) (cs : List Capability)
    → ((k : Bytes) → get caps k ≡ last_named none cs k)
    → OneBand cs
    → Pktline.check_rules caps ≡ ok caps
unfolding Pktline.check_rules
check_rules-one caps cs g (inl n) =
    ground (arith, is_defined-none caps side_band_64k (g side_band_64k ∙ n))
check_rules-one caps cs g (inr n) = ground (arith, is_defined-none caps side_band (g side_band ∙ n))

first_line-ne-nil : (m : RefUpdate) (cs : List Capability) → first_line m cs ≢ []
first_line-ne-nil m cs e =
    omega (arith, ap length e, length-append (print_update m) (0 ∷ print_capabilities cs))

check_limit-below :
    (set : Result ℤ) (limit : ℤ) (l : Received)
    → set ≡ ok limit
    → (is_positive limit && exceeds (length l.commands) limit) ≡ false
    → check_limit set l ≡ ok l
unfolding check_limit
check_limit-below set limit l e b = rw (e, check_limit, b) refl

first_line-capabilities :
    (m : RefUpdate) (c : Capability) (cs : List Capability)
    → IsSendable m
    → ArePrintable (c ∷ cs)
    → OneBand (c ∷ cs)
    → (caps : Capabilities) × (take_capabilities
          (holding Pktline.new (first_line m (c ∷ cs)))
          nothing_received
        ≡ ok (record nothing_received { capabilities = caps; first = false }))
      × ((k : Bytes) → get caps k ≡ last_named none (c ∷ cs) k)
unfolding take_capabilities Pktline.capabilities
first_line-capabilities m c cs w ps one =
    let (caps, parsed, g) = parse-print_capabilities c cs ps in
    let held =
      capabilities-holding Pktline.new (print_update m) (print_capabilities (c ∷ cs)) refl
        w.no_zero in
    (caps, rw (held.1, parsed, check_rules-one caps (c ∷ cs) g one) refl, g)

pub read_commands-print :
    (config : Config) (m : RefUpdate) (ms : List RefUpdate) (c : Capability) (cs : List Capability)
    (rest : Bytes) (e : Error) (limit : ℤ)
    → AreSendable (m ∷ ms)
    → ArePrintable (c ∷ cs)
    → OneBand (c ∷ cs)
    → length (first_line m (c ∷ cs)) ≤ 65520
    → get_ref_update_command_limit config ≡ ok limit
    → (is_positive limit && exceeds (length (m ∷ ms)) limit) ≡ false
    → (caps : Capabilities) × (pl : Pktline) × (read_commands config
          (reading Pktline.new (print_push m ms (c ∷ cs) rest) e)
        ≡ (
          ok (record {
            commands = map (command_of (get_hidden_refs config)) (m ∷ ms);
            shallow_info = [];
            capabilities = caps;
            first = false;
          }),
          reading pl rest e,
        ))
      × ((k : Bytes) → get caps k ≡ last_named none (c ∷ cs) k)
unfolding read_commands
read_commands-print config m ms c cs rest e limit (w, ws) ps one fits set below =
    let hidden = get_hidden_refs config in
    let d = first_line m (c ∷ cs) in
    let behind = print_updates ms rest in
    let s = reading Pktline.new (print_push m ms (c ∷ cs) rest) e in
    let held =
      capabilities-holding Pktline.new (print_update m) (print_capabilities (c ∷ cs)) refl
        w.no_zero in
    let (caps, taken, g) = first_line-capabilities m c cs w ps one in
    let l = record nothing_received { capabilities = caps; first = false } in
    let (pl, q) =
      read_loop-updates ms (length s.reader.bytes) hidden (received hidden l m)
        (holding Pktline.new d) rest e ws held.2 refl (omega (arith, length-frame d behind)) in
    let loop =
      read_loop_line (length s.reader.bytes) hidden nothing_received s
        (reading (holding Pktline.new d) behind e)
        (read-frame Pktline.new d behind e (first_line-ne-nil m (c ∷ cs)) fits)
        (received hidden l m) (is_flush-holding Pktline.new d fits)
        (accept_line-update hidden (holding Pktline.new d) nothing_received l m w held.0 taken)
      ∙ q in
    let limited =
      check_limit-below (get_ref_update_command_limit config) limit
        (record l { commands = map (command_of hidden) (m ∷ ms) }) set
        (rw (length-map (command_of hidden) ms) below) in
    (caps, pl, rw loop (rw limited refl), g)
