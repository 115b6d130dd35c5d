-- ===== src/Spokes/ReadCommands/Sent.antt =====
-- The lines of a push as a client prints them, and the loop of readCommands over those behind the
-- first (internal/spokes/spokes.go).
use spokes_receive_pack.Base.{
  ℕ, zero, suc, ◌+◌, ◌≤◌, ◌<◌, true, false, List, [], ◌∷◌, ◌++◌, ◌≡◌, ◌≢◌, inl, refl, ap, ◌∙◌,
  arith, Bytes, codes, length, length-append, map, append_assoc, append-nil,
}
use spokes_receive_pack.Base.Exec.{ok, Error}
use spokes_receive_pack.Go.Strings.{Free, has_prefix}
use spokes_receive_pack.Go.Strconv.{format_hex, length-format_hex}
use spokes_receive_pack.Pktline.{Pktline, Input, read, is_flush, payload_bytes}
use spokes_receive_pack.Pktline.Caps.{Capability}
use spokes_receive_pack.Pktline.Caps.RoundTrip.{print_capabilities}
use spokes_receive_pack.Pktline.Reads.{
  frame, reading, holding, read-frame, read_short, short_line, is_flush-holding,
  is_flush-short_line, payload-holding,
}
use spokes_receive_pack.Spokes.Command.{Command}
use spokes_receive_pack.Spokes.RefLine.{RefUpdate}
use spokes_receive_pack.Spokes.RefLine.Accepts.{IsOid, IsRefLine, ref_line, match_ref_line_complete}
use spokes_receive_pack.Spokes.ReadCommands.{
  Received, command_of, accept_line, accept_command, take_capabilities, read_loop,
}

-- The line of an update, as a client prints it.
abbrev pub print_update : RefUpdate → Bytes
print_update m = ref_line m []

-- The two ids are object ids, the name is a line with no zero byte, and the line fits.
pub record IsSendable (m : RefUpdate) : Type 0 where
  pub old_is_oid : IsOid m.old_oid
  pub new_is_oid : IsOid m.new_oid
  pub named : m.refname ≢ []
  pub one_line : Free b'\n' m.refname
  pub no_zero : Free 0 (print_update m)
  pub fits : length (print_update m) ≤ 65520

abbrev pub AreSendable : List RefUpdate → Type 0
AreSendable [] = Unit
AreSendable (m ∷ ms) = IsSendable m × AreSendable ms

-- The lines behind the first, and the flush.
unfoldable pub print_updates : List RefUpdate → Bytes → Bytes
print_updates [] rest = codes "0000" ++ rest
print_updates (m ∷ ms) rest = frame (print_update m) ++ print_updates ms rest

-- The line of the first update: its capabilities stand behind a zero byte.
abbrev pub first_line : RefUpdate → List Capability → Bytes
first_line m cs = print_update m ++ 0 ∷ print_capabilities cs

-- What a client sends: the updates with the capabilities, a flush, and what follows.
abbrev pub print_push : RefUpdate → List RefUpdate → List Capability → Bytes → Bytes
print_push m ms cs rest = frame (first_line m cs) ++ print_updates ms rest

module _ (fuel : ℕ) (hidden : List Bytes) (l : Received) (s t : Input)
    (step : read s ≡ (ok tt, t)) where
  pub read_loop_flush : is_flush t.line ≡ true → read_loop (suc fuel) hidden l s ≡ (ok l, t)
  unfolding read_loop
  read_loop_flush f = rw (step, f) refl

  pub read_loop_line :
      (l' : Received)
      → is_flush t.line ≡ false
      → accept_line hidden t.line l ≡ ok l'
      → read_loop (suc fuel) hidden l s ≡ read_loop fuel hidden l' t
  unfolding read_loop
  read_loop_line l' f a = rw (step, f, a) refl

pub update-IsRefLine : (m : RefUpdate) → IsSendable m → IsRefLine (print_update m) m
update-IsRefLine m w = record {
  tail = [];
  splits = refl;
  old_is_oid = w.old_is_oid;
  new_is_oid = w.new_is_oid;
  named = w.named;
  one_line = w.one_line;
  tailed = tt;
}

-- A line that begins with a digit is no shallow line.
pub not_shallow :
    (oid rest : Bytes) → IsOid oid → has_prefix (oid ++ rest) (codes "shallow") ≡ false
unfolding has_prefix
not_shallow [] rest o = absurd (omega (arith, o.at_least))
not_shallow (c ∷ oid) rest o = ground (arith, o.digits.0)

abbrev pub received : List Bytes → Received → RefUpdate → Received
received hidden l m = record l { commands = l.commands ++ command_of hidden m ∷ [] }

pub accept_line-update :
    (hidden : List Bytes) (pl : Pktline) (l l' : Received) (m : RefUpdate)
    → IsSendable m
    → payload_bytes pl ≡ print_update m
    → take_capabilities pl l ≡ ok l'
    → accept_line hidden pl l ≡ ok (received hidden l' m)
unfolding accept_line accept_command
accept_line-update hidden pl l l' m w p q =
    rw
      (
        p,
        not_shallow m.old_oid (b' ' ∷ (m.new_oid ++ (b' ' ∷ (m.refname ++ [])))) w.old_is_oid,
        q,
        p,
        accept_command,
        match_ref_line_complete (print_update m) m (update-IsRefLine m w),
      )
      refl

pub print_update-ne-nil : (m : RefUpdate) → IsSendable m → print_update m ≢ []
print_update-ne-nil m w e = omega (
  arith,
  w.old_is_oid.at_least,
  ap length e,
  length-append m.old_oid (b' ' ∷ (m.new_oid ++ (b' ' ∷ (m.refname ++ [])))),
)

pub length-frame : (d rest : Bytes) → length (frame d ++ rest) ≡ 4 + length d + length rest
length-frame d rest = omega (
  arith,
  length-append (frame d) rest,
  length-append (format_hex (4 + length d)) d,
  length-format_hex (4 + length d),
)

-- The loop behind the first line: one command for each line, up to the flush.
pub read_loop-updates :
    (ms : List RefUpdate) (fuel : ℕ) (hidden : List Bytes) (l : Received) (pl : Pktline)
    (rest : Bytes) (e : Error)
    → AreSendable ms
    → pl.processed_capabilities ≡ true
    → l.first ≡ false
    → length (print_updates ms rest) < fuel
    → (pl' : Pktline) × (read_loop fuel hidden l (reading pl (print_updates ms rest) e) ≡ (
      ok (record l { commands = l.commands ++ map (command_of hidden) ms }),
      reading pl' rest e,
    ))
unfolding print_updates
read_loop-updates ms zero hidden l pl rest e w p f k = elim k [ ]
read_loop-updates [] (suc fuel) hidden l pl rest e w p f k = (
  short_line pl 0,
  read_loop_flush fuel hidden l (reading pl (print_updates [] rest) e)
        (reading (short_line pl 0) rest e)
        (unfold format_hex in read_short pl 0 rest e (omega arith))
        (is_flush-short_line pl 0 (omega arith))
      ∙ rw append-nil refl,
)
read_loop-updates (m ∷ ms) (suc fuel) hidden l pl rest e (w, ws) p f k =
    let d = print_update m in
    let behind = print_updates ms rest in
    let held = payload-holding pl d (inl p) in
    let fuel_left : length behind < fuel = omega (arith, length-frame d behind, k) in
    let (pl', q) =
      read_loop-updates ms fuel hidden (received hidden l m) (holding pl d) rest e ws (held.1 ∙ p) f
        fuel_left in
    (
      pl',
      read_loop_line fuel hidden l (reading pl (print_updates (m ∷ ms) rest) e)
            (reading (holding pl d) behind e)
            (read-frame pl d behind e (print_update-ne-nil m w) w.fits) (received hidden l m)
            (is_flush-holding pl d w.fits)
            (accept_line-update hidden (holding pl d) l l m w held.0
              (unfold take_capabilities in simp f refl))
          ∙ q
          ∙ ap (λ (cs : List Command). (ok (record l { commands = cs }), reading pl' rest e))
              (append_assoc l.commands (command_of hidden m ∷ []) (map (command_of hidden) ms)),
    )
