-- ===== src/Spokes/ReadCommands/Ends.antt =====
-- readCommands and dumpPushOptions end on every input: the fuel is enough.
use spokes_receive_pack.Base.{
  ℕ, zero, suc, ◌+◌, ◌<◌, List, [], ◌∷◌, ◌≢◌, inl, inr, refl, ap, arith, Bytes, codes, length,
  Bool-cases, ℤ,
}
use spokes_receive_pack.Base.Exec.{Result, ok, err, spent, wrapping, lift}
use spokes_receive_pack.Base.Inversion.{continue-spent, wrapped-ok, wrapped-spent, Result-cases}
use spokes_receive_pack.Go.Strings.{split, has_prefix}
use spokes_receive_pack.Pktline
use spokes_receive_pack.Pktline.{Pktline, Input, read, is_flush, payload_bytes}
use spokes_receive_pack.Pktline.Progress.{read-takes, read-ne-spent, capabilities-ne-spent}
use spokes_receive_pack.Config.{Config, get}
use spokes_receive_pack.Config.Sizes.{parse_signed-ne-spent}
use spokes_receive_pack.Spokes.Limits.{numeric_setting, get_ref_update_command_limit}
use spokes_receive_pack.Spokes.HiddenRefs.{get_hidden_refs}
use spokes_receive_pack.Spokes.ReadCommands.{
  Received, nothing_received, accept_line, accept_shallow, accept_command, take_capabilities,
  read_loop, fuel_for, check_limit, read_commands, dump_loop, dump_push_options,
}

take_capabilities-ne-spent : (pl : Pktline) (l : Received) → take_capabilities pl l ≢ spent
unfolding take_capabilities
take_capabilities-ne-spent pl l h = elim (Bool-cases l.first) [
  | inl y ↦ elim (Result-cases (Pktline.capabilities pl)) [
    | inl (c, e) ↦ cc (rw (y, e) at h)
    | inr (inl (e, q)) ↦ cc (rw (y, q) at h)
    | inr (inr q) ↦ capabilities-ne-spent pl q
  ]
  | inr n ↦ cc (rw n at h)
]

accept_shallow-ne-spent :
    (payload : Bytes) (parts : List Bytes) (l : Received) → accept_shallow payload parts l ≢ spent
unfolding accept_shallow
accept_shallow-ne-spent payload (word ∷ oid ∷ []) l h = cc
accept_shallow-ne-spent payload _ l h = cc

accept_command-ne-spent :
    (hidden : List Bytes) (payload : Bytes) (l : Received) → accept_command hidden payload l ≢ spent
unfolding accept_command
accept_command-ne-spent hidden payload l = ground arith

accept_line-ne-spent :
    (hidden : List Bytes) (pl : Pktline) (l : Received) → accept_line hidden pl l ≢ spent
unfolding accept_line
accept_line-ne-spent hidden pl l h =
    let payload = payload_bytes pl in
    elim (Bool-cases (has_prefix payload (codes "shallow"))) [
      | inl y ↦ accept_shallow-ne-spent payload (split payload b' ') l (rw y at h)
      | inr n ↦ elim (Result-cases (take_capabilities pl l)) [
        | inl (l', e) ↦ accept_command-ne-spent hidden payload l' (rw (n, e) at h)
        | inr (inl (e, q)) ↦ cc (rw (n, q) at h)
        | inr (inr q) ↦ take_capabilities-ne-spent pl l q
      ]
    ]

read_loop-ne-spent :
    (fuel : ℕ) (hidden : List Bytes) (l : Received) (s : Input)
    → length s.reader.bytes < fuel
    → (read_loop fuel hidden l s).0 ≢ spent
unfolding read_loop
read_loop-ne-spent zero hidden l s k h = elim k [ ]
read_loop-ne-spent (suc fuel) hidden l s k h =
    let reading = wrapping (codes "reading commands") read s in
    elim (continue-spent reading _ h) [
      | inl e ↦ read-ne-spent s (wrapped-spent (codes "reading commands") (read s) e)
      | inr (u, t, p, q) ↦
          let taken = read-takes s t u (wrapped-ok (codes "reading commands") (read s) p) in
          elim (Bool-cases (is_flush t.line)) [
            | inl y ↦ cc (rw y at q)
            | inr n ↦
                elim (continue-spent (lift (accept_line hidden t.line l) t) (read_loop fuel hidden)
                  (rw n at q)) [
                    | inl e ↦ accept_line-ne-spent hidden t.line l e
                    | inr (l', t', p', q') ↦
                        let same =
                          ap (λ (p : Result Received × Input). length p.1.reader.bytes) p' in
                        read_loop-ne-spent fuel hidden l' t' (omega (arith, same, taken)) q'
                  ]
          ]
    ]

dump_loop-ne-spent :
    (fuel count : ℕ) (s : Input) → length s.reader.bytes < fuel → (dump_loop fuel count s).0 ≢ spent
unfolding dump_loop
dump_loop-ne-spent zero count s k h = elim k [ ]
dump_loop-ne-spent (suc fuel) count s k h =
    let text = codes "error reading push-options" in
    elim (continue-spent (wrapping text read s) _ h) [
      | inl e ↦ read-ne-spent s (wrapped-spent text (read s) e)
      | inr (u, t, p, q) ↦
          let taken = read-takes s t u (wrapped-ok text (read s) p) in
          elim (Bool-cases (is_flush t.line)) [
            | inl y ↦ cc (rw y at q)
            | inr n ↦ dump_loop-ne-spent fuel (count + 1) t (omega (arith, taken)) (rw n at q)
          ]
    ]

-- Whatever bytes are sent, the loop of dumpPushOptions ends within its fuel, with a count or an
-- error.
pub dump_push_options-ne-spent : (s : Input) → (dump_push_options s).0 ≢ spent
unfolding dump_push_options
dump_push_options-ne-spent s = dump_loop-ne-spent (fuel_for s) 0 s (omega arith)

pub numeric_setting-ne-spent : (s : Bytes) → numeric_setting s ≢ spent
unfolding numeric_setting
numeric_setting-ne-spent [] h = cc
numeric_setting-ne-spent (c ∷ s) h = parse_signed-ne-spent (c ∷ s) h

check_limit-ne-spent :
    (limit : Result ℤ) (l : Received) → limit ≢ spent → check_limit limit l ≢ spent
unfolding check_limit
check_limit-ne-spent (ok limit) l k h = ground arith
check_limit-ne-spent (err e) l k h = cc
check_limit-ne-spent spent l k h = k refl

-- Whatever bytes are sent, the loop of readCommands ends within its fuel, with commands or an
-- error.
pub read_commands-ne-spent : (c : Config) (s : Input) → (read_commands c s).0 ≢ spent
unfolding read_commands get_ref_update_command_limit
read_commands-ne-spent c s h =
    elim (continue-spent (read_loop (fuel_for s) (get_hidden_refs c) nothing_received s) _ h) [
      | inl e ↦
          read_loop-ne-spent (fuel_for s) (get_hidden_refs c) nothing_received s (omega arith) e
      | inr (l, t, p, q) ↦
          check_limit-ne-spent (get_ref_update_command_limit c) l
            (numeric_setting-ne-spent (get c (codes "receive.refupdatecommandlimit"))) q
    ]
