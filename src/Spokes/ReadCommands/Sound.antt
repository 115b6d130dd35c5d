-- ===== src/Spokes/ReadCommands/Sound.antt =====
-- What readCommands returns: well-formed commands, the hidden ones rejected, within the limit.
use mathlib.Core.Path.{subst}
use spokes_receive_pack.Base.{
  ℕ, zero, suc, false, ◌&&◌, List, [], ◌∷◌, ◌++◌, ◌≡◌, ◌≢◌, inl, inr, refl, ap, Bytes, codes,
  length, Bool-cases, if◌then◌else◌, ℤ, is_positive, exceeds, All, Option-cases,
}
use spokes_receive_pack.Base.Exec.{Result, ok, err, spent, wrapping}
use spokes_receive_pack.Base.Inversion.{continue-ok, Result-cases, ok-injective}
use spokes_receive_pack.Go.Strings.{Free, has_prefix, split}
use spokes_receive_pack.Pktline
use spokes_receive_pack.Pktline.{Pktline, Input, read, is_flush, payload_bytes}
use spokes_receive_pack.Config.{Config}
use spokes_receive_pack.Spokes.Command.{Command}
use spokes_receive_pack.Spokes.HiddenRefs.{is_hidden_ref, get_hidden_refs}
use spokes_receive_pack.Spokes.Limits.{get_ref_update_command_limit}
use spokes_receive_pack.Spokes.RefLine.{RefUpdate, match_ref_line}
use spokes_receive_pack.Spokes.RefLine.Accepts.{IsOid, IsRefLine, match_ref_line_sound}
use spokes_receive_pack.Spokes.ReadCommands.{
  Received, nothing_received, hidden_error, ng, command_of, accept_line, accept_shallow,
  accept_command, take_capabilities, read_loop, fuel_for, check_limit, read_commands,
}

-- A command as it comes from the client: two object ids and a name of one line, rejected exactly
-- when the name is hidden.
pub record IsReceived (hidden : List Bytes) (c : Command) : Type 0 where
  pub old_is_oid : IsOid c.old_oid
  pub new_is_oid : IsOid c.new_oid
  pub named : c.refname ≢ []
  pub one_line : Free b'\n' c.refname
  pub err_is : c.err ≡ (if is_hidden_ref c.refname hidden then hidden_error else [])
  pub report_is : c.report_ff ≡ (if is_hidden_ref c.refname hidden then ng else [])

All-concat :
    (hidden : List Bytes) (cs : List Command) (c : Command)
    → All (IsReceived hidden) cs
    → IsReceived hidden c
    → All (IsReceived hidden) (cs ++ c ∷ [])
All-concat hidden [] c h k = (k, tt)
All-concat hidden (d ∷ cs) c (g, h) k = (g, All-concat hidden cs c h k)

command_of-IsReceived :
    (hidden : List Bytes) (line : Bytes) (m : RefUpdate)
    → IsRefLine line m
    → IsReceived hidden (command_of hidden m)
unfolding command_of
command_of-IsReceived hidden line m l = record {
  old_is_oid = l.old_is_oid;
  new_is_oid = l.new_is_oid;
  named = l.named;
  one_line = l.one_line;
  err_is = refl;
  report_is = refl;
}

abbrev Inv : List Bytes → Received → Type 0
Inv hidden l = All (IsReceived hidden) l.commands

accept_command-Inv :
    (hidden : List Bytes) (payload : Bytes) (l l' : Received)
    → Inv hidden l
    → accept_command hidden payload l ≡ ok l'
    → Inv hidden l'
unfolding accept_command
accept_command-Inv hidden payload l l' h e = elim (Option-cases (match_ref_line payload)) [
  | inl n ↦ absurd (cc (rw (accept_command, n) at e))
  | inr (m, s) ↦
      let q : ok (record l { commands = l.commands ++ command_of hidden m ∷ [] }) ≡ ok l' =
        rw (accept_command, s) at e in
      subst (λ r. Inv hidden r) (ok-injective q)
        (All-concat hidden l.commands (command_of hidden m) h
          (command_of-IsReceived hidden payload m (match_ref_line_sound payload m s)))
]

accept_shallow-Inv :
    (hidden : List Bytes) (payload : Bytes) (parts : List Bytes) (l l' : Received)
    → Inv hidden l
    → accept_shallow payload parts l ≡ ok l'
    → Inv hidden l'
unfolding accept_shallow
accept_shallow-Inv hidden payload (word ∷ oid ∷ []) l l' h e =
    subst (λ r. Inv hidden r) (ok-injective e) h
accept_shallow-Inv hidden payload _ l l' h e = absurd (cc e)

take_capabilities-Inv :
    (hidden : List Bytes) (pl : Pktline) (l l' : Received)
    → Inv hidden l
    → take_capabilities pl l ≡ ok l'
    → Inv hidden l'
unfolding take_capabilities
take_capabilities-Inv hidden pl l l' h e = elim (Bool-cases l.first) [
  | inl y ↦ elim (Result-cases (Pktline.capabilities pl)) [
    | inl (c, q) ↦ subst (λ r. Inv hidden r) (ok-injective (simp (y, q) at e)) h
    | inr (inl (x, q)) ↦ absurd (cc (rw (y, q) at e))
    | inr (inr q) ↦ absurd (cc (rw (y, q) at e))
  ]
  | inr n ↦ subst (λ r. Inv hidden r) (ok-injective (simp n at e)) h
]

accept_line-Inv :
    (hidden : List Bytes) (pl : Pktline) (l l' : Received)
    → Inv hidden l
    → accept_line hidden pl l ≡ ok l'
    → Inv hidden l'
unfolding accept_line
accept_line-Inv hidden pl l l' h e =
    let payload = payload_bytes pl in
    elim (Bool-cases (has_prefix payload (codes "shallow"))) [
      | inl y ↦ accept_shallow-Inv hidden payload (split payload b' ') l l' h (rw y at e)
      | inr n ↦ elim (Result-cases (take_capabilities pl l)) [
        | inl (m, q) ↦
            accept_command-Inv hidden payload m l' (take_capabilities-Inv hidden pl l m h q)
              (rw (n, q) at e)
        | inr (inl (x, q)) ↦ absurd (cc (rw (n, q) at e))
        | inr (inr q) ↦ absurd (cc (rw (n, q) at e))
      ]
    ]

read_loop-Inv :
    (fuel : ℕ) (hidden : List Bytes) (l : Received) (s t : Input) (l' : Received)
    → Inv hidden l
    → read_loop fuel hidden l s ≡ (ok l', t)
    → Inv hidden l'
unfolding read_loop
read_loop-Inv zero hidden l s t l' h e = absurd (cc (ap (λ (p : Result Received × Input). p.0) e))
read_loop-Inv (suc fuel) hidden l s t l' h e =
    let (u, s1, p, q) = continue-ok (wrapping (codes "reading commands") read s) _ e in
    elim (Bool-cases (is_flush s1.line)) [
      | inl y ↦
          subst (λ r. Inv hidden r)
            (ok-injective (ap (λ (p : Result Received × Input). p.0) (rw y at q))) h
      | inr n ↦
          let (m, s2, p', q') =
            continue-ok (accept_line hidden s1.line l, s1) (read_loop fuel hidden) (rw n at q) in
          read_loop-Inv fuel hidden m s2 t l'
            (accept_line-Inv hidden s1.line l m h (ap (λ (p : Result Received × Input). p.0) p')) q'
    ]

-- The limit is a number, and if it is positive then it is kept.
abbrev pub KeepsLimit : Result ℤ → ℕ → Type 0
KeepsLimit limit n = (z : ℤ) × (limit ≡ ok z) × ((is_positive z && exceeds n z) ≡ false)

check_limit-ok :
    (limit : Result ℤ) (l l' : Received)
    → check_limit limit l ≡ ok l'
    → (l ≡ l') × KeepsLimit limit (length l.commands)
unfolding check_limit
check_limit-ok (ok z) l l' e = elim (Bool-cases (is_positive z && exceeds (length l.commands) z)) [
  | inl y ↦ absurd (cc (rw (check_limit, y) at e))
  | inr n ↦ (ok-injective (rw (check_limit, n) at e), (z, refl, n))
]
check_limit-ok (err x) l l' e = absurd (cc e)
check_limit-ok spent l l' e = absurd (cc e)

-- If readCommands returns commands, whatever bytes were sent, then each has two object ids of 40
-- to 64 hexadecimal digits and a name on one line, and is rejected exactly when its name is hidden
-- by the configuration; and the configured limit is a number that, if positive, the number of
-- commands does not exceed.
pub read_commands_sound :
    (c : Config) (s t : Input) (l : Received)
    → read_commands c s ≡ (ok l, t)
    → All (IsReceived (get_hidden_refs c)) l.commands
      × KeepsLimit (get_ref_update_command_limit c) (length l.commands)
unfolding read_commands
read_commands_sound c s t l e =
    let hidden = get_hidden_refs c in
    let (m, s1, p, q) = continue-ok (read_loop (fuel_for s) hidden nothing_received s) _ e in
    let (same, kept) =
      check_limit-ok (get_ref_update_command_limit c) m l
        (ap (λ (p : Result Received × Input). p.0) q) in
    subst
      (λ (r : Received).
        All (IsReceived hidden) r.commands
        × KeepsLimit (get_ref_update_command_limit c) (length r.commands))
      same (read_loop-Inv (fuel_for s) hidden nothing_received s s1 m tt p, kept)
