-- ===== src/Spokes/Execute/Readable.antt =====
-- The commands of a push, once they are settled, can be reported (internal/spokes/spokes.go).
use spokes_receive_pack.Base.{
  ℕ, Bool, true, false, ◌≤◌, ◌&&◌, List, [], ◌∷◌, ◌++◌, Option, none, some, ◌≡◌, ◌≢◌, ◌⊎◌, inl, inr,
  refl, arith, Bytes, codes, length, length-append, map, All, Bool-cases, equal, ℤ, is_positive,
  exceeds,
}
use spokes_receive_pack.Base.Exec.{Result, ok, err, spent, Error}
use spokes_receive_pack.Go.Strings.{Free}
use spokes_receive_pack.Client.Statuses.{IsReadable}
use spokes_receive_pack.Config.{Config}
use spokes_receive_pack.Spokes.Command.{Command, not_rejected, is_update, reject_all}
use spokes_receive_pack.Spokes.Connectivity.{
  judge, accept, settle, settle_all, is_some, perform_check_connectivity,
}
use spokes_receive_pack.Spokes.Execute.{Session, limit_push_options, commands_after}
use spokes_receive_pack.Spokes.Limits.{is_report_status_ff_config_enabled}
use spokes_receive_pack.Spokes.Outside.{Git}
use spokes_receive_pack.Spokes.ReadCommands.{command_of, ng}
use spokes_receive_pack.Spokes.ReadCommands.Sent.{IsSendable, AreSendable}
use spokes_receive_pack.Spokes.RefLine.{RefUpdate}
use spokes_receive_pack.Spokes.Report.{report_line}

-- The name is one word, and leaves room for an outcome in its packet.
abbrev pub IsNamed : Command → Type 0
IsNamed c = Free b' ' c.refname × (length c.refname ≤ 65438)

rejected-IsReadable :
    (c : Command) → IsNamed c → not_rejected c ≡ false → length c.err ≤ 70 → IsReadable c
unfolding report_line
rejected-IsReadable c (f, k) n h = record {
  status = λ y. absurd (cc (n, y));
  one_word = f;
  fits =
      let line = length-append c.refname (b' ' ∷ (c.err ++ b'\n' ∷ [])) in
      rw n (omega (arith, line, length-append c.err (b'\n' ∷ [])));
}

accepted-IsReadable :
    (c : Command)
    → IsNamed c
    → not_rejected c ≡ true
    → (c.report_ff ≡ codes "ok") ⊎ ((c.report_ff ≡ codes "ff") ⊎ (c.report_ff ≡ codes "nf"))
    → IsReadable c
unfolding report_line
accepted-IsReadable c (f, k) y h = record {
  status = λ z. h;
  one_word = f;
  fits =
      let size : length c.report_ff ≡ 2 = two_letters h in
      let line = length-append c.report_ff (b' ' ∷ (c.refname ++ b'\n' ∷ [])) in
      rw y (omega (arith, size, line, length-append c.refname (b'\n' ∷ [])));
}
  where
    two_letters :
        {s : Bytes} → (s ≡ codes "ok") ⊎ ((s ≡ codes "ff") ⊎ (s ≡ codes "nf")) → length s ≡ 2
    two_letters (inl e) = rw e refl
    two_letters (inr (inl e)) = rw e refl
    two_letters (inr (inr e)) = rw e refl

accept-status :
    (git : Git) (config : Config) (c : Command)
    → ((accept git config c).report_ff ≡ codes "ok")
      ⊎ (((accept git config c).report_ff ≡ codes "ff")
          ⊎ ((accept git config c).report_ff ≡ codes "nf"))
unfolding accept
accept-status git config c =
    elim (Bool-cases (is_update c && is_report_status_ff_config_enabled config)) [
      | inl y ↦ elim (Bool-cases (git.is_ancestor c.old_oid c.new_oid)) [
        | inl a ↦ rw (y, a) (inr (inl refl))
        | inr a ↦ rw (y, a) (inr (inr refl))
      ]
      | inr n ↦ rw n (inl refl)
    ]

judge-IsReadable :
    (git : Git) (config : Config) (c : Command) (o : Option Error)
    → IsNamed c
    → not_rejected c ≡ true
    → IsReadable (judge git config c o)
unfolding judge
judge-IsReadable git config c none k y =
    accepted-IsReadable (accept git config c) (unfold accept in k) (unfold accept not_rejected in y)
      (accept-status git config c)
judge-IsReadable git config c (some e) k y =
    rejected-IsReadable _ k (unfold not_rejected equal in refl) (omega arith)

-- A command that can be reported if it is rejected, and has no outcome yet if it is not.
abbrev pub IsFresh : Command → Type 0
IsFresh c = IsNamed c × (length c.err ≤ 70)

settle-IsReadable :
    (git : Git) (config : Config) (failed : Bool) (c : Command)
    → IsFresh c
    → IsReadable (settle git config failed c)
unfolding settle
settle-IsReadable git config failed c (k, h) = elim (Bool-cases (not_rejected c)) [
  | inl y ↦ rw y (judge-IsReadable git config c _ k y)
  | inr n ↦ rw n (rejected-IsReadable c k n h)
]

settled-IsReadable :
    (git : Git) (config : Config) (failed : Bool) (cs : List Command)
    → All IsFresh cs
    → All IsReadable (map (settle git config failed) cs)
settled-IsReadable git config failed [] h = tt
settled-IsReadable git config failed (c ∷ cs) (k, h) =
    (settle-IsReadable git config failed c k, settled-IsReadable git config failed cs h)

reject_all-IsFresh :
    (text outcome : Bytes) (cs : List Command)
    → length text ≤ 70
    → All IsFresh cs
    → All IsFresh (reject_all text outcome cs)
unfolding reject_all
reject_all-IsFresh text outcome [] t h = tt
reject_all-IsFresh text outcome (c ∷ cs) t (k, h) =
    ((k.0, t), reject_all-IsFresh text outcome cs t h)

limited-IsFresh :
    (limit : ℤ) (count : ℕ) (cs : List Command)
    → All IsFresh cs
    → All IsFresh (limit_push_options limit count cs)
unfolding limit_push_options
limited-IsFresh limit count cs h = elim (Bool-cases (is_positive limit && exceeds count limit)) [
  | inl y ↦
      rw y (reject_all-IsFresh (codes "push options count exceeds maximum") ng cs (omega arith) h)
  | inr n ↦ rw n h
]

-- The name of each update is one word.
abbrev pub AreWords : List RefUpdate → Type 0
AreWords ms = All (λ m. Free b' ' m.refname) ms

command_of-IsFresh :
    (hidden : List Bytes) (m : RefUpdate)
    → IsSendable m
    → Free b' ' m.refname
    → IsFresh (command_of hidden m)
unfolding command_of
command_of-IsFresh hidden m w f = (
  (
    f,
    omega (
      arith,
      w.fits,
      w.old_is_oid.at_least,
      w.new_is_oid.at_least,
      length-append m.old_oid (b' ' ∷ (m.new_oid ++ b' ' ∷ (m.refname ++ []))),
      length-append m.new_oid (b' ' ∷ (m.refname ++ [])),
      length-append m.refname [],
    ),
  ),
  ground arith,
)

commands-IsFresh :
    (hidden : List Bytes) (ms : List RefUpdate)
    → AreSendable ms
    → AreWords ms
    → All IsFresh (map (command_of hidden) ms)
commands-IsFresh hidden [] w f = tt
commands-IsFresh hidden (m ∷ ms) (w, ws) (f, fs) =
    (command_of-IsFresh hidden m w f, commands-IsFresh hidden ms ws fs)

equal-some : (s : Bytes) → s ≢ [] → equal s [] ≡ false
unfolding equal
equal-some [] ne = absurd (ne refl)
equal-some (b ∷ s) ne = refl

reject_all-IsReadable :
    (text outcome : Bytes) (cs : List Command)
    → text ≢ []
    → length text ≤ 70
    → All IsFresh cs
    → All IsReadable (reject_all text outcome cs)
unfolding reject_all not_rejected
reject_all-IsReadable text outcome [] ne t h = tt
reject_all-IsReadable text outcome (c ∷ cs) ne t (k, h) = (
  rejected-IsReadable (record c { err = text; report_ff = outcome }) k.0 (equal-some text ne) t,
  reject_all-IsReadable text outcome cs ne t h,
)

-- The error of readPack has a text that leaves room for a name.
abbrev pub IsBrief : Git → Result (Unit {0}) → Type 0
IsBrief git (ok u) = Unit
IsBrief git (err e) = length (git.error_text e) ≤ 40
IsBrief git spent = ⊥

-- The commands of the report.
abbrev pub outcomes : Session → Result (Unit {0}) → ℤ → ℕ → List Command → List Command
outcomes r u limit count cs = commands_after r u (limit_push_options limit count cs)

-- If a client sends updates whose names are one word each, and the text of an error of readPack has
-- at most 40 bytes, then each command of the report is readable: its line fits into a packet, and
-- its outcome is ok, ff or nf where it is not rejected.
pub outcomes-IsReadable :
    (r : Session) (u : Result (Unit {0})) (limit : ℤ) (count : ℕ) (hidden : List Bytes)
    (ms : List RefUpdate)
    → IsBrief r.announcement.git u
    → AreSendable ms
    → AreWords ms
    → All IsReadable (outcomes r u limit count (map (command_of hidden) ms))
unfolding commands_after settle_all
outcomes-IsReadable r (ok u) limit count hidden ms b w f =
    let git = r.announcement.git in
    let cs = limit_push_options limit count (map (command_of hidden) ms) in
    settled-IsReadable git r.announcement.config (is_some (perform_check_connectivity git cs)) cs
      (limited-IsFresh limit count (map (command_of hidden) ms) (commands-IsFresh hidden ms w f))
outcomes-IsReadable r (err e) limit count hidden ms b w f =
    let text = r.announcement.git.error_text e in
    reject_all-IsReadable (codes "error processing packfiles: " ++ text) ng
      (limit_push_options limit count (map (command_of hidden) ms)) (λ x. cc x)
      (omega (arith, b, length-append (codes "error processing packfiles: ") text))
      (limited-IsFresh limit count (map (command_of hidden) ms) (commands-IsFresh hidden ms w f))
outcomes-IsReadable r spent limit count hidden ms b w f = absurd b
