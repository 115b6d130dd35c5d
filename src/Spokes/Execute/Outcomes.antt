-- ===== src/Spokes/Execute/Outcomes.antt =====
-- How a push ends (execute of internal/spokes/spokes.go).
use spokes_receive_pack.Base.{
  ℕ, Bool, true, List, [], ◌∷◌, ◌++◌, Option, none, ◌≡◌, ◌≢◌, refl, Bytes, codes, All, map, ℤ,
  is_positive, exceeds,
}
use spokes_receive_pack.Base.Exec.{Result, ok, err, spent, Error}
use spokes_receive_pack.Config.{Config}
use spokes_receive_pack.Spokes.Command.{Command, reject_all}
use spokes_receive_pack.Spokes.Connectivity.{
  settle, settle_all, is_some, perform_check_connectivity,
}
use spokes_receive_pack.Spokes.Connectivity.Settles.{settle-IsSettled}
use spokes_receive_pack.Spokes.Outside.{Git}
use spokes_receive_pack.Spokes.Execute.{
  Session, World, limit_push_options, make_quarantine_dirs, commands_after,
}

abbrev pub IsRejected : Command → Type 0
IsRejected c = c.err ≢ []

reject_all-IsRejected :
    (text ng : Bytes) (cs : List Command) → text ≢ [] → All IsRejected (reject_all text ng cs)
unfolding reject_all
reject_all-IsRejected text ng [] h = tt
reject_all-IsRejected text ng (c ∷ cs) h = (h, reject_all-IsRejected text ng cs h)

settled-IsRejected :
    (git : Git) (config : Config) (failed : Bool) (cs : List Command)
    → All IsRejected cs
    → All IsRejected (map (settle git config failed) cs)
settled-IsRejected git config failed [] h = tt
settled-IsRejected git config failed (c ∷ cs) (h, hs) =
    ((settle-IsSettled git config failed c).rejected h, settled-IsRejected git config failed cs hs)

-- Commands that are all rejected stay so, however the pack is read.
commands_after-IsRejected :
    (r : Session) (u : Result (Unit {0})) (cs : List Command)
    → All IsRejected cs
    → All IsRejected (commands_after r u cs)
unfolding commands_after settle_all
commands_after-IsRejected r (ok u) cs h =
    let git = r.announcement.git in
    settled-IsRejected git r.announcement.config (is_some (perform_check_connectivity git cs)) cs h
commands_after-IsRejected r (err e) cs h =
    reject_all-IsRejected (codes "error processing packfiles: " ++ r.announcement.git.error_text e)
      _ cs (λ x. cc x)
commands_after-IsRejected r spent cs h = h

-- If the limit on push options is positive and exceeded, then every command of the report is
-- rejected, whatever the outcome of reading the pack.
pub commands_after-over_limit :
    (r : Session) (u : Result (Unit {0})) (limit : ℤ) (count : ℕ) (cs : List Command)
    → is_positive limit ≡ true
    → exceeds count limit ≡ true
    → All IsRejected (commands_after r u (limit_push_options limit count cs))
unfolding limit_push_options
commands_after-over_limit r u limit count cs p q =
    rw (p, q) (commands_after-IsRejected r u _ (reject_all-IsRejected _ _ cs (λ x. cc x)))

pub make_quarantine_dirs-none :
    (o : Option Error) (s : World)
    → o ≡ none
    → make_quarantine_dirs o s ≡ (ok tt, record s { quarantined = true })
unfolding make_quarantine_dirs
make_quarantine_dirs-none o s h = rw h refl
