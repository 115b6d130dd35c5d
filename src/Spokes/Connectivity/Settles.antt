-- ===== src/Spokes/Connectivity/Settles.antt =====
-- Which commands are accepted once the pack is read.
use mathlib.Core.Path.{subst}
use spokes_receive_pack.Base.{
  Bool, true, false, not, ◌&&◌, List, [], ◌∷◌, Option, none, some, ◌≡◌, ◌≢◌, ◌⊎◌, ◌↔◌, inl, inr,
  refl, sym, ap, ◌∙◌, arith, Bytes, map, All, Bool-cases, equal_iff,
}
use spokes_receive_pack.Base.Exec.{Error}
use spokes_receive_pack.Config.{Config}
use spokes_receive_pack.Spokes.Command.{
  Command, is_null, is_delete, not_rejected, commands_for_connectivity_check,
}
use spokes_receive_pack.Spokes.Outside.{Git}
use spokes_receive_pack.Spokes.Connectivity.{
  check_unless_none, perform_check_connectivity, accept, judge, settle, settle_all, is_some,
}

-- The command is not rejected.
abbrev pub IsAccepted : Command → Type 0
IsAccepted c = c.err ≡ []

not_rejected_iff : (c : Command) → (not_rejected c ≡ true) ↔ IsAccepted c
unfolding not_rejected
not_rejected_iff c = equal_iff c.err []

-- What a round of the loop never changes, and that it lifts no rejection.
pub record IsSettled (before after : Command) : Type 0 where
  pub refname : after.refname ≡ before.refname
  pub old_oid : after.old_oid ≡ before.old_oid
  pub new_oid : after.new_oid ≡ before.new_oid
  pub rejected : before.err ≢ [] → after.err ≢ []

judge-IsSettled :
    (git : Git) (config : Config) (c : Command) (o : Option Error)
    → IsSettled c (judge git config c o)
unfolding judge accept
judge-IsSettled git config c none = record {
  refname = refl;
  old_oid = refl;
  new_oid = refl;
  rejected = λ h. h;
}
judge-IsSettled git config c (some e) = record {
  refname = refl;
  old_oid = refl;
  new_oid = refl;
  rejected = λ h x. cc x;
}

-- The loop keeps the name and the ids of a command, and a rejected command stays rejected.
pub settle-IsSettled :
    (git : Git) (config : Config) (failed : Bool) (c : Command)
    → IsSettled c (settle git config failed c)
unfolding settle
settle-IsSettled git config failed c = elim (Bool-cases (not_rejected c)) [
  | inl y ↦ rw y (judge-IsSettled git config c _)
  | inr n ↦ rw n (record { refname = refl; old_oid = refl; new_oid = refl; rejected = λ h. h })
]

judge-accepts :
    (git : Git) (config : Config) (c : Command) (o : Option Error)
    → IsAccepted c
    → IsAccepted (judge git config c o) ↔ (o ≡ none)
unfolding judge accept
judge-accepts git config c none a = (λ x. refl, λ x. a)
judge-accepts git config c (some e) a = (λ x. absurd (cc x), λ x. absurd (cc x))

-- A round of the loop of execute leaves a command accepted exactly when it was accepted before and
-- either the common check passed, or it deletes its reference, or the check of its own object
-- passes.
pub settle-accepts :
    (git : Git) (config : Config) (failed : Bool) (c : Command)
    → IsAccepted (settle git config failed c) ↔ (
        IsAccepted c
        × ((failed && not (is_delete c)) ≡ false ⊎ git.rev_list_object c.new_oid ≡ none))
unfolding settle
settle-accepts git config failed c = (
  λ h. elim (Bool-cases (not_rejected c)) [
    | inl y ↦
        let a = (not_rejected_iff c).0 y in
        elim (Bool-cases (failed && not (is_delete c))) [
          | inl b ↦ (
            a,
            inr (
                (judge-accepts git config c (git.rev_list_object c.new_oid) a).0
                  (rw (settle, y, b) at h)),
          )
          | inr b ↦ (a, inl b)
        ]
    | inr n ↦ absurd (cc (n, (not_rejected_iff c).1 (rw (settle, n) at h)))
  ],
  λ h.
      let y = (not_rejected_iff c).1 h.0 in
      elim (Bool-cases (failed && not (is_delete c))) [
        | inl b ↦
            rw (settle, y, b)
              ((judge-accepts git config c (git.rev_list_object c.new_oid) h.0).1 (checked b h.1))
        | inr b ↦ rw (settle, y, b) ((judge-accepts git config c none h.0).1 refl)
      ],
)
  where
    checked : {b : Bool} {o : Option Error} → b ≡ true → b ≡ false ⊎ o ≡ none → o ≡ none
    checked p (inl q) = absurd (cc (p, q))
    checked p (inr q) = q

-- A command that is accepted and does not delete is among those that want the check.
Candidates-none :
    (cs : List Command)
    → commands_for_connectivity_check cs ≡ []
    → All (λ c. IsAccepted c → is_delete c ≡ false → ⊥) cs
unfolding commands_for_connectivity_check
Candidates-none [] e = tt
Candidates-none (c ∷ cs) e = elim (Bool-cases (not_rejected c && not (is_delete c))) [
  | inl y ↦ absurd (cc (rw (commands_for_connectivity_check, y) at e))
  | inr n ↦ (
    λ a d. absurd (cc (n, passes (not_rejected c) (is_delete c) ((not_rejected_iff c).1 a) d)),
    Candidates-none cs (rw (commands_for_connectivity_check, n) at e),
  )
]
  where
    passes : (a d : Bool) → a ≡ true → d ≡ false → (a && not d) ≡ true
    passes a d p q = ground arith

All-weaken :
    (P : Command → Type 0) (cs : List Command)
    → All (λ c. IsAccepted c → is_delete c ≡ false → ⊥) cs
    → All (λ c. IsAccepted c → is_delete c ≡ false → P c) cs
All-weaken P [] h = tt
All-weaken P (c ∷ cs) (h, hs) = ((λ a d. absurd (h a d)), All-weaken P cs hs)

-- A command is rejected, or it deletes, or its new object has the property.
abbrev pub IsSecured : (Bytes → Type 0) → Command → Type 0
IsSecured Connected c = c.err ≢ [] ⊎ (is_delete c ≡ true ⊎ Connected c.new_oid)

-- What the checks of git mean, for a property of object ids.
module _ (git : Git) (config : Config) (Connected : Bytes → Type 0)
    (rev_list_sound : (oids : List Bytes) → git.rev_list oids ≡ none → All Connected oids)
    (rev_list_object_sound : (oid : Bytes) → git.rev_list_object oid ≡ none → Connected oid) where
  -- A command that is accepted and does not delete has a new object that is connected.
  abbrev IsSafe : Command → Type 0
  IsSafe c = IsAccepted c → is_delete c ≡ false → Connected c.new_oid

  IsSafe-All :
      (cs : List Command) → All Connected (map (λ (d : Command). d.new_oid) cs) → All IsSafe cs
  IsSafe-All [] h = tt
  IsSafe-All (c ∷ cs) (h, hs) = ((λ a d. h), IsSafe-All cs hs)

  checked-IsSafe :
      (wanted cs : List Command)
      → commands_for_connectivity_check cs ≡ wanted
      → check_unless_none git wanted cs ≡ none
      → All IsSafe cs
  unfolding check_unless_none
  checked-IsSafe [] cs e h = All-weaken (λ c. Connected c.new_oid) cs (Candidates-none cs e)
  checked-IsSafe (c ∷ wanted) cs e h =
      IsSafe-All cs (rev_list_sound (map (λ (d : Command). d.new_oid) cs) h)

  settle-IsSafe :
      (failed : Bool) (c : Command)
      → (failed ≡ false → IsSafe c)
      → IsSafe (settle git config failed c)
  unfolding is_delete
  settle-IsSafe failed c h a d =
      let same = (settle-IsSettled git config failed c).new_oid in
      let (before, why) = (settle-accepts git config failed c).0 a in
      let kept : is_delete c ≡ false = ap is_null (sym same) ∙ d in
      subst Connected (sym same) (by_check before kept why)
    where
      by_check :
          IsAccepted c
          → is_delete c ≡ false
          → (failed && not (is_delete c)) ≡ false ⊎ git.rev_list_object c.new_oid ≡ none
          → Connected c.new_oid
      by_check before kept (inr r) = rev_list_object_sound c.new_oid r
      by_check before kept (inl f) = h (passed failed (is_delete c) kept f) before kept
        where
          passed : (f d : Bool) → d ≡ false → (f && not d) ≡ false → f ≡ false
          passed f d p q = ground arith

  map-IsSafe :
      (failed : Bool) (cs : List Command)
      → (failed ≡ false → All IsSafe cs)
      → All IsSafe (map (settle git config failed) cs)
  map-IsSafe failed [] h = tt
  map-IsSafe failed (c ∷ cs) h =
      (settle-IsSafe failed c (λ e. (h e).0), map-IsSafe failed cs (λ e. (h e).1))

  settle_all-IsSafe : (cs : List Command) → All IsSafe (settle_all git config cs)
  unfolding settle_all
  settle_all-IsSafe cs = map-IsSafe (is_some (perform_check_connectivity git cs)) cs λ e.
      checked-IsSafe (commands_for_connectivity_check cs) cs refl
        (unfold perform_check_connectivity in not_some (perform_check_connectivity git cs) e)
    where
      not_some : (o : Option Error) → is_some o ≡ false → o ≡ none
      not_some none e = refl
      not_some (some x) e = absurd (cc e)

  IsSecured-safe : (c : Command) → IsSafe c → IsSecured Connected c
  IsSecured-safe c h = elim (Bool-cases (not_rejected c)) [
    | inl y ↦ elim (Bool-cases (is_delete c)) [
      | inl d ↦ inr (inl d)
      | inr d ↦ inr (inr (h ((not_rejected_iff c).0 y) d))
    ]
    | inr n ↦ inl (λ a. cc (n, (not_rejected_iff c).1 a))
  ]

  IsSecured-All : (cs : List Command) → All IsSafe cs → All (IsSecured Connected) cs
  IsSecured-All [] h = tt
  IsSecured-All (c ∷ cs) (h, hs) = (IsSecured-safe c h, IsSecured-All cs hs)

  -- If the checks of git pass only objects that are connected, then after the loop of execute over
  -- the commands each command is rejected, or deletes its reference, or has a new object that is
  -- connected.
  pub settle_all-IsSecured :
      (cs : List Command) → All (IsSecured Connected) (settle_all git config cs)
  settle_all-IsSecured cs = IsSecured-All (settle_all git config cs) (settle_all-IsSafe cs)
