-- ===== src/Spokes/HiddenRefs/Decides.antt =====
-- The last rule that matches a reference decides whether it is hidden.
use spokes_receive_pack.Base.{
  Bool, true, false, not, List, [], ◌∷◌, ◌++◌, ◌≡◌, ◌↔◌, ◌⊎◌, inl, inr, refl, ap, ◌∙◌, arith, Bytes,
  if◌then◌else◌, All, Bool-cases,
}
use spokes_receive_pack.Go.Strings.{has_prefix}
use spokes_receive_pack.Spokes.HiddenRefs.{is_negative_ref, hidden_loop, is_hidden_ref}

-- The rule speaks of the reference.
abbrev pub matches : Bytes → Bytes → Bool
matches ref rule = has_prefix ref (is_negative_ref rule).1

abbrev pub IsSilent : Bytes → List Bytes → Type 0
IsSilent ref rules = All (λ r. matches ref r ≡ false) rules

-- `rule` stands among the rules, it matches, and no rule behind it does.
pub record IsLastMatch (ref : Bytes) (rules : List Bytes) (rule : Bytes) : Type 0 where
  pub before : List Bytes
  pub after : List Bytes
  pub splits : rules ≡ before ++ rule ∷ after
  pub matching : matches ref rule ≡ true
  pub silent : IsSilent ref after

hidden_loop-append :
    (xs ys : List Bytes) (hidden : Bool) (ref : Bytes)
    → hidden_loop hidden ref (xs ++ ys) ≡ hidden_loop (hidden_loop hidden ref xs) ref ys
unfolding hidden_loop
hidden_loop-append [] ys hidden ref = refl
hidden_loop-append (x ∷ xs) ys hidden ref =
    let (neg, stripped) = is_negative_ref x in
    hidden_loop-append xs ys (if has_prefix ref stripped then not neg else hidden) ref

hidden_loop-silent :
    (rules : List Bytes) (hidden : Bool) (ref : Bytes)
    → IsSilent ref rules
    → hidden_loop hidden ref rules ≡ hidden
unfolding hidden_loop
hidden_loop-silent [] hidden ref s = refl
hidden_loop-silent (r ∷ rules) hidden ref (n, s) = rw n (hidden_loop-silent rules hidden ref s)

-- The outcome of the loop is what its last match says, or what it began with.
hidden_loop_decided :
    (rules : List Bytes) (hidden : Bool) (ref : Bytes)
    → ((rule : Bytes) × IsLastMatch ref rules rule
        × (hidden_loop hidden ref rules ≡ not (is_negative_ref rule).0))
      ⊎ (IsSilent ref rules × (hidden_loop hidden ref rules ≡ hidden))
unfolding hidden_loop
hidden_loop_decided [] hidden ref = inr (tt, refl)
hidden_loop_decided (r ∷ rules) hidden ref =
    elim (hidden_loop_decided rules (if matches ref r then not (is_negative_ref r).0 else hidden)
      ref) [
        | inl (rule, m, e) ↦ inl (
          rule,
          record {
            before = r ∷ m.before;
            after = m.after;
            splits = ap (◌∷◌ r) m.splits;
            matching = m.matching;
            silent = m.silent;
          },
          e,
        )
        | inr (s, e) ↦ elim (Bool-cases (matches ref r)) [
          | inl y ↦ inl (
            r,
            record { before = []; after = rules; splits = refl; matching = y; silent = s },
            e ∙ rw y refl,
          )
          | inr n ↦ inr ((n, s), e ∙ rw n refl)
        ]
      ]

-- If a rule is the last one that matches, the reference is hidden exactly when the rule is positive.
pub is_hidden_ref-last :
    (ref : Bytes) (rules : List Bytes) (rule : Bytes)
    → IsLastMatch ref rules rule
    → is_hidden_ref ref rules ≡ not (is_negative_ref rule).0
unfolding is_hidden_ref hidden_loop
is_hidden_ref-last ref rules rule m = rw m.splits (
    hidden_loop-append m.before (rule ∷ m.after) false ref
    ∙ rw m.matching (hidden_loop-silent m.after (not (is_negative_ref rule).0) ref m.silent))

-- A reference is hidden exactly when a rule matches it, no rule behind that one does, and that
-- rule is not negative.
pub is_hidden_ref_iff :
    (ref : Bytes) (rules : List Bytes)
    → (is_hidden_ref ref rules ≡ true)
      ↔ ((rule : Bytes) × IsLastMatch ref rules rule × ((is_negative_ref rule).0 ≡ false))
unfolding is_hidden_ref
is_hidden_ref_iff ref rules = (
  λ h. elim (hidden_loop_decided rules false ref) [
    | inl (rule, m, e) ↦ (rule, m, ground (arith, h, e))
    | inr (s, e) ↦ absurd (cc (h, e))
  ],
  λ w. let (rule, m, e) = w in is_hidden_ref-last ref rules rule m ∙ rw e refl,
)
