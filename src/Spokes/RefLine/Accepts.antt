-- ===== src/Spokes/RefLine/Accepts.antt =====
-- The pattern for a command line accepts exactly the lines of its form.
use mathlib.Core.Path.{ap₂, subst}
use spokes_receive_pack.Base.{
  ℕ, ◌≤◌, true, false, ◌&&◌, [], ◌∷◌, ◌++◌, Option, some, ◌≡◌, ◌≢◌, inl, inr, refl, sym, ap, ◌∙◌,
  arith, Bytes, ◌==◌, within, All, length, Bool-cases, Option-cases,
}
use spokes_receive_pack.Go.Strings.{Free}
use spokes_receive_pack.Spokes.RefLine.{
  is_hex_byte, hex_run, line_run, oid_field, RefUpdate, name_field, match_ref_line,
}

-- 40 to 64 hexadecimal digits in lower case
pub record IsOid (s : Bytes) : Type 0 where
  pub digits : All (λ c. is_hex_byte c ≡ true) s
  pub at_least : 40 ≤ length s
  pub at_most : length s ≤ 64

-- What may stand behind a name: nothing, or a newline and anything.
abbrev pub IsTail : Bytes → Type 0
IsTail [] = Unit
IsTail (c ∷ s) = (c == b'\n') ≡ true

-- A command line with something behind the name.
abbrev pub ref_line : RefUpdate → Bytes → Bytes
ref_line m tail = m.old_oid ++ (b' ' ∷ (m.new_oid ++ (b' ' ∷ (m.refname ++ tail))))

-- The line is two object ids and a name, with a space behind each id.
pub record IsRefLine (line : Bytes) (m : RefUpdate) : Type 0 where
  pub tail : Bytes
  pub splits : line ≡ ref_line m tail
  pub old_is_oid : IsOid m.old_oid
  pub new_is_oid : IsOid m.new_oid
  pub named : m.refname ≢ []
  pub one_line : Free b'\n' m.refname
  pub tailed : IsTail tail

hex_run-oid :
    (s : Bytes) (c : ℕ) (rest : Bytes)
    → All (λ c. is_hex_byte c ≡ true) s
    → is_hex_byte c ≡ false
    → hex_run (s ++ c ∷ rest) ≡ (s, c ∷ rest)
unfolding hex_run
hex_run-oid [] c rest h n = rw n refl
hex_run-oid (d ∷ s) c rest (y, h) n = rw (y, hex_run-oid s c rest h n) refl

hex_run-splits :
    (s : Bytes)
    → ((hex_run s).0 ++ (hex_run s).1 ≡ s) × All (λ c. is_hex_byte c ≡ true) (hex_run s).0
unfolding hex_run
hex_run-splits [] = (refl, tt)
hex_run-splits (c ∷ s) =
    let (e, h) = hex_run-splits s in
    elim (Bool-cases (is_hex_byte c)) [
      | inl y ↦ rw y (ap (◌∷◌ c) e, (y, h))
      | inr n ↦ rw n (refl, tt)
    ]

line_run-append : (s tail : Bytes) → Free b'\n' s → IsTail tail → line_run (s ++ tail) ≡ s
unfolding line_run
line_run-append [] [] f t = refl
line_run-append [] (c ∷ tail) f t = rw t refl
line_run-append (c ∷ s) tail (n, f) t = rw (n, line_run-append s tail f t) refl

line_run-splits :
    (s : Bytes) → (tail : Bytes) × (s ≡ line_run s ++ tail) × Free b'\n' (line_run s) × IsTail tail
unfolding line_run
line_run-splits [] = ([], refl, tt, tt)
line_run-splits (c ∷ s) =
    let (tail, e, f, t) = line_run-splits s in
    elim (Bool-cases (c == b'\n')) [
      | inl y ↦ rw y (c ∷ s, refl, tt, y)
      | inr n ↦ rw n (tail, ap (◌∷◌ c) e, (n, f), t)
    ]

oid_field-oid : (s rest : Bytes) → IsOid s → oid_field (s, b' ' ∷ rest) ≡ some (s, rest)
unfolding oid_field
oid_field-oid s rest o = ground (arith, o.at_least, o.at_most)

oid_field-some :
    (s behind oid rest : Bytes)
    → oid_field (s, behind) ≡ some (oid, rest)
    → All (λ c. is_hex_byte c ≡ true) s
    → (s ≡ oid) × (behind ≡ b' ' ∷ rest) × IsOid oid
unfolding oid_field
oid_field-some s [] oid rest h d = cc
oid_field-some s (c ∷ behind) oid rest h d =
    elim (Bool-cases (c == b' ' && within 40 64 (length s))) [
      | inl y ↦
          let q : ◌≡◌ {A = Option (Bytes × Bytes)} (some (s, behind)) (some (oid, rest)) =
            rw (oid_field, y) at h in
          let same_oid : s ≡ oid = cc q in
          let same_rest : behind ≡ rest = cc q in
          (
            same_oid,
            ap₂ ◌∷◌ (is_space c (length s) y) same_rest,
            subst IsOid same_oid (record {
              digits = d;
              at_least = long c (length s) y;
              at_most = short c (length s) y;
            }),
          )
      | inr n ↦ cc (rw (oid_field, n) at h)
    ]
  where
    is_space : (c k : ℕ) → (c == b' ' && within 40 64 k) ≡ true → c ≡ b' '
    is_space c k y = ground arith

    long : (c k : ℕ) → (c == b' ' && within 40 64 k) ≡ true → 40 ≤ k
    long c k y = ground arith

    short : (c k : ℕ) → (c == b' ' && within 40 64 k) ≡ true → k ≤ 64
    short c k y = ground arith

name_field-some :
    (old new name : Bytes) (m : RefUpdate)
    → name_field old new name ≡ some m
    → (m ≡ record { old_oid = old; new_oid = new; refname = name }) × (name ≢ [])
unfolding name_field
name_field-some old new [] m h = cc
name_field-some old new (c ∷ name) m h = (ground arith, λ e. cc e)

name_field-named :
    (old new name : Bytes)
    → name ≢ []
    → name_field old new name ≡ some (record { old_oid = old; new_oid = new; refname = name })
unfolding name_field
name_field-named old new [] ne = absurd (ne refl)
name_field-named old new (c ∷ name) ne = refl

-- If a command line consists of two runs of 40 to 64 hexadecimal digits with a space behind each
-- and a name that is not empty and ends with the line, then the pattern matches and returns these
-- fields.
pub match_ref_line_complete :
    (line : Bytes) (m : RefUpdate) → IsRefLine line m → match_ref_line line ≡ some m
unfolding match_ref_line
match_ref_line_complete line m l =
    let behind = m.refname ++ l.tail in
    let rest = m.new_oid ++ (b' ' ∷ behind) in
    rw
      (
        l.splits,
        match_ref_line,
        hex_run-oid m.old_oid b' ' rest l.old_is_oid.digits refl,
        oid_field-oid m.old_oid rest l.old_is_oid,
        hex_run-oid m.new_oid b' ' behind l.new_is_oid.digits refl,
        oid_field-oid m.new_oid behind l.new_is_oid,
        line_run-append m.refname l.tail l.one_line l.tailed,
      )
      (name_field-named m.old_oid m.new_oid m.refname l.named)

-- A command line that the pattern matches consists of two runs of 40 to 64 hexadecimal digits with
-- a space behind each and a name that is not empty and ends with the line, and these are the
-- fields returned.
pub match_ref_line_sound :
    (line : Bytes) (m : RefUpdate) → match_ref_line line ≡ some m → IsRefLine line m
unfolding match_ref_line
match_ref_line_sound line m h = elim (Option-cases (oid_field (hex_run line))) [
  | inl n ↦ cc (rw (match_ref_line, n) at h)
  | inr ((old, rest), e) ↦ elim (Option-cases (oid_field (hex_run rest))) [
    | inl n ↦ cc (rw (match_ref_line, e, n) at h)
    | inr ((new, behind), f) ↦
        let q : name_field old new (line_run behind) ≡ some m = rw (match_ref_line, e, f) at h in
        let (fields, named) = name_field-some old new (line_run behind) m q in
        let (tail, splits, one_line, tailed) = line_run-splits behind in
        let (line_is, digits) = hex_run-splits line in
        let (rest_is, digits') = hex_run-splits rest in
        let (old_is, behind_old, old_oid) =
          oid_field-some (hex_run line).0 (hex_run line).1 old rest e digits in
        let (new_is, behind_new, new_oid) =
          oid_field-some (hex_run rest).0 (hex_run rest).1 new behind f digits' in
        let rest_splits : rest ≡ new ++ (b' ' ∷ (line_run behind ++ tail)) =
          sym rest_is ∙ ap₂ ◌++◌ new_is (behind_new ∙ ap (◌∷◌ b' ') splits) in
        rw fields (record {
          tail = tail;
          splits = sym line_is ∙ ap₂ ◌++◌ old_is (behind_old ∙ ap (◌∷◌ b' ') rest_splits);
          old_is_oid = old_oid;
          new_is_oid = new_oid;
          named = named;
          one_line = one_line;
          tailed = tailed;
        })
  ]
]
