-- ===== src/Go/Strings.antt =====
-- The functions of Go's packages strings and bytes that the source calls.
use spokes_receive_pack.Base.{
  not, ℕ, zero, suc, ◌+◌, ◌-◌, ◌≤◌, ◌<◌, Bool, true, false, ◌&&◌, List, [], ◌∷◌, ◌++◌, Option, none,
  some, ◌≡◌, ◌≢◌, refl, sym, ap, ◌∙◌, arith, Bytes, leb, ◌==◌, within, if◌then◌else◌, length, take,
  drop, equal, equal_refl, take-append, drop-append, length-append, Bool-cases, inl, inr, le→leb,
}

-- strings.HasPrefix
unfoldable pub has_prefix : Bytes → Bytes → Bool
has_prefix s [] = true
has_prefix [] (p ∷ ps) = false
has_prefix (c ∷ s) (p ∷ ps) = c == p && has_prefix s ps

-- strings.TrimPrefix
unfoldable pub trim_prefix : Bytes → Bytes → Bytes
unfolding has_prefix
trim_prefix s p = if has_prefix s p then drop (length p) s else s

-- strings.CutPrefix: the rest, if the prefix is there
unfoldable pub cut_prefix : Bytes → Bytes → Option Bytes
unfolding has_prefix
cut_prefix s p = if has_prefix s p then some (drop (length p) s) else none

-- strings.HasSuffix
unfoldable pub has_suffix : Bytes → Bytes → Bool
unfolding equal
has_suffix s p = leb (length p) (length s) && equal (drop (length s - length p) s) p

-- strings.TrimSuffix
unfoldable pub trim_suffix : Bytes → Bytes → Bytes
unfolding has_suffix
trim_suffix s p = if has_suffix s p then take (length s - length p) s else s

-- bytes.IndexByte, with `none` for -1
unfoldable pub index_byte : Bytes → ℕ → Option ℕ
index_byte [] b = none
index_byte (c ∷ s) b =
    let rest = index_byte s b in
    if c == b then some 0 else elim rest [ none ↦ none | some i ↦ some (suc i) ]

abbrev pub cons_first : ℕ → List Bytes → List Bytes
cons_first c [] = (c ∷ []) ∷ []
cons_first c (p ∷ ps) = (c ∷ p) ∷ ps

-- strings.Split with a separator of one byte
unfoldable pub split : Bytes → ℕ → List Bytes
split [] sep = [] ∷ []
split (c ∷ s) sep = let rest = split s sep in if c == sep then [] ∷ rest else cons_first c rest

-- strings.SplitN with a separator of one byte, for n ≥ 0
unfoldable pub split_n : Bytes → ℕ → ℕ → List Bytes
split_n s sep zero = []
split_n s sep (suc zero) = s ∷ []
split_n [] sep (suc (suc n)) = [] ∷ []
split_n (c ∷ s) sep (suc (suc n)) =
    let next = split_n s sep (suc n) in
    let more = split_n s sep (suc (suc n)) in if c == sep then [] ∷ next else cons_first c more

-- strings.Join with a separator of one byte
unfoldable pub join : ℕ → List Bytes → Bytes
join sep [] = []
join sep (p ∷ []) = p
join sep (p ∷ q ∷ ps) = p ++ (sep ∷ join sep (q ∷ ps))

-- bytes.Index of a text that is not empty, with `none` for -1
unfoldable pub index : Bytes → Bytes → Option ℕ
unfolding has_prefix
index [] p = none
index (c ∷ s) p =
    let rest = index s p in
    if has_prefix (c ∷ s) p then some 0 else elim rest [ none ↦ none | some i ↦ some (suc i) ]

-- strings.ToLower on ASCII text
unfoldable pub to_lower : Bytes → Bytes
to_lower [] = []
to_lower (c ∷ s) = (if within b'A' b'Z' c then c + 32 else c) ∷ to_lower s

abbrev is_space : ℕ → Bool
is_space c = if within 9 13 c then true else c == b' '

-- bytes.Fields on ASCII text, behind a part of a field
unfoldable pub fields_behind : Bytes → Bytes → List Bytes
fields_behind part [] = if equal part [] then [] else part ∷ []
fields_behind part (c ∷ s) =
    let between = fields_behind [] s in
    let inside = fields_behind (part ++ c ∷ []) s in
    if is_space c then (if equal part [] then between else part ∷ between) else inside

-- bytes.Fields on ASCII text
unfoldable pub fields : Bytes → List Bytes
unfolding fields_behind
fields s = fields_behind [] s

-- bytes.TrimLeft of ASCII white space
unfoldable pub trim_left_space : Bytes → Bytes
trim_left_space [] = []
trim_left_space (c ∷ s) = let rest = trim_left_space s in if is_space c then rest else c ∷ s

-- bytes.TrimRight of ASCII white space
unfoldable pub trim_right_space : Bytes → Bytes
trim_right_space [] = []
trim_right_space (c ∷ s) = elim (trim_right_space s) [
  | [] ↦ if is_space c then [] else c ∷ []
  | d ∷ rest ↦ c ∷ d ∷ rest
]

-- bytes.TrimSpace on ASCII text
unfoldable pub trim_space : Bytes → Bytes
unfolding trim_left_space trim_right_space
trim_space s = trim_right_space (trim_left_space s)

pub has_prefix-append : (p s : Bytes) → has_prefix (p ++ s) p ≡ true
unfolding has_prefix
has_prefix-append [] [] = refl
has_prefix-append [] (c ∷ s) = refl
has_prefix-append (c ∷ p) s = ground (arith, has_prefix-append p s)

-- A prefix that is there can be taken off and put back.
pub append-drop_prefix : (s p : Bytes) → has_prefix s p ≡ true → p ++ drop (length p) s ≡ s
unfolding has_prefix
append-drop_prefix s [] h = refl
append-drop_prefix [] (c ∷ p) h = absurd (ground arith)
append-drop_prefix (d ∷ s) (c ∷ p) h = ground (arith, append-drop_prefix s p)

-- The byte does not occur.
abbrev pub Free : ℕ → Bytes → Type 0
Free b [] = Unit
Free b (c ∷ s) = ((c == b) ≡ false) × Free b s

pub index_byte-Free : (b : ℕ) (s : Bytes) → Free b s → index_byte s b ≡ none
unfolding index_byte
index_byte-Free b [] f = refl
index_byte-Free b (c ∷ s) (n, f) = ground (arith, index_byte-Free b s f)

pub index_byte-append :
    (b : ℕ) (s t : Bytes) → Free b s → index_byte (s ++ b ∷ t) b ≡ some (length s)
unfolding index_byte
index_byte-append b [] t f = ground arith
index_byte-append b (c ∷ s) t (n, f) = ground (arith, index_byte-append b s t f)

-- What stands before the byte found is free of it, and the byte stands there.
pub index_byte-splits :
    (b : ℕ) (s : Bytes) (i : ℕ)
    → index_byte s b ≡ some i
    → (s ≡ take i s ++ b ∷ drop (suc i) s) × Free b (take i s) × (i < length s)
unfolding index_byte
index_byte-splits b [] i h = cc
index_byte-splits b (c ∷ s) zero h = ground arith
index_byte-splits b (c ∷ s) (suc i) h = ground (arith, index_byte-splits b s i)

pub split-Free : (sep : ℕ) (s : Bytes) → Free sep s → split s sep ≡ s ∷ []
unfolding split
split-Free sep [] f = refl
split-Free sep (c ∷ s) (n, f) = ground (arith, split-Free sep s f)

pub split-append : (sep : ℕ) (s t : Bytes) → Free sep s → split (s ++ sep ∷ t) sep ≡ s ∷ split t sep
unfolding split
split-append sep [] t f = ground arith
split-append sep (c ∷ s) t (n, f) = ground (arith, split-append sep s t f)

pub split_n-append :
    (sep : ℕ) (s t : Bytes) → Free sep s → split_n (s ++ sep ∷ t) sep 2 ≡ s ∷ t ∷ []
unfolding split_n
split_n-append sep [] t f = ground arith
split_n-append sep (c ∷ s) t (n, f) = rw (n, split_n-append sep s t f) refl

cons_first_two :
    (c : ℕ) (ps : List Bytes) (s t : Bytes)
    → cons_first c ps ≡ s ∷ t ∷ []
    → (r : Bytes) × (ps ≡ r ∷ t ∷ []) × (s ≡ c ∷ r)
cons_first_two c [] s t h = absurd (cc h)
cons_first_two c (p ∷ ps) s t h = (p, cc h, cc h)

-- Two parts are those before and behind a separator.
pub split_n_two : (sep : ℕ) (s a b : Bytes) → split_n s sep 2 ≡ a ∷ b ∷ [] → s ≡ a ++ sep ∷ b
unfolding split_n
split_n_two sep [] a b h = absurd (cc h)
split_n_two sep (c ∷ s) a b h = elim (Bool-cases (c == sep)) [
  | inl y ↦
      let e : ([] ∷ s ∷ []) ≡ a ∷ b ∷ [] = rw y at h in
      let same : c ≡ sep = ground (arith, y) in cc (e, same)
  | inr n ↦
      let (r, p, q) = cons_first_two c (split_n s sep 2) a b (rw n at h) in
      ap (λ (t : Bytes). c ∷ t) (split_n_two sep s r b p) ∙ ap (λ (t : Bytes). t ++ sep ∷ b) (sym q)
]

split-ne-nil : (s : Bytes) (sep : ℕ) → split s sep ≢ []
unfolding split
split-ne-nil [] sep e = cc
split-ne-nil (c ∷ s) sep e = ground (arith, split-ne-nil s sep)

join-cons_first :
    (sep c : ℕ) (ps : List Bytes) → ps ≢ [] → join sep (cons_first c ps) ≡ c ∷ join sep ps
unfolding join
join-cons_first sep c [] h = absurd (h refl)
join-cons_first sep c (p ∷ []) h = refl
join-cons_first sep c (p ∷ q ∷ ps) h = refl

join-nil_cons : (sep : ℕ) (ps : List Bytes) → ps ≢ [] → join sep ([] ∷ ps) ≡ sep ∷ join sep ps
unfolding join
join-nil_cons sep [] h = absurd (h refl)
join-nil_cons sep (p ∷ ps) h = refl

-- Joining what was split gives the text back.
pub join-split : (s : Bytes) (sep : ℕ) → join sep (split s sep) ≡ s
unfolding split
join-split [] sep = unfold join in refl
join-split (c ∷ s) sep = elim (Bool-cases (c == sep)) [
  | inl e ↦
      rw e (ground (arith, join-nil_cons sep (split s sep) (split-ne-nil s sep), join-split s sep))
  | inr e ↦
      rw e
        (ground (arith, join-cons_first sep c (split s sep) (split-ne-nil s sep), join-split s sep))
]

pub trim_suffix-append : (s p : Bytes) → trim_suffix (s ++ p) p ≡ s
unfolding trim_suffix
trim_suffix-append s p =
    let e : length (s ++ p) - length p ≡ length s = omega (arith, length-append s p) in
    let fits : length p ≤ length (s ++ p) = omega (arith, length-append s p) in
    rw (le→leb _ _ fits, e, drop-append, equal_refl, take-append) refl

-- That a byte does not occur, by computation.
abbrev pub lacks : ℕ → Bytes → Bool
lacks b [] = true
lacks b (c ∷ s) = not (c == b) && lacks b s

pub lacks-Free : (b : ℕ) (s : Bytes) → lacks b s ≡ true → Free b s
lacks-Free b [] h = tt
lacks-Free b (c ∷ s) h = (ground arith, lacks-Free b s (ground arith))
