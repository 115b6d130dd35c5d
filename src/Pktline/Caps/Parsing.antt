-- ===== src/Pktline/Caps/Parsing.antt =====
-- What a parsed list of capabilities holds: for each name, its last occurrence.
use spokes_receive_pack.Base.{
  List, [], ◌∷◌, Option, none, some, ◌≡◌, ◌≢◌, refl, sym, ap, ◌∙◌, arith, Bytes, equal, equal_iff,
  if◌then◌else◌, inl, inr,
}
use spokes_receive_pack.Base.Exec.{ok, spent}
use spokes_receive_pack.Base.Inversion.{Result-cases, ok-injective}
use spokes_receive_pack.Go.Strings.{split, trim_suffix}
use spokes_receive_pack.Pktline.Caps.{
  Capability, Capabilities, new_capability, capability_of_parts, lookup, insert, collect,
  parse_capabilities, get,
}

-- caps[k] = c, and then caps[j]
pub lookup-insert :
    (m : List (Bytes × Capability)) (k j : Bytes) (c : Capability)
    → lookup (insert m k c) j ≡ (if equal k j then some c else lookup m j)
unfolding lookup insert
lookup-insert [] k j c = refl
lookup-insert ((i, d) ∷ m) k j c =
    ground (arith, lookup-insert m k j c, equal_iff i k, equal_iff i j, equal_iff k j)

-- The last of the capabilities with a name, or the one given.
abbrev pub last_named : Option Capability → List Capability → Bytes → Option Capability
last_named d [] k = d
last_named d (c ∷ cs) k = last_named (if equal c.name k then some c else d) cs k

-- Each part of the text gives one capability.
pub data Parses : List Bytes → List Capability → Type 0 where
  none_left : Parses [] []
  one_more :
      {part : Bytes} {parts : List Bytes} {c : Capability} {cs : List Capability}
      → new_capability part ≡ ok c
      → Parses parts cs
      → Parses (part ∷ parts) (c ∷ cs)

collect_lem :
    (parts : List Bytes) (m : List (Bytes × Capability)) {caps : Capabilities}
    → collect parts m ≡ ok caps
    → (cs : List Capability) × Parses parts cs
      × ((k : Bytes) → get caps k ≡ last_named (lookup m k) cs k)
unfolding collect
collect_lem [] m {caps} h = (
  [],
  none_left,
  λ k. unfold collect get in ap (λ (c : Capabilities). lookup c.caps k) (sym (ok-injective h)),
)
collect_lem (part ∷ parts) m {caps} h = elim (Result-cases (new_capability part)) [
  | inl (c, e) ↦
      let (cs, p, g) = collect_lem parts (insert m c.name c) {caps = caps} (rw (collect, e) at h) in
      (c ∷ cs, one_more e p, λ k. g k ∙ ap (λ d. last_named d cs k) (lookup-insert m c.name k c))
  | inr (inl (e, q)) ↦ cc (rw (collect, q) at h)
  | inr (inr q) ↦ cc (rw (collect, q) at h)
]

-- If the text of the capabilities is parsed, then each of its parts between spaces, less a newline
-- at the end, gives one capability, and Get returns for a name the last capability of that name,
-- or none if there is none.
pub parse_capabilities_sound :
    (text : Bytes) {caps : Capabilities}
    → parse_capabilities text ≡ ok caps
    → (cs : List Capability) × Parses (split (trim_suffix text (b'\n' ∷ [])) b' ') cs
      × ((k : Bytes) → get caps k ≡ last_named none cs k)
parse_capabilities_sound text {caps} h =
    let (cs, p, g) =
      collect_lem (split (trim_suffix text (b'\n' ∷ [])) b' ') [] {caps = caps}
        (unfold parse_capabilities in h) in
    (cs, p, λ k. unfold lookup in g k)

new_capability-ne-spent : (part : Bytes) → new_capability part ≢ spent
unfolding new_capability
new_capability-ne-spent part = parts-ne-spent part (split part b'=')
  where
    parts-ne-spent : (whole : Bytes) (parts : List Bytes) → capability_of_parts whole parts ≢ spent
    parts-ne-spent whole [] h = cc
    parts-ne-spent whole (n ∷ []) h = cc
    parts-ne-spent whole (n ∷ v ∷ []) h = cc
    parts-ne-spent whole (n ∷ v ∷ w ∷ parts) h = cc

collect-ne-spent : (parts : List Bytes) (m : List (Bytes × Capability)) → collect parts m ≢ spent
unfolding collect
collect-ne-spent [] m h = cc
collect-ne-spent (part ∷ parts) m h = elim (Result-cases (new_capability part)) [
  | inl (c, e) ↦ collect-ne-spent parts (insert m c.name c) (rw (collect, e) at h)
  | inr (inl (e, q)) ↦ cc (rw (collect, q) at h)
  | inr (inr q) ↦ new_capability-ne-spent part q
]

pub parse_capabilities-ne-spent : (text : Bytes) → parse_capabilities text ≢ spent
unfolding parse_capabilities
parse_capabilities-ne-spent text = collect-ne-spent (split (trim_suffix text (b'\n' ∷ [])) b' ') []
