-- ===== src/Pktline/Caps/RoundTrip.antt =====
-- Capabilities that a client prints are read back.
use spokes_receive_pack.Base.{
  ℕ, List, [], ◌∷◌, ◌++◌, none, ◌≡◌, refl, ap, ◌∙◌, Bytes, map, append-nil,
}
use spokes_receive_pack.Base.Exec.{ok}
use spokes_receive_pack.Go.Strings.{Free, split, split-Free, split-append, join, trim_suffix-append}
use spokes_receive_pack.Pktline.Caps.{
  Capability, Capabilities, new_capability, capability_of_parts, lookup, insert, collect,
  parse_capabilities, get,
}
use spokes_receive_pack.Pktline.Caps.Parsing.{lookup-insert, last_named}

-- A name alone, or a name and a value.
unfoldable pub print_value : Bytes → Bytes
print_value [] = []
print_value (c ∷ v) = b'=' ∷ c ∷ v

unfoldable pub print_capability : Capability → Bytes
unfolding print_value
print_capability c = c.name ++ print_value c.value

-- The capabilities behind one another, and a newline.
unfoldable pub print_capabilities : List Capability → Bytes
print_capabilities cs = join b' ' (map print_capability cs) ++ b'\n' ∷ []

-- Neither the name nor the value holds a space or an equals sign.
abbrev pub IsPrintable : Capability → Type 0
IsPrintable c = Free b'=' c.name × Free b' ' c.name × Free b'=' c.value × Free b' ' c.value

abbrev pub ArePrintable : List Capability → Type 0
ArePrintable [] = Unit
ArePrintable (c ∷ cs) = IsPrintable c × ArePrintable cs

Free-append : (b : ℕ) (s t : Bytes) → Free b s → Free b t → Free b (s ++ t)
Free-append b [] t f g = g
Free-append b (c ∷ s) t (n, f) g = (n, Free-append b s t f g)

parts-print :
    (n v : Bytes)
    → Free b'=' n
    → Free b'=' v
    → capability_of_parts (n ++ print_value v) (split (n ++ print_value v) b'=')
      ≡ ok (record { name = n; value = v })
unfolding print_value capability_of_parts
parts-print n [] f g = rw (append-nil, split-Free b'=' n f) refl
parts-print n (c ∷ v) f g = rw (split-append b'=' n (c ∷ v) f, split-Free b'=' (c ∷ v) g) refl

new_capability-print : (c : Capability) → IsPrintable c → new_capability (print_capability c) ≡ ok c
unfolding new_capability print_capability
new_capability-print c (f, _, g, _) = parts-print c.name c.value f g

Free-print : (c : Capability) → IsPrintable c → Free b' ' (print_capability c)
unfolding print_capability
Free-print c (_, f, _, g) = Free-append b' ' c.name (print_value c.value) f (Free_value c.value g)
  where
    Free_value : (v : Bytes) → Free b' ' v → Free b' ' (print_value v)
    Free_value [] g = tt
    Free_value (d ∷ v) g = (refl, g)

split-join :
    (c : Capability) (cs : List Capability)
    → ArePrintable (c ∷ cs)
    → split (join b' ' (map print_capability (c ∷ cs))) b' ' ≡ map print_capability (c ∷ cs)
unfolding join
split-join c [] (p, _) = split-Free b' ' (print_capability c) (Free-print c p)
split-join c (d ∷ cs) (p, ps) =
    split-append b' ' (print_capability c) (join b' ' (map print_capability (d ∷ cs)))
      (Free-print c p)
    ∙ ap (◌∷◌ (print_capability c)) (split-join d cs ps)

collect-print :
    (cs : List Capability) (m : List (Bytes × Capability))
    → ArePrintable cs
    → (caps : Capabilities) × (collect (map print_capability cs) m ≡ ok caps)
      × ((k : Bytes) → get caps k ≡ last_named (lookup m k) cs k)
unfolding collect
collect-print [] m ps = (record { caps = m }, refl, λ k. unfold get in refl)
collect-print (c ∷ cs) m (p, ps) =
    let (caps, e, g) = collect-print cs (insert m c.name c) ps in
    (
      caps,
      rw (collect, new_capability-print c p) e,
      λ k. g k ∙ ap (λ d. last_named d cs k) (lookup-insert m c.name k c),
    )

-- If capabilities have no space and no equals sign in their names and values, then their printed
-- text is parsed, and Get returns for a name the last of them with that name.
pub parse-print_capabilities :
    (c : Capability) (cs : List Capability)
    → ArePrintable (c ∷ cs)
    → (caps : Capabilities) × (parse_capabilities (print_capabilities (c ∷ cs)) ≡ ok caps)
      × ((k : Bytes) → get caps k ≡ last_named none (c ∷ cs) k)
unfolding parse_capabilities print_capabilities
parse-print_capabilities c cs ps =
    let (caps, e, g) = collect-print (c ∷ cs) [] ps in
    (caps, rw (trim_suffix-append, split-join c cs ps) e, λ k. unfold lookup in g k)
