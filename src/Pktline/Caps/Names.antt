-- ===== src/Pktline/Caps/Names.antt =====
-- Names of internal/pktline/capabilities.go, and the order that sort.Strings goes by.
use spokes_receive_pack.Base.{
  Bool, true, false, ◌||◌, ◌&&◌, List, [], ◌∷◌, ◌≡◌, refl, ◌∙◌, arith, Bytes, ltb, ◌==◌, equal,
  if◌then◌else◌,
}
use spokes_receive_pack.Pktline.Caps.{Capability, Capabilities, lookup, is_defined}

-- a <= b, byte by byte
unfoldable pub text_le : Bytes → Bytes → Bool
text_le [] b = true
text_le (x ∷ a) [] = false
text_le (x ∷ a) (y ∷ b) = let rest = text_le a b in if ltb x y then true else x == y && rest

insert_sorted : Bytes → List Bytes → List Bytes
insert_sorted k [] = k ∷ []
insert_sorted k (n ∷ ns) =
    let rest = insert_sorted k ns in if text_le k n then k ∷ n ∷ ns else n ∷ rest

-- sort.Strings
unfoldable pub sort_texts : List Bytes → List Bytes
unfolding insert_sorted
sort_texts [] = []
sort_texts (k ∷ ks) = insert_sorted k (sort_texts ks)

abbrev pub keys : List (Bytes × Capability) → List Bytes
keys [] = []
keys ((k, c) ∷ m) = k ∷ keys m

-- Names
unfoldable pub names : Capabilities → List Bytes
names c = sort_texts (keys c.caps)

-- Each text is at most the next one.
abbrev pub IsSorted : List Bytes → Type 0
IsSorted [] = Unit
IsSorted (k ∷ []) = Unit
IsSorted (k ∷ n ∷ ns) = (text_le k n ≡ true) × IsSorted (n ∷ ns)

-- Does the text stand in the list?
abbrev pub has : Bytes → List Bytes → Bool
has k [] = false
has k (n ∷ ns) = equal n k || has k ns

text_le_total : (a b : Bytes) → text_le a b ≡ false → text_le b a ≡ true
unfolding text_le
text_le_total [] b h = absurd (ground arith)
text_le_total (x ∷ a) [] h = refl
text_le_total (x ∷ a) (y ∷ b) h = ground (arith, text_le_total a b)

insert_sorted-IsSorted : (k : Bytes) (ns : List Bytes) → IsSorted ns → IsSorted (insert_sorted k ns)
unfolding insert_sorted
insert_sorted-IsSorted k [] h = tt
insert_sorted-IsSorted k (n ∷ []) h = ground (arith, text_le_total k n)
insert_sorted-IsSorted k (n ∷ n' ∷ ns) (p, h) =
    ground (arith, text_le_total k n, insert_sorted-IsSorted k (n' ∷ ns) h)

sort_texts-IsSorted : (ks : List Bytes) → IsSorted (sort_texts ks)
unfolding sort_texts
sort_texts-IsSorted [] = tt
sort_texts-IsSorted (k ∷ ks) = insert_sorted-IsSorted k (sort_texts ks) (sort_texts-IsSorted ks)

has-insert_sorted :
    (j k : Bytes) (ns : List Bytes) → has j (insert_sorted k ns) ≡ (equal k j || has j ns)
unfolding insert_sorted
has-insert_sorted j k [] = refl
has-insert_sorted j k (n ∷ ns) = ground (arith, has-insert_sorted j k ns)

has-sort_texts : (j : Bytes) (ks : List Bytes) → has j (sort_texts ks) ≡ has j ks
unfolding sort_texts
has-sort_texts j [] = refl
has-sort_texts j (k ∷ ks) =
    ground (arith, has-insert_sorted j k (sort_texts ks), has-sort_texts j ks)

has-keys :
    (k : Bytes) (m : List (Bytes × Capability))
    → has k (keys m) ≡ is_defined (record { caps = m }) k
unfolding is_defined lookup
has-keys k [] = refl
has-keys k ((j, c) ∷ m) = ground (arith, has-keys k m)

-- Names returns texts in ascending order, and has a name exactly if the capability is defined.
pub names_lem :
    (c : Capabilities) → IsSorted (names c) × ((k : Bytes) → has k (names c) ≡ is_defined c k)
unfolding names
names_lem c =
    (sort_texts-IsSorted (keys c.caps), λ k. has-sort_texts k (keys c.caps) ∙ has-keys k c.caps)
