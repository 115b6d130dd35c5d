-- ===== src/Config/Lookup.antt =====
-- `Get`, `GetAll` and `GetPrefix` agree with one another and with the order of the entries.
use spokes_receive_pack.Base.{
  List, [], ◌∷◌, ◌++◌, ◌≡◌, refl, ap, ◌∙◌, Bytes, equal, if◌then◌else◌, Bool-cases, inl, inr,
  append-nil,
}
use spokes_receive_pack.Go.Strings.{to_lower}
use spokes_receive_pack.Config.{ConfigEntry, Config, get_loop, get, get_all_loop, get_all}

-- The last text of a list, or the one given.
abbrev pub last_or : Bytes → List Bytes → Bytes
last_or d [] = d
last_or d (v ∷ vs) = last_or v vs

get_loop-last_or :
    (es : List ConfigEntry) (name value : Bytes)
    → get_loop name value es ≡ last_or value (get_all_loop name es)
unfolding get_loop get_all_loop
get_loop-last_or [] name value = refl
get_loop-last_or (e ∷ es) name value = elim (Bool-cases (equal e.key name)) [
  | inl y ↦ rw y (get_loop-last_or es name e.value)
  | inr n ↦ rw n (get_loop-last_or es name value)
]

-- Get returns the last of the values that GetAll returns, and the empty text if there is none.
get-last_or : (c : Config) (name : Bytes) → get c name ≡ last_or [] (get_all c name)
unfolding get get_all
get-last_or c name = get_loop-last_or c.entries (to_lower name) []

get_all_loop-append :
    (es fs : List ConfigEntry) (name : Bytes)
    → get_all_loop name (es ++ fs) ≡ get_all_loop name es ++ get_all_loop name fs
unfolding get_all_loop
get_all_loop-append [] fs name = refl
get_all_loop-append (e ∷ es) fs name = elim (Bool-cases (equal e.key name)) [
  | inl y ↦ rw y (ap (◌∷◌ e.value) (get_all_loop-append es fs name))
  | inr n ↦ rw n (get_all_loop-append es fs name)
]

last_or-concat : (vs : List Bytes) (d v : Bytes) → last_or d (vs ++ v ∷ []) ≡ v
last_or-concat [] d v = refl
last_or-concat (u ∷ vs) d v = last_or-concat vs u v

abbrev appended : Config → Bytes → Bytes → Config
appended c k v = record { entries = c.entries ++ record { key = k; value = v } ∷ [] }

get_all-appended :
    (c : Config) (name k v : Bytes)
    → get_all (appended c k v) name
      ≡ get_all c name ++ (if equal k (to_lower name) then v ∷ [] else [])
unfolding get_all
get_all-appended c name k v =
    get_all_loop-append c.entries (record { key = k; value = v } ∷ []) (to_lower name)
    ∙ unfold get_all_loop in refl

-- An entry behind all others decides the value of its key, in lower case, and leaves the values of
-- other names as they were.
get-appended :
    (c : Config) (name k v : Bytes)
    → get (appended c k v) name ≡ (if equal k (to_lower name) then v else get c name)
get-appended c name k v =
    get-last_or (appended c k v) name
    ∙ ap (last_or []) (get_all-appended c name k v)
    ∙ elim (Bool-cases (equal k (to_lower name))) [
      | inl y ↦ rw y (last_or-concat (get_all c name) [] v)
      | inr n ↦ rw (n, append-nil, get-last_or c name) refl
    ]
