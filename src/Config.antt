-- ===== src/Config.antt =====
-- internal/config/git.go: the entries of `git config --list -z`, and how they are looked up.
pub mod Listing
pub mod Lookup
pub mod Sizes
use spokes_receive_pack.Base.{
  ℕ, zero, suc, ◌*◌, ◌-◌, Bool, true, false, ◌||◌, List, [], ◌∷◌, ◌++◌, Option, none, some, Bytes,
  codes, ltb, ◌==◌, if◌then◌else◌, length, take, drop, equal, ℤ, mul_int,
}
use spokes_receive_pack.Base.Exec.{Result, ok, err, spent, Error, message, wrap}
use spokes_receive_pack.Go.Strings.{index_byte, has_prefix, trim_prefix, to_lower}
use spokes_receive_pack.Go.Strconv.{atoi}

pub record ConfigEntry : Type 0 where
  pub key : Bytes
  pub value : Bytes

pub record Config : Type 0 where
  pub entries : List ConfigEntry

abbrev invalid_output : Error
invalid_output = message (codes "invalid output from 'git config'")

-- One round of the loop of GetConfig: the entry at the front, and the output behind it.
unfoldable pub take_entry : Bytes → Result (ConfigEntry × Bytes)
take_entry out = elim (index_byte out b'\n') [
  | none ↦ err invalid_output
  | some key_end ↦
      let rest = drop (suc key_end) out in
      elim (index_byte rest 0) [
        | none ↦ err invalid_output
        | some value_end ↦ ok (
          record { key = take key_end out; value = take value_end rest },
          drop (suc value_end) rest,
        )
      ]
]

-- The loop of GetConfig, with the entries so far.
unfoldable pub parse_entries : ℕ → Bytes → List ConfigEntry → Result Config
parse_entries fuel [] entries = ok (record { entries = entries })
parse_entries zero (c ∷ out) entries = spent
parse_entries (suc fuel) (c ∷ out) entries = elim (take_entry (c ∷ out)) [
  | ok (e, rest) ↦ parse_entries fuel rest (entries ++ e ∷ [])
  | err e ↦ err e
  | spent ↦ spent
]

-- GetConfig, on what the command printed, or its failure.
unfoldable pub get_config : Result Bytes → Result Config
get_config (ok out) = parse_entries (length out) out []
get_config (err e) = err (wrap (codes "reading git configuration") e)
get_config spent = spent

get_loop : Bytes → Bytes → List ConfigEntry → Bytes
get_loop name value [] = value
get_loop name value (e ∷ es) = get_loop name (if equal e.key name then e.value else value) es

-- Config.Get
unfoldable pub get : Config → Bytes → Bytes
unfolding get_loop
get c name = get_loop (to_lower name) [] c.entries

get_all_loop : Bytes → List ConfigEntry → List Bytes
get_all_loop name [] = []
get_all_loop name (e ∷ es) =
    let rest = get_all_loop name es in if equal e.key name then e.value ∷ rest else rest

-- Config.GetAll
unfoldable pub get_all : Config → Bytes → List Bytes
unfolding get_all_loop
get_all c name = get_all_loop (to_lower name) c.entries

-- m[k] = append(m[k], v), where a new key goes to the end
unfoldable pub append_at : List (Bytes × List Bytes) → Bytes → Bytes → List (Bytes × List Bytes)
append_at [] k v = (k, v ∷ []) ∷ []
append_at ((j, vs) ∷ m) k v =
    let rest = append_at m k v in if equal j k then (j, vs ++ v ∷ []) ∷ m else (j, vs) ∷ rest

prefix_loop : Bytes → List ConfigEntry → List (Bytes × List Bytes) → List (Bytes × List Bytes)
prefix_loop prefix [] m = m
prefix_loop prefix (e ∷ es) m =
    prefix_loop prefix es
      (if has_prefix e.key prefix then append_at m (trim_prefix e.key prefix) e.value else m)

-- Config.GetPrefix: the map in the order in which its keys were first seen
unfoldable pub get_prefix : Config → Bytes → List (Bytes × List Bytes)
unfolding prefix_loop
get_prefix c prefix = prefix_loop prefix c.entries []

-- The factor of a size suffix.
unfoldable pub suffix_factor : ℕ → ℕ
suffix_factor c =
    if c == b'k' || c == b'K'
    then 1024
    else if c == b'm' || c == b'M'
    then 1024 * 1024
    else if c == b'g' || c == b'G'
    then 1024 * 1024 * 1024
    else 1

-- str[len(str)-1], and 0 for the empty text
unfoldable pub last_byte : Bytes → ℕ
last_byte [] = 0
last_byte (c ∷ []) = c
last_byte (c ∷ d ∷ s) = last_byte (d ∷ s)

abbrev times : ℕ → Result ℤ → Result ℤ
times factor (ok n) = ok (mul_int n factor)
times factor (err e) = err e
times factor spent = spent

-- ParseSigned
unfoldable pub parse_signed : Bytes → Result ℤ
parse_signed str =
    let factor = suffix_factor (last_byte str) in
    times factor (atoi (if factor == 1 then str else take (length str - 1) str))
