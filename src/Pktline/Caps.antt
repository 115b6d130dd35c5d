-- ===== src/Pktline/Caps.antt =====
-- internal/pktline/capabilities.go: the capabilities that a client asks for.
pub mod Parsing
pub mod Accessors
pub mod Names
pub mod RoundTrip
use spokes_receive_pack.Base.{
  ℕ, Bool, true, false, ◌||◌, List, [], ◌∷◌, Option, none, some, Bytes, codes, ◌==◌, if◌then◌else◌,
  equal, all, not,
}
use spokes_receive_pack.Base.Exec.{Result, ok, err, spent, Error, quoted}
use spokes_receive_pack.Go.Strings.{split, trim_suffix}

abbrev pub multi_ack : Bytes
multi_ack = codes "multi_ack"

abbrev pub multi_ack_detailed : Bytes
multi_ack_detailed = codes "multi_ack_detailed"

abbrev pub no_done : Bytes
no_done = codes "no-done"

abbrev pub thin_pack : Bytes
thin_pack = codes "thin-pack"

abbrev pub ofs_delta : Bytes
ofs_delta = codes "ofs-delta"

abbrev pub agent : Bytes
agent = codes "agent"

abbrev pub object_format : Bytes
object_format = codes "object-format"

abbrev pub symref : Bytes
symref = codes "symref"

abbrev pub shallow : Bytes
shallow = codes "shallow"

abbrev pub deepen_since : Bytes
deepen_since = codes "deepen-since"

abbrev pub deepen_not : Bytes
deepen_not = codes "deepen-not"

abbrev pub deepen_relative : Bytes
deepen_relative = codes "deepen-relative"

abbrev pub no_progress : Bytes
no_progress = codes "no-progress"

abbrev pub include_tag : Bytes
include_tag = codes "include-tag"

abbrev pub delete_refs : Bytes
delete_refs = codes "delete-refs"

abbrev pub atomic : Bytes
atomic = codes "atomic"

abbrev pub allow_tip_sha1_in_want : Bytes
allow_tip_sha1_in_want = codes "allow-tip-sha1-in-want"

abbrev pub allow_reachable_sha1_in_want : Bytes
allow_reachable_sha1_in_want = codes "allow-reachable-sha1-in-want"

abbrev pub push_cert : Bytes
push_cert = codes "push-cert"

abbrev pub filter : Bytes
filter = codes "filter"

abbrev pub session_id : Bytes
session_id = codes "session-id"

abbrev pub side_band : Bytes
side_band = codes "side-band"

abbrev pub side_band_64k : Bytes
side_band_64k = codes "side-band-64k"

abbrev pub report_status : Bytes
report_status = codes "report-status"

abbrev pub report_status_v2 : Bytes
report_status_v2 = codes "report-status-v2"

abbrev pub quiet : Bytes
quiet = codes "quiet"

abbrev pub push_options : Bytes
push_options = codes "push-options"

pub record Capability : Type 0 where
  pub name : Bytes
  pub value : Bytes

-- newCapability, on the parts between the equals signs
unfoldable pub capability_of_parts : Bytes → List Bytes → Result Capability
capability_of_parts whole (n ∷ []) = ok (record { name = n; value = [] })
capability_of_parts whole (n ∷ v ∷ []) = ok (record { name = n; value = v })
capability_of_parts whole _ = err (quoted (codes "unexpected Capability format ") whole)

unfoldable pub new_capability : Bytes → Result Capability
unfolding capability_of_parts
new_capability text = capability_of_parts text (split text b'=')

-- `map[string]Capability`, each key once. The program never depends on the order of a map.
pub record Capabilities : Type 0 where
  pub caps : List (Bytes × Capability)

abbrev pub no_capabilities : Capabilities
no_capabilities = record { caps = [] }

-- caps[k]
unfoldable pub lookup : List (Bytes × Capability) → Bytes → Option Capability
lookup [] k = none
lookup ((j, c) ∷ m) k = if equal j k then some c else lookup m k

-- caps[k] = c
unfoldable pub insert : List (Bytes × Capability) → Bytes → Capability → List (Bytes × Capability)
insert [] k c = (k, c) ∷ []
insert ((j, d) ∷ m) k c = let rest = insert m k c in if equal j k then (k, c) ∷ m else (j, d) ∷ rest

-- the loop of ParseCapabilities
unfoldable pub collect : List Bytes → List (Bytes × Capability) → Result Capabilities
collect [] m = ok (record { caps = m })
collect (part ∷ parts) m = elim (new_capability part) [
  | ok c ↦ collect parts (insert m c.name c)
  | err e ↦ err (quoted (codes "unable to parse Capability ") part)
  | spent ↦ spent
]

unfoldable pub parse_capabilities : Bytes → Result Capabilities
parse_capabilities text = collect (split (trim_suffix text (b'\n' ∷ [])) b' ') []

-- Capabilities.Get
unfoldable pub get : Capabilities → Bytes → Option Capability
get c k = lookup c.caps k

-- Capabilities.IsDefined
unfoldable pub is_defined : Capabilities → Bytes → Bool
is_defined c k = elim (lookup c.caps k) [ none ↦ false | some _ ↦ true ]

unfoldable pub unsafe_byte : ℕ → Bool
unsafe_byte b = b == b' ' || b == b'\r' || b == b'\n' || b == b'\t'

unfoldable pub is_safe_capability_value : Bytes → Bool
unfolding all unsafe_byte
is_safe_capability_value val = all (λ b. not (unsafe_byte b)) val
