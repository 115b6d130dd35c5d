-- ===== src/Spokes/RefLine.antt =====
-- validReferenceName of internal/spokes/spokes.go:
-- `^([0-9a-f]{40,64}) ([0-9a-f]{40,64}) (.+)`, where `.` is any byte but a newline.
pub mod Accepts
use spokes_receive_pack.Base.{
  ℕ, suc, Bool, true, false, ◌&&◌, ◌||◌, List, [], ◌∷◌, Option, none, some, Bytes, codes, ltb, leb,
  ◌==◌, within, if◌then◌else◌, length,
}

abbrev pub is_hex_byte : ℕ → Bool
is_hex_byte c = within b'0' b'9' c || within b'a' b'f' c

-- The longest run of hexadecimal digits at the front, and what stands behind it.
unfoldable pub hex_run : Bytes → Bytes × Bytes
hex_run [] = ([], [])
hex_run (c ∷ s) =
    let rest = hex_run s in if is_hex_byte c then (c ∷ rest.0, rest.1) else ([], c ∷ s)

-- `(.+)`: everything up to a newline
unfoldable pub line_run : Bytes → Bytes
line_run [] = []
line_run (c ∷ s) = let rest = line_run s in if c == b'\n' then [] else c ∷ rest

-- A run of 40 to 64 digits and the space behind it.
unfoldable pub oid_field : Bytes × Bytes → Option (Bytes × Bytes)
oid_field (oid, []) = none
oid_field (oid, c ∷ s) = if c == b' ' && within 40 64 (length oid) then some (oid, s) else none

pub record RefUpdate : Type 0 where
  pub old_oid : Bytes
  pub new_oid : Bytes
  pub refname : Bytes

unfoldable pub name_field : Bytes → Bytes → Bytes → Option RefUpdate
name_field old new [] = none
name_field old new (c ∷ name) = some (record { old_oid = old; new_oid = new; refname = c ∷ name })

-- validReferenceName.FindStringSubmatch
unfoldable pub match_ref_line : Bytes → Option RefUpdate
match_ref_line payload = elim (oid_field (hex_run payload)) [
  | none ↦ none
  | some (old, rest) ↦ elim (oid_field (hex_run rest)) [
    | none ↦ none
    | some (new, rest') ↦ name_field old new (line_run rest')
  ]
]
