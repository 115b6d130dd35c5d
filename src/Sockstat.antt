-- ===== src/Sockstat.antt =====
-- internal/sockstat/sockstat.go: typed variables that come through the environment.
pub mod Values
use spokes_receive_pack.Base.{
  ℕ, Bool, true, false, ◌||◌, List, [], ◌∷◌, ◌++◌, Option, none, some, Bytes, codes, if◌then◌else◌,
  equal,
}
use spokes_receive_pack.Go.Strings.{split_n, cut_prefix}
use spokes_receive_pack.Go.Strconv.{Parsed, valid, parse_uint}

abbrev pub prefix : Bytes
prefix = codes "GIT_SOCKSTAT_VAR_"

-- os.Getenv: the empty text for a variable that is not there
abbrev pub Environment : Type 0
Environment = Bytes → Bytes

-- the parts before and behind the first colon
unfoldable pub strip_tag : Bytes → List Bytes → Bytes
strip_tag s (tag ∷ rest ∷ []) =
    if equal tag (codes "uint") || equal tag (codes "bool") then rest else s
strip_tag s _ = s

-- StringValue
unfoldable pub string_value : Bytes → Bytes
unfolding strip_tag split_n
string_value s = strip_tag s (split_n s b':' 2)

abbrev or_zero : Parsed → ℕ
or_zero (valid n) = n
or_zero _ = 0

-- Uint32Value
unfoldable pub uint32_value : Bytes → ℕ
uint32_value s = elim (cut_prefix s (codes "uint:")) [
  | none ↦ 0
  | some digits ↦ or_zero (parse_uint digits 10 32)
]

-- BoolValue
unfoldable pub bool_value : Bytes → Bool
unfolding equal
bool_value s = equal s (codes "bool:true")

-- GetString
unfoldable pub get_string : Environment → Bytes → Bytes
get_string env name = string_value (env (prefix ++ name))

-- GetUint32
unfoldable pub get_uint32 : Environment → Bytes → ℕ
get_uint32 env name = uint32_value (env (prefix ++ name))

-- GetBool
unfoldable pub get_bool : Environment → Bytes → Bool
get_bool env name = bool_value (env (prefix ++ name))
