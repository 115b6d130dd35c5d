-- ===== src/Go/Json.antt =====
-- What the source uses of encoding/json: objects of strings, numbers and booleans. The text that
-- stands for a string, with its quotes and escapes, is a parameter.
use spokes_receive_pack.Base.{
  ℕ, Bool, true, false, List, [], ◌∷◌, ◌++◌, Bytes, codes, ◌==◌, equal, if◌then◌else◌,
}
use spokes_receive_pack.Go.Strconv.{decimal}

pub data Value : Type 0 where
  text : Bytes → Value
  number : ℕ → Value
  flag : Bool → Value

-- A member of an object: its key and value.
abbrev pub Member : Type 0
Member = Bytes × Value

-- Is the value left out by the tag omitempty?
unfoldable pub is_empty : Value → Bool
is_empty (text s) = equal s []
is_empty (number n) = n == 0
is_empty (flag true) = false
is_empty (flag false) = true

-- The members that are not left out.
unfoldable pub omit_empty : List Member → List Member
omit_empty [] = []
omit_empty ((k, v) ∷ ms) = let rest = omit_empty ms in if is_empty v then rest else (k, v) ∷ rest

module _ (quote : Bytes → Bytes) where
  unfoldable pub print_value : Value → Bytes
  print_value (text s) = quote s
  print_value (number n) = decimal n
  print_value (flag true) = codes "true"
  print_value (flag false) = codes "false"

  unfoldable pub print_members : List Member → Bytes
  unfolding print_value
  print_members [] = []
  print_members ((k, v) ∷ []) = b'"' ∷ (k ++ (codes "\":" ++ print_value v))
  print_members ((k, v) ∷ m ∷ ms) =
      b'"' ∷ (k ++ (codes "\":" ++ (print_value v ++ (b',' ∷ print_members (m ∷ ms)))))

  unfoldable pub print_object : List Member → Bytes
  unfolding print_members
  print_object ms = b'{' ∷ (print_members ms ++ codes "}")

  -- An object of a command and its data.
  unfoldable pub print_command : Bytes → List Member → Bytes
  unfolding print_object
  print_command command ms =
      codes "{\"command\":\""
      ++ (command ++ (codes "\",\"data\":" ++ (print_object ms ++ codes "}")))
