-- ===== src/Spokes/Command.antt =====
-- The `command` type of internal/spokes/spokes.go and its tests.
use spokes_receive_pack.Base.{
  Bool, not, ◌&&◌, ◌||◌, List, [], ◌∷◌, Bytes, if◌then◌else◌, equal, any,
}
use spokes_receive_pack.ObjectFormat.{null_oid_sha1, null_oid_sha256}

pub record Command : Type 0 where
  pub refname : Bytes
  pub old_oid : Bytes
  pub new_oid : Bytes
  -- empty for a command that is not rejected
  pub err : Bytes
  pub report_ff : Bytes

unfoldable pub is_null : Bytes → Bool
is_null oid = equal oid null_oid_sha1 || equal oid null_oid_sha256

-- c.isUpdate
unfoldable pub is_update : Command → Bool
is_update c = not (is_null c.old_oid) && not (is_null c.new_oid)

-- c.isDelete
unfoldable pub is_delete : Command → Bool
is_delete c = is_null c.new_oid

-- includeNonDeletes
unfoldable pub include_non_deletes : List Command → Bool
unfolding any
include_non_deletes commands = any (λ c. not (is_null c.new_oid)) commands

-- the test `c.err == ""`
unfoldable pub not_rejected : Command → Bool
not_rejected c = equal c.err []

-- commandsForConnectivityCheck
unfoldable pub commands_for_connectivity_check : List Command → List Command
commands_for_connectivity_check [] = []
commands_for_connectivity_check (c ∷ cs) =
    let rest = commands_for_connectivity_check cs in
    if not_rejected c && not (is_delete c) then c ∷ rest else rest

-- for i := range commands { commands[i].err = text; commands[i].reportFF = "ng" }
unfoldable pub reject_all : Bytes → Bytes → List Command → List Command
reject_all text ng [] = []
reject_all text ng (c ∷ cs) = record c { err = text; report_ff = ng } ∷ reject_all text ng cs
