-- ===== src/Spokes/Programs/Verified.antt =====
-- What git has verified of the commands that are accepted (internal/spokes/spokes.go).
use spokes_receive_pack.Base.{List, ◌∷◌, ◌++◌, none, ◌≡◌, ◌⊎◌, Bytes}
use spokes_receive_pack.Config.{Config}
use spokes_receive_pack.Spokes.Command.{Command}
use spokes_receive_pack.Spokes.Programs.{Programs, Place, common_call, object_call}

module _ (p : Programs) (r : Place) where
  -- `git rev-list` ended without an error, on this object alone or on several with this among them.
  abbrev pub IsVerified : Bytes → Type 0
  IsVerified oid =
      ((p.run (object_call r oid)).0 ≡ none)
      ⊎ ((before : List Bytes) × (after : List Bytes) × ((p.run
              (common_call r (before ++ oid ∷ after))).0
            ≡ none))
