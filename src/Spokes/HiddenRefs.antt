-- ===== src/Spokes/HiddenRefs.antt =====
-- Which references are hidden: isHiddenRef, isNegativeRef, getHiddenRefs, and the split of the
-- rules that the reference discovery makes (internal/spokes/spokes.go).
pub mod Decides
use spokes_receive_pack.Base.{
  ℕ, suc, Bool, true, false, not, List, [], ◌∷◌, ◌++◌, Bytes, codes, ◌==◌, if◌then◌else◌, drop,
}
use spokes_receive_pack.Go.Strings.{has_prefix}
use spokes_receive_pack.Config.{Config, get_all}

-- isNegativeRef
unfoldable pub is_negative_ref : Bytes → Bool × Bytes
is_negative_ref ref = if has_prefix ref (codes "!") then (true, drop 1 ref) else (false, ref)

-- the loop of isHiddenRef
unfoldable pub hidden_loop : Bool → Bytes → List Bytes → Bool
hidden_loop hidden ref [] = hidden
hidden_loop hidden ref (hr ∷ hrs) =
    let (neg, stripped) = is_negative_ref hr in
    hidden_loop (if has_prefix ref stripped then not neg else hidden) ref hrs

-- isHiddenRef
unfoldable pub is_hidden_ref : Bytes → List Bytes → Bool
is_hidden_ref ref rules = hidden_loop false ref rules

-- getHiddenRefs
unfoldable pub get_hidden_refs : Config → List Bytes
get_hidden_refs c = get_all c (codes "receive.hiderefs") ++ get_all c (codes "transfer.hiderefs")

-- the loop of performReferenceDiscovery over the rules: those that hide, and those that unhide
unfoldable pub split_rules : List Bytes → List Bytes → List Bytes → List Bytes × List Bytes
split_rules [] hidden unhidden = (hidden, unhidden)
split_rules ([] ∷ rules) hidden unhidden = split_rules rules hidden unhidden
split_rules ((c ∷ rule) ∷ rules) hidden unhidden =
    split_rules rules (if c == b'!' then hidden else hidden ++ (c ∷ rule) ∷ [])
      (if c == b'!' then unhidden ++ rule ∷ [] else unhidden)
