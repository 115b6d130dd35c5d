-- ===== src/Spokes/Discovery/Shared/Parents.antt =====
-- The patterns with which performReferenceDiscovery asks for the parent's references.
use spokes_receive_pack.Base.{
  false, List, map, if◌then◌else◌, equal, ℕ, true, [], ◌∷◌, ◌++◌, ◌≡◌, ◌≢◌, refl, sym, ap, ◌∙◌,
  arith, Bytes, codes, drop, Bool-cases, inl, inr,
}
use spokes_receive_pack.Go.Strings.{has_prefix, cut_prefix, append-drop_prefix}
use spokes_receive_pack.Go.Strconv.{decimal-head}
use spokes_receive_pack.Sockstat.{Environment, get_uint32, uint32_value}
use spokes_receive_pack.Base.Exec.{ok}
use spokes_receive_pack.Spokes.HiddenRefs.{get_hidden_refs, split_rules}
use spokes_receive_pack.Spokes.Discovery.{
  Announcement, parent_patterns, parent_arguments, ref_format,
}
use spokes_receive_pack.Spokes.Discovery.Shared.{
  shared_patterns, network_query, unhidden_query, parent_query, queries,
}

tagged : (s : Bytes) → uint32_value s ≢ 0 → s ≡ codes "uint:" ++ drop 5 s
unfolding uint32_value cut_prefix
tagged s h = elim (Bool-cases (has_prefix s (codes "uint:"))) [
  | inl y ↦ sym (append-drop_prefix s (codes "uint:") y)
  | inr n ↦ absurd (h (rw (uint32_value, cut_prefix, n) refl))
]

abbrev head : Bytes → ℕ
head [] = 0
head (c ∷ s) = c

abbrev named : Bytes → Bytes → Bytes
named id tags =
    codes "refs/remotes/"
    ++ (id
        ++ (codes "/heads"
            ++ (if equal tags [] then [] else codes " refs/remotes/" ++ (id ++ codes "/tags"))))

-- The byte behind refs/remotes/.
abbrev behind_remotes : Bytes → ℕ
behind_remotes t = head (drop 13 t)

-- The pattern of the raw variable is not that of its number.
shared_patterns-ne-parent_patterns :
    (env : Environment) (tags : Bytes)
    → get_uint32 env (codes "parent_repo_id") ≢ 0
    → shared_patterns (env (codes "GIT_SOCKSTAT_VAR_parent_repo_id")) tags
      ≢ parent_patterns (get_uint32 env (codes "parent_repo_id")) tags
unfolding get_uint32 shared_patterns parent_patterns
shared_patterns-ne-parent_patterns env tags h x =
    let s = env (codes "GIT_SOCKSTAT_VAR_parent_repo_id") in
    let (c, d, e, lo, hi) = decimal-head (uint32_value s) in
    let heads : b'u' ≡ c =
      sym (ap (λ (t : Bytes). behind_remotes (shared_patterns t tags)) (tagged s h))
      ∙ ap behind_remotes x
      ∙ ap (λ (t : Bytes). behind_remotes (named t tags)) e in
    absurd (omega (arith, hi, heads))

-- The fourth argument.
abbrev fourth : List Bytes → Bytes
fourth (x ∷ y ∷ z ∷ p ∷ ps) = p
fourth _ = []

parent_query-raw :
    (a : Announcement) (network : Bytes)
    → get_uint32 a.env (codes "parent_repo_id") ≢ 0
    → a.network_repo_path ≡ ok network
    → parent_query a
      ≡ ((codes "--git-dir=" ++ network)
          ∷ codes "for-each-ref"
          ∷ codes "--format=%(objectname) .have"
          ∷ shared_patterns
              (a.env (codes "GIT_SOCKSTAT_VAR_parent_repo_id"))
              (a.env (codes "GIT_NW_ADVERTISE_TAGS"))
          ∷ [])
        ∷ []
unfolding parent_query network_query equal get_uint32
parent_query-raw a network h q =
    let s = a.env (codes "GIT_SOCKSTAT_VAR_parent_repo_id") in
    let set : equal s [] ≡ false = rw (tagged s h) refl in rw (set, q) refl

-- If the variable of the parent's id has an id other than 0 and the path of the network is found,
-- then the last query of the shared reference discovery asks the git of the network for a pattern
-- that begins with refs/remotes/uint:, and it is not the query that the isolated reference
-- discovery makes for the references of the parent.
pub queries-uint :
    (a : Announcement) (network : Bytes)
    → get_uint32 a.env (codes "parent_repo_id") ≢ 0
    → a.network_repo_path ≡ ok network
    → (before : List (List Bytes)) × (pattern : Bytes) × (queries a
        ≡ before
          ++ ((codes "--git-dir=" ++ network)
              ∷ codes "for-each-ref"
              ∷ codes "--format=%(objectname) .have"
              ∷ pattern
              ∷ [])
            ∷ [])
      × (has_prefix pattern (codes "refs/remotes/uint:") ≡ true)
      × (((codes "--git-dir=" ++ network)
            ∷ codes "for-each-ref"
            ∷ codes "--format=%(objectname) .have"
            ∷ pattern
            ∷ [])
          ≢ parent_arguments a (get_uint32 a.env (codes "parent_repo_id")) network)
unfolding queries shared_patterns has_prefix get_uint32
queries-uint a network h q =
    let s = a.env (codes "GIT_SOCKSTAT_VAR_parent_repo_id") in
    let tags = a.env (codes "GIT_NW_ADVERTISE_TAGS") in
    let rules = split_rules (get_hidden_refs a.config) [] [] in
    let first =
      codes "for-each-ref" ∷ ref_format ∷ map (λ (r : Bytes). codes "--exclude=" ++ r) rules.0 in
    (
      first ∷ unhidden_query rules.1,
      shared_patterns s tags,
      rw (parent_query-raw a network h q) refl,
      rw (tagged s h) refl,
      λ x. shared_patterns-ne-parent_patterns a.env tags h (ap fourth x),
    )
