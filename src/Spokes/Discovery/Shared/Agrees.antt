-- ===== src/Spokes/Discovery/Shared/Agrees.antt =====
-- The shared reference discovery and the isolated one, where git is asked for the visible
-- references only (internal/spokes/spokes.go).
use mathlib.Core.Path.{subst}
use spokes_receive_pack.Base.{
  ◌*◌, ◌-◌, ℕ, ◌+◌, ◌≤◌, false, List, [], ◌∷◌, ◌++◌, Option, none, ◌≡◌, refl, arith, Bytes, codes,
  length, All, append_assoc, append-nil, map, equal,
}
use spokes_receive_pack.Base.Exec.{ok, Error}
use spokes_receive_pack.Go.Writer.{write}
use spokes_receive_pack.ObjectFormat.{null_oid}
use spokes_receive_pack.Sockstat.{get_uint32, uint32_value}
use spokes_receive_pack.Spokes.HiddenRefs.{get_hidden_refs, split_rules}
use spokes_receive_pack.Spokes.Discovery.{Announcement, discover, on_writer}
use spokes_receive_pack.Spokes.Discovery.Advertises.{
  visible_reply, unhidden_reply, parent_reply, discover-holding, lonely_step, advertisement,
}
use spokes_receive_pack.Spokes.Discovery.Announced.{announced, sent, Advertisable, state}
use spokes_receive_pack.Spokes.Discovery.Shared.{
  unhidden_query, parent_query, run, begin, run_all, queries, discover_shared,
}
use spokes_receive_pack.Go.Strings.{cut_prefix}
use spokes_receive_pack.Spokes.Discovery.Shared.Alone.{
  Heads, Single, firsts, run-Single, finished-Single,
}

queries-alone :
    (a : Announcement)
    → (split_rules (get_hidden_refs a.config) [] []).1 ≡ []
    → a.env (codes "GIT_SOCKSTAT_VAR_parent_repo_id") ≡ []
    → map a.git.for_each_ref (queries a) ≡ visible_reply a ∷ []
unfolding queries unhidden_query parent_query equal
queries-alone a u p = rw (u, p) refl

unhidden-none :
    (a : Announcement)
    → (split_rules (get_hidden_refs a.config) [] []).1 ≡ []
    → unhidden_reply a ≡ ([], none)
unhidden-none a u = rw u refl

parent-none :
    (a : Announcement)
    → a.env (codes "GIT_SOCKSTAT_VAR_parent_repo_id") ≡ []
    → parent_reply a ≡ ([], none)
unfolding get_uint32 uint32_value cut_prefix
parent-none a p = rw (get_uint32, p) refl

run_all-alone :
    (a : Announcement) (choose : List (Option Error) → Option Error) (turns : List ℕ)
    (visible : List Bytes) (o : Bytes) (e : Error)
    → (split_rules (get_hidden_refs a.config) [] []).1 ≡ []
    → a.env (codes "GIT_SOCKSTAT_VAR_parent_repo_id") ≡ []
    → visible_reply a ≡ (visible, none)
    → All (Advertisable a.capabilities) visible
    → choose (none ∷ none ∷ []) ≡ none
    → 4 * length visible ≤ firsts turns
    → run_all choose turns a (state o e false)
      ≡ (ok tt, state (o ++ announced false a.capabilities visible) e (sent false visible))
unfolding run_all
run_all-alone a choose turns ls o e u p v h q n =
    let c = a.capabilities in
    let target = o ++ announced false c ls in
    let start : Heads c e target (sent false ls) (4 * length ls) (begin (ls, none))
        (state o e false) =
      record {
        out = o;
        wrote = false;
        is_state = refl;
        good = h;
        output = refl;
        mark = refl;
        left = omega arith;
      } in
    let none_left : 4 * length ls - firsts turns ≡ 0 = omega (arith, n) in
    let over =
      run-Single c e target (sent false ls) turns (4 * length ls) (begin (ls, none))
        (state o e false) start in
    rw (queries-alone a u p, v)
      (finished-Single c e target (sent false ls) choose ls
        (run c turns (begin (ls, none) ∷ [], state o e false)) q
        (subst
          (λ (k : ℕ).
            Single c e target (sent false ls) k
              (run c turns (begin (ls, none) ∷ [], state o e false)))
          none_left over))

-- If no pattern is unhidden, there is no variable with a parent, git answers the query for the
-- visible references without an error and with lines of at least 41 bytes that fit beside the
-- capabilities, the null id fits too, and the pipe has no error where its stages have none, then
-- the shared reference discovery does what the isolated one does, with any sequence of turns in
-- which its function has at least four for each line.
pub discover_shared-discover :
    (a : Announcement) (choose : List (Option Error) → Option Error) (turns : List ℕ)
    (visible : List Bytes) (o : Bytes) (e : Error)
    → (split_rules (get_hidden_refs a.config) [] []).1 ≡ []
    → a.env (codes "GIT_SOCKSTAT_VAR_parent_repo_id") ≡ []
    → visible_reply a ≡ (visible, none)
    → All (Advertisable a.capabilities) visible
    → length (null_oid a.object_format) + length a.capabilities ≤ 65499
    → choose (none ∷ none ∷ []) ≡ none
    → 4 * length visible ≤ firsts turns
    → discover_shared choose turns a (state o e false) ≡ discover a (state o e false)
unfolding discover_shared on_writer write
discover_shared-discover a choose turns ls o e u p v h b q n =
    let ran = run_all-alone a choose turns ls o e u p v h q n in
    rw
      (
        discover-holding a o e ls [] [] v (unhidden-none a u) (parent-none a p) h tt tt b,
        append-nil ls,
        ran,
        lonely_step a o e ls o b,
        append_assoc o (advertisement a ls) (codes "0000"),
      )
      refl
