-- ===== src/Client/Refs.antt =====
-- readAdv reads the references that the server announces (internal/integration/parse.go).
use mathlib.Core.Path.{subst}
use spokes_receive_pack.Base.{
  ℕ, zero, suc, ◌+◌, ◌≤◌, ◌<◌, false, List, [], ◌∷◌, ◌++◌, none, ◌≡◌, refl, sym, ap, ◌∙◌, arith,
  Bytes, codes, length, length-map, length-append, equal, append_assoc, append-nil, All, map,
  Bool-cases, inl, inr, take, drop, ◌-◌, equal_iff, take-append-drop,
}
use spokes_receive_pack.Base.Exec.{ok, Error}
use spokes_receive_pack.Go.Strings.{
  Free, split_n, split_n-append, trim_suffix, trim_suffix-append, has_suffix,
}
use spokes_receive_pack.Go.Strconv.{format_hex, length-format_hex}
use spokes_receive_pack.Pktline.Reads.{frame, from}
use spokes_receive_pack.Spokes.Discovery.Announced.{line_frames, announced, Advertisable}
use spokes_receive_pack.Client.{
  Dict, find, put, Adv, no_adv, cut_adv, first_adv, add_ref, accept_adv, adv_loop, read_adv,
}
use spokes_receive_pack.Client.Packets.{read_pktline-frame, read_pktline-flush}

-- A reference: its id and its name.
pub record Ref : Type 0 where
  pub oid : Bytes
  pub name : Bytes

-- The line of git for a reference.
abbrev pub line : Ref → Bytes
line r = r.oid ++ b' ' ∷ r.name

-- The id has the length of SHA-1, and the line has no other space, zero byte or newline that the
-- client would stop at.
pub record IsNamed (r : Ref) : Type 0 where
  pub sha1 : length r.oid ≡ 40
  pub one_word : Free b' ' r.oid
  pub one_line : Free b'\n' r.name
  pub no_zero : Free 0 (line r)

-- No name stands twice.
abbrev pub Distinct : List Ref → Type 0
Distinct [] = Unit
Distinct (r ∷ rs) = All (λ s. equal r.name s.name ≡ false) rs × Distinct rs

abbrev pub named : List Ref → Dict
named [] = []
named (r ∷ rs) = (r.name, r.oid) ∷ named rs

put-new : (m : Dict) (k v : Bytes) → find m k ≡ none → put m k v ≡ m ++ (k, v) ∷ []
unfolding find put
put-new [] k v h = refl
put-new ((j, w) ∷ m) k v h = ground (arith, put-new m k v)

find-other :
    (m : Dict) (j k v : Bytes)
    → find m k ≡ none
    → equal j k ≡ false
    → find (m ++ (j, v) ∷ []) k ≡ none
unfolding find
find-other [] j k v h n = ground arith
find-other ((i, w) ∷ m) j k v h n = ground (arith, find-other m j k v)

not_last : (s : Bytes) → Free b'\n' (s ++ b'\n' ∷ []) → ⊥
not_last [] f = cc (f.0)
not_last (c ∷ s) (n, f) = not_last s f

trim_suffix-Free : (s : Bytes) → Free b'\n' s → trim_suffix s (codes "\n") ≡ s
unfolding trim_suffix has_suffix
trim_suffix-Free s f = elim (Bool-cases (equal (drop (length s - 1) s) (b'\n' ∷ []))) [
  | inl y ↦
      let e : take (length s - 1) s ++ b'\n' ∷ [] ≡ s =
        ap (λ (t : Bytes). take (length s - 1) s ++ t) (sym ((equal_iff _ _).0 y))
        ∙ take-append-drop (length s - 1) s in
      absurd (not_last (take (length s - 1) s) (subst (Free b'\n') (sym e) f))
  | inr n ↦ rw n (ground arith)
]

add_ref-new :
    (l : Bytes) (r : Ref) (rest : Bytes) (a : Adv)
    → IsNamed r
    → find a.refs r.name ≡ none
    → trim_suffix (r.name ++ rest) (codes "\n") ≡ r.name
    → add_ref l (split_n (r.oid ++ b' ' ∷ (r.name ++ rest)) b' ' 2) a
      ≡ ok (record a { refs = a.refs ++ (r.name, r.oid) ∷ [] })
unfolding add_ref
add_ref-new l r rest a h n t =
    rw
      (
        split_n-append b' ' r.oid (r.name ++ rest) h.one_word,
        t,
        h.sha1,
        n,
        t,
        put-new a.refs r.name r.oid n,
      )
      refl

first_adv-again : (p : Bytes) (a : Adv) → a.first_line ≡ false → first_adv p a ≡ ok (p, a)
unfolding first_adv
first_adv-again p a q = simp (q, first_adv)

first_adv-first :
    (r : Ref) (caps : Bytes)
    → IsNamed r
    → first_adv (line r ++ (0 ∷ caps)) no_adv
      ≡ ok (line r, record { refs = []; caps = caps; first_line = false })
unfolding first_adv
first_adv-first r caps h = rw (split_n-append 0 (line r) caps h.no_zero) (unfold cut_adv in refl)

accept_adv-again :
    (r : Ref) (a : Adv)
    → IsNamed r
    → a.first_line ≡ false
    → find a.refs r.name ≡ none
    → accept_adv (line r ++ b'\n' ∷ []) a ≡ ok (record a { refs = a.refs ++ (r.name, r.oid) ∷ [] })
unfolding accept_adv
accept_adv-again r a h q n =
    rw (accept_adv, first_adv-again (line r ++ b'\n' ∷ []) a q)
      (ap (λ (l : Bytes). add_ref (line r ++ b'\n' ∷ []) (split_n l b' ' 2) a)
          (append_assoc r.oid (b' ' ∷ r.name) (b'\n' ∷ []))
        ∙ add_ref-new (line r ++ b'\n' ∷ []) r (b'\n' ∷ []) a h n
            (trim_suffix-append r.name (b'\n' ∷ [])))

accept_adv-first :
    (r : Ref) (caps : Bytes)
    → IsNamed r
    → accept_adv (line r ++ (0 ∷ caps)) no_adv
      ≡ ok (record { refs = (r.name, r.oid) ∷ []; caps = caps; first_line = false })
unfolding accept_adv
accept_adv-first r caps h =
    rw (accept_adv, first_adv-first r caps h)
      (ap
          (λ (n : Bytes).
            add_ref (line r) (split_n (r.oid ++ b' ' ∷ n) b' ' 2)
              (record { refs = []; caps = caps; first_line = false }))
          (sym (append-nil r.name))
        ∙ add_ref-new (line r) r [] (record { refs = []; caps = caps; first_line = false }) h
            (unfold find in refl)
            (ap (λ (n : Bytes). trim_suffix n (codes "\n")) (append-nil r.name)
              ∙ trim_suffix-Free r.name h.one_line))

adv_loop-line :
    (fuel : ℕ) (p rest : Bytes) (e : Error) (a a' : Adv)
    → length p ≤ 65531
    → accept_adv p a ≡ ok a'
    → adv_loop (suc fuel) a (from (frame p ++ rest) e) ≡ adv_loop fuel a' (from rest e)
unfolding adv_loop
adv_loop-line fuel p rest e a a' k h = rw (read_pktline-frame p rest e k, h) refl

adv_loop-flush :
    (fuel : ℕ) (rest : Bytes) (e : Error) (a : Adv)
    → adv_loop (suc fuel) a (from (codes "0000" ++ rest) e) ≡ (ok (a.refs, a.caps), from rest e)
unfolding adv_loop
adv_loop-flush fuel rest e a = rw (read_pktline-flush rest e) refl

-- No name of the list has an id yet.
abbrev Fresh : Dict → List Ref → Type 0
Fresh m rs = All (λ r. find m r.name ≡ none) rs

Fresh-add :
    (m : Dict) (k v : Bytes) (rs : List Ref)
    → Fresh m rs
    → All (λ s. equal k s.name ≡ false) rs
    → Fresh (m ++ (k, v) ∷ []) rs
Fresh-add m k v [] f d = tt
Fresh-add m k v (r ∷ rs) (f, fs) (d, ds) = (find-other m k r.name v f d, Fresh-add m k v rs fs ds)

adv_loop-refs :
    (rs : List Ref) (fuel : ℕ) (a : Adv) (caps rest : Bytes) (e : Error)
    → a.first_line ≡ false
    → All IsNamed rs
    → Distinct rs
    → Fresh a.refs rs
    → All (Advertisable caps) (map line rs)
    → length rs < fuel
    → adv_loop fuel a (from (line_frames (map line rs) ++ (codes "0000" ++ rest)) e)
      ≡ (ok (a.refs ++ named rs, a.caps), from rest e)
adv_loop-refs rs zero a caps rest e q h d f s k = absurd (omega arith)
adv_loop-refs [] (suc fuel) a caps rest e q h d f s k =
    adv_loop-flush fuel rest e a
    ∙ ap (λ (m : Dict). (ok (m, a.caps), from rest e)) (sym (append-nil a.refs))
adv_loop-refs (r ∷ rs) (suc fuel) a caps rest e q (h, hs) (d, ds) (f, fs) (s, ss) k =
    let p = line r ++ b'\n' ∷ [] in
    let behind = codes "0000" ++ rest in
    let a' = record a { refs = a.refs ++ (r.name, r.oid) ∷ [] } in
    let n = length-append (line r) (b'\n' ∷ []) in
    ap (λ (t : Bytes). adv_loop (suc fuel) a (from t e))
      (append_assoc (frame p) (line_frames (map line rs)) behind)
    ∙ adv_loop-line fuel p (line_frames (map line rs) ++ behind) e a a' (omega (arith, n, s.1))
        (accept_adv-again r a h q f)
    ∙ adv_loop-refs rs fuel a' caps rest e q hs ds (Fresh-add a.refs r.name r.oid rs fs d) ss
        (omega (arith, k))
    ∙ ap (λ (m : Dict). (ok (m, a.caps), from rest e))
        (append_assoc a.refs ((r.name, r.oid) ∷ []) (named rs))

length-line_frames : (ls : List Bytes) (t : Bytes) → length ls ≤ length (line_frames ls ++ t)
length-line_frames [] t = omega arith
length-line_frames (l ∷ ls) t =
    let p = l ++ b'\n' ∷ [] in
    let n = length-append (frame p) (line_frames ls ++ t) in
    let f = length-append (format_hex (4 + length p)) p in
    let x = length-format_hex (4 + length p) in
    rw (append_assoc (frame p) (line_frames ls) t) (omega (arith, n, f, x, length-line_frames ls t))

Fresh-first :
    (k v : Bytes) (rs : List Ref) → All (λ s. equal k s.name ≡ false) rs → Fresh ((k, v) ∷ []) rs
unfolding find
Fresh-first k v [] d = tt
Fresh-first k v (r ∷ rs) (d, ds) = (rw (find, d) refl, Fresh-first k v rs ds)

-- readAdv reads the references that are announced with the capabilities, and stops at the flush.
pub read_adv-announced :
    (r : Ref) (rs : List Ref) (caps rest : Bytes) (e : Error)
    → All IsNamed (r ∷ rs)
    → Distinct (r ∷ rs)
    → All (Advertisable caps) (map line (r ∷ rs))
    → read_adv (from (announced false caps (map line (r ∷ rs)) ++ (codes "0000" ++ rest)) e)
      ≡ (ok (named (r ∷ rs), caps ++ b'\n' ∷ []), from rest e)
unfolding read_adv
read_adv-announced r rs caps rest e (h, hs) (d, ds) (s, ss) =
    let p = line r ++ (0 ∷ (caps ++ b'\n' ∷ [])) in
    let behind = codes "0000" ++ rest in
    let a : Adv = record {
      refs = (r.name, r.oid) ∷ [];
      caps = caps ++ b'\n' ∷ [];
      first_line = false;
    } in
    let n = length-append (line r) (0 ∷ (caps ++ b'\n' ∷ [])) in
    let m = length-append caps (b'\n' ∷ []) in
    let all = line_frames (map line rs) ++ behind in
    let f = length-append (frame p) all in
    let g = length-append (format_hex (4 + length p)) p in
    rw (append_assoc (frame p) (line_frames (map line rs)) behind) (
      adv_loop-line (length (frame p ++ all)) p all e no_adv a (omega (arith, n, m, s.1))
        (accept_adv-first r (caps ++ b'\n' ∷ []) h)
      ∙ adv_loop-refs rs (length (frame p ++ all)) a caps rest e refl hs ds
          (Fresh-first r.name r.oid rs d) ss
          (omega (
            arith,
            f,
            g,
            length-format_hex (4 + length p),
            length-line_frames (map line rs) behind,
            length-map line rs,
          )))
