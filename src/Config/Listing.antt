-- ===== src/Config/Listing.antt =====
-- `GetConfig` reads back every listing that git prints, and always ends.
use spokes_receive_pack.Base.{
  ℕ, zero, suc, ◌≤◌, ◌<◌, List, [], ◌∷◌, ◌++◌, ◌≡◌, ◌≢◌, refl, ap, ◌∙◌, arith, Bytes, length, take,
  drop, length-append, length-drop, append_assoc, append-nil, take-append, drop_behind,
  Option-cases, inl, inr,
}
use spokes_receive_pack.Base.Exec.{Result, ok, err, spent}
use spokes_receive_pack.Go.Strings.{Free, index_byte, index_byte-append, index_byte-splits}
use spokes_receive_pack.Config.{ConfigEntry, take_entry, parse_entries, get_config}

-- One entry as `git config --list -z` prints it.
abbrev pub print_entry : ConfigEntry → Bytes → Bytes
print_entry e rest = e.key ++ (b'\n' ∷ e.value ++ (0 ∷ rest))

unfoldable pub listing : List ConfigEntry → Bytes
listing [] = []
listing (e ∷ es) = print_entry e (listing es)

-- A key holds no newline, and a value no zero byte.
abbrev pub IsListable : List ConfigEntry → Type 0
IsListable [] = Unit
IsListable (e ∷ es) = Free b'\n' e.key × Free 0 e.value × IsListable es

take_entry-print :
    (e : ConfigEntry) (rest : Bytes)
    → Free b'\n' e.key
    → Free 0 e.value
    → take_entry (print_entry e rest) ≡ ok (e, rest)
unfolding take_entry
take_entry-print e rest k v =
    rw
      (
        take_entry,
        index_byte-append b'\n' e.key (e.value ++ (0 ∷ rest)) k,
        drop_behind,
        index_byte-append 0 e.value rest v,
        drop_behind,
        take-append,
        take-append,
      )
      (simp drop_behind)

length-print : (e : ConfigEntry) (rest : Bytes) → length rest < length (print_entry e rest)
length-print e rest =
    omega
      (arith, length-append e.key (b'\n' ∷ e.value ++ (0 ∷ rest)), length-append e.value (0 ∷ rest))

parse_entries_cons :
    (fuel : ℕ) (out rest : Bytes) (e : ConfigEntry) (entries : List ConfigEntry)
    → out ≢ []
    → take_entry out ≡ ok (e, rest)
    → parse_entries (suc fuel) out entries ≡ parse_entries fuel rest (entries ++ e ∷ [])
unfolding parse_entries
parse_entries_cons fuel [] rest e entries ne h = absurd (ne refl)
parse_entries_cons fuel (c ∷ out) rest e entries ne h = rw (parse_entries, h) refl

parse_entries-listing :
    (es done : List ConfigEntry) (fuel : ℕ)
    → IsListable es
    → length (listing es) ≤ fuel
    → parse_entries fuel (listing es) done ≡ ok (record { entries = done ++ es })
unfolding listing
parse_entries-listing [] done fuel h k = unfold parse_entries in rw append-nil refl
parse_entries-listing (e ∷ es) done zero h k = absurd (omega (arith, length-print e (listing es)))
parse_entries-listing (e ∷ es) done (suc fuel) (hk, hv, h) k =
    parse_entries_cons fuel (print_entry e (listing es)) (listing es) e done
      (λ p. absurd (omega (arith, length-print e (listing es), ap length p)))
      (take_entry-print e (listing es) hk hv)
    ∙ parse_entries-listing es (done ++ e ∷ []) fuel h (omega (arith, length-print e (listing es)))
    ∙ ap (λ l. ok (record { entries = l })) (append_assoc done (e ∷ []) es)

-- If keys have no newline and values no zero byte, then GetConfig reads what git prints for the
-- entries back as these entries, in order.
pub get_config-listing :
    (es : List ConfigEntry)
    → IsListable es
    → get_config (ok (listing es)) ≡ ok (record { entries = es })
unfolding get_config
get_config-listing es h = parse_entries-listing es [] (length (listing es)) h (omega arith)

-- The rest of the output behind an entry is shorter.
take_entry-shrinks :
    (out : Bytes) (e : ConfigEntry) (rest : Bytes)
    → take_entry out ≡ ok (e, rest)
    → length rest < length out
unfolding take_entry
take_entry-shrinks out e rest h = elim (Option-cases (index_byte out b'\n')) [
  | inl n ↦ cc (rw (take_entry, n) at h)
  | inr (i, s) ↦
      let behind = drop (suc i) out in
      elim (Option-cases (index_byte behind 0)) [
        | inl n ↦ cc (rw (take_entry, s, n) at h)
        | inr (j, u) ↦
            let q : ok (record { key = take i out; value = take j behind }, drop (suc j) behind)
                ≡ ok (e, rest) =
              rw (take_entry, s, u) at h in
            let same : drop (suc j) behind ≡ rest = cc q in
            omega (
              arith,
              (index_byte-splits b'\n' out i s).2,
              length-drop (suc i) out,
              length-drop (suc j) behind,
              ap length same,
            )
      ]
]

take_entry-ne-spent : (out : Bytes) → take_entry out ≢ spent
unfolding take_entry
take_entry-ne-spent out = ground arith

parse_entries-ne-spent :
    (fuel : ℕ) (out : Bytes) (done : List ConfigEntry)
    → length out ≤ fuel
    → parse_entries fuel out done ≢ spent
unfolding parse_entries
parse_entries-ne-spent fuel [] done h = λ e. cc
parse_entries-ne-spent zero (c ∷ out) done h = absurd (omega arith)
parse_entries-ne-spent (suc fuel) (c ∷ out) done h = go (take_entry (c ∷ out)) refl (λ e rest q.
    parse_entries-ne-spent fuel rest (done ++ e ∷ [])
      (omega (arith, take_entry-shrinks (c ∷ out) e rest q)))
  where
    go :
        (r : Result (ConfigEntry × Bytes))
        → take_entry (c ∷ out) ≡ r
        → ((e : ConfigEntry) (rest : Bytes)
            → take_entry (c ∷ out) ≡ ok (e, rest)
            → parse_entries fuel rest (done ++ e ∷ []) ≢ spent)
        → parse_entries (suc fuel) (c ∷ out) done ≢ spent
    go (ok (e, rest)) q ih = rw (parse_entries, q) (ih e rest q)
    go (err e) q ih = rw (parse_entries, q) (λ x. cc)
    go spent q ih = absurd (take_entry-ne-spent (c ∷ out) q)

-- The loop of GetConfig ends on every output of git within its fuel.
pub get_config-ne-spent : (out : Bytes) → get_config (ok out) ≢ spent
unfolding get_config
get_config-ne-spent out = parse_entries-ne-spent (length out) out [] (omega arith)
