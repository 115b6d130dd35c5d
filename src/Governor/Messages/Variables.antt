-- ===== src/Governor/Messages/Variables.antt =====
-- What readSockstat makes of the process's variables (internal/governor/conn.go).
use spokes_receive_pack.Base.{
  true, false, List, [], ◌∷◌, ◌++◌, ◌≡◌, refl, sym, ap, ◌∙◌, arith, Bytes, codes, equal, equal_iff,
  All, Bool-cases, inl, inr, drop, length,
}
use spokes_receive_pack.Go.Strings.{
  cut_prefix, split_n, split_n_two, append-drop_prefix, has_prefix,
}
use spokes_receive_pack.Sockstat.{Environment, prefix, bool_value, get_bool}
use spokes_receive_pack.Governor.Messages.{
  UpdateData, assign, assign_parts, read_variable, read_sockstat,
}

-- A variable of sockstat, as text.
abbrev pub entry : Bytes → Bytes → Bytes
entry name v = prefix ++ (name ++ b'=' ∷ v)

-- Only the variable group_leader is for the group leader.
assign_leader :
    (env : Environment) (name v : Bytes) (u : UpdateData)
    → u.group_leader ≡ false
    → (equal name (codes "group_leader") ≡ true → get_bool env v ≡ false)
    → (assign env name v u).group_leader ≡ false
unfolding assign
assign_leader env name v u h k = ground arith

-- The value of group_leader, where the variable is this text, names no variable.
abbrev pub NamesNone : Environment → Bytes → Type 0
NamesNone env x = (v : Bytes) → x ≡ entry (codes "group_leader") v → env (prefix ++ v) ≡ []

assign_parts_leader :
    (env : Environment) (s : Bytes) (parts : List Bytes) (u : UpdateData)
    → split_n s b'=' 2 ≡ parts
    → u.group_leader ≡ false
    → NamesNone env (prefix ++ s)
    → (assign_parts env parts u).group_leader ≡ false
unfolding assign_parts
assign_parts_leader env s [] u e h k = h
assign_parts_leader env s (name ∷ []) u e h k = h
assign_parts_leader env s (name ∷ v ∷ []) u e h k = assign_leader env name v u h λ y.
    let same = (equal_iff name (codes "group_leader")).0 y in
    let unset = k v (
      ap (λ (t : Bytes). prefix ++ t)
        (split_n_two b'=' s name v e ∙ ap (λ (t : Bytes). t ++ b'=' ∷ v) same)) in
    unfold get_bool bool_value equal in rw unset refl
assign_parts_leader env s (name ∷ v ∷ w ∷ parts) u e h k = h

read_variable_leader :
    (env : Environment) (x : Bytes) (u : UpdateData)
    → u.group_leader ≡ false
    → NamesNone env x
    → (read_variable env x u).group_leader ≡ false
unfolding read_variable cut_prefix
read_variable_leader env x u h k = elim (Bool-cases (has_prefix x prefix)) [
  | inl y ↦
      let rest = drop (length prefix) x in
      rw (cut_prefix, y)
        (assign_parts_leader env rest (split_n rest b'=' 2) u refl h
          (λ v e. k v (sym (append-drop_prefix x prefix y) ∙ e)))
  | inr n ↦ rw (cut_prefix, n) h
]

-- If no variable is named for the value that a variable group_leader has, wherever it stands among
-- the variables of the process, and the group leader is not set before, then readSockstat does not
-- set it.
pub read_sockstat-group_leader :
    (env : Environment) (entries : List Bytes) (u : UpdateData)
    → u.group_leader ≡ false
    → All (NamesNone env) entries
    → (read_sockstat env entries u).group_leader ≡ false
unfolding read_sockstat
read_sockstat-group_leader env [] u h k = h
read_sockstat-group_leader env (x ∷ entries) u h (k, ks) =
    read_sockstat-group_leader env entries (read_variable env x u)
      (read_variable_leader env x u h k) ks
