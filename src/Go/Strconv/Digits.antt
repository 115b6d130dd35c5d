-- ===== src/Go/Strconv/Digits.antt =====
-- What stands in the decimal text of a number, and strconv.Atoi on it.
use spokes_receive_pack.Base.{
  ℕ, zero, suc, ◌+◌, ◌/◌, ◌%◌, ◌^◌, ◌<◌, [], ◌∷◌, ◌≡◌, arith, Bytes, ltb, pos, Bool-cases, inl, inr,
  sym, ap, ◌∙◌,
}
use spokes_receive_pack.Base.Exec.{ok}
use spokes_receive_pack.Go.Strings.{Free}
use spokes_receive_pack.Go.Strconv.{
  decimal, decimal_onto, decimal-head, parse_uint-decimal, atoi, atoi_unsigned, parse_uint, valid,
}

decimal_onto-Free :
    (sep f n : ℕ) (out : Bytes)
    → sep < b'0'
    → n < f
    → Free sep out
    → Free sep (decimal_onto f n out)
unfolding decimal_onto
decimal_onto-Free sep zero n out h k g = absurd (omega arith)
decimal_onto-Free sep (suc f) n out h k g = elim (Bool-cases (ltb n 10)) [
  | inl e ↦ rw e (ground arith, g)
  | inr e ↦
      rw e (
        decimal_onto-Free sep f (n / 10) ((b'0' + n % 10) ∷ out) h (ground arith) (ground arith, g))
]

-- A byte below the digits does not occur.
pub decimal-Free : (sep n : ℕ) → sep < b'0' → Free sep (decimal n)
unfolding decimal
decimal-Free sep n h = decimal_onto-Free sep (suc n) n [] h (omega arith) tt

-- A number that is an int is read back.
pub atoi-decimal : (n : ℕ) → n < 2 ^ 63 → atoi (decimal n) ≡ ok (pos n)
atoi-decimal n h =
    let (c, s, e, lo, hi) = decimal-head n in
    let q : parse_uint (c ∷ s) 10 64 ≡ valid n =
      ap (λ t. parse_uint t 10 64) (sym e) ∙ parse_uint-decimal n 64 (omega arith) in
    rw e (unfold atoi atoi_unsigned in ground (arith, q))
