-- ===== src/Go/Strconv.antt =====
-- The functions of Go's packages strconv and fmt that turn numbers into text and back.
pub mod Digits
use spokes_receive_pack.Base.{
  ℕ, zero, suc, ◌+◌, ◌-◌, ◌*◌, ◌/◌, ◌%◌, ◌^◌, ◌≤◌, ◌<◌, Bool, true, false, [], ◌∷◌, ◌++◌, Option,
  none, some, ◌≡◌, refl, arith, Bytes, codes, ltb, leb, ◌==◌, within, if◌then◌else◌, ℤ, pos, neg,
  ◌∙◌, length, Bool-cases, inl, inr, ltb→lt, ap, ◌≢◌, append_assoc,
}
use spokes_receive_pack.Base.Exec.{Result, ok, err, Error, quoted}

-- The outcome of strconv.ParseUint: a value, or an error beside the value 0 or the largest one.
pub data Parsed : Type 0 where
  valid : ℕ → Parsed
  bad_syntax : Parsed
  out_of_range : ℕ → Parsed

-- The value that stands beside the error, if there is one.
unfoldable pub returned : Parsed → ℕ
returned (valid n) = n
returned bad_syntax = 0
returned (out_of_range n) = n

-- The error's half of the outcome.
unfoldable pub failed : Parsed → Bool
failed (valid n) = false
failed _ = true

unfoldable pub digit_value : ℕ → ℕ → Option ℕ
digit_value base c =
    let d : ℕ =
      if within b'0' b'9' c
      then c - b'0'
      else if within b'a' b'z' c
      then c - b'a' + 10
      else if within b'A' b'Z' c
      then c - b'A' + 10
      else base in
    if ltb d base then some d else none

unfoldable pub scan_digits : ℕ → ℕ → Bytes → ℕ → Parsed
unfolding digit_value
scan_digits base largest [] n = valid n
scan_digits base largest (c ∷ s) n = elim (digit_value base c) [
  | none ↦ bad_syntax
  | some d ↦
      let rest = scan_digits base largest s (n * base + d) in
      if ltb largest (n * base + d) then out_of_range largest else rest
]

-- strconv.ParseUint(s, base, bits) for a base that is given
unfoldable pub parse_uint : Bytes → ℕ → ℕ → Parsed
unfolding scan_digits
parse_uint [] base bits = bad_syntax
parse_uint (c ∷ s) base bits = scan_digits base (2 ^ bits - 1) (c ∷ s) 0

abbrev atoi_syntax : Bytes → Error
atoi_syntax s = quoted (codes "strconv.Atoi: invalid syntax") s

abbrev atoi_range : Bytes → Error
atoi_range s = quoted (codes "strconv.Atoi: value out of range") s

-- `whole` is the text as it was given, for the error
unfoldable pub atoi_unsigned : Bytes → Bool → Parsed → Result ℤ
atoi_unsigned whole negative (valid n) =
    if negative
    then if ltb (2 ^ 63) n then err (atoi_range whole) else ok (neg n)
    else if leb (2 ^ 63) n
    then err (atoi_range whole)
    else ok (pos n)
atoi_unsigned whole negative bad_syntax = err (atoi_syntax whole)
atoi_unsigned whole negative (out_of_range n) = err (atoi_range whole)

-- strconv.Atoi, where int has 64 bits
unfoldable pub atoi : Bytes → Result ℤ
atoi [] = err (atoi_syntax [])
atoi (c ∷ s) =
    if c == b'-'
    then atoi_unsigned (c ∷ s) true (parse_uint s 10 64)
    else if c == b'+'
    then atoi_unsigned (c ∷ s) false (parse_uint s 10 64)
    else atoi_unsigned (c ∷ s) false (parse_uint (c ∷ s) 10 64)

unfoldable pub hex_digit : ℕ → ℕ
hex_digit d = if ltb d 10 then b'0' + d else b'a' + d - 10

-- fmt's %04x below 65536
unfoldable pub format_hex : ℕ → Bytes
unfolding hex_digit
format_hex n =
    hex_digit (n / 4096 % 16)
    ∷ hex_digit (n / 256 % 16)
    ∷ hex_digit (n / 16 % 16)
    ∷ hex_digit (n % 16)
    ∷ []

-- The digits of a number in front of what is there. The fuel is above the number.
decimal_onto : ℕ → ℕ → Bytes → Bytes
decimal_onto zero n out = out
decimal_onto (suc f) n out =
    let more = decimal_onto f (n / 10) ((b'0' + n % 10) ∷ out) in
    if ltb n 10 then (b'0' + n) ∷ out else more

-- fmt's %d of a natural number
unfoldable pub decimal : ℕ → Bytes
unfolding decimal_onto
decimal n = decimal_onto (suc n) n []

digit_value-hex_digit : (d : ℕ) → d < 16 → digit_value 16 (hex_digit d) ≡ some d
unfolding digit_value hex_digit
digit_value-hex_digit d h = ground arith

scan_digits-valid :
    (base largest c d n : ℕ) (s : Bytes)
    → digit_value base c ≡ some d
    → n * base + d ≤ largest
    → scan_digits base largest (c ∷ s) n ≡ scan_digits base largest s (n * base + d)
unfolding scan_digits
scan_digits-valid base largest c d n s e h = ground arith

scan_four :
    (a b c d : ℕ)
    → a < 16
    → b < 16
    → c < 16
    → d < 16
    → parse_uint (hex_digit a ∷ hex_digit b ∷ hex_digit c ∷ hex_digit d ∷ []) 16 16
      ≡ valid ((((0 * 16 + a) * 16 + b) * 16 + c) * 16 + d)
unfolding parse_uint
scan_four a b c d ha hb hc hd =
    let n1 = 0 * 16 + a in
    let n2 = n1 * 16 + b in
    let n3 = n2 * 16 + c in
    let s3 = hex_digit d ∷ [] in
    let s2 = hex_digit c ∷ s3 in
    let s1 = hex_digit b ∷ s2 in
    scan_digits-valid 16 65535 (hex_digit a) a 0 s1 (digit_value-hex_digit a ha) (omega arith)
    ∙ scan_digits-valid 16 65535 (hex_digit b) b n1 s2 (digit_value-hex_digit b hb) (omega arith)
    ∙ scan_digits-valid 16 65535 (hex_digit c) c n2 s3 (digit_value-hex_digit c hc) (omega arith)
    ∙ scan_digits-valid 16 65535 (hex_digit d) d n3 [] (digit_value-hex_digit d hd) (omega arith)
    ∙ unfold scan_digits in refl

-- The four hexadecimal digits are read back.
pub parse_uint-format_hex : (n : ℕ) → n < 2 ^ 16 → parse_uint (format_hex n) 16 16 ≡ valid n
unfolding format_hex
parse_uint-format_hex n h =
    scan_four (n / 4096 % 16) (n / 256 % 16) (n / 16 % 16) (n % 16) (omega arith) (omega arith)
      (omega arith) (omega arith)
    ∙ ap valid (omega arith)

digit_value-decimal : (d : ℕ) → d < 10 → digit_value 10 (b'0' + d) ≡ some d
unfolding digit_value
digit_value-decimal d h = ground arith

-- Reading the digits of `n` behind a zero gives `n`, and goes on with what follows.
scan_digits-decimal_onto :
    (f n largest : ℕ) (out : Bytes)
    → n < f
    → n ≤ largest
    → scan_digits 10 largest (decimal_onto f n out) 0 ≡ scan_digits 10 largest out n
unfolding decimal_onto
scan_digits-decimal_onto zero n largest out h k = absurd (omega arith)
scan_digits-decimal_onto (suc f) n largest out h k = elim (Bool-cases (ltb n 10)) [
  | inl e ↦ rw e (
      scan_digits-valid 10 largest (b'0' + n) n 0 out (digit_value-decimal n (ltb→lt n 10 e))
        (omega arith)
      ∙ ap (scan_digits 10 largest out) (omega arith))
  | inr e ↦ rw e (
      scan_digits-decimal_onto f (n / 10) largest ((b'0' + n % 10) ∷ out) (ground arith)
        (omega arith)
      ∙ scan_digits-valid 10 largest (b'0' + n % 10) (n % 10) (n / 10) out
          (digit_value-decimal (n % 10) (omega arith)) (omega arith)
      ∙ ap (scan_digits 10 largest out) (omega arith))
]

parse_uint_cons :
    (s : Bytes) (base bits : ℕ)
    → s ≢ []
    → parse_uint s base bits ≡ scan_digits base (2 ^ bits - 1) s 0
unfolding parse_uint
parse_uint_cons [] base bits h = absurd (h refl)
parse_uint_cons (c ∷ s) base bits h = refl

decimal_onto-ne-nil : (f n : ℕ) (out : Bytes) → n < f → decimal_onto f n out ≢ []
unfolding decimal_onto
decimal_onto-ne-nil zero n out h = absurd (omega arith)
decimal_onto-ne-nil (suc f) n out h =
    ground (arith, decimal_onto-ne-nil f (n / 10) ((b'0' + n % 10) ∷ out))

pub parse_uint-decimal : (n bits : ℕ) → n < 2 ^ bits → parse_uint (decimal n) 10 bits ≡ valid n
unfolding decimal
parse_uint-decimal n bits h =
    parse_uint_cons (decimal_onto (suc n) n []) 10 bits
      (decimal_onto-ne-nil (suc n) n [] (omega arith))
    ∙ scan_digits-decimal_onto (suc n) n (2 ^ bits - 1) [] (omega arith) (omega arith)
    ∙ unfold scan_digits in refl

pub length-format_hex : (n : ℕ) → length (format_hex n) ≡ 4
unfolding format_hex
length-format_hex n = refl

-- Different numbers have different digits.
pub format_hex-injective : (n m : ℕ) → n < 2 ^ 16 → m < 2 ^ 16 → format_hex n ≡ format_hex m → n ≡ m
format_hex-injective n m h k e =
    cc (parse_uint-format_hex n h, parse_uint-format_hex m k, ap (λ s. parse_uint s 16 16) e)

decimal_onto-head :
    (f n : ℕ) (out : Bytes)
    → n < f
    → (c : ℕ) × (s : Bytes) × (decimal_onto f n out ≡ c ∷ s) × (b'0' ≤ c) × (c ≤ b'9')
unfolding decimal_onto
decimal_onto-head zero n out h = absurd (omega arith)
decimal_onto-head (suc f) n out h = elim (Bool-cases (ltb n 10)) [
  | inl e ↦ rw e (b'0' + n, out, refl, omega arith, omega (arith, ltb→lt n 10 e))
  | inr e ↦ rw e (decimal_onto-head f (n / 10) ((b'0' + n % 10) ∷ out) (ground arith))
]

-- A number begins with a digit.
pub decimal-head : (n : ℕ) → (c : ℕ) × (s : Bytes) × (decimal n ≡ c ∷ s) × (b'0' ≤ c) × (c ≤ b'9')
unfolding decimal
decimal-head n = decimal_onto-head (suc n) n [] (omega arith)

decimal_onto-append :
    (f n : ℕ) (out : Bytes)
    → n < f
    → (s : Bytes) × (decimal_onto f n out ≡ s ++ (b'0' + n % 10) ∷ out)
unfolding decimal_onto
decimal_onto-append zero n out h = absurd (omega arith)
decimal_onto-append (suc f) n out h = elim (Bool-cases (ltb n 10)) [
  | inl e ↦ rw e ([], ap (λ d. d ∷ out) (omega (arith, ltb→lt n 10 e)))
  | inr e ↦
      let (s, q) = decimal_onto-append f (n / 10) ((b'0' + n % 10) ∷ out) (ground arith) in
      rw e (s ++ (b'0' + n / 10 % 10) ∷ [], q ∙ rw append_assoc refl)
]

-- A number ends with its last digit.
pub decimal-last : (n : ℕ) → (s : Bytes) × (decimal n ≡ s ++ (b'0' + n % 10) ∷ [])
unfolding decimal
decimal-last n = decimal_onto-append (suc n) n [] (omega arith)
