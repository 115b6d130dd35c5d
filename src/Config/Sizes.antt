-- ===== src/Config/Sizes.antt =====
-- `ParseSigned` reads decimal numbers with and without a suffix.
use spokes_receive_pack.Base.{
  ℕ, ◌+◌, ◌-◌, ◌*◌, ◌%◌, ◌^◌, ◌≤◌, ◌<◌, false, [], ◌∷◌, ◌++◌, ◌≡◌, ◌≢◌, refl, ap, ◌∙◌, arith, Bytes,
  ◌==◌, if◌then◌else◌, inl, inr, length, take, length-append, take-append, is_positive, ℤ, pos,
  mul_int, mul_int_exact,
}
use spokes_receive_pack.Base.Exec.{ok, spent}
use spokes_receive_pack.Base.Inversion.{Result-cases}
use spokes_receive_pack.Go.Strconv.{decimal, atoi, atoi_unsigned, decimal-last}
use spokes_receive_pack.Go.Strconv.Digits.{atoi-decimal}
use spokes_receive_pack.Config.{suffix_factor, last_byte, parse_signed}

last_byte-concat : (s : Bytes) (c : ℕ) → last_byte (s ++ c ∷ []) ≡ c
unfolding last_byte
last_byte-concat [] c = refl
last_byte-concat (d ∷ []) c = refl
last_byte-concat (d ∷ e ∷ s) c = last_byte-concat (e ∷ s) c

ne→== : (a b : ℕ) → a ≢ b → (a == b) ≡ false
ne→== a b h = ground arith

suffix_factor_digit : (d : ℕ) → d < 10 → suffix_factor (b'0' + d) ≡ 1
unfolding suffix_factor
suffix_factor_digit d h = ground arith

parse_signed_product :
    (n c : ℕ)
    → suffix_factor c ≢ 1
    → n < 2 ^ 63
    → parse_signed (decimal n ++ c ∷ []) ≡ ok (mul_int (pos n) (suffix_factor c))
unfolding parse_signed
parse_signed_product n c h small =
    let cut : take (length (decimal n ++ c ∷ []) - 1) (decimal n ++ c ∷ []) ≡ decimal n =
      ap (λ k. take k (decimal n ++ c ∷ [])) (omega (arith, length-append (decimal n) (c ∷ [])))
      ∙ take-append (decimal n) (c ∷ []) in
    rw (last_byte-concat (decimal n) c, ne→== (suffix_factor c) 1 h, cut, atoi-decimal n small) refl

-- The suffixes of sizes, each with the exponent of its power of two.
pub data Scales : ℕ → ℕ → Type 0 where
  small_k : Scales b'k' 10
  large_k : Scales b'K' 10
  small_m : Scales b'm' 20
  large_m : Scales b'M' 20
  small_g : Scales b'g' 30
  large_g : Scales b'G' 30

suffix_factor-Scales : (c e : ℕ) → Scales c e → (suffix_factor c ≡ 2 ^ e) × (suffix_factor c ≢ 1)
unfolding suffix_factor
suffix_factor-Scales _ _ small_k = (refl, λ h. omega (arith, h))
suffix_factor-Scales _ _ large_k = (refl, λ h. omega (arith, h))
suffix_factor-Scales _ _ small_m = (refl, λ h. omega (arith, h))
suffix_factor-Scales _ _ large_m = (refl, λ h. omega (arith, h))
suffix_factor-Scales _ _ small_g = (refl, λ h. omega (arith, h))
suffix_factor-Scales _ _ large_g = (refl, λ h. omega (arith, h))

-- If a number of at most 63 bits is followed by k or K, m or M, or g or G, and its product with 2
-- ^ 10, 2 ^ 20 or 2 ^ 30 is of at most 63 bits too, then ParseSigned returns this product.
pub parse_signed_suffix :
    (n c e : ℕ)
    → Scales c e
    → n < 2 ^ 63
    → n * 2 ^ e < 2 ^ 63
    → parse_signed (decimal n ++ c ∷ []) ≡ ok (pos (n * 2 ^ e))
parse_signed_suffix n c e k small fits =
    let (q, ne) = suffix_factor-Scales c e k in
    parse_signed_product n c ne small
    ∙ ap (λ (f : ℕ). ok (mul_int (pos n) f)) q
    ∙ ap ok (mul_int_exact n (2 ^ e) fits)

-- If a number of at most 63 bits has a suffix and the product with its factor needs exactly 64
-- bits, then ParseSigned returns no error and a number that is not positive.
pub parse_signed_overflow :
    (n c : ℕ)
    → suffix_factor c ≢ 1
    → n < 2 ^ 63
    → 2 ^ 63 ≤ n * suffix_factor c
    → n * suffix_factor c < 2 ^ 64
    → (z : ℤ) × (parse_signed (decimal n ++ c ∷ []) ≡ ok z) × (is_positive z ≡ false)
parse_signed_overflow n c h small large fits = (
  mul_int (pos n) (suffix_factor c),
  parse_signed_product n c h small,
  unfold mul_int in ground arith,
)

-- If a number of at most 63 bits has no suffix, then ParseSigned returns it.
parse_signed_plain : (n : ℕ) → n < 2 ^ 63 → parse_signed (decimal n) ≡ ok (pos n)
unfolding parse_signed
parse_signed_plain n h =
    let (s, e) = decimal-last n in
    let digit : suffix_factor (last_byte (decimal n)) ≡ 1 =
      ap (λ t. suffix_factor (last_byte t)) e
      ∙ ap suffix_factor (last_byte-concat s (b'0' + n % 10))
      ∙ suffix_factor_digit (n % 10) (omega arith) in
    rw (digit, atoi-decimal n h, mul_int_exact n 1 (omega arith))
      (ap (λ k. ok (pos k)) (omega arith))

atoi-ne-spent : (s : Bytes) → atoi s ≢ spent
unfolding atoi atoi_unsigned
atoi-ne-spent [] h = cc
atoi-ne-spent (c ∷ s) h = ground arith

-- A size is a number or an error.
pub parse_signed-ne-spent : (s : Bytes) → parse_signed s ≢ spent
unfolding parse_signed
parse_signed-ne-spent s h =
    let factor = suffix_factor (last_byte s) in
    let digits = if factor == 1 then s else take (length s - 1) s in
    elim (Result-cases (atoi digits)) [
      | inl (n, e) ↦ cc (rw e at h)
      | inr (inl (e, q)) ↦ cc (rw q at h)
      | inr (inr q) ↦ atoi-ne-spent digits q
    ]
