-- ===== src/Pktline/Slices.antt =====
-- The array behind a Pktline, and its slices: a slice is a range of the array, so what it holds
-- changes when the array is written (internal/pktline/pktline.go).
use mathlib.Core.Path.{ap₂}
use spokes_receive_pack.Base.{
  ℕ, zero, suc, ◌+◌, ◌-◌, ◌≤◌, ◌<◌, [], ◌∷◌, ◌≡◌, refl, ap, ◌∙◌, arith, Bytes, ◌==◌, if◌then◌else◌,
  length, take, drop,
}

-- The array, as a function of the index.
abbrev pub Buffer : Type 0
Buffer = ℕ → ℕ

abbrev pub zeros : Buffer
zeros i = 0

-- buf[start:stop]
pub record Slice : Type 0 where
  pub start : ℕ
  pub stop : ℕ

-- `n` bytes of the array from an index on
unfoldable pub range : Buffer → ℕ → ℕ → Bytes
range buf start zero = []
range buf start (suc n) = buf start ∷ range buf (start + 1) n

-- The bytes that a slice holds.
unfoldable pub contents : Buffer → Slice → Bytes
unfolding range
contents buf s = range buf s.start (s.stop - s.start)

update : Buffer → ℕ → ℕ → Buffer
update buf i b j = if i == j then b else buf j

-- The array after bytes are copied to it from an index on.
unfoldable pub overwrite : Buffer → ℕ → Bytes → Buffer
unfolding update
overwrite buf start [] = buf
overwrite buf start (b ∷ bs) = overwrite (update buf start b) (start + 1) bs

overwrite_before :
    (bs : Bytes) (buf : Buffer) (start i : ℕ) → i < start → overwrite buf start bs i ≡ buf i
unfolding overwrite
overwrite_before [] buf start i h = refl
overwrite_before (b ∷ bs) buf start i h =
    overwrite_before bs (update buf start b) (start + 1) i (omega arith) ∙ ground arith

-- What was written is read back.
pub range-overwrite :
    (bs : Bytes) (buf : Buffer) (start : ℕ) → range (overwrite buf start bs) start (length bs) ≡ bs
unfolding range overwrite
range-overwrite [] buf start = refl
range-overwrite (b ∷ bs) buf start =
    rw
      (
        overwrite_before bs (update buf start b) (start + 1) start (omega arith),
        range-overwrite bs (update buf start b) (start + 1),
      )
      (ground arith)

-- A write behind a range leaves the range as it was.
pub range-overwrite_behind :
    (n : ℕ) (bs : Bytes) (buf : Buffer) (first start : ℕ)
    → first + n ≤ start
    → range (overwrite buf start bs) first n ≡ range buf first n
unfolding range
range-overwrite_behind zero bs buf first start h = refl
range-overwrite_behind (suc n) bs buf first start h = rw (
  overwrite_before bs buf start first (omega arith),
  range-overwrite_behind n bs buf (first + 1) start (omega arith),
)

pub length-range : (n : ℕ) (buf : Buffer) (start : ℕ) → length (range buf start n) ≡ n
unfolding range
length-range zero buf start = refl
length-range (suc n) buf start = ap suc (length-range n buf (start + 1))

-- A slice that begins later holds the rest.
pub drop-range :
    (i n : ℕ) (buf : Buffer) (start : ℕ)
    → i ≤ n
    → drop i (range buf start n) ≡ range buf (start + i) (n - i)
unfolding range
drop-range zero n buf start h = ap₂ (range buf) (omega arith) (omega arith)
drop-range (suc i) zero buf start h = absurd (omega arith)
drop-range (suc i) (suc n) buf start h =
    drop-range i n buf (start + 1) (omega arith) ∙ ap₂ (range buf) (omega arith) (omega arith)

-- A slice that ends earlier holds the beginning.
pub take-range :
    (i n : ℕ) (buf : Buffer) (start : ℕ) → i ≤ n → take i (range buf start n) ≡ range buf start i
unfolding range
take-range zero n buf start h = refl
take-range (suc i) zero buf start h = absurd (omega arith)
take-range (suc i) (suc n) buf start h =
    ap (◌∷◌ (buf start)) (take-range i n buf (start + 1) (omega arith))
