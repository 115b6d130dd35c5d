-- ===== src/Governor/Schedule/Replies.antt =====
-- What schedule makes of the governor's lines (internal/governor/governor.go).
use spokes_receive_pack.Base.{
  ℕ, ◌*◌, ◌^◌, ◌<◌, List, [], ◌∷◌, ◌++◌, ◌≡◌, refl, sym, ap, ◌∙◌, arith, Bytes, codes, pos,
  mul_int_exact, equal, Bool-cases, inl, inr, ◌==◌, ==_iff,
}
use spokes_receive_pack.Go.Strings.{split_n, split_n-append, join}
use spokes_receive_pack.Go.Strconv.{decimal}
use spokes_receive_pack.Go.Strconv.Digits.{decimal-Free, atoi-decimal}
use spokes_receive_pack.Governor.Schedule.{
  wait_error, fail_error, read_answer, wait_duration, reason_from,
}

split_n-two :
    (s : Bytes)
    → (w : Bytes) × (ws : List Bytes) × (split_n s b' ' 2 ≡ w ∷ ws) × (join b' ' (w ∷ ws) ≡ s)
unfolding split_n join
split_n-two [] = ([], [], refl, refl)
split_n-two (c ∷ s) = elim (Bool-cases (c == b' ')) [
  | inl y ↦ ([], s ∷ [], rw y refl, ap (λ (b : ℕ). b ∷ s) (sym ((==_iff c b' ').0 y)))
  | inr n ↦
      let (w, ws, p, q) = split_n-two s in
      (c ∷ w, ws, rw (n, p) refl, join-cons c w ws ∙ ap (◌∷◌ c) q)
]
  where
    join-cons :
        (c : ℕ) (w : Bytes) (ws : List Bytes) → join b' ' ((c ∷ w) ∷ ws) ≡ c ∷ join b' ' (w ∷ ws)
    join-cons c w [] = refl
    join-cons c w (v ∷ ws) = refl

wait_duration-decimal :
    (w reason : Bytes) (n : ℕ)
    → n * 1000000000 < 2 ^ 63
    → wait_duration (w ∷ decimal n ∷ reason ∷ []) ≡ pos (n * 1000000000)
unfolding wait_duration
wait_duration-decimal w reason n h =
    rw (wait_duration, atoi-decimal n (omega arith)) (mul_int_exact n 1000000000 h)

reason_from-one :
    (w v reason : Bytes) (vs : List Bytes)
    → join b' ' (v ∷ vs) ≡ reason
    → reason_from 1 (w ∷ v ∷ vs) ≡ reason
unfolding reason_from
reason_from-one w v reason vs h = h

-- If the governor asks to wait for a number of seconds whose nanoseconds have at most 63 bits,
-- with any reason, then schedule returns a wait of that duration with that reason.
pub read_answer-wait :
    (n : ℕ) (reason : Bytes)
    → n * 1000000000 < 2 ^ 63
    → read_answer (codes "wait " ++ (decimal n ++ b' ' ∷ reason))
      ≡ wait_error (pos (n * 1000000000)) reason
unfolding read_answer split_n equal
read_answer-wait n reason h =
    rw
      (
        split_n-append b' ' (decimal n) reason (decimal-Free b' ' n (omega arith)),
        wait_duration-decimal (codes "wait") reason n h,
      )
      (unfold reason_from join in refl)

-- A line with fail gives its whole rest as the reason.
read_answer-fail : (reason : Bytes) → read_answer (codes "fail " ++ reason) ≡ fail_error reason
unfolding read_answer split_n equal
read_answer-fail reason =
    let (w, ws, p, q) = split_n-two reason in
    rw (p, reason_from-one (codes "fail") w reason ws q) refl
