-- ===== src/Base/Exec.antt =====
-- Errors as values, and code that changes a state and may fail. What was changed before a failure
-- stays changed, so the state comes back beside the error too.
use Prim.Native.Nat.{ℕ}
use spokes_receive_pack.Base.Text.{Bytes}

-- Go's `error` values. `wrap text e` is `fmt.Errorf("text: %w", e)`.
pub data Error : Type 0 where
  eof unexpected_eof : Error
  message : Bytes → Error
  -- the message text followed by the bytes that it quotes
  quoted : Bytes → Bytes → Error
  -- the message text followed by a number
  numbered : Bytes → ℕ → Error
  wrap : Bytes → Error → Error

-- `spent` is no result of the program: the fuel of a loop ran out.
pub data Result {ℓ} (A : Type ℓ) : Type ℓ where
  ok : A → Result A
  err : Error → Result A
  spent : Result A

abbrev pub Exec {ℓ} : Type ℓ → Type ℓ → Type ℓ
Exec S A = S → Result A × S

module _ {ℓ} {S A : Type ℓ} where
  abbrev pub pure : A → Exec S A
  pure a s = (ok a, s)

  abbrev pub raise : Error → Exec S A
  raise e s = (err e, s)

  abbrev pub out_of_fuel : Exec S A
  out_of_fuel s = (spent, s)

  abbrev pub lift : Result A → Exec S A
  lift r s = (r, s)

  abbrev pub gets : (S → A) → Exec S A
  gets f s = (ok (f s), s)

module _ {ℓ} {S A B : Type ℓ} where
  abbrev pub continue : (Result A × S) → (A → Exec S B) → Result B × S
  continue (ok a, s) f = f a s
  continue (err e, s) f = (err e, s)
  continue (spent, s) f = (spent, s)

  infixl 10 ◌>>=◌ ◌>>◌
  abbrev pub ◌>>=◌ : Exec S A → (A → Exec S B) → Exec S B
  ◌>>=◌ m f s = continue (m s) f

  abbrev pub ◌>>◌ : Exec S A → Exec S B → Exec S B
  m >> n = m >>= λ _. n

-- `if err := m(); err != nil { return fmt.Errorf("text: %w", err) }`
module _ {ℓ} {S A : Type ℓ} where
  abbrev pub wrapped : Bytes → Result A × S → Result A × S
  wrapped t (ok a, s) = (ok a, s)
  wrapped t (err e, s) = (err (wrap t e), s)
  wrapped t (spent, s) = (spent, s)

  abbrev pub wrapping : Bytes → Exec S A → Exec S A
  wrapping t m s = wrapped t (m s)

-- The same, where the error becomes another by a function.
abbrev pub failed_by {ℓ} : {S A : Type ℓ} → (Error → Error) → Result A × S → Result A × S
failed_by f (ok a, s) = (ok a, s)
failed_by f (err e, s) = (err (f e), s)
failed_by f (spent, s) = (spent, s)

abbrev pub fail_by {ℓ} : {S A : Type ℓ} → (Error → Error) → Exec S A → Exec S A
fail_by f m s = failed_by f (m s)
