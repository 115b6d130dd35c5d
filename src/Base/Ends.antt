-- ===== src/Base/Ends.antt =====
-- Code that ends: a step and a Result that never say that the fuel ran out, and rules for these.
use mathlib.Core.Logic.{◌≢◌, inl, inr}
use spokes_receive_pack.Base.Text.{Bytes}
use spokes_receive_pack.Base.Exec.{
  Error, Result, spent, Exec, pure, raise, lift, gets, wrapping, fail_by, ◌>>=◌, ◌>>◌,
}
use spokes_receive_pack.Base.Inversion.{continue-spent, wrapped-spent, failed_by-spent}

module _ {ℓ} {S A : Type ℓ} where
  -- From every state the step ends, with a result or an error.
  abbrev pub Ends : Exec S A → Type ℓ
  Ends m = (s : S) → (m s).0 ≢ spent

  pub pure-Ends : (a : A) → Ends (pure a)
  pure-Ends a s h = cc h

  pub raise-Ends : (e : Error) → Ends (raise e)
  raise-Ends e s h = cc h

  pub lift-Ends : (r : Result A) → r ≢ spent → Ends (lift r)
  lift-Ends r k s h = k h

  pub gets-Ends : (f : S → A) → Ends (gets f)
  gets-Ends f s h = cc h

  pub wrapping-Ends : (t : Bytes) (m : Exec S A) → Ends m → Ends (wrapping t m)
  wrapping-Ends t m k s h = k s (wrapped-spent t (m s) h)

  pub fail_by-Ends : (f : Error → Error) (m : Exec S A) → Ends m → Ends (fail_by f m)
  fail_by-Ends f m k s h = k s (failed_by-spent f (m s) h)

module _ {ℓ} {S A B : Type ℓ} where
  pub >>=-Ends :
      (m : Exec S A) (f : A → Exec S B) → Ends m → ((a : A) → Ends (f a)) → Ends (m >>= f)
  >>=-Ends m f k g s h = elim (continue-spent (m s) f h) [
    | inl e ↦ k s e
    | inr (a, t, p, q) ↦ g a t q
  ]

  pub >>-Ends : (m : Exec S A) (n : Exec S B) → Ends m → Ends n → Ends (m >> n)
  >>-Ends m n k g = >>=-Ends m (λ _. n) k (λ _. g)
