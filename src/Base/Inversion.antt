-- ===== src/Base/Inversion.antt =====
-- What the outcome of a sequence says of its steps.
use mathlib.Core.Path.{◌≡◌, refl, ap}
use mathlib.Core.Logic.{◌⊎◌, inl, inr}
use spokes_receive_pack.Base.Text.{Bytes}
use spokes_receive_pack.Base.Exec.{
  Error, Result, ok, err, spent, Exec, continue, wrapped, failed_by,
}

module _ {ℓ} {S A B : Type ℓ} where
  -- A sequence that succeeds: both steps did.
  pub continue-ok :
      (p : Result A × S) (f : A → Exec S B) {b : B} {t : S}
      → continue p f ≡ (ok b, t)
      → (a : A) × (s : S) × (p ≡ (ok a, s)) × (f a s ≡ (ok b, t))
  continue-ok (ok a, s) f h = (a, s, refl, h)
  continue-ok (err e, s) f h = absurd (cc (ap (λ (q : Result B × S). q.0) h))
  continue-ok (spent, s) f h = absurd (cc (ap (λ (q : Result B × S). q.0) h))

  -- A sequence runs out of fuel in its first step or in its second.
  pub continue-spent :
      (p : Result A × S) (f : A → Exec S B)
      → (continue p f).0 ≡ spent
      → (p.0 ≡ spent) ⊎ ((a : A) × (s : S) × (p ≡ (ok a, s)) × ((f a s).0 ≡ spent))
  continue-spent (ok a, s) f h = inr (a, s, refl, h)
  continue-spent (err e, s) f h = absurd (cc h)
  continue-spent (spent, s) f h = inl refl

module _ {ℓ} {S A : Type ℓ} where
  pub wrapped-ok :
      (t : Bytes) (p : Result A × S) {a : A} {s : S} → wrapped t p ≡ (ok a, s) → p ≡ (ok a, s)
  wrapped-ok t (ok a, s) h = h
  wrapped-ok t (err e, s) h = absurd (cc (ap (λ (q : Result A × S). q.0) h))
  wrapped-ok t (spent, s) h = absurd (cc (ap (λ (q : Result A × S). q.0) h))

  pub wrapped-spent : (t : Bytes) (p : Result A × S) → (wrapped t p).0 ≡ spent → p.0 ≡ spent
  wrapped-spent t (ok a, s) h = h
  wrapped-spent t (err e, s) h = absurd (cc h)
  wrapped-spent t (spent, s) h = h

  pub failed_by-ok :
      (f : Error → Error) (p : Result A × S) {a : A} {s : S}
      → failed_by f p ≡ (ok a, s)
      → p ≡ (ok a, s)
  failed_by-ok f (ok a, s) h = h
  failed_by-ok f (err e, s) h = absurd (cc (ap (λ (q : Result A × S). q.0) h))
  failed_by-ok f (spent, s) h = absurd (cc (ap (λ (q : Result A × S). q.0) h))

  pub failed_by-spent :
      (f : Error → Error) (p : Result A × S) → (failed_by f p).0 ≡ spent → p.0 ≡ spent
  failed_by-spent f (ok a, s) h = h
  failed_by-spent f (err e, s) h = absurd (cc h)
  failed_by-spent f (spent, s) h = h

module _ {ℓ} {A : Type ℓ} where
  -- To split on an outcome and keep the equation.
  pub Result-cases :
      (r : Result A) → ((a : A) × (r ≡ ok a)) ⊎ (((e : Error) × (r ≡ err e)) ⊎ (r ≡ spent))
  Result-cases (ok a) = inl (a, refl)
  Result-cases (err e) = inr (inl (e, refl))
  Result-cases spent = inr (inr refl)

  pub ok-injective : {a b : A} → Path (Result A) (ok a) (ok b) → a ≡ b
  ok-injective h = cc h
