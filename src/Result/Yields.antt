-- ===== src/Result/Yields.antt =====
-- What a fallible computation establishes when it succeeds, one rule for each way to build one.
use world.Prelude.{◌≡◌, refl, subst, Bool, true, false, if◌then◌else◌}
use world.Result.{Result, Errno, ok, err, ◌>>=◌, ◌>>◌, guard}

pub record Yields {ℓ κ} {A : Type ℓ} (P : A → Type κ) (r : Result A) : Type (ℓ ⊔ κ) where
  pub of : (a : A) → r ≡ ok a → P a

err-ne-ok {ℓ κ} : {A : Type ℓ} {P : Type κ} {e : Errno} {a : A} → err e ≡ ok a → P
err-ne-ok h = cc

module _ {ℓ κ} {A : Type ℓ} {P : A → Type κ} where
  pub Yields-ok : (a : A) → P a → Yields P (ok a)
  Yields-ok a h = record { of = λ b e. subst P (cc) h }

  pub Yields-err : (e : Errno) → Yields P (err e)
  Yields-err e = record { of = λ b h. err-ne-ok h }

  pub Yields-if :
      (b : Bool) (r s : Result A)
      → (b ≡ true → Yields P r)
      → (b ≡ false → Yields P s)
      → Yields P (if b then r else s)
  Yields-if true r s h k = h refl
  Yields-if false r s h k = k refl

  pub Yields-guard :
      (b : Bool) (e : Errno) (r : Result A) → (b ≡ true → Yields P r) → Yields P (guard b e >> r)
  unfolding ◌>>◌
  Yields-guard true e r h = h refl
  Yields-guard false e r h = Yields-err e

module _ {ℓ κ μ} {A B : Type ℓ} (P : A → Type μ) {Q : B → Type κ} where
  pub Yields-bind :
      (r : Result A) (f : A → Result B)
      → Yields P r
      → ((a : A) → P a → Yields Q (f a))
      → Yields Q (r >>= f)
  unfolding ◌>>=◌
  Yields-bind (ok a) f h k = k a (h.of a refl)
  Yields-bind (err e) f h k = Yields-err e

module _ {ℓ} {A : Type 0} {P : A → Type ℓ} where
  pub Yields-then : (r : Result (Unit {0})) (s : Result A) → Yields P s → Yields P (r >> s)
  unfolding ◌>>◌
  Yields-then (ok a) s h = h
  Yields-then (err e) s h = Yields-err e

  -- What a check establishes holds for what comes after it.
  pub Yields-unit {κ} :
      (Q : Unit {0} → Type κ) (r : Result (Unit {0})) (s : Result A)
      → Yields Q r
      → (Q tt → Yields P s)
      → Yields P (r >> s)
  unfolding ◌>>◌
  Yields-unit Q (ok tt) s h k = k (h.of tt refl)
  Yields-unit Q (err e) s h k = Yields-err e

-- It holds of every success that it was computed.
pub Yields-self {ℓ} : {A : Type ℓ} (r : Result A) → Yields (λ a. r ≡ ok a) r
Yields-self r = record { of = λ a h. h }

pub Yields-mono {ℓ κ μ} :
    {A : Type ℓ} {P : A → Type κ} {Q : A → Type μ} {r : Result A}
    → ((a : A) → P a → Q a)
    → Yields P r
    → Yields Q r
Yields-mono f h = record { of = λ a e. f a (h.of a e) }
