-- ===== src/Prelude/Pigeonhole.antt =====
-- Distinct numbers below `n` are at most `n`.
use world.Prelude.Tests.{◌==◌, ==_iff, if◌then◌else◌, Bool-cases}
use world.Prelude.Lists.{length}
use Prim.Native.Nat.{ℕ, zero, suc, ◌≤◌, ◌<◌}
use mathlib.Core.Path.{◌≡◌, refl}
use mathlib.Core.Logic.{◌≢◌, inl, inr}
use mathlib.Core.List.{List, [], ◌∷◌}
use native.Mathlib.Omega.{arith}

abbrev pub All {ℓ κ} : {A : Type ℓ} → (A → Type κ) → List A → Type κ
All P [] = Unit
All P (x ∷ xs) = P x × All P xs

abbrev pub Distinct : List ℕ → Type 0
Distinct [] = Unit
Distinct (x ∷ xs) = All (λ y. x ≢ y) xs × Distinct xs

without : ℕ → List ℕ → List ℕ
without n [] = []
without n (x ∷ xs) = let rest = without n xs in if x == n then rest else x ∷ rest

All-without {κ} : (P : ℕ → Type κ) (n : ℕ) (xs : List ℕ) → All P xs → All P (without n xs)
unfolding without
All-without P n [] h = tt
All-without P n (x ∷ xs) h = elim (Bool-cases (x == n)) [
  | inl e ↦ rw e (All-without P n xs h.1)
  | inr e ↦ rw e (h.0, All-without P n xs h.1)
]

Distinct-without : (n : ℕ) (xs : List ℕ) → Distinct xs → Distinct (without n xs)
unfolding without
Distinct-without n [] h = tt
Distinct-without n (x ∷ xs) h = elim (Bool-cases (x == n)) [
  | inl e ↦ rw e (Distinct-without n xs h.1)
  | inr e ↦ rw e (All-without _ n xs h.0, Distinct-without n xs h.1)
]

-- A number that does not occur is not removed.
length-without_absent :
    (n : ℕ) (xs : List ℕ) → All (λ y. n ≢ y) xs → length (without n xs) ≡ length xs
unfolding without
length-without_absent n [] h = refl
length-without_absent n (x ∷ xs) h = ground (arith, length-without_absent n xs h.1, h.0)

length-without : (n : ℕ) (xs : List ℕ) → Distinct xs → length xs ≤ suc (length (without n xs))
unfolding without
length-without n [] h = omega arith
length-without n (x ∷ xs) h = elim (Bool-cases (x == n)) [
  | inl e ↦
      let same : x ≡ n = (==_iff x n).0 e in
      rw e (omega (arith, length-without_absent n xs (rw same at h.0)))
  | inr e ↦ rw e (omega (arith, length-without n xs h.1))
]

below-without : (n : ℕ) (xs : List ℕ) → All (λ x. x < suc n) xs → All (λ x. x < n) (without n xs)
unfolding without
below-without n [] h = tt
below-without n (x ∷ xs) h = elim (Bool-cases (x == n)) [
  | inl e ↦ rw e (below-without n xs h.1)
  | inr e ↦ rw e (ground (arith, h.0), below-without n xs h.1)
]

pub pigeonhole : (n : ℕ) (xs : List ℕ) → All (λ x. x < n) xs → Distinct xs → length xs ≤ n
pigeonhole zero [] h d = omega arith
pigeonhole zero (x ∷ xs) h d = absurd (omega arith)
pigeonhole (suc n) xs h d = omega (
  arith,
  length-without n xs d,
  pigeonhole n (without n xs) (below-without n xs h) (Distinct-without n xs d),
)
