-- ===== src/Ddmin/Shrink.antt =====
-- crates/world-cli/examples/fuzz_driver/ddmin.rs: what the search of `minimize` gives, and that it ends.
use native.Mathlib.Nat.{suc-mul, mul-le-mul_right}
use world.Prelude.{
  ℕ, zero, suc, ◌+◌, ◌-◌, ◌*◌, ◌<◌, ◌≤◌, ◌==◌, ltb, leb, min, ◌≡◌, refl, Bool, true, false, List,
  [], ◌∷◌, Option, none, some, length, Bool-cases, inl, inr, arith, ltb→lt, if_cases,
}
use world.Ddmin.{
  drain, div_ceil, max, answered, after_cut, ask, first_cut, coarse, fine, then_fine, shrink,
}
use world.Ddmin.Sub.{Sub, Sub-refl, Sub-trans, drain-Sub, length-drain}

max-ge : (m n : ℕ) → n ≤ max m n
max-ge m n = if_cases (λ x. n ≤ x) (ltb m n) n m (λ _. omega arith) λ t. ground (arith, t)

-- A shorter list counts for less, whatever the divisors are.
shorter-lt : (a b most x y : ℕ) → a < b → a ≤ most → a * (most + 1) + (a - x) < b * (most + 1) + y
shorter-lt a b most x y h m =
    counted (a * (most + 1)) (b * (most + 1)) (suc a * (most + 1)) (suc-mul a (most + 1))
      (mul-le-mul_right (most + 1) h)
  where
    counted : (p q r : ℕ) → r ≡ p + (most + 1) → r ≤ q → p + (a - x) < q + y
    counted p q r e l = omega (arith, e, l, m)

module _ {A S : Type 0} (repro : S → List A → Bool × S) (P : List A → Type 0)
    (reproduced : (s : S) (lines : List A) → (repro s lines).0 ≡ true → P lines) where
  -- A result that is not longer, and of which the property is known
  IsCut : List A → Option (Option (List A) × S) → Type 0
  IsCut lines none = ⊥
  IsCut lines (some (none, s)) = Unit {0}
  IsCut lines (some (some shorter, s)) =
      Sub shorter lines × P shorter × (length shorter < length lines)

  answered-by {ℓ} :
      {B : Type ℓ} (Q : B → Type 0) (x : Bool × S) (f g : S → B)
      → ((s : S) → x.0 ≡ true → Q (f s))
      → ((s : S) → Q (g s))
      → Q (answered x f g)
  answered-by Q (true, s) f g h k = h s refl
  answered-by Q (false, s) f g h k = k s

  ask-P : (lines : List A) (s : S) → (ask repro lines s).0 ≡ true → P lines
  unfolding ask
  ask-P [] s h = cc
  ask-P (l ∷ ls) s h = reproduced s (l ∷ ls) h

  first_cut-IsCut :
      (fuel size : ℕ) (lines : List A) (start : ℕ) (s : S)
      → 0 < size
      → start ≤ length lines
      → length lines < fuel + start
      → IsCut lines (first_cut repro fuel size lines start s)
  unfolding first_cut IsCut
  first_cut-IsCut zero size lines start s z b f = absurd (omega (arith, b, f))
  first_cut-IsCut (suc fuel) size lines start s z b f =
      elim (Bool-cases (ltb start (length lines))) [
        | inr t ↦ rw (t, first_cut) tt
        | inl t ↦
            let l = ltb→lt start (length lines) t in
            let end = min (start + size) (length lines) in
            let more : start < end = omega (arith, l, z) in
            rw (t, first_cut)
              (answered-by (IsCut lines) (ask repro (drain start end lines) s) _ _
                (λ s' r. (
                  drain-Sub start end lines (omega (arith, more)),
                  ask-P (drain start end lines) s r,
                  length-drain start end lines more l,
                ))
                λ s'.
                  first_cut-IsCut fuel size lines end s' z (omega arith) (omega (arith, f, more)))
      ]

  -- The search has ended with some of the lines, and the property is kept.
  IsShrunk : List A → Option (List A × S) → Type 0
  IsShrunk lines none = ⊥
  IsShrunk lines (some (r, s)) = Sub r lines × (P lines → P r)

  IsShrunk-trans :
      {shorter lines : List A} (o : Option (List A × S))
      → Sub shorter lines
      → P shorter
      → IsShrunk shorter o
      → IsShrunk lines o
  unfolding IsShrunk
  IsShrunk-trans none u p h = h
  IsShrunk-trans (some (r, s)) u p h = (Sub-trans h.0 u, λ _. h.1 p)

  after_cut-by :
      (Q : Option (List A × S) → Type 0) (lines : List A) (x : Option (Option (List A) × S))
      (f : List A → S → Option (List A × S)) (g : S → Option (List A × S))
      → IsCut lines x
      → ((shorter : List A) (s : S)
          → Sub shorter lines
          → P shorter
          → length shorter < length lines
          → Q (f shorter s))
      → ((s : S) → Q (g s))
      → Q (after_cut x f g)
  unfolding IsCut
  after_cut-by Q lines none f g h c w = absurd h
  after_cut-by Q lines (some (none, s)) f g h c w = w s
  after_cut-by Q lines (some (some shorter, s)) f g h c w = c shorter s h.0 h.1 h.2

  coarse-IsShrunk :
      (most fuel divisor : ℕ) (lines : List A) (s : S)
      → length lines ≤ most
      → 2 ≤ divisor
      → length lines * (most + 1) + (length lines - divisor) < fuel
      → IsShrunk lines (coarse repro fuel divisor lines s)
  unfolding coarse IsShrunk
  coarse-IsShrunk most zero divisor lines s m d f = absurd (omega (arith, f))
  coarse-IsShrunk most (suc fuel) divisor lines s m d f = elim (Bool-cases (ltb 1 (length lines))) [
    | inr t ↦ rw (t, coarse) (Sub-refl lines, λ p. p)
    | inl t ↦ elim (Bool-cases (div_ceil (length lines) divisor == 0)) [
      | inl z ↦ rw (t, z, coarse) (Sub-refl lines, λ p. p)
      | inr z ↦
          let size = div_ceil (length lines) divisor in
          rw (t, z, coarse)
            (after_cut-by (IsShrunk lines) lines
              (first_cut repro (suc (length lines)) size lines 0 s) _ _
              (first_cut-IsCut (suc (length lines)) size lines 0 s (positive size z) (omega arith)
                (omega arith))
              (λ shorter s' u p l.
                IsShrunk-trans (coarse repro fuel (max (divisor - 1) 2) shorter s') u p (
                  coarse-IsShrunk most fuel (max (divisor - 1) 2) shorter s' (omega (arith, l, m))
                    (max-ge (divisor - 1) 2)
                    (lt-le
                      (shorter-lt (length shorter) (length lines) most (max (divisor - 1) 2)
                        (length lines - divisor) l (omega (arith, l, m)))
                      f)))
              λ s'. elim (Bool-cases (leb (length lines) divisor)) [
                | inl w ↦ rw (w, IsShrunk) (Sub-refl lines, λ p. p)
                | inr w ↦
                    let grows : divisor < min (divisor * 2) (length lines) =
                      wider divisor (length lines) d w in
                    rw (w, IsShrunk)
                      (coarse-IsShrunk most fuel (min (divisor * 2) (length lines)) lines s' m
                        (omega (arith, d, grows))
                        (closer divisor (divisor * 2) (length lines) (length lines * (most + 1))
                          grows f))
              ])
    ]
  ]
    where
      positive : (n : ℕ) → (n == 0) ≡ false → 0 < n
      positive n h = ground (arith, h)

      lt-le : {a b fuel : ℕ} → a < b → b < suc fuel → a < fuel
      lt-le h k = omega (arith, h, k)

      wider : (d n : ℕ) → 2 ≤ d → leb n d ≡ false → d < min (d * 2) n
      wider d n h w = more (le w)
        where
          le : leb n d ≡ false → d < n
          le w = ground (arith, w)

          more : d < n → d < min (d * 2) n
          more k = omega (arith, h, k)

      closer :
          (d e n p : ℕ) {fuel : ℕ} → d < min e n → p + (n - d) < suc fuel → p + (n - min e n) < fuel
      closer d e n p h k = omega (arith, h, k)

  fine-IsShrunk :
      (fuel i : ℕ) (lines : List A) (s : S)
      → length lines - i < fuel
      → IsShrunk lines (fine repro fuel i lines s)
  unfolding fine IsShrunk
  fine-IsShrunk zero i lines s f = absurd (omega (arith, f))
  fine-IsShrunk (suc fuel) i lines s f = elim (Bool-cases (ltb i (length lines))) [
    | inr t ↦ rw (t, fine) (Sub-refl lines, λ p. p)
    | inl t ↦
        let l = ltb→lt i (length lines) t in
        let candidate = drain i (i + 1) lines in
        let less = length-drain i (i + 1) lines (omega arith) l in
        rw (t, fine)
          (answered-by (IsShrunk lines) (ask repro candidate s) _ _
            (λ s' r.
              IsShrunk-trans (fine repro fuel i candidate s')
                (drain-Sub i (i + 1) lines (omega arith)) (ask-P candidate s r)
                (fine-IsShrunk fuel i candidate s' (omega (arith, less, l, f))))
            λ s'. fine-IsShrunk fuel (i + 1) lines s' (omega (arith, l, f)))
  ]

  then_fine-IsShrunk :
      (lines : List A) (o : Option (List A × S))
      → IsShrunk lines o
      → IsShrunk lines (then_fine repro o)
  unfolding IsShrunk
  then_fine-IsShrunk lines none h = h
  then_fine-IsShrunk lines (some (r, s)) h =
      both_passes (fine repro (suc (length r)) 0 r s)
        (fine-IsShrunk (suc (length r)) 0 r s (omega arith))
    where
      both_passes : (o : Option (List A × S)) → IsShrunk r o → IsShrunk lines o
      both_passes none k = k
      both_passes (some (q, s')) k = (Sub-trans k.0 h.0, λ p. k.1 (h.1 p))

  -- The search ends, however the replays answer and differ: it gives some of the lines, in their order. A
  -- property that the input has, and every list of lines for which a replay shows the divergence, is one
  -- of the result too.
  pub shrink-Sub :
      (lines : List A) (s : S)
      → (r : List A) × (s' : S) × (shrink repro lines s ≡ some (r, s'))
        × Sub r lines
        × (P lines → P r)
  unfolding shrink IsShrunk
  shrink-Sub lines s =
      let n = length lines in
      ended (shrink repro lines s) (
        then_fine-IsShrunk lines (coarse repro (n * (n + 1) + n + 1) 2 lines s) (
          coarse-IsShrunk n (n * (n + 1) + n + 1) 2 lines s (omega arith) (omega arith)
            (enough (n * (n + 1)) n)))
    where
      enough : (p n : ℕ) → p + (n - 2) < p + n + 1
      enough p n = omega arith

      ended :
          (o : Option (List A × S))
          → IsShrunk lines o
          → (r : List A) × (s' : S) × (o ≡ some (r, s')) × Sub r lines × (P lines → P r)
      ended none h = absurd h
      ended (some (r, s')) h = (r, s', refl, h.0, h.1)
