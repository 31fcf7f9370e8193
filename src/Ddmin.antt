-- ===== src/Ddmin.antt =====
-- crates/world-cli/examples/fuzz_driver/ddmin.rs: the search of `minimize` for a shorter list of operations
-- that still shows the same divergence. The replay of a candidate is a parameter with a state of its own,
-- since two replays need not agree; `none` stands for fuel that is spent.
pub mod Sub
pub mod Shrink
pub mod Tests
mod Witnesses
use world.Prelude.{
  ℕ, zero, suc, ◌+◌, ◌-◌, ◌*◌, ◌/◌, ◌==◌, ltb, leb, min, Bool, true, false, List, [], ◌∷◌, ◌++◌,
  Option, none, some, length, take, drop, if◌then◌else◌,
}

-- The lines without those from `start` up to `end`
unfoldable pub drain {ℓ} : {A : Type ℓ} → ℕ → ℕ → List A → List A
drain start end lines = take start lines ++ drop end lines

unfoldable pub div_ceil : ℕ → ℕ → ℕ
div_ceil n d = (n + d - 1) / d

abbrev pub max : ℕ → ℕ → ℕ
max m n = if ltb m n then n else m

abbrev pub answered {ℓ} : {S : Type 0} {B : Type ℓ} → Bool × S → (S → B) → (S → B) → B
answered (true, s) f g = f s
answered (false, s) f g = g s

abbrev pub after_cut :
    {A S : Type 0}
    → Option (Option (List A) × S)
    → (List A → S → Option (List A × S))
    → (S → Option (List A × S))
    → Option (List A × S)
after_cut none cut whole = none
after_cut (some (none, s)) cut whole = whole s
after_cut (some (some lines, s)) cut whole = cut lines s

module _ {A S : Type 0} (repro : S → List A → Bool × S) where
  -- `!candidate.is_empty() && repro(&candidate)`
  unfoldable pub ask : List A → S → Bool × S
  ask [] s = (false, s)
  ask (l ∷ ls) s = repro s (l ∷ ls)

  -- The first chunk from `start` on without which the divergence stays
  unfoldable pub first_cut : ℕ → ℕ → List A → ℕ → S → Option (Option (List A) × S)
  unfolding ask drain
  first_cut zero size lines start s = none
  first_cut (suc fuel) size lines start s = elim (ltb start (length lines)) [
    | false ↦ some (none, s)
    | true ↦
        let end = min (start + size) (length lines) in
        let candidate = drain start end lines in
        answered (ask candidate s) (λ s'. some (some candidate, s'))
          λ s'. first_cut fuel size lines end s'
  ]

  unfoldable pub coarse : ℕ → ℕ → List A → S → Option (List A × S)
  unfolding first_cut div_ceil
  coarse zero divisor lines s = none
  coarse (suc fuel) divisor lines s = elim (ltb 1 (length lines)) [
    | false ↦ some (lines, s)
    | true ↦
        let size = div_ceil (length lines) divisor in
        elim (size == 0) [
          | true ↦ some (lines, s)
          | false ↦
              after_cut (first_cut (suc (length lines)) size lines 0 s)
                (λ shorter s'. coarse fuel (max (divisor - 1) 2) shorter s')
                λ s'. elim (leb (length lines) divisor) [
                  | true ↦ some (lines, s')
                  | false ↦ coarse fuel (min (divisor * 2) (length lines)) lines s'
                ]
        ]
  ]

  unfoldable pub fine : ℕ → ℕ → List A → S → Option (List A × S)
  unfolding ask drain
  fine zero i lines s = none
  fine (suc fuel) i lines s = elim (ltb i (length lines)) [
    | false ↦ some (lines, s)
    | true ↦
        let candidate = drain i (i + 1) lines in
        answered (ask candidate s) (λ s'. fine fuel i candidate s') λ s'. fine fuel (i + 1) lines s'
  ]

  abbrev pub then_fine : Option (List A × S) → Option (List A × S)
  then_fine none = none
  then_fine (some (lines, s)) = fine (suc (length lines)) 0 lines s

  -- Both passes, with fuel that is enough
  unfoldable pub shrink : List A → S → Option (List A × S)
  unfolding coarse fine
  shrink lines s = let n = length lines in then_fine (coarse (n * (n + 1) + n + 1) 2 lines s)
