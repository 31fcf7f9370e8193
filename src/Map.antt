-- ===== src/Map.antt =====
-- `BTreeMap` as the model crate uses it: `get`, `contains_key`, `insert`, `remove`, and iteration in
-- key order, over an association list that `insert` keeps in that order.
pub mod Laws
pub mod Order
use world.Prelude.{
  ℕ, suc, ◌<◌, ◌≡◌, ◌↔◌, Bool, true, false, List, [], ◌∷◌, ◌++◌, Option, none, some, Ordering,
  compare, arith, if◌then◌else◌, ◌==◌, map,
}

-- What a key type offers: its equality test, which decides equality, and its order.
pub record Key (K : Type 0) : Type 0 where
  pub eqb : K → K → Bool
  pub cmp : K → K → Ordering
  pub eqb_iff : (a b : K) → (eqb a b ≡ true) ↔ (a ≡ b)

abbrev pub Map : Type 0 → Type 0 → Type 0
Map K V = List (K × V)

module _ {K V : Type 0} ⦃k : Key K⦄ where
  unfoldable pub get : K → Map K V → Option V
  get a [] = none
  get a ((b, v) ∷ m) = if k.eqb b a then some v else get a m

  unfoldable pub contains_key : K → Map K V → Bool
  contains_key a m = elim (get a m) [ none ↦ false | some v ↦ true ]

  -- An equal key keeps its place, and a new one goes before the first that is greater.
  unfoldable pub insert : K → V → Map K V → Map K V
  insert a v [] = (a, v) ∷ []
  insert a v ((b, w) ∷ m) =
      let rest = insert a v m in
      if k.eqb b a
      then (a, v) ∷ m
      else elim (k.cmp a b) [ Ordering.lt ↦ (a, v) ∷ (b, w) ∷ m | _ ↦ (b, w) ∷ rest ]

  unfoldable pub remove : K → Map K V → Map K V
  remove a [] = []
  remove a ((b, v) ∷ m) = let rest = remove a m in if k.eqb b a then rest else (b, v) ∷ rest

module _ {K V : Type 0} where
  unfoldable pub keys : Map K V → List K
  keys = map (λ e. e.0)

  -- `iter().find(|&(_, &id)| id == v)`, for the key
  unfoldable pub key_of : (V → Bool) → Map K V → Option K
  key_of p [] = none
  key_of p ((a, v) ∷ m) = if p v then some a else key_of p m
