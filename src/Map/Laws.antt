-- ===== src/Map/Laws.antt =====
-- How lookups see the updates of a map.
use world.Prelude.{◌≡◌, refl, [], ◌∷◌, none, some, arith, if◌then◌else◌}
use world.Map.{Key, Map, get, insert, remove}

module _ {K V : Type 0} ⦃k : Key K⦄ where
  pub get-insert :
      (a b : K) (v : V) (m : Map K V)
      → get b (insert a v m) ≡ (if k.eqb a b then some v else get b m)
  unfolding get insert
  get-insert a b v [] = refl
  get-insert a b v ((c, w) ∷ m) =
      ground (arith, get-insert a b v m, k.eqb_iff a b, k.eqb_iff c a, k.eqb_iff c b)

  pub get-remove :
      (a b : K) (m : Map K V) → get b (remove a m) ≡ (if k.eqb a b then none else get b m)
  unfolding get remove
  get-remove a b [] = ground arith
  get-remove a b ((c, w) ∷ m) =
      ground (arith, get-remove a b m, k.eqb_iff a b, k.eqb_iff c a, k.eqb_iff c b)
