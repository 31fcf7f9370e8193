-- ===== src/Prelude/Members.antt =====
-- `All` and the members of a list.
use world.Prelude.Pigeonhole.{All}
use mathlib.Core.Path.{refl, sym, subst}
use mathlib.Core.List.{List, [], ◌∷◌, Memᴰ}

module _ {ℓ κ} {A : Type ℓ} (P : A → Type κ) where
  pub All-member : {x : A} (xs : List A) → All P xs → Memᴰ x xs → P x
  All-member [] h i = elim i [ ]
  All-member (y ∷ ys) h (Memᴰ.head e) = subst P (sym e) h.0
  All-member (y ∷ ys) h (Memᴰ.tail i) = All-member ys h.1 i

  pub member-All : (xs : List A) → ((x : A) → Memᴰ x xs → P x) → All P xs
  member-All [] f = tt
  member-All (y ∷ ys) f = (f y (Memᴰ.head refl), member-All ys λ x i. f x (Memᴰ.tail i))
