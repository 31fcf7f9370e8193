-- ===== src/Ddmin/Sub.antt =====
-- crates/world-cli/examples/fuzz_driver/ddmin.rs: lists of lines that stay when others are drained.
use world.Prelude.{
  ℕ, zero, suc, ◌<◌, ◌≤◌, List, [], ◌∷◌, ◌++◌, length, take, drop, length-append, length-take,
  length-drop, arith,
}
use world.Ddmin.{drain}

-- Some of the lines, in their order
pub data Sub {A : Type 0} : List A → List A → Type 0 where
  done : Sub [] []
  keep : (a : A) (xs ys : List A) → Sub xs ys → Sub (a ∷ xs) (a ∷ ys)
  skip : (a : A) (xs ys : List A) → Sub xs ys → Sub xs (a ∷ ys)

pub Sub-refl : {A : Type 0} (xs : List A) → Sub xs xs
Sub-refl [] = done
Sub-refl (x ∷ xs) = keep x xs xs (Sub-refl xs)

pub Sub-trans : {A : Type 0} {xs ys zs : List A} → Sub xs ys → Sub ys zs → Sub xs zs
Sub-trans p done = p
Sub-trans p (skip a ys zs q) = skip a _ zs (Sub-trans p q)
Sub-trans (keep a xs ys p) (keep _ _ zs q) = keep a xs zs (Sub-trans p q)
Sub-trans (skip a xs ys p) (keep _ _ zs q) = skip a xs zs (Sub-trans p q)

Sub-drop : {A : Type 0} (n : ℕ) (xs : List A) → Sub (drop n xs) xs
Sub-drop zero xs = Sub-refl xs
Sub-drop (suc n) [] = done
Sub-drop (suc n) (x ∷ xs) = skip x (drop n xs) xs (Sub-drop n xs)

pub drain-Sub :
    {A : Type 0} (start end : ℕ) (xs : List A) → start ≤ end → Sub (drain start end xs) xs
unfolding drain
drain-Sub zero end xs h = Sub-drop end xs
drain-Sub (suc start) zero xs h = absurd (omega (arith, h))
drain-Sub (suc start) (suc end) [] h = done
drain-Sub (suc start) (suc end) (x ∷ xs) h =
    keep x (take start xs ++ drop end xs) xs (drain-Sub start end xs (omega (arith, h)))

pub length-drain :
    {A : Type 0} (start end : ℕ) (xs : List A)
    → start < end
    → start < length xs
    → length (drain start end xs) < length xs
unfolding drain
length-drain start end xs h l = omega (
  arith,
  h,
  l,
  length-append (take start xs) (drop end xs),
  length-take start xs,
  length-drop end xs,
)
