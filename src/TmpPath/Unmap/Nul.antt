-- ===== src/TmpPath/Unmap/Nul.antt =====
-- crates/world-tmp-path/src/lib.rs: what stands before the first NUL of an address, and host names without NUL.
use world.Prelude.{
  ℕ, zero, suc, ◌==◌, ◌≤◌, ◌≡◌, refl, sym, ap, subst, false, [], ◌∷◌, ◌++◌, some, Bool-cases, inl,
  inr, length, take, arith,
}
use world.Bytes.{Bytes, contains}
use world.TmpPath.Unmap.{unmap, before_nul}
use world.TmpPath.Unmap.Names.{unmap_iff}
use world.TmpPath.Map.Plain.{HostRoot, location, reported}

-- The prefix before the first NUL of a part is that of the whole.
pub take-before_nul :
    (k : ℕ) (xs : Bytes) → take (length (before_nul (take k xs))) xs ≡ before_nul (take k xs)
unfolding before_nul
take-before_nul zero xs = refl
take-before_nul (suc k) [] = refl
take-before_nul (suc k) (x ∷ xs) = elim (Bool-cases (x == 0)) [
  | inl e ↦ rw e refl
  | inr e ↦ rw e (ap (λ l. x ∷ l) (take-before_nul k xs))
]

pub before_nul-le : (xs : Bytes) → length (before_nul xs) ≤ length xs
unfolding before_nul
before_nul-le [] = omega arith
before_nul-le (x ∷ xs) = ground (arith, before_nul-le xs)

pub contains-before_nul : (xs : Bytes) → contains 0 (before_nul xs) ≡ false
unfolding before_nul contains
contains-before_nul [] = refl
contains-before_nul (x ∷ xs) = ground (arith, contains-before_nul xs)

contains-append : (xs ys : Bytes) → contains 0 (xs ++ ys) ≡ false → contains 0 ys ≡ false
unfolding contains
contains-append [] ys h = h
contains-append (x ∷ xs) ys h = contains-append xs ys (ground (arith, h))

pub before_nul-append : (xs ys : Bytes) → contains 0 xs ≡ false → before_nul (xs ++ 0 ∷ ys) ≡ xs
unfolding before_nul contains
before_nul-append [] ys h = refl
before_nul-append (x ∷ xs) ys h = ground (arith, h, before_nul-append xs ys)

pub before_nul-same : (xs : Bytes) → contains 0 xs ≡ false → before_nul xs ≡ xs
unfolding before_nul contains
before_nul-same [] h = refl
before_nul-same (x ∷ xs) h = ground (arith, h, before_nul-same xs)

contains-reported :
    (p : HostRoot) (rest : Bytes)
    → contains 0 rest ≡ false
    → contains 0 (reported p ++ rest) ≡ false
unfolding contains
contains-reported HostRoot.long_var rest h = h
contains-reported HostRoot.long_tmp rest h = h
contains-reported HostRoot.short_var rest h = h
contains-reported HostRoot.short_tmp rest h = h

-- A host name has no NUL if the path has none.
pub contains-unmap :
    (root path name : Bytes)
    → contains 0 path ≡ false
    → unmap root path ≡ some name
    → contains 0 name ≡ false
contains-unmap root path name h e =
    let i = (unmap_iff root path name).0 e in
    let whole = subst (λ x. contains 0 x ≡ false) i.physical h in
    let rest =
      contains-append (location i.at) i.rest
        (contains-append root (location i.at ++ i.rest) whole) in
    subst (λ x. contains 0 x ≡ false) (sym i.named) (contains-reported i.at i.rest rest)
