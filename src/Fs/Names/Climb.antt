-- ===== src/Fs/Names/Climb.antt =====
-- crates/world-fsmodel/src/lib.rs: `full_path` along the physical parents.
use world.Prelude.{
  subst, ap, ℕ, zero, suc, ◌<◌, ◌≡◌, refl, List, [], ◌∷◌, ◌++◌, Option, none, some, Option-cases,
  inl, inr, arith, ◌==◌,
}
use world.Bytes.{Bytes}
use world.Map.{key_of}
use world.Fs.Types.{NodeId, Model, physical}
use world.Fs.Nodes.{node}
use world.Fs.Names.{name_parts, physical_name, paired, joined, or_slash, full_path}
use world.Fs.Valid.{size}
use world.Fs.Valid.Climb.{Climbs, top, Climbs-lt, IsSound}

paired-parent :
    {p q : NodeId} {name : Bytes} (o : Option Bytes) → paired p o ≡ some (name, q) → q ≡ p
paired-parent none h = cc
paired-parent (some n) h = ground (arith, h)

physical_name_top : (m : Model) (i : NodeId) → (node m i).parent ≡ none → physical_name m i ≡ none
unfolding physical_name
physical_name_top m i e = rw (e, physical_name) refl

physical_name_up :
    (m : Model) (i : NodeId) {p q : NodeId} {name : Bytes}
    → (node m i).parent ≡ some p
    → physical_name m i ≡ some (name, q)
    → q ≡ p
unfolding physical_name
physical_name_up m i {p} {q} {name} e h = paired-parent (key_of (λ c. c == i) (node m p).children) (
    subst
      (λ o.
        elim o [ none ↦ none | some r ↦ paired r (key_of (λ c. c == i) (node m r).children) ]
        ≡ some (name, q))
      e h)

module _ {m : Model} where
  -- With fuel above the length of the chain, the loop ends.
  name_parts-ends :
      (f : ℕ) {i : NodeId} {k : ℕ}
      → Climbs m i k
      → k < f
      → (parts : List Bytes) → (all : List Bytes) × (name_parts f m physical i parts ≡ some all)
  unfolding name_parts
  name_parts-ends zero c h parts = elim h [ ]
  name_parts-ends (suc f) {i} (top e) h parts =
      (parts, rw (physical_name_top m i e, name_parts) refl)
  name_parts-ends (suc f) {i} (Climbs.up {p = p} e c) h parts =
      elim (Option-cases (physical_name m i)) [
        | inl n ↦ (parts, rw (n, name_parts) refl)
        | inr ((name, q), n) ↦
            let (all, r) = name_parts-ends f c (omega arith) (name ∷ parts) in
            let same : q ≡ p = physical_name_up m i e n in (all, rw (n, name_parts) (rw same r))
      ]

or_slash-absolute : (ps : List Bytes) → (rest : Bytes) × (or_slash (joined ps) ≡ b'/' ∷ rest)
unfolding joined
or_slash-absolute [] = ([], refl)
or_slash-absolute (p ∷ ps) = (p ++ joined ps, refl)

-- In a sound model `full_path` of the physical view ends for every node of the arena, with an absolute
-- path.
pub full_path-physical :
    {m : Model}
    → IsSound m
    → (i : NodeId) → i < size m
    → (rest : Bytes) × (full_path m physical i ≡ some (b'/' ∷ rest))
unfolding full_path
full_path-physical {m} s i h =
    let (k, c) = s.acyclic i in
    let (all, e) = name_parts-ends (suc (size m)) c (omega (arith, Climbs-lt s.valid c h)) [] in
    let (rest, a) = or_slash-absolute all in (rest, rw (e, full_path) (ap some a))
