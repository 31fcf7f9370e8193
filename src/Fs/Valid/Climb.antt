-- ===== src/Fs/Valid/Climb.antt =====
-- crates/world-fsmodel/src/lib.rs: the chain of parents of a node, which `is_descendant` and
-- `is_detached` climb.
use world.Prelude.{
  ℕ, zero, suc, ◌<◌, ◌==◌, ◌≡◌, ◌≢◌, ◌↔◌, refl, sym, subst, ap, true, List, [], ◌∷◌, Option, none,
  some, length, arith, Bool-cases, inl, inr, Option-cases,
}
use world.Prelude.Pigeonhole.{All, Distinct, pigeonhole}
use world.Fs.Types.{NodeId, Model}
use world.Fs.Nodes.{node, detached_from, is_detached, descends_from, is_descendant}
use world.Fs.Valid.{Below, size, IsValid}

abbrev pub parent_of : Model → NodeId → Option NodeId
parent_of m i = (node m i).parent

-- `Climbs m i k`: from `i` the parents lead to a node without a parent in `k` steps.
pub data Climbs (m : Model) : NodeId → ℕ → Type 0 where
  top : {i : NodeId} → parent_of m i ≡ none → Climbs m i zero
  up : {i p : NodeId} {k : ℕ} → parent_of m i ≡ some p → Climbs m p k → Climbs m i (suc k)

-- `Above m a i`: `a` is `i` or one of its ancestors.
pub data Above (m : Model) (a : NodeId) : NodeId → Type 0 where
  here : {i : NodeId} → i ≡ a → Above m a i
  up : {i p : NodeId} → parent_of m i ≡ some p → Above m a p → Above m a i

-- Every chain of parents ends.
abbrev pub IsAcyclic : Model → Type 0
IsAcyclic m = (i : NodeId) → (k : ℕ) × Climbs m i k

pub Climbs-unique : {m : Model} {i : NodeId} {k l : ℕ} → Climbs m i k → Climbs m i l → k ≡ l
Climbs-unique (top e) (top f) = refl
Climbs-unique (top e) (Climbs.up f d) = cc
Climbs-unique (Climbs.up e c) (top f) = cc
Climbs-unique {m} (Climbs.up {p = p} {k = k} e c) (Climbs.up {p = q} {k = l} f d) =
    let same : p ≡ q = ground (arith, e, f) in
    ap suc (Climbs-unique c (subst (λ j. Climbs m j l) (sym same) d))

-- The nodes that a chain visits
nodes_of : {m : Model} {i : NodeId} {k : ℕ} → Climbs m i k → List NodeId
nodes_of {i = i} (top e) = i ∷ []
nodes_of {i = i} (Climbs.up e c) = i ∷ nodes_of c

length-nodes_of : {m : Model} {i : NodeId} {k : ℕ} (c : Climbs m i k) → length (nodes_of c) ≡ suc k
unfolding nodes_of
length-nodes_of (top e) = refl
length-nodes_of (Climbs.up e c) = ap suc (length-nodes_of c)

-- A node with a longer chain is not among the visited.
nodes_of-lower :
    {m : Model} {i j : NodeId} {k l : ℕ} (c : Climbs m i k)
    → Climbs m j l
    → k < l
    → All (λ y. j ≢ y) (nodes_of c)
unfolding nodes_of
nodes_of-lower {m} {j = j} {l = l} (top {i = i} e) d h =
    let c : Climbs m i zero = top e in
    ((λ s. absurd (omega (arith, Climbs-unique c (subst (λ x. Climbs m x l) s d)))), tt)
nodes_of-lower {m} {j = j} {l = l} (Climbs.up {i = i} e c) d h = (
  (λ s. absurd (omega (arith, Climbs-unique (Climbs.up e c) (subst (λ x. Climbs m x l) s d)))),
  nodes_of-lower c d (omega arith),
)

nodes_of-Distinct : {m : Model} {i : NodeId} {k : ℕ} (c : Climbs m i k) → Distinct (nodes_of c)
unfolding nodes_of
nodes_of-Distinct (top e) = (tt, tt)
nodes_of-Distinct (Climbs.up e c) =
    (nodes_of-lower c (Climbs.up e c) (omega arith), nodes_of-Distinct c)

nodes_of-lt :
    {m : Model} {i : NodeId} {k : ℕ}
    → IsValid m
    → (c : Climbs m i k) → i < size m
    → All (λ j. j < size m) (nodes_of c)
unfolding nodes_of
nodes_of-lt v (top e) h = (h, tt)
nodes_of-lt {m} v (Climbs.up {i = i} {p = p} e c) h =
    (h, nodes_of-lt v c (subst (Below (size m)) e (v.at i).parent))

-- In a valid model a chain has fewer steps than the arena has nodes.
pub Climbs-lt :
    {m : Model} {i : NodeId} {k : ℕ} → IsValid m → Climbs m i k → i < size m → k < size m
Climbs-lt {m} v c h = omega (
  arith,
  length-nodes_of c,
  pigeonhole (size m) (nodes_of c) (nodes_of-lt v c h) (nodes_of-Distinct c),
)

module _ {m : Model} where
  -- Once the fuel is above the length of the chain, more of it changes nothing.
  detached_from-enough :
      (f g : ℕ) {i : NodeId} {k : ℕ}
      → Climbs m i k
      → k < f
      → k < g
      → detached_from f m i ≡ detached_from g m i
  unfolding detached_from
  detached_from-enough zero g c h l = elim h [ ]
  detached_from-enough (suc f) zero c h l = elim l [ ]
  detached_from-enough (suc f) (suc g) (top e) h l = ground (arith, e)
  detached_from-enough (suc f) (suc g) (Climbs.up {p = p} e c) h l =
      ground (arith, e, detached_from-enough f g c)

  descends_from-enough :
      (f g : ℕ) (a : NodeId) {i : NodeId} {k : ℕ}
      → Climbs m i k
      → k < f
      → k < g
      → descends_from f m a i ≡ descends_from g m a i
  unfolding descends_from
  descends_from-enough zero g a c h l = elim h [ ]
  descends_from-enough (suc f) zero a c h l = elim l [ ]
  descends_from-enough (suc f) (suc g) a (top e) h l = ground (arith, e)
  descends_from-enough (suc f) (suc g) a (Climbs.up {p = p} e c) h l =
      ground (arith, e, descends_from-enough f g a c)

  -- No node of a chain is its own parent.
  parent-ne : {i p : NodeId} {k : ℕ} → parent_of m i ≡ some p → Climbs m p k → p ≢ i
  parent-ne {k = k} e c s =
      absurd
        (omega (arith, Climbs-unique c (subst (λ j. Climbs m j (suc k)) (sym s) (Climbs.up e c))))

  -- The loop of `is_descendant` finds every ancestor that the fuel lets it reach.
  pub descends_from-Above :
      (f : ℕ) (a : NodeId) {i : NodeId} {k : ℕ}
      → Climbs m i k
      → k < f
      → Above m a i
      → descends_from f m a i ≡ true
  unfolding descends_from
  descends_from-Above zero a c h b = elim h [ ]
  descends_from-Above (suc f) a c h (here e) = ground (arith, e)
  descends_from-Above (suc f) a (top e) h (Above.up d b) = cc
  descends_from-Above (suc f) a (Climbs.up {p = p} e c) h (Above.up {p = q} d b) =
      let same : q ≡ p = ground (arith, e, d) in
      ground (
        arith,
        e,
        parent-ne e c,
        descends_from-Above f a c (omega arith) (subst (Above m a) same b),
      )

  Above-of-descends_from : (f : ℕ) (a i : NodeId) → descends_from f m a i ≡ true → Above m a i
  unfolding descends_from
  Above-of-descends_from zero a i h = cc
  Above-of-descends_from (suc f) a i h = elim (Bool-cases (i == a)) [
    | inl e ↦ here (ground arith)
    | inr n ↦ elim (Option-cases (parent_of m i)) [
      | inl e ↦ absurd (ground (arith, e, n))
      | inr (p, e) ↦ Above.up e (Above-of-descends_from f a p (ground (arith, e, n)))
    ]
  ]

  detached_from-Above :
      (f : ℕ) {a i : NodeId} {k : ℕ}
      → Climbs m i k
      → k < f
      → Above m a i
      → (node m a).detached ≡ true
      → detached_from f m i ≡ true
  unfolding detached_from
  detached_from-Above zero c h b d = elim h [ ]
  detached_from-Above (suc f) c h (here e) d = rw e (ground (arith, d))
  detached_from-Above (suc f) (top e) h (Above.up x b) d = cc
  detached_from-Above (suc f) {a} (Climbs.up {p = p} e c) h (Above.up {p = q} x b) d =
      let same : q ≡ p = ground (arith, e, x) in
      ground (arith, e, detached_from-Above f c (omega arith) (subst (Above m a) same b) d)

  Above-of-detached_from :
      (f : ℕ) (i : NodeId)
      → detached_from f m i ≡ true
      → (a : NodeId) × Above m a i × ((node m a).detached ≡ true)
  unfolding detached_from
  Above-of-detached_from zero i h = cc
  Above-of-detached_from (suc f) i h = elim (Bool-cases (node m i).detached) [
    | inl e ↦ (i, here refl, e)
    | inr n ↦ elim (Option-cases (parent_of m i)) [
      | inl e ↦ absurd (ground (arith, e, n))
      | inr (p, e) ↦
          let (a, b, d) = Above-of-detached_from f p (ground (arith, e, n)) in (a, Above.up e b, d)
    ]
  ]

-- A sound model: all ids in range, and no cycle of parents.
pub record IsSound (m : Model) : Type 0 where
  pub valid : IsValid m
  pub acyclic : IsAcyclic m

module _ {m : Model} (s : IsSound m) where
  -- In a sound model `is_descendant` answers whether the chain of `i` passes through `a`.
  pub is_descendant_iff : (a i : NodeId) → i < size m → (is_descendant m a i ≡ true) ↔ Above m a i
  unfolding is_descendant
  is_descendant_iff a i h =
      let (k, c) = s.acyclic i in
      (
        Above-of-descends_from (size m) a i,
        descends_from-Above (size m) a c (Climbs-lt s.valid c h),
      )

  -- `is_detached` answers whether the node or an ancestor of it carries the mark.
  pub is_detached_iff :
      (i : NodeId)
      → i < size m
      → (is_detached m i ≡ true) ↔ ((a : NodeId) × Above m a i × ((node m a).detached ≡ true))
  unfolding is_detached
  is_detached_iff i h =
      let (k, c) = s.acyclic i in
      (
        Above-of-detached_from (size m) i,
        λ (a, b, d). detached_from-Above (size m) c (Climbs-lt s.valid c h) b d,
      )
