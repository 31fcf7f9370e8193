-- ===== src/Fs/Step/Parents.antt =====
-- crates/world-fsmodel/src/lib.rs: the writes to the arena, and the chains of parents.
use world.Prelude.{
  ℕ, suc, ◌<◌, ◌==◌, ◌≡◌, ◌≢◌, refl, sym, ◌∙◌, ◌⊎◌, subst, Bool, true, false, Option, some,
  if◌then◌else◌, arith, Bool-cases, inl, inr, ==_iff, ap,
}
use world.Fs.Types.{NodeId, NodeKind, Node, Model}
use world.Fs.Nodes.{node, set_node, bare, push_node}
use world.Fs.Valid.{Below, size, IsValid}
use world.Fs.Valid.Updates.{node-set_node, node-push_node}
use world.Fs.Valid.Climb.{parent_of, Climbs, top, Above, here, IsAcyclic}

-- The two models agree on every node's parent.
abbrev pub SameParents : Model → Model → Type 0
SameParents m m' = (j : NodeId) → parent_of m' j ≡ parent_of m j

Climbs-SameParents :
    {m m' : Model} {i : NodeId} {k : ℕ} → SameParents m m' → Climbs m i k → Climbs m' i k
Climbs-SameParents s (top {i = i} e) = top (s i ∙ e)
Climbs-SameParents s (Climbs.up {i = i} e c) = Climbs.up (s i ∙ e) (Climbs-SameParents s c)

pub IsAcyclic-SameParents : {m m' : Model} → SameParents m m' → IsAcyclic m → IsAcyclic m'
IsAcyclic-SameParents s a i = let (k, c) = a i in (k, Climbs-SameParents s c)

if-parent :
    (b : Bool) (x y : Node) → (if b then x else y).parent ≡ (if b then x.parent else y.parent)
if-parent true x y = refl
if-parent false x y = refl

pub parent-set_node :
    (m : Model) (i j : NodeId) (n : Node)
    → i < size m
    → parent_of (set_node m i n) j ≡ (if i == j then n.parent else parent_of m j)
parent-set_node m i j n h =
    ap (λ (d : Node). d.parent) (node-set_node m i j n h) ∙ if-parent (i == j) n (node m j)

parent-push_node :
    (m : Model) (k : NodeKind) (p : Option NodeId) (j : NodeId)
    → parent_of (push_node m k p).0 j ≡ (if j == size m then p else parent_of m j)
parent-push_node m k p j =
    ap (λ (d : Node). d.parent) (node-push_node m k p j)
    ∙ if-parent (j == size m) (bare k p) (node m j)

-- A write of a node with the parent that it had
pub set_node-SameParents :
    (m : Model) (i : NodeId) (n : Node)
    → i < size m
    → n.parent ≡ parent_of m i
    → SameParents m (set_node m i n)
set_node-SameParents m i n h e j = parent-set_node m i j n h ∙ kept (Bool-cases (i == j))
  where
    kept :
        ((i == j) ≡ true) ⊎ ((i == j) ≡ false)
        → (if i == j then n.parent else parent_of m j) ≡ parent_of m j
    kept (inl y) = let same : i ≡ j = (==_iff i j).0 y in rw y (e ∙ ap (parent_of m) same)
    kept (inr y) = rw y

-- The chains of the old nodes stay when a node is pushed.
Climbs-push_node :
    {m : Model} {i : NodeId} {k : ℕ} (kind : NodeKind) (p : Option NodeId)
    → IsValid m
    → Climbs m i k
    → i < size m
    → Climbs (push_node m kind p).0 i k
Climbs-push_node {m} kind p v (top {i = i} e) h =
    top (parent-push_node m kind p i ∙ ground (arith, e))
Climbs-push_node {m} kind p v (Climbs.up {i = i} {p = q} e c) h =
    Climbs.up (parent-push_node m kind p i ∙ ground (arith, e))
      (Climbs-push_node kind p v c (subst (Below (size m)) e (v.at i).parent))

pub push_node-IsAcyclic :
    {m : Model} (kind : NodeKind) (p : NodeId)
    → IsValid m
    → IsAcyclic m
    → p < size m
    → IsAcyclic (push_node m kind (some p)).0
push_node-IsAcyclic {m} kind p v a h j = elim (Bool-cases (j == size m)) [
  | inl y ↦
      let (k, c) = a p in
      (
        suc k,
        Climbs.up (parent-push_node m kind (some p) j ∙ ground (arith, y))
            (Climbs-push_node kind (some p) v c h),
      )
  | inr y ↦ let (k, c) = a j in other y c
]
  where
    other :
        {k : ℕ}
        → (j == size m) ≡ false
        → Climbs m j k
        → (l : ℕ) × Climbs (push_node m kind (some p)).0 j l
    other y (top e) = (_, top (parent-push_node m kind (some p) j ∙ ground (arith, e, y)))
    other y (Climbs.up {p = q} e c) = (
      _,
      Climbs.up (parent-push_node m kind (some p) j ∙ ground (arith, e, y))
          (Climbs-push_node kind (some p) v c (subst (Below (size m)) e (v.at j).parent)),
    )

-- A move of `a` below `t`, as the parents show it
abbrev pub Moved : Model → Model → NodeId → NodeId → Type 0
Moved m m' a t = (j : NodeId) → parent_of m' j ≡ (if a == j then some t else parent_of m j)

-- A chain that does not pass through the moved node stays.
Climbs-avoid :
    {m m' : Model} (a t : NodeId) {i : NodeId} {k : ℕ}
    → Moved m m' a t
    → Climbs m i k
    → ¬ Above m a i
    → Climbs m' i k
Climbs-avoid a t mv (top {i = i} e) n =
    let off : a ≢ i = λ s. n (here (sym s)) in top (mv i ∙ ground (arith, e))
Climbs-avoid a t mv (Climbs.up {i = i} e c) n =
    let off : a ≢ i = λ s. n (here (sym s)) in
    Climbs.up (mv i ∙ ground (arith, e)) (Climbs-avoid a t mv c (λ b. n (Above.up e b)))

Climbs-Moved :
    {m m' : Model} (a t : NodeId) {i : NodeId} {k l : ℕ}
    → Moved m m' a t
    → Climbs m' t l
    → Climbs m i k
    → (j : ℕ) × Climbs m' i j
Climbs-Moved a t {l = l} mv d (top {i = i} e) = elim (Bool-cases (a == i)) [
  | inl y ↦ (suc l, Climbs.up (mv i ∙ ground (arith, y)) d)
  | inr y ↦ (0, top (mv i ∙ ground (arith, e, y)))
]
Climbs-Moved a t {l = l} mv d (Climbs.up {i = i} e c) = elim (Bool-cases (a == i)) [
  | inl y ↦ (suc l, Climbs.up (mv i ∙ ground (arith, y)) d)
  | inr y ↦
      let (j, f) = Climbs-Moved a t mv d c in (suc j, Climbs.up (mv i ∙ ground (arith, e, y)) f)
]

-- A node that moves below one which is not below it makes no cycle.
pub IsAcyclic-Moved :
    {m m' : Model} (a t : NodeId) → Moved m m' a t → ¬ Above m a t → IsAcyclic m → IsAcyclic m'
IsAcyclic-Moved a t mv n all i =
    let (l, d) = all t in let (k, c) = all i in Climbs-Moved a t mv (Climbs-avoid a t mv d n) c
