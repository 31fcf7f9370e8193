-- ===== src/Fs/Step/Grow.antt =====
-- crates/world-fsmodel/src/lib.rs: sound models, and `mkchild` and `mkdir_p`.
use world.Prelude.{
  ℕ, ◌<◌, ◌≤◌, refl, Bool, true, false, List, [], ◌∷◌, Option, none, some, if◌then◌else◌, arith,
}
use world.Bytes.{Bytes, beq, dotdot, real_components}
use world.Map.Order.{bytes_key, fd_key}
use world.Result.{Result, ok, err}
use world.Result.Yields.{Yields}
use world.Fs.Types.{NodeId, View, NodeKind, dir, symlink, Model}
use world.Fs.Nodes.{node, node_parent, key, child}
use world.Fs.Resolve.{link_fuel, start_walk}
use world.Fs.Build.{
  add_child, mkchild, target_or, existing_child, mkdir_child, entered, mkdir_step, mkdir_walk,
  mkdir_p, Grown,
}
use world.Fs.Valid.{Below, size}
use world.Fs.Valid.Lookups.{enter-lt, node_parent-lt, child-Below, resolve_inner-lt, base_of-lt}
use world.Fs.Valid.Climb.{IsSound}
use world.Fs.Step.Rules.{size-create_child}
use world.Fs.Step.Sound.{create_child-IsSound}

-- A model that grew out of a sound one: sound, no smaller, and the id is a node of it
pub record IsGrown (n : ℕ) (g : Grown) : Type 0 where
  pub sound : IsSound g.0
  pub grown : n ≤ size g.0
  pub inside : g.1 < size g.0

module _ {m : Model} (s : IsSound m) where
  add_child-IsGrown :
      (p : NodeId) (k : Bytes) (kind : NodeKind)
      → p < size m
      → IsGrown (size m) (add_child m p k kind)
  unfolding add_child
  add_child-IsGrown p k kind h = record {
    sound = create_child-IsSound p k kind s h;
    grown = omega (arith, size-create_child m p k kind);
    inside = omega (arith, size-create_child m p k kind);
  }

  entry-IsGrown :
      (p : NodeId) (k : Bytes) (kind : NodeKind) (o : Option NodeId)
      → p < size m
      → Below (size m) o
      → IsGrown (size m) (elim o [ some id ↦ (m, id) | none ↦ add_child m p k kind ])
  entry-IsGrown p k kind none h b = add_child-IsGrown p k kind h
  entry-IsGrown p k kind (some id) h b = record { sound = s; grown = omega arith; inside = b }

  pub mkchild-IsGrown :
      (p : NodeId) (name : Bytes) (kind : NodeKind)
      → p < size m
      → IsGrown (size m) (mkchild m p name kind)
  unfolding mkchild
  mkchild-IsGrown p name kind h =
      entry-IsGrown p (key m name) kind (child m p (key m name)) h
        (child-Below s.valid p (key m name))

  target_or-lt :
      (id : NodeId) (r : Result NodeId)
      → id < size m
      → Yields (λ i. i < size m) r
      → target_or id r < size m
  target_or-lt id (ok t) h y = y.of t refl
  target_or-lt id (err e) h y = h

  existing_child-lt :
      (view : View) (cur id : NodeId) (k : NodeKind)
      → cur < size m
      → id < size m
      → existing_child m view cur id k < size m
  unfolding existing_child
  existing_child-lt view cur id (symlink t) c h = target_or-lt id _ h (
      (resolve_inner-lt s.valid (link_fuel m) view _ t true (base_of-lt s.valid cur t c)).of
        start_walk)
  existing_child-lt view cur id dir c h = h
  existing_child-lt view cur id _ c h = h

  mkdir_child-IsGrown :
      (view : View) (cur : NodeId) (k : Bytes) (kind : NodeKind) (o : Option NodeId)
      → cur < size m
      → Below (size m) o
      → IsGrown (size m) (mkdir_child m view cur k kind o)
  unfolding mkdir_child
  mkdir_child-IsGrown view cur k kind none h b = add_child-IsGrown cur k kind h
  mkdir_child-IsGrown view cur k kind (some id) h b = record {
    sound = s;
    grown = omega arith;
    inside = existing_child-lt view cur id (node m id).kind h b;
  }

entered-IsGrown : {n : ℕ} (view : View) (g : Grown) → IsGrown n g → IsGrown n (entered view g)
unfolding entered
entered-IsGrown view g h = record {
  sound = h.sound;
  grown = h.grown;
  inside = enter-lt h.sound.valid view g.1 h.inside;
}

if-IsGrown :
    {n : ℕ} (b : Bool) (g g' : Grown) → IsGrown n g → IsGrown n g' → IsGrown n (if b then g else g')
if-IsGrown true g g' h k = h
if-IsGrown false g g' h k = k

IsGrown-trans : {a b : ℕ} {g : Grown} → a ≤ b → IsGrown b g → IsGrown a g
IsGrown-trans h i = record { sound = i.sound; grown = omega arith; inside = i.inside }

mkdir_step-IsGrown :
    {m : Model} (s : IsSound m) (view : View) (cur : NodeId) (comp : Bytes) (kind : NodeKind)
    → cur < size m
    → IsGrown (size m) (mkdir_step m view cur comp kind)
unfolding mkdir_step
mkdir_step-IsGrown {m} s view cur comp kind h = entered-IsGrown view _ (
    if-IsGrown (beq comp dotdot) (m, node_parent m view cur)
      (mkdir_child m view cur (key m comp) kind (child m cur (key m comp)))
      (record { sound = s; grown = omega arith; inside = node_parent-lt s.valid view cur h })
      (mkdir_child-IsGrown s view cur (key m comp) kind _ h (child-Below s.valid cur (key m comp))))

mkdir_walk-IsGrown :
    {m : Model} (s : IsSound m) (view : View) (cur : NodeId) (comps : List Bytes) (kind : NodeKind)
    → cur < size m
    → IsGrown (size m) (mkdir_walk m view cur comps kind)
unfolding mkdir_walk
mkdir_walk-IsGrown s view cur [] kind h = record { sound = s; grown = omega arith; inside = h }
mkdir_walk-IsGrown {m} s view cur (comp ∷ rest) kind h =
    let st = mkdir_step m view cur comp kind in
    let g : IsGrown (size m) st = mkdir_step-IsGrown s view cur comp kind h in
    IsGrown-trans g.grown (mkdir_walk-IsGrown {m = st.0} g.sound view st.1 rest kind g.inside)

pub mkdir_p-IsGrown :
    {m : Model} (s : IsSound m) (view : View) (path : Bytes) (kind : NodeKind)
    → IsGrown (size m) (mkdir_p m view path kind)
unfolding mkdir_p
mkdir_p-IsGrown {m} s view path kind =
    mkdir_walk-IsGrown s view _ (real_components path) kind
      (enter-lt s.valid view m.root_node s.valid.root_node)
