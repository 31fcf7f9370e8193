-- ===== src/Fs/Step/Sound.antt =====
-- crates/world-fsmodel/src/lib.rs: the steps of Fs/Step, and sound models.
use world.Prelude.{
  ℕ, ◌<◌, ◌==◌, ◌≡◌, refl, sym, ◌∙◌, subst, ap, Bool, false, Option, none, some, if◌then◌else◌,
  arith, Bool-cases, inl, inr, false,
}
use world.Bytes.{Bytes}
use world.Map.{Map}
use world.Fs.Types.{NodeId, NodeKind, FdEntry, Model}
use world.Fs.Nodes.{
  node, push_node, create_child, remove_child, insert_child, is_dir, is_descendant,
}
use world.Fs.Ops.Remove.{Victim, detach}
use world.Fs.Ops.Rename.{drop_existing, reparent, move_node}
use world.Fs.Valid.{Below, size, IsValid}
use world.Fs.Valid.Updates.{size-set_node, size-push_node}
use world.Fs.Valid.Climb.{IsSound, is_descendant_iff}
use world.Fs.Step.{Step, Steps, stay, next}
use world.Fs.Step.Writes.{
  set_node-IsValid, push_node-IsValid, insert_child-IsValid, remove_child-IsValid, detach-IsValid,
  reparent-IsValid,
}
use world.Fs.Step.Parents.{
  SameParents, IsAcyclic-SameParents, set_node-SameParents, parent-set_node, push_node-IsAcyclic,
  IsAcyclic-Moved,
}

-- What the writes before the last of a move leave as it was: the size, and all parents
record Quiet (m m' : Model) : Type 0 where
  valid : IsValid m'
  same_size : size m' ≡ size m
  same_parents : SameParents m m'

Quiet-refl : {m : Model} → IsValid m → Quiet m m
Quiet-refl v = record { valid = v; same_size = refl; same_parents = λ j. refl }

Quiet-trans : {a b c : Model} → Quiet a b → Quiet b c → Quiet a c
Quiet-trans p q = record {
  valid = q.valid;
  same_size = q.same_size ∙ p.same_size;
  same_parents = λ j. q.same_parents j ∙ p.same_parents j;
}

module _ {m : Model} (v : IsValid m) where
  insert_child-Quiet :
      (p : NodeId) (k : Bytes) (i : NodeId)
      → p < size m
      → i < size m
      → Quiet m (insert_child m p k i)
  insert_child-Quiet p k i h l = record {
    valid = insert_child-IsValid p k i v h l;
    same_size = unfold insert_child in size-set_node m p _;
    same_parents = unfold insert_child in set_node-SameParents m p _ h refl;
  }

  remove_child-Quiet : (p : NodeId) (k : Bytes) → p < size m → Quiet m (remove_child m p k)
  remove_child-Quiet p k h = record {
    valid = remove_child-IsValid p k v h;
    same_size = unfold remove_child in size-set_node m p _;
    same_parents = unfold remove_child in set_node-SameParents m p _ h refl;
  }

  detach-Quiet : (i : NodeId) → i < size m → Quiet m (detach m i)
  detach-Quiet i h = record {
    valid = detach-IsValid i v h;
    same_size = unfold detach in size-set_node m i _;
    same_parents = unfold detach in set_node-SameParents m i _ h refl;
  }

  drop_existing-Quiet : (o : Option NodeId) → Below (size m) o → Quiet m (drop_existing m o)
  unfolding drop_existing
  drop_existing-Quiet none h = Quiet-refl v
  drop_existing-Quiet (some e) h = elim (Bool-cases (is_dir m e)) [
    | inl y ↦ rw y (detach-Quiet e h)
    | inr n ↦ rw n (Quiet-refl v)
  ]

Quiet-IsSound : {m m' : Model} → IsSound m → Quiet m m' → IsSound m'
Quiet-IsSound s q = record {
  valid = q.valid;
  acyclic = IsAcyclic-SameParents q.same_parents s.acyclic;
}

-- The model just before the last write of a move
before_reparent : Model → Victim → NodeId × Bytes × Bool → Option NodeId → Model
before_reparent m v t existing =
    insert_child (drop_existing (remove_child m v.0 v.1) existing) t.0 t.1 v.2

before_reparent-Quiet :
    {m : Model} (v : Victim) (t : NodeId × Bytes × Bool) (existing : Option NodeId)
    → IsValid m
    → v.0 < size m
    → v.2 < size m
    → t.0 < size m
    → Below (size m) existing
    → Quiet m (before_reparent m v t existing)
unfolding before_reparent
before_reparent-Quiet {m} v t existing w hp hi ht he =
    let q1 = remove_child-Quiet w v.0 v.1 hp in
    let q2 = Quiet-trans q1 (
      drop_existing-Quiet q1.valid existing
        (subst (λ n. Below n existing) (sym q1.same_size) he)) in
    Quiet-trans q2 (
      insert_child-Quiet q2.valid t.0 t.1 v.2 (subst (λ n. t.0 < n) (sym q2.same_size) ht)
        (subst (λ n. v.2 < n) (sym q2.same_size) hi))

move_node-IsSound :
    {m : Model} (v : Victim) (t : NodeId × Bytes × Bool) (existing : Option NodeId)
    → IsSound m
    → v.0 < size m
    → v.2 < size m
    → t.0 < size m
    → Below (size m) existing
    → is_descendant m v.2 t.0 ≡ false
    → IsSound (move_node m v t existing)
unfolding move_node before_reparent
move_node-IsSound {m} v t existing s hp hi ht he nd =
    let q = before_reparent-Quiet v t existing s.valid hp hi ht he in
    let b = before_reparent m v t existing in
    let hi' : v.2 < size b = subst (λ n. v.2 < n) (sym q.same_size) hi in
    let ht' : t.0 < size b = subst (λ n. t.0 < n) (sym q.same_size) ht in
    record {
      valid = reparent-IsValid v.2 t.0 q.valid hi' ht';
      acyclic =
          IsAcyclic-Moved v.2 t.0
            (λ j.
              (unfold reparent in parent-set_node b v.2 j _ hi')
              ∙ ap (λ o. if v.2 == j then some t.0 else o) (q.same_parents j))
            (λ above. cc ((is_descendant_iff s v.2 t.0 ht).1 above, nd)) s.acyclic;
    }

pub create_child-IsSound :
    {m : Model} (p : NodeId) (k : Bytes) (kind : NodeKind)
    → IsSound m
    → p < size m
    → IsSound (create_child m p k kind)
unfolding create_child
create_child-IsSound {m} p k kind s h =
    let pushed : IsSound (push_node m kind (some p)).0 = record {
      valid = push_node-IsValid kind p s.valid h;
      acyclic = push_node-IsAcyclic kind p s.valid s.acyclic h;
    } in
    Quiet-IsSound pushed (
      insert_child-Quiet pushed.valid p k (push_node m kind (some p)).1
        (rw size-push_node (omega arith)) (rw size-push_node (unfold push_node in omega arith)))

-- A change of the table or of the working directory leaves all parents alone.
pub outside-SameParents :
    (m : Model) (fds : Map ℕ FdEntry) (fd : ℕ) (i : NodeId)
    → SameParents m (record m { fds = fds; next_fd = fd; cwd = i })
unfolding node
outside-SameParents m fds fd i j = refl

-- Every step keeps a model sound.
pub Step-IsSound : {m m' : Model} → IsSound m → Step m m' → IsSound m'
Step-IsSound s (Step.create p k kind h) = create_child-IsSound p k kind s h.0
Step-IsSound {m} s (Step.content i bytes h e) = record {
  valid = set_node-IsValid i _ s.valid h (record {
    parent = (s.valid.at i).parent;
    children = (s.valid.at i).children;
    mounted_by = (s.valid.at i).mounted_by;
    virtual_parent = (s.valid.at i).virtual_parent;
  });
  acyclic = IsAcyclic-SameParents (set_node-SameParents m i _ h refl) s.acyclic;
}
Step-IsSound {m} s (Step.table fds fd h) = record {
  valid = record {
    root_node = s.valid.root_node;
    cwd = s.valid.cwd;
    at = unfold node in s.valid.at;
    fds = h;
  };
  acyclic = IsAcyclic-SameParents (outside-SameParents m fds fd m.cwd) s.acyclic;
}
Step-IsSound {m} s (Step.enter_dir i h) = record {
  valid = record {
    root_node = s.valid.root_node;
    cwd = h.0;
    at = unfold node in s.valid.at;
    fds = s.valid.fds;
  };
  acyclic = IsAcyclic-SameParents (outside-SameParents m m.fds m.next_fd i) s.acyclic;
}
Step-IsSound s (Step.unlist p k h) = Quiet-IsSound s (remove_child-Quiet s.valid p k h)
Step-IsSound s (Step.kill i h) = Quiet-IsSound s (detach-Quiet s.valid i h)
Step-IsSound s (Step.move v t existing hp hi ht he ne nd) =
    move_node-IsSound v t existing s hp hi ht he nd

pub Steps-IsSound : {m m' : Model} → IsSound m → Steps m m' → IsSound m'
Steps-IsSound s stay = s
Steps-IsSound s (next r st) = Step-IsSound (Steps-IsSound s r) st
