-- ===== src/Fs/Step/Writes.antt =====
-- crates/world-fsmodel/src/lib.rs: the writes to the arena, and the range of the ids.
use world.Prelude.{ℕ, suc, ◌<◌, ◌==◌, Bool, true, false, Option, none, some, if◌then◌else◌, arith}
use world.Bytes.{Bytes, beq}
use world.Map.{get, insert, remove}
use world.Map.Laws.{get-insert, get-remove}
use world.Map.Order.{bytes_key, fd_key}
use world.Fs.Types.{NodeId, NodeKind, Node, FdEntry, Model}
use world.Fs.Nodes.{node, set_node, bare, push_node, remove_child, insert_child}
use world.Fs.Ops.Remove.{detach}
use world.Fs.Ops.Rename.{reparent}
use world.Fs.Valid.{Below, size, NodeBelow, FdBelow, IsValid}
use world.Fs.Valid.Updates.{size-set_node, node-set_node, size-push_node, node-push_node}

Below-mono : {a b : ℕ} (o : Option NodeId) → a < suc b → Below a o → Below b o
Below-mono none h k = tt
Below-mono (some i) h k = omega arith

FdBelow-mono : {a b : ℕ} (o : Option FdEntry) → a < suc b → FdBelow a o → FdBelow b o
FdBelow-mono none h k = tt
FdBelow-mono (some e) h k = omega arith

NodeBelow-mono : {a b : ℕ} {n : Node} → a < suc b → NodeBelow a n → NodeBelow b n
NodeBelow-mono {n = n} h d = record {
  parent = Below-mono n.parent h d.parent;
  children = λ k. Below-mono (get k n.children) h (d.children k);
  mounted_by = Below-mono n.mounted_by h d.mounted_by;
  virtual_parent = Below-mono n.virtual_parent h d.virtual_parent;
}

both {ℓ κ} : {A : Type ℓ} (P : A → Type κ) (b : Bool) {x y : A} → P x → P y → P (if b then x else y)
both P true h k = h
both P false h k = k

-- A write of one node keeps a valid model valid if the new node's ids are in range.
pub set_node-IsValid :
    {m : Model} (i : NodeId) (n : Node)
    → IsValid m
    → i < size m
    → NodeBelow (size m) n
    → IsValid (set_node m i n)
set_node-IsValid {m} i n v h d = record {
  root_node = rw size-set_node (unfold set_node in v.root_node);
  cwd = rw size-set_node (unfold set_node in v.cwd);
  at = λ j.
      rw (size-set_node, node-set_node m i j n h)
        (both (NodeBelow (size m)) (i == j) {x = n} {y = node m j} d (v.at j));
  fds = λ f. rw size-set_node (unfold set_node in v.fds f);
}

pub push_node-IsValid :
    {m : Model} (k : NodeKind) (p : NodeId)
    → IsValid m
    → p < size m
    → IsValid (push_node m k (some p)).0
push_node-IsValid {m} k p v h = record {
  root_node = rw size-push_node (unfold push_node in omega (arith, v.root_node));
  cwd = rw size-push_node (unfold push_node in omega (arith, v.cwd));
  at = λ j.
      rw (size-push_node, node-push_node m k (some p) j)
        (both (NodeBelow (suc (size m))) (j == size m) {x = bare k (some p)} {y = node m j}
          (record {
            parent = omega arith;
            children = λ c. unfold get in tt;
            mounted_by = tt;
            virtual_parent = tt;
          })
          (NodeBelow-mono (omega arith) (v.at j)));
  fds = λ f.
      rw size-push_node (unfold push_node in FdBelow-mono (get f m.fds) (omega arith) (v.fds f));
}

-- The children of a node after an insertion and a removal
insert-Below :
    {n : ℕ} (d : Node) (k : Bytes) (i : NodeId)
    → NodeBelow n d
    → i < n
    → NodeBelow n (record d { children = insert k i d.children })
insert-Below {n} d k i h l = record {
  parent = h.parent;
  children = λ c. rw get-insert (both (Below n) (beq k c) {x = some i} l (h.children c));
  mounted_by = h.mounted_by;
  virtual_parent = h.virtual_parent;
}

remove-Below :
    {n : ℕ} (d : Node) (k : Bytes)
    → NodeBelow n d
    → NodeBelow n (record d { children = remove k d.children })
remove-Below {n} d k h = record {
  parent = h.parent;
  children = λ c. rw get-remove (both (Below n) (beq k c) {x = none} tt (h.children c));
  mounted_by = h.mounted_by;
  virtual_parent = h.virtual_parent;
}

pub insert_child-IsValid :
    {m : Model} (p : NodeId) (k : Bytes) (i : NodeId)
    → IsValid m
    → p < size m
    → i < size m
    → IsValid (insert_child m p k i)
unfolding insert_child
insert_child-IsValid {m} p k i v h l =
    set_node-IsValid p _ v h (insert-Below (node m p) k i (v.at p) l)

pub remove_child-IsValid :
    {m : Model} (p : NodeId) (k : Bytes) → IsValid m → p < size m → IsValid (remove_child m p k)
unfolding remove_child
remove_child-IsValid {m} p k v h = set_node-IsValid p _ v h (remove-Below (node m p) k (v.at p))

pub detach-IsValid : {m : Model} (i : NodeId) → IsValid m → i < size m → IsValid (detach m i)
unfolding detach
detach-IsValid {m} i v h = set_node-IsValid i _ v h (record {
  parent = (v.at i).parent;
  children = (v.at i).children;
  mounted_by = (v.at i).mounted_by;
  virtual_parent = (v.at i).virtual_parent;
})

pub reparent-IsValid :
    {m : Model} (i p : NodeId) → IsValid m → i < size m → p < size m → IsValid (reparent m i p)
unfolding reparent
reparent-IsValid {m} i p v h l = set_node-IsValid i _ v h (record {
  parent = l;
  children = (v.at i).children;
  mounted_by = (v.at i).mounted_by;
  virtual_parent = (v.at i).virtual_parent;
})
