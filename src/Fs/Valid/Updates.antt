-- ===== src/Fs/Valid/Updates.antt =====
-- How a node reads after each write to the arena.
use world.Prelude.{
  suc, ◌<◌, ◌==◌, ◌≡◌, [], ◌∷◌, Option, none, length-append, length-set, get_or-set, get_or-snoc,
  if◌then◌else◌, arith,
}
use world.Fs.Types.{NodeId, NodeKind, dir, Node, Model}
use world.Fs.Nodes.{node, set_node, bare, push_node}
use world.Fs.Valid.{size}

pub size-set_node : (m : Model) (i : NodeId) (n : Node) → size (set_node m i n) ≡ size m
unfolding set_node
size-set_node m i n = length-set m.nodes i n

pub node-set_node :
    (m : Model) (i j : NodeId) (n : Node)
    → i < size m
    → node (set_node m i n) j ≡ (if i == j then n else node m j)
unfolding node set_node
node-set_node m i j n h = get_or-set m.nodes i j n (bare dir none) h

pub size-push_node :
    (m : Model) (k : NodeKind) (p : Option NodeId) → size (push_node m k p).0 ≡ suc (size m)
unfolding push_node
size-push_node m k p = omega (arith, length-append m.nodes (bare k p ∷ []))

pub node-push_node :
    (m : Model) (k : NodeKind) (p : Option NodeId) (j : NodeId)
    → node (push_node m k p).0 j ≡ (if j == size m then bare k p else node m j)
unfolding node push_node
node-push_node m k p j = get_or-snoc m.nodes j (bare k p) (bare dir none)
