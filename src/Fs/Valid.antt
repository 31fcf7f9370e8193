-- ===== src/Fs/Valid.antt =====
-- The invariant of the model: every id that it stores is an index of the arena, so that no
-- `self.nodes[i]` of the source is out of range.
pub mod Updates
pub mod Climb
pub mod Lookups
pub mod Targets
use world.Prelude.{ℕ, ◌<◌, ◌≤◌, ◌≡◌, Option, none, some, length}
use world.Bytes.{Bytes}
use world.Map.{get}
use world.Map.Order.{bytes_key, fd_key}
use world.Fs.Types.{NodeId, Node, FdEntry, Model}
use world.Fs.Nodes.{node}

abbrev pub Below : ℕ → Option NodeId → Type 0
Below n none = Unit
Below n (some i) = i < n

abbrev pub size : Model → ℕ
size m = length m.nodes

pub record NodeBelow (n : ℕ) (d : Node) : Type 0 where
  pub parent : Below n d.parent
  pub children : (k : Bytes) → Below n (get k d.children)
  pub mounted_by : Below n d.mounted_by
  pub virtual_parent : Below n d.virtual_parent

abbrev pub fd_node : FdEntry → NodeId
fd_node (FdEntry.file i p w) = i
fd_node (FdEntry.dir i) = i

abbrev pub FdBelow : ℕ → Option FdEntry → Type 0
FdBelow n none = Unit
FdBelow n (some e) = fd_node e < n

pub record IsValid (m : Model) : Type 0 where
  pub root_node : m.root_node < size m
  pub cwd : m.cwd < size m
  pub at : (i : NodeId) → NodeBelow (size m) (node m i)
  pub fds : (f : ℕ) → FdBelow (size m) (get f m.fds)
