-- ===== src/Fs/Step.antt =====
-- What an operation of crates/world-fsmodel/src/lib.rs may do to the model: a transition system whose
-- steps are the writes of the arena, the descriptors and the current directory.
pub mod Writes
pub mod Parents
pub mod Sound
pub mod Rules
pub mod Make
pub mod Open
pub mod Io
pub mod Remove
pub mod Rename
pub mod Query
pub mod Apply
pub mod Grow
pub mod Build
use world.Prelude.{ℕ, ◌<◌, ◌≡◌, ◌≢◌, Bool, true, false, Option, none, some}
use world.Bytes.{Bytes}
use world.Map.{Map, get}
use world.Map.Order.{fd_key}
use world.Fs.Types.{NodeId, NodeKind, file, FdEntry, Node, Model}
use world.Fs.Nodes.{node, set_node, is_dir, create_child, remove_child, insert_child, is_descendant}
use world.Fs.Ops.Remove.{Victim, detach}
use world.Fs.Ops.Rename.{move_node}
use world.Fs.Valid.{size, FdBelow, Below}
use world.Fs.Valid.Targets.{IsPlace}

-- New contents for a file
abbrev pub set_content : Model → NodeId → Bytes → Model
set_content m i bytes = set_node m i (record (node m i) { kind = file bytes })

pub data Step (m : Model) : Model → Type 0 where
  create :
      (p : NodeId) (k : Bytes) (kind : NodeKind) → IsPlace m p → Step m (create_child m p k kind)
  content :
      (i : NodeId) (bytes : Bytes) {old : Bytes}
      → i < size m
      → (node m i).kind ≡ file old
      → Step m (set_content m i bytes)
  table :
      (fds : Map ℕ FdEntry) (next : ℕ)
      → ((f : ℕ) → FdBelow (size m) (get f fds))
      → Step m (record m { fds = fds; next_fd = next })
  enter_dir : (i : NodeId) → IsPlace m i → Step m (record m { cwd = i })
  unlist : (p : NodeId) (k : Bytes) → p < size m → Step m (remove_child m p k)
  kill : (i : NodeId) → i < size m → Step m (detach m i)
  move :
      (v : Victim) (t : NodeId × Bytes × Bool) (existing : Option NodeId)
      → v.0 < size m
      → v.2 < size m
      → t.0 < size m
      → Below (size m) existing
      → t.0 ≢ v.2
      → is_descendant m v.2 t.0 ≡ false
      → Step m (move_node m v t existing)

-- Any number of steps
pub data Steps (m : Model) : Model → Type 0 where
  stay : Steps m m
  next : {m' m'' : Model} → Steps m m' → Step m' m'' → Steps m m''
