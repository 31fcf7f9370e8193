-- ===== src/Fs/Nodes.antt =====
-- crates/world-fsmodel/src/lib.rs: the node arena and the helpers that read and grow it.
-- A loop that climbs parent pointers takes the number of nodes as fuel: on a tree no node is met twice.
use world.Prelude.{
  ℕ, zero, suc, ◌+◌, ◌%◌, ◌^◌, ◌==◌, ◌||◌, ◌&&◌, not, Bool, true, false, [], ◌∷◌, ◌++◌, Option,
  none, some, length, get_or, set, if◌then◌else◌,
}
use world.Bytes.{Bytes, to_ascii_lowercase}
use world.Map.{get, insert, remove}
use world.Map.Order.{bytes_key, fd_key}
use world.Result.{Result, ok, err, Errno, enoent, ebadf, enotdir}
use world.Fs.Types.{
  NodeId, Profile, mac_shim, linux_mount, View, virtual, physical, NodeKind, dir, symlink, opaque,
  Node, FdEntry, Model, Outcome, pos, negsuc, Start, cwd, fd, root,
}

abbrev pub name_max : ℕ
name_max = 255

abbrev pub max_symlinks_of : Profile → ℕ
max_symlinks_of (mac_shim r) = 32
max_symlinks_of (linux_mount r) = 40

unfoldable pub max_symlinks : Model → ℕ
max_symlinks m = max_symlinks_of m.profile

abbrev pub path_max_of : Profile → ℕ
path_max_of (mac_shim r) = 1024
path_max_of (linux_mount r) = 4096

unfoldable pub path_max : Model → ℕ
path_max m = path_max_of m.profile

abbrev pub is_mac_of : Profile → Bool
is_mac_of (mac_shim r) = true
is_mac_of (linux_mount r) = false

unfoldable pub is_mac : Model → Bool
is_mac m = is_mac_of m.profile

unfoldable pub root_mutation_errno : Model → Errno → Errno
root_mutation_errno m linux = if is_mac m then Errno.eisdir else linux

unfoldable pub errout : Errno → Outcome
errout e = record { ret = negsuc 0; errno = some e; bytes = [] }

unfoldable pub okout : ℕ → Outcome
okout n = record { ret = pos n; errno = none; bytes = [] }

unfoldable pub dataout : ℕ → Bytes → Outcome
dataout n d = record { ret = pos n; errno = none; bytes = d }

-- A node with nothing set: the fields that `push_node` starts from.
abbrev pub bare : NodeKind → Option NodeId → Node
bare k p = record {
  kind = k;
  parent = p;
  children = [];
  mounted_by = none;
  virtual_parent = none;
  mount_name = none;
  detached = false;
}

-- `self.nodes[i]`. Out of range the source panics; the invariant keeps every index in range.
unfoldable pub node : Model → NodeId → Node
node m i = get_or m.nodes i (bare dir none)

-- `self.nodes[i] = n`, field by field in the source
unfoldable pub set_node : Model → NodeId → Node → Model
set_node m i n = record m { nodes = set m.nodes i n }

abbrev pub is_dir_kind : NodeKind → Bool
is_dir_kind dir = true
is_dir_kind opaque = true
is_dir_kind k = false

-- `matches!(self.nodes[i].kind, NodeKind::Dir | NodeKind::Opaque)`
unfoldable pub is_dir : Model → NodeId → Bool
unfolding node
is_dir m i = is_dir_kind (node m i).kind

abbrev pub is_symlink_kind : NodeKind → Bool
is_symlink_kind (symlink t) = true
is_symlink_kind k = false

unfoldable pub is_symlink : Model → NodeId → Bool
unfolding node
is_symlink m i = is_symlink_kind (node m i).kind

abbrev pub or_else {ℓ} : {A : Type ℓ} → Option A → A → A
or_else none a = a
or_else (some b) a = b

unfoldable pub enter : Model → View → NodeId → NodeId
unfolding node
enter m virtual n = or_else (node m n).mounted_by n
enter m physical n = n

unfoldable pub node_parent : Model → View → NodeId → NodeId
unfolding node
node_parent m virtual n = or_else (node m n).virtual_parent (or_else (node m n).parent n)
node_parent m physical n = or_else (node m n).parent n

unfoldable pub key : Model → Bytes → Bytes
key m name = if m.case_insensitive then to_ascii_lowercase name else name

unfoldable pub child : Model → NodeId → Bytes → Option NodeId
unfolding node
child m parent k = get k (node m parent).children

unfoldable pub has_child : Model → NodeId → Bytes → Bool
has_child m parent k = elim (child m parent k) [ none ↦ false | some i ↦ true ]

-- The new node's id is the length of the arena before the push.
unfoldable pub push_node : Model → NodeKind → Option NodeId → Model × NodeId
push_node m k p = (record m { nodes = m.nodes ++ bare k p ∷ [] }, length m.nodes)

unfoldable pub insert_child : Model → NodeId → Bytes → NodeId → Model
unfolding set_node node insert
insert_child m parent k i =
    set_node m parent (record (node m parent) { children = insert k i (node m parent).children })

unfoldable pub remove_child : Model → NodeId → Bytes → Model
unfolding set_node node remove
remove_child m parent k =
    set_node m parent (record (node m parent) { children = remove k (node m parent).children })

-- The `push_node` and `children.insert` pair that ends each creating operation
unfoldable pub create_child : Model → NodeId → Bytes → NodeKind → Model
unfolding push_node insert_child
create_child m parent k kind =
    insert_child (push_node m kind (some parent)).0 parent k (push_node m kind (some parent)).1

unfoldable pub alloc_fd : Model → FdEntry → Model × ℕ
unfolding insert
alloc_fd m entry =
    (record m { next_fd = (m.next_fd + 1) % 2 ^ 32; fds = insert m.next_fd entry m.fds }, m.next_fd)

abbrev pub fd_entry_dir : Option FdEntry → Result NodeId
fd_entry_dir (some (FdEntry.dir n)) = ok n
fd_entry_dir (some (FdEntry.file n p w)) = err enotdir
fd_entry_dir none = err ebadf

unfoldable pub fd_dir : Model → ℕ → Result NodeId
fd_dir m f = fd_entry_dir (get f m.fds)

-- The `match start` at the head of each lookup
unfoldable pub start_node : Model → Start → Result NodeId
unfolding fd_dir
start_node m root = ok m.root_node
start_node m cwd = ok m.cwd
start_node m (fd f) = fd_dir m f

unfoldable pub detached_from : ℕ → Model → NodeId → Bool
unfolding node
detached_from zero m n = false
detached_from (suc fuel) m n =
    (node m n).detached || elim (node m n).parent [ some p ↦ detached_from fuel m p | none ↦ false ]

unfoldable pub is_detached : Model → NodeId → Bool
is_detached m n = detached_from (length m.nodes) m n

unfoldable pub check_live : Model → NodeId → Result (Unit {0})
check_live m parent = if is_detached m parent then err enoent else ok tt

-- The loop ends at a node without a parent, and at one that is its own parent.
unfoldable pub descends_from : ℕ → Model → NodeId → NodeId → Bool
unfolding node
descends_from zero m ancestor n = false
descends_from (suc fuel) m ancestor n = n == ancestor || elim (node m n).parent [
  | some p ↦ not (p == n) && descends_from fuel m ancestor p
  | none ↦ false
]

unfoldable pub is_descendant : Model → NodeId → NodeId → Bool
is_descendant m ancestor n = descends_from (length m.nodes) m ancestor n
