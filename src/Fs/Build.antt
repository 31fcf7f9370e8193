-- ===== src/Fs/Build.antt =====
-- crates/world-fsmodel/src/lib.rs: how a model is built, before any operation is applied: `new`,
-- `new_plain`, `mkdir_p`, and the fixtures.
use world.Prelude.{Bool, true, false, List, [], ◌∷◌, Option, none, some, length, if◌then◌else◌}
use world.Bytes.{Bytes, beq, codes, dotdot, real_components}
use world.Result.{Result, ok, err}
use world.Fs.Types.{
  NodeId, Profile, mac_shim, linux_mount, View, physical, NodeKind, dir, file, symlink, socket,
  opaque, Model,
}
use world.Fs.Paths.{parent_and_name}
use world.Fs.Nodes.{node, set_node, bare, enter, node_parent, key, child, create_child}
use world.Fs.Resolve.{resolve_inner, link_fuel, base_of, start_walk}

abbrev pub Grown : Type 0
Grown = Model × NodeId

-- The id that `create_child` gives is the length of the arena before it.
unfoldable pub add_child : Model → NodeId → Bytes → NodeKind → Grown
unfolding create_child
add_child m parent k kind = (create_child m parent k kind, length m.nodes)

unfoldable pub mkchild : Model → NodeId → Bytes → NodeKind → Grown
unfolding child key add_child
mkchild m parent name kind = elim (child m parent (key m name)) [
  | some id ↦ (m, id)
  | none ↦ add_child m parent (key m name) kind
]

unfoldable pub set_child : Model → NodeId → Bytes → NodeKind → Grown
unfolding child key add_child set_node node
set_child m parent name kind = elim (child m parent (key m name)) [
  | some id ↦ (set_node m id (record (node m id) { kind = kind }), id)
  | none ↦ add_child m parent (key m name) kind
]

-- `unwrap_or(id)`
abbrev pub target_or : NodeId → Result NodeId → NodeId
target_or id (ok t) = t
target_or id (err e) = id

-- An existing component, through a symlink when its target resolves
unfoldable pub existing_child : Model → View → NodeId → NodeId → NodeKind → NodeId
unfolding resolve_inner base_of
existing_child m view cur id (symlink target) =
    target_or id
      (resolve_inner (link_fuel m) m view (base_of m cur target) target true start_walk).0
existing_child m view cur id k = id

-- The child at a component of `mkdir_p`: the existing one, or a new one
unfoldable pub mkdir_child : Model → View → NodeId → Bytes → NodeKind → Option NodeId → Grown
unfolding node existing_child add_child
mkdir_child m view cur k kind (some id) = (m, existing_child m view cur id (node m id).kind)
mkdir_child m view cur k kind none = add_child m cur k kind

unfoldable pub entered : View → Grown → Grown
unfolding enter
entered view g = (g.0, enter g.0 view g.1)

-- One round of the loop of `mkdir_p`
unfoldable pub mkdir_step : Model → View → NodeId → Bytes → NodeKind → Grown
unfolding child key entered node_parent mkdir_child
mkdir_step m view cur comp kind = entered view (
    if beq comp dotdot
    then (m, node_parent m view cur)
    else mkdir_child m view cur (key m comp) kind (child m cur (key m comp)))

unfoldable pub mkdir_walk : Model → View → NodeId → List Bytes → NodeKind → Grown
unfolding mkdir_step
mkdir_walk m view cur [] kind = (m, cur)
mkdir_walk m view cur (comp ∷ rest) kind =
    let (m', next) = mkdir_step m view cur comp kind in mkdir_walk m' view next rest kind

unfoldable pub mkdir_p : Model → View → Bytes → NodeKind → Grown
unfolding mkdir_walk enter
mkdir_p m view path kind = mkdir_walk m view (enter m view m.root_node) (real_components path) kind

-- The source's `expect` panics on a path with no name: `none`.
unfoldable pub add_fixture : Model → View → Bytes → NodeKind → Option Grown
unfolding parent_and_name mkdir_p set_child
add_fixture m view path kind = elim (parent_and_name path) [
  | err e ↦ none
  | ok s ↦ let (m', parent) = mkdir_p m view s.dir dir in some (set_child m' parent s.name kind)
]

unfoldable pub add_fixture_dir : Model → View → Bytes → Grown
unfolding mkdir_p
add_fixture_dir m view path = mkdir_p m view path dir

unfoldable pub add_fixture_file : Model → View → Bytes → Bytes → Option Grown
unfolding add_fixture
add_fixture_file m view path contents = add_fixture m view path (file contents)

unfoldable pub add_fixture_symlink : Model → View → Bytes → Bytes → Option Grown
unfolding add_fixture
add_fixture_symlink m view path target = add_fixture m view path (symlink target)

unfoldable pub add_fixture_socket : Model → View → Bytes → Option Grown
unfolding add_fixture
add_fixture_socket m view path = add_fixture m view path socket

unfoldable pub add_opaque_ancestors : Model → Bytes → Model
unfolding parent_and_name mkdir_p
add_opaque_ancestors m path = elim (parent_and_name path) [
  | err e ↦ m
  | ok s ↦ (mkdir_p m physical s.dir opaque).0
]

unfoldable pub set_case_insensitive : Model → Bool → Model
set_case_insensitive m on = record m { case_insensitive = on }

-- The root directory alone
unfoldable pub initial : Profile → Model
initial profile = record {
  nodes = bare dir none ∷ [];
  profile = profile;
  root_node = 0;
  case_insensitive = false;
  cwd = 0;
  fds = [];
  next_fd = 3;
}

-- The three writes that mount `target` over `point`, which `parent` lists as `tmp`
unfoldable pub mount : Model → (point target parent : NodeId) → Model
unfolding set_node node
mount m point target parent =
    let m' = set_node m point (record (node m point) { mounted_by = some target }) in
    set_node m' target
      (record (node m' target) { virtual_parent = some parent; mount_name = some (codes "tmp") })

unfoldable pub new_mac : Model → Bytes → Model
unfolding mkchild mkdir_p mount
new_mac m root_path =
    let root = m.root_node in
    let (m1, private) = mkchild m root (codes "private") dir in
    let (m2, var) = mkchild m1 private (codes "var") dir in
    let (m3, priv_tmp) = mkchild m2 private (codes "tmp") opaque in
    let (m4, priv_var_tmp) = mkchild m3 var (codes "tmp") opaque in
    let m5 = (mkchild m4 root (codes "tmp") (symlink (codes "private/tmp"))).0 in
    let m6 = (mkchild m5 root (codes "var") (symlink (codes "private/var"))).0 in
    let (m7, anchor) = mkdir_p m6 physical root_path dir in
    let (m8, root_tmp) = mkchild m7 anchor (codes "tmp") dir in
    let (m9, root_var) = mkchild m8 anchor (codes "var") dir in
    let (m10, root_var_tmp) = mkchild m9 root_var (codes "tmp") dir in
    mount (mount m10 priv_tmp root_tmp private) priv_var_tmp root_var_tmp var

unfoldable pub new_linux : Model → Bytes → Model
unfolding mkchild mkdir_p mount
new_linux m root_path =
    let root = m.root_node in
    let (m1, tmp) = mkchild m root (codes "tmp") dir in
    let (m2, var) = mkchild m1 root (codes "var") dir in
    let (m3, var_tmp) = mkchild m2 var (codes "tmp") dir in
    let (m4, anchor) = mkdir_p m3 physical root_path dir in
    let (m5, root_tmp) = mkchild m4 anchor (codes "tmp") dir in
    let (m6, root_var) = mkchild m5 anchor (codes "var") dir in
    let (m7, root_var_tmp) = mkchild m6 root_var (codes "tmp") dir in
    mount (mount m7 tmp root_tmp root) var_tmp root_var_tmp var

abbrev pub populated : Profile → Model
populated (mac_shim r) = new_mac (initial (mac_shim r)) r
populated (linux_mount r) = new_linux (initial (linux_mount r)) r

unfoldable pub new : Profile → Model
unfolding initial new_mac new_linux
new profile = let m = populated profile in record m { cwd = m.root_node }

unfoldable pub new_plain : Bytes → Model
unfolding initial mkdir_p
new_plain anchor =
    let (m, anchor_node) = mkdir_p (initial (linux_mount anchor)) physical anchor dir in
    record m { cwd = anchor_node }
