-- ===== src/Fs/Ops/Rename.antt =====
-- crates/world-fsmodel/src/lib.rs: `do_rename`.
use world.Prelude.{◌==◌, Bool, false, ◌&&◌, ◌||◌, not, Option, none, some, is_empty, if◌then◌else◌}
use world.Bytes.{Bytes}
use world.Result.{
  Result, ok, err, enoent, enotdir, eisdir, enotempty, ebusy, exdev, einval, ◌>>=◌, ◌>>◌, guard,
}
use world.Fs.Types.{NodeId, cwd, Model}
use world.Fs.Paths.{is_root_operand}
use world.Fs.Nodes.{
  node, set_node, is_mac, root_mutation_errno, is_dir, key, child, remove_child, insert_child,
  check_live, is_descendant,
}
use world.Fs.Names.{mount_of}
use world.Fs.Create.{resolve_parent, Trail, missing, dangling, non_dir, dir, trail_mac, owner_of}
use world.Fs.Ops.Run.{Effect, run, done}
use world.Fs.Ops.Remove.{Victim, present, linked_victim, detach}

-- Linux resolves the parents of both operands that are not the root; then the root is EBUSY.
unfoldable pub root_parent : Model → Bytes → Result (Unit {0})
root_parent m p = if is_root_operand p then ok tt else (resolve_parent m cwd p >>= λ _. ok tt)

unfoldable pub rename_root : Model → Bytes → Bytes → Result Effect
unfolding root_parent
rename_root m from to = do
  if is_mac m then ok tt else (root_parent m from >> root_parent m to)
  err (root_mutation_errno m ebusy)

-- The source: macOS follows a source symlink given with a trailing slash.
unfoldable pub trailing_source : Model → Victim → Trail → Result Victim
unfolding linked_victim
trailing_source m v missing = err enoent
trailing_source m v (dangling p n) = err enoent
trailing_source m v non_dir = err enotdir
trailing_source m v (dir t) = linked_victim m v t

unfoldable pub followed_source : Model → Bytes → Bool → Victim → Result Victim
unfolding trailing_source
followed_source m from trailing v =
    if trailing && is_mac m then (trail_mac m cwd v.0 v.1 from >>= trailing_source m v) else ok v

unfoldable pub find_source : Model → Bytes → Result (Victim × Bool)
unfolding followed_source child
find_source m from = do
  (parent, name, trailing) ← resolve_parent m cwd from
  id ← present (child m parent (key m name))
  v ← followed_source m from trailing (parent, key m name, id)
  ok (v, trailing)

abbrev pub names : Option NodeId → NodeId → Bool
names none t = false
names (some c) t = c == t

-- The destination, with the macOS lookup through links: a missing or dangling name takes only a
-- directory, and a directory is the replaced node itself.
unfoldable pub trailing_target : Model → Bool → NodeId → Bytes → Trail → Result (NodeId × Bytes)
unfolding child
trailing_target m from_is_dir parent k missing = if from_is_dir then ok (parent, k) else err enoent
trailing_target m from_is_dir parent k (dangling p n) =
    if from_is_dir then ok (p, key m n) else err enoent
trailing_target m from_is_dir parent k non_dir = err enotdir
trailing_target m from_is_dir parent k (dir t) =
    if names (child m parent k) t then ok (parent, k) else owner_of m t

unfoldable pub followed_target :
    Model → Bytes → Bool → Bool → NodeId → Bytes → Result (NodeId × Bytes)
unfolding trailing_target
followed_target m to from_is_dir trailing parent k =
    if trailing && is_mac m
    then (trail_mac m cwd parent k to >>= trailing_target m from_is_dir parent k)
    else ok (parent, k)

unfoldable pub find_target : Model → Bytes → Bool → Result (NodeId × Bytes × Bool)
unfolding followed_target is_dir
find_target m to from_is_dir = do
  (parent, name, trailing) ← resolve_parent m cwd to
  guard (is_dir m parent) enotdir
  t ← followed_target m to from_is_dir trailing parent (key m name)
  ok (t.0, t.1, trailing)

-- The checks before anything is compared with the replaced node
unfoldable pub rename_allowed : Model → Victim × Bool → NodeId × Bytes × Bool → Result (Unit {0})
unfolding check_live is_dir is_descendant
rename_allowed m (v, from_trailing) t = do
  guard (mount_of m v.0 == mount_of m t.0) exdev
  check_live m t.0
  guard (is_mac m || not (from_trailing || t.2) || is_dir m v.2) enotdir
  guard (not (t.0 == v.2 || is_descendant m v.2 t.0)) einval

-- What a directory may replace
unfoldable pub over_dir : Model → NodeId → Result (Unit {0})
unfolding is_dir node
over_dir m existing =
    if is_dir m existing then guard (is_empty (node m existing).children) enotempty else err enotdir

-- What may be replaced by `from_id`
unfoldable pub replaceable : Model → NodeId → NodeId → Result (Unit {0})
unfolding is_dir over_dir is_descendant
replaceable m from_id existing = do
  guard (is_mac m || not (is_descendant m existing from_id)) enotempty
  if is_dir m from_id then over_dir m existing else guard (not (is_dir m existing)) eisdir

-- The replaced node, if there is one, is detached when it is a directory.
unfoldable pub drop_existing : Model → Option NodeId → Model
unfolding detach is_dir
drop_existing m none = m
drop_existing m (some e) = if is_dir m e then detach m e else m

unfoldable pub reparent : Model → NodeId → NodeId → Model
unfolding set_node node
reparent m id parent = set_node m id (record (node m id) { parent = some parent })

unfoldable pub move_node : Model → Victim → NodeId × Bytes × Bool → Option NodeId → Model
unfolding drop_existing reparent remove_child insert_child
move_node m v t existing =
    reparent (insert_child (drop_existing (remove_child m v.0 v.1) existing) t.0 t.1 v.2) v.2 t.0

-- `Some(existing_id) == from_id` is a success that changes nothing.
unfoldable pub rename_onto : Model → Victim → NodeId × Bytes × Bool → Option NodeId → Result Effect
unfolding done replaceable move_node
rename_onto m v t none = ok (done (move_node m v t none))
rename_onto m v t (some existing) =
    if existing == v.2
    then ok (done m)
    else do replaceable m v.2 existing; ok (done (move_node m v t (some existing)))

unfoldable pub rename_names : Model → Bytes → Bytes → Result Effect
unfolding find_source find_target rename_allowed rename_onto
rename_names m from to = do
  source ← find_source m from
  target ← find_target m to (is_dir m source.0.2)
  rename_allowed m source target
  rename_onto m source.0 target (child m target.0 target.1)

unfoldable pub do_rename : Model → Bytes → Bytes → Effect
unfolding rename_root rename_names run
do_rename m from to =
    if is_root_operand from || is_root_operand to
    then run m (rename_root m from to)
    else run m (rename_names m from to)
