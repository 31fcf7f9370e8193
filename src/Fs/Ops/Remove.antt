-- ===== src/Fs/Ops/Remove.antt =====
-- crates/world-fsmodel/src/lib.rs: `unlink_impl`, which serves unlink, rmdir and unlinkat.
use world.Prelude.{◌==◌, Bool, true, ◌&&◌, not, Option, none, some, is_empty, if◌then◌else◌}
use world.Bytes.{Bytes}
use world.Result.{
  Result, ok, err, eperm, enoent, enotdir, eisdir, enotempty, ebusy, ◌>>=◌, ◌>>◌, guard,
}
use world.Fs.Types.{NodeId, Start, Model}
use world.Fs.Paths.{is_root_operand}
use world.Fs.Nodes.{node, set_node, is_mac, root_mutation_errno, is_dir, key, child, remove_child}
use world.Fs.Create.{resolve_parent, Trail, missing, dangling, non_dir, dir, trail_mac, owner_of}
use world.Fs.Ops.Run.{Effect, fail, run, done}

-- What is removed: the directory that lists it, its key there, and the node
abbrev pub Victim : Type 0
Victim = NodeId × Bytes × NodeId

abbrev pub present : Option NodeId → Result NodeId
present none = err enoent
present (some i) = ok i

-- `Trail::Dir(t)`: if `t` is not the node that was named, the target's own entry
unfoldable pub linked_victim : Model → Victim → NodeId → Result Victim
linked_victim m v t = if t == v.2 then ok v else do owner ← owner_of m t; ok (owner.0, owner.1, t)

unfoldable pub trailing_victim : Model → Bool → Victim → Trail → Result Victim
unfolding linked_victim
trailing_victim m is_rmdir v missing = err enoent
trailing_victim m is_rmdir v (dangling p n) = err enoent
trailing_victim m is_rmdir v non_dir = err enotdir
trailing_victim m is_rmdir v (dir t) = if is_rmdir then linked_victim m v t else err eperm

-- The checks on the node's kind
unfoldable pub removable : Model → Bool → Bool → NodeId → Result (Unit {0})
unfolding is_dir node
removable m is_rmdir trailing id =
    if is_rmdir
    then (guard (is_dir m id) enotdir >> guard (is_empty (node m id).children) enotempty)
    else if is_dir m id
    then err eisdir
    else guard (not trailing) enotdir

unfoldable pub detach : Model → NodeId → Model
unfolding set_node node
detach m id = set_node m id (record (node m id) { detached = true })

unfoldable pub remove_victim : Model → Bool → Victim → Model
unfolding detach remove_child
remove_victim m is_rmdir v =
    let m' = remove_child m v.0 v.1 in if is_rmdir then detach m' v.2 else m'

unfoldable pub followed_victim : Model → Start → Bytes → Bool → Bool → Victim → Result Victim
unfolding trailing_victim
followed_victim m start path is_rmdir trailing v =
    if trailing && is_mac m
    then (trail_mac m start v.0 v.1 path >>= trailing_victim m is_rmdir v)
    else ok v

unfoldable pub find_victim : Model → Start → Bytes → Bool → Result (Victim × Bool)
unfolding followed_victim child
find_victim m start path is_rmdir = do
  (parent, name, trailing) ← resolve_parent m start path
  id ← present (child m parent (key m name))
  v ← followed_victim m start path is_rmdir trailing (parent, key m name, id)
  ok (v, trailing)

unfoldable pub unlink_found : Model → Start → Bytes → Bool → Result Effect
unfolding done find_victim removable remove_victim
unlink_found m start path is_rmdir = do
  (v, trailing) ← find_victim m start path is_rmdir
  removable m is_rmdir trailing v.2
  ok (done (remove_victim m is_rmdir v))

unfoldable pub unlink_impl : Model → Start → Bytes → Bool → Effect
unfolding run fail unlink_found
unlink_impl m start path is_rmdir =
    if is_root_operand path
    then fail m (root_mutation_errno m (if is_rmdir then ebusy else eisdir))
    else run m (unlink_found m start path is_rmdir)
