-- ===== src/Fs/Ops/Make.antt =====
-- crates/world-fsmodel/src/lib.rs: `do_mkdir`, `do_symlink`, `do_bind`, `do_mkstemp`.
use world.Prelude.{
  ℕ, ltb, leb, Bool, true, false, ◌&&◌, ◌||◌, not, [], Option, none, some, length, is_empty,
  if◌then◌else◌,
}
use world.Bytes.{Bytes, beq, dot, dotdot, contains}
use world.Result.{
  Result, ok, err, Errno, enoent, enotdir, eexist, eisdir, einval, enametoolong, eaddrinuse, ◌>>=◌,
  ◌>>◌, guard,
}
use world.Fs.Types.{NodeId, NodeKind, Start, cwd, FdEntry, Model}
use world.Fs.Paths.{is_root_operand}
use world.Fs.Nodes.{
  name_max, path_max, is_mac, root_mutation_errno, is_dir, is_symlink, key, child, has_child,
  create_child, alloc_fd, check_live, okout,
}
use world.Fs.Create.{
  Target, resolve_parent, resolve_for_create, Trail, missing, dangling, non_dir, dir, trail_mac,
  trailing_create_errno,
}
use world.Fs.Ops.Run.{Effect, fail, run, done}

-- The (parent, map key) at which `mkdir` creates, after the macOS trailing-slash lookup
unfoldable pub mkdir_place : Model → NodeId → Bytes → Trail → Result (NodeId × Bytes)
mkdir_place m parent k missing = ok (parent, k)
mkdir_place m parent k (dangling p n) = ok (p, key m n)
mkdir_place m parent k (dir t) = err eexist
mkdir_place m parent k non_dir = err enotdir

-- The last steps of each creating operation: the name is free, and the directory is still linked.
unfoldable pub create_free : Model → NodeId → Bytes → NodeKind → Errno → Result Model
unfolding has_child check_live create_child
create_free m parent k kind taken = do
  guard (not (has_child m parent k)) taken
  check_live m parent
  ok (create_child m parent k kind)

unfoldable pub mkdir_found : Model → Start → Bytes → NodeId → Bytes → Bool → Result (NodeId × Bytes)
unfolding mkdir_place
mkdir_found m start path parent k trailing =
    if trailing && is_mac m
    then (trail_mac m start parent k path >>= mkdir_place m parent k)
    else ok (parent, k)

unfoldable pub mkdir_at : Model → Start → Bytes → Result Effect
unfolding mkdir_found done
mkdir_at m start path = do
  (parent, name, trailing) ← resolve_parent m start path
  guard (is_dir m parent) enotdir
  place ← mkdir_found m start path parent (key m name) trailing
  m' ← create_free m place.0 place.1 NodeKind.dir eexist
  ok (done m')

unfoldable pub do_mkdir : Model → Start → Bytes → Effect
unfolding run fail
do_mkdir m start path =
    if is_root_operand path
    then fail m (root_mutation_errno m eexist)
    else run m (mkdir_at m start path)

unfoldable pub symlink_at : Model → Bytes → Bytes → Result Effect
unfolding done
symlink_at m target path = do
  (parent, name, trailing) ← resolve_parent m cwd path
  guard (is_dir m parent) enotdir
  guard (not trailing) (trailing_create_errno m cwd parent (key m name) path eexist)
  m' ← create_free m parent (key m name) (NodeKind.symlink target) eexist
  ok (done m')

unfoldable pub do_symlink : Model → Bytes → Bytes → Effect
unfolding run fail
do_symlink m target path =
    if not (ltb (length target) (path_max m))
    then fail m enametoolong
    else if is_empty target && not (is_mac m)
    then fail m enoent
    else if is_root_operand path
    then fail m (root_mutation_errno m eexist)
    else run m (symlink_at m target path)

unfoldable pub sun_path_cap : Model → ℕ
unfolding is_mac
sun_path_cap m = if is_mac m then 104 else 108

-- `Err(EEXIST)` of the chain's end becomes EADDRINUSE.
unfoldable pub bind_end : Model → Result Target → Result (NodeId × Bytes)
bind_end m (ok t) = ok (t.0, key m t.1)
bind_end m (err eexist) = err eaddrinuse
bind_end m (err e) = err e

abbrev pub names_symlink : Model → Option NodeId → Bool
names_symlink m none = false
names_symlink m (some id) = is_symlink m id

unfoldable pub bind_place : Model → NodeId → Bytes → Bytes → Result (NodeId × Bytes)
unfolding child is_symlink bind_end
bind_place m parent k path =
    if is_mac m && names_symlink m (child m parent k)
    then bind_end m (resolve_for_create m cwd path)
    else ok (parent, k)

unfoldable pub bind_at : Model → Bytes → Result Effect
unfolding done bind_place
bind_at m path = do
  (parent, name, trailing) ← resolve_parent m cwd path
  guard (is_dir m parent) enotdir
  guard (not trailing) (trailing_create_errno m cwd parent (key m name) path eaddrinuse)
  guard (ltb (length name) (sun_path_cap m)) enametoolong
  place ← bind_place m parent (key m name) path
  guard (is_dir m place.0) enotdir
  m' ← create_free m place.0 place.1 NodeKind.socket eaddrinuse
  ok (done m')

unfoldable pub do_bind : Model → Bytes → Effect
unfolding run fail
do_bind m path =
    if is_root_operand path
    then fail m (if is_mac m then eisdir else eaddrinuse)
    else run m (bind_at m path)

-- A new file under `parent`, opened at its start: the descriptor is the result.
unfoldable pub open_created : Model → NodeId → Model → Bool → Effect
unfolding alloc_fd okout
open_created m id m' write =
    let (m'', fd) = alloc_fd m' (FdEntry.file id 0 write) in (m'', okout fd)

unfoldable pub mkstemp_at : Model → Bytes → Result Effect
unfolding open_created
mkstemp_at m name = do
  guard (not (is_empty name || contains b'/' name)) einval
  guard (leb (length name) name_max) enametoolong
  guard (is_dir m m.cwd) enotdir
  guard (not (beq name dot || beq name dotdot)) eexist
  m' ← create_free m m.cwd (key m name) (NodeKind.file []) eexist
  ok (open_created m (length m.nodes) m' true)

unfoldable pub do_mkstemp : Model → Bytes → Effect
unfolding run mkstemp_at
do_mkstemp m name = run m (mkstemp_at m name)
