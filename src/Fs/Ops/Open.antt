-- ===== src/Fs/Ops/Open.antt =====
-- crates/world-fsmodel/src/lib.rs: `do_open` and `do_opendir`.
use world.Prelude.{leb, Bool, true, ◌&&◌, ◌||◌, not, [], Option, none, some, length, if◌then◌else◌}
use world.Bytes.{Bytes}
use world.Result.{
  Result, ok, err, Errno, enoent, enotdir, eexist, eisdir, einval, eloop, enametoolong, enxio,
  eopnotsupp, ◌>>=◌, ◌>>◌, guard,
}
use world.Fs.Types.{
  NodeId, virtual, NodeKind, file, symlink, socket, Start, OpenFlags, FdEntry, Model,
}
use world.Fs.Paths.{is_root_operand, has_trailing_slash}
use world.Fs.Nodes.{
  node, set_node, name_max, is_mac, root_mutation_errno, is_dir, key, alloc_fd, okout,
}
use world.Fs.Resolve.{resolve}
use world.Fs.Create.{
  Target, resolve_parent, resolve_parent_unchecked, resolve_for_create, Trail, missing, dangling,
  non_dir, dir, trail_mac,
}
use world.Fs.Ops.Run.{Effect, fail, run}
use world.Fs.Ops.Make.{create_free, open_created}

abbrev open_trail_errno : Bool → Result Trail → Errno
open_trail_errno excl (err e) = e
open_trail_errno excl (ok missing) = enoent
open_trail_errno excl (ok (dangling p n)) = enoent
open_trail_errno excl (ok non_dir) = enotdir
open_trail_errno excl (ok (dir t)) = if excl then eexist else eisdir

-- O_CREAT with a trailing slash: the errno, or `none` where the code falls through to the lookup
unfoldable pub open_trailing : Model → Start → Bytes → Bool → Result Target → Option Errno
unfolding is_dir
open_trailing m start path excl (ok (parent, name, t)) = some (
    if not (is_dir m parent)
    then enotdir
    else if not (is_mac m)
    then eisdir
    else if not (leb (length name) name_max)
    then enametoolong
    else open_trail_errno excl (trail_mac m start parent (key m name) path))
open_trailing m start path excl (err einval) = none
open_trailing m start path excl (err e) = some e

unfoldable pub open_excl : Model → Start → Bytes → OpenFlags → Result Effect
unfolding open_created
open_excl m start path flags = do
  (parent, name, trailing) ← resolve_parent m start path
  guard (is_dir m parent) enotdir
  m' ← create_free m parent (key m name) (NodeKind.file []) eexist
  ok (open_created m (length m.nodes) m' flags.write)

-- `O_CREAT` after a lookup that ended in ENOENT
unfoldable pub open_create : Model → Start → Bytes → OpenFlags → Result Effect
unfolding open_created
open_create m start path flags = do
  guard (not flags.directory) enotdir
  (parent, name, trailing) ← resolve_for_create m start path
  guard (is_dir m parent) enotdir
  m' ← create_free m parent (key m name) (NodeKind.file []) eexist
  ok (open_created m (length m.nodes) m' flags.write)

unfoldable pub open_dir_node : Model → NodeId → Effect
unfolding alloc_fd okout
open_dir_node m n = let (m', fd) = alloc_fd m (FdEntry.dir n) in (m', okout fd)

-- `data.clear()`
unfoldable pub truncate : Model → NodeId → Model
unfolding set_node node
truncate m n = set_node m n (record (node m n) { kind = file [] })

-- The arms on the kind of the node that the lookup found
unfoldable pub open_found : Model → NodeId → OpenFlags → NodeKind → Effect
unfolding open_dir_node open_created fail truncate
open_found m n flags (file content) =
    if flags.directory
    then fail m enotdir
    else open_created m n (if flags.trunc then truncate m n else m) flags.write
open_found m n flags (symlink t) = fail m (if flags.directory then enotdir else eloop)
open_found m n flags socket = fail m (if is_mac m then eopnotsupp else enxio)
open_found m n flags k = if flags.write || flags.trunc then fail m eisdir else open_dir_node m n

unfoldable pub open_resolved : Model → Start → Bytes → OpenFlags → Result NodeId → Effect
unfolding run open_found open_create node fail
open_resolved m start path flags (ok n) = open_found m n flags (node m n).kind
open_resolved m start path flags (err enoent) =
    if flags.create then run m (open_create m start path flags) else fail m enoent
open_resolved m start path flags (err e) = fail m e

-- The part of `do_open` after the trailing-slash branch
unfoldable pub open_plain : Model → Start → Bytes → OpenFlags → Effect
unfolding run open_excl open_resolved
open_plain m start path flags =
    if flags.create && flags.excl
    then run m (open_excl m start path flags)
    else open_resolved m start path flags (resolve m virtual start path (not flags.nofollow))

unfoldable pub open_unless : Model → Start → Bytes → OpenFlags → Option Errno → Effect
unfolding open_plain fail
open_unless m start path flags (some e) = fail m e
open_unless m start path flags none = open_plain m start path flags

unfoldable pub do_open : Model → Start → Bytes → OpenFlags → Effect
unfolding open_trailing open_unless fail
do_open m start path flags =
    if flags.create && flags.directory
    then fail m einval
    else if flags.create && is_root_operand path
    then fail m (root_mutation_errno m (if flags.excl then eexist else eisdir))
    else open_unless m start path flags (
        if flags.create && has_trailing_slash path
        then open_trailing m start path flags.excl (resolve_parent_unchecked m start path)
        else none)

unfoldable pub opendir_at : Model → Start → Bytes → Result Effect
unfolding open_dir_node
opendir_at m start path = do
  n ← resolve m virtual start path true
  guard (is_dir m n) enotdir
  ok (open_dir_node m n)

unfoldable pub do_opendir : Model → Start → Bytes → Effect
unfolding run opendir_at
do_opendir m start path = run m (opendir_at m start path)
