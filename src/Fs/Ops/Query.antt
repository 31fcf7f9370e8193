-- ===== src/Fs/Ops/Query.antt =====
-- crates/world-fsmodel/src/lib.rs: `do_readlink`, `do_chdir`, `do_getcwd`, `do_realpath`, `do_stat`,
-- `do_connect`, `do_list`. `none` is a call that does not return: `full_path` climbs for ever.
use world.Prelude.{
  ℕ, ◌+◌, ltb, Bool, true, false, ◌&&◌, not, List, [], ◌∷◌, ◌++◌, Option, none, some, length,
  if◌then◌else◌,
}
use world.Bytes.{Bytes, starts_with_slash}
use world.Map.{keys}
use world.Result.{
  Result, ok, err, enoent, enotdir, einval, enametoolong, enotsock, eacces, econnrefused, ◌>>=◌,
  ◌>>◌, guard,
}
use world.Fs.Types.{NodeId, virtual, NodeKind, dir, file, symlink, socket, opaque, cwd, Model}
use world.Fs.Paths.{is_root_operand, parent_and_name}
use world.Fs.Nodes.{node, path_max, is_mac, is_dir, is_detached, dataout}
use world.Fs.Resolve.{resolve}
use world.Fs.Names.{full_path}
use world.Fs.Create.{dir_or_start}
use world.Fs.Ops.Run.{Effect, fail, run, done}
use world.Fs.Ops.Make.{sun_path_cap}

unfoldable pub readlink_kind : Model → NodeKind → Result Effect
readlink_kind m (symlink t) = ok (m, dataout (length t) t)
readlink_kind m k = err einval

unfoldable pub do_readlink : Model → Bytes → Effect
unfolding run node dataout readlink_kind
do_readlink m path = run m do n ← resolve m virtual cwd path false; readlink_kind m (node m n).kind

unfoldable pub do_chdir : Model → Bytes → Effect
unfolding run is_dir done
do_chdir m path = run m do
  n ← resolve m virtual cwd path true
  guard (is_dir m n) enotdir
  ok (done (record m { cwd = n }))

-- The reply made of a node's full path
unfoldable pub path_reply : Model → NodeId → Option Effect
unfolding dataout full_path
path_reply m n = elim (full_path m virtual n) [
  | none ↦ none
  | some p ↦ some (m, dataout (length p) p)
]

unfoldable pub do_getcwd : Model → Option Effect
unfolding fail path_reply is_detached
do_getcwd m = if is_detached m m.cwd then some (fail m enoent) else path_reply m m.cwd

unfoldable pub realpath_found : Model → Result NodeId → Option Effect
unfolding fail path_reply
realpath_found m (ok n) = path_reply m n
realpath_found m (err e) = some (fail m e)

unfoldable pub do_realpath : Model → Bytes → Option Effect
unfolding fail realpath_found is_detached
do_realpath m path =
    if not (starts_with_slash path) && is_detached m m.cwd
    then some (fail m enoent)
    else realpath_found m (resolve m virtual cwd path true)

abbrev kind_code : NodeKind → ℕ
kind_code dir = 0
kind_code (file c) = 1
kind_code (symlink t) = 2
kind_code socket = 3
kind_code opaque = 4

unfoldable pub do_stat : Model → Bytes → Bool → Effect
unfolding run node dataout
do_stat m path follow =
    run m
      do n ← resolve m virtual cwd path follow; ok (m, dataout 0 (kind_code (node m n).kind ∷ []))

unfoldable pub connect_kind : Model → NodeKind → Result Effect
connect_kind m socket = ok (done m)
connect_kind m k = err (if is_mac m then enotsock else econnrefused)

unfoldable pub connect_at : Model → Bytes → Result Effect
unfolding node connect_kind dir_or_start
connect_at m path = do
  s ← parent_and_name path
  parent ← dir_or_start m cwd s.dir
  guard (is_dir m parent) enotdir
  guard (ltb (length s.name + (if s.trailing then 1 else 0)) (sun_path_cap m)) enametoolong
  n ← resolve m virtual cwd path true
  connect_kind m (node m n).kind

unfoldable pub do_connect : Model → Bytes → Effect
unfolding run fail connect_at
do_connect m path =
    if not (ltb (length path) (path_max m))
    then fail m enametoolong
    else if is_root_operand path
    then fail m (if is_mac m then enotsock else eacces)
    else run m (connect_at m path)

abbrev lines_after : List Bytes → Bytes
lines_after [] = []
lines_after (n ∷ ns) = b'\n' ∷ (n ++ lines_after ns)

-- The names, joined by newlines
abbrev lines : List Bytes → Bytes
lines [] = []
lines (n ∷ ns) = n ++ lines_after ns

unfoldable pub do_list : Model → Bytes → Effect
unfolding run is_dir node dataout keys
do_list m path = run m do
  n ← resolve m virtual cwd path true
  guard (is_dir m n) enotdir
  ok (m, dataout (length (keys (node m n).children)) (lines (keys (node m n).children)))
