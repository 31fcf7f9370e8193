-- ===== src/Fs/Ops/Apply.antt =====
-- crates/world-fsmodel/src/lib.rs: `Model::apply`, and a driver's run of several operations.
use world.Prelude.{true, false, List, [], ◌∷◌, Option, none, some}
use world.Fs.Types.{Op, Model, cwd}
use world.Fs.Paths.{at_start}
use world.Fs.Ops.Run.{Effect}
use world.Fs.Ops.Make.{do_mkdir, do_symlink, do_bind, do_mkstemp}
use world.Fs.Ops.Open.{do_open, do_opendir}
use world.Fs.Ops.Io.{do_write, do_read, do_close}
use world.Fs.Ops.Remove.{unlink_impl}
use world.Fs.Ops.Rename.{do_rename}
use world.Fs.Ops.Query.{do_readlink, do_chdir, do_getcwd, do_realpath, do_stat, do_connect, do_list}

-- `none` is a call that does not return (`getcwd` and `realpath` of a cyclic tree).
unfoldable pub apply : Model → Op → Option Effect
apply m (Op.mkdir path mode) = some (do_mkdir m cwd path)
apply m (Op.mkdir_at dirfd path) = some (do_mkdir m (at_start dirfd path) path)
apply m (Op.open_file path flags) = some (do_open m cwd path flags)
apply m (Op.open_at dirfd path flags) = some (do_open m (at_start dirfd path) path flags)
apply m (Op.open_dir path) = some (do_opendir m cwd path)
apply m (Op.write fd bytes) = some (do_write m fd bytes)
apply m (Op.read fd len) = some (do_read m fd len)
apply m (Op.symlink target path) = some (do_symlink m target path)
apply m (Op.readlink path) = some (do_readlink m path)
apply m (Op.rename from to) = some (do_rename m from to)
apply m (Op.unlink path) = some (unlink_impl m cwd path false)
apply m (Op.rmdir path) = some (unlink_impl m cwd path true)
apply m (Op.unlink_at dirfd path rmdir) = some (unlink_impl m (at_start dirfd path) path rmdir)
apply m (Op.chdir path) = some (do_chdir m path)
apply m Op.getcwd = do_getcwd m
apply m (Op.realpath path) = do_realpath m path
apply m (Op.stat path) = some (do_stat m path true)
apply m (Op.lstat path) = some (do_stat m path false)
apply m (Op.bind path) = some (do_bind m path)
apply m (Op.connect path) = some (do_connect m path)
apply m (Op.mkstemp_adopt name) = some (do_mkstemp m name)
apply m (Op.list path) = some (do_list m path)
apply m (Op.close_fd fd) = some (do_close m fd)

-- A driver's run: the model after the operations, if each of them returns
unfoldable pub apply_all : Model → List Op → Option Model
apply_all m [] = some m
apply_all m (op ∷ ops) = elim (apply m op) [ none ↦ none | some (m', out) ↦ apply_all m' ops ]
