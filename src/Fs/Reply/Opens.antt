-- ===== src/Fs/Reply/Opens.antt =====
-- crates/world-fsmodel/src/lib.rs: how `do_open`, `do_opendir`, `do_write`, `do_read` and `do_close` end.
use world.Prelude.{ℕ, refl, Bool, true, false, ◌&&◌, ◌||◌, not, Option, none, some, if◌then◌else◌}
use world.Bytes.{Bytes}
use world.Map.{get}
use world.Map.Order.{fd_key}
use world.Result
use world.Result.{Result, Errno, ok, err, enoent}
use world.Result.Yields.{Yields, Yields-ok, Yields-guard}
use world.Fs.Types.{
  NodeId, NodeKind, dir, file, symlink, socket, opaque, Model, Start, FdEntry, OpenFlags, virtual,
}
use world.Fs.Paths.{is_root_operand, has_trailing_slash}
use world.Fs.Nodes.{dataout}
use world.Fs.Resolve.{resolve}
use world.Fs.Create.{resolve_parent_unchecked}
use world.Fs.Ops.Run.{fail, run}
use world.Fs.Ops.Make.{open_created}
use world.Fs.Ops.Open.{
  do_open, open_excl, open_create, open_dir_node, truncate, open_found, open_resolved, open_plain,
  open_unless, open_trailing, do_opendir, opendir_at,
}
use world.Fs.Ops.Io.{
  do_write, write_entry, write_at, do_read, read_entry, read_at, do_close, close_entry,
}
use world.Fs.Reply.{
  Succeeds, IsReply, success, fail-IsReply, run-IsReply, if-IsReply, Yields-any, okout-Succeeds,
}
use world.Fs.Reply.Writes.{open_created-Yields}

module _ (m : Model) where
  open_excl-Yields :
      (start : Start) (path : Bytes) (flags : OpenFlags)
      → Yields Succeeds (open_excl m start path flags)
  unfolding open_excl
  open_excl-Yields start path flags =
      Yields-any _ _
        λ t. Yields-guard _ _ _ λ _. Yields-any _ _ λ m'. open_created-Yields m _ m' flags.write

  open_create-Yields :
      (start : Start) (path : Bytes) (flags : OpenFlags)
      → Yields Succeeds (open_create m start path flags)
  unfolding open_create
  open_create-Yields start path flags = Yields-guard _ _ _ λ _.
      Yields-any _ _
        λ t. Yields-guard _ _ _ λ _. Yields-any _ _ λ m'. open_created-Yields m _ m' flags.write

  open_dir_node-Succeeds : (n : NodeId) → Succeeds (open_dir_node m n)
  unfolding open_dir_node
  open_dir_node-Succeeds n = okout-Succeeds _ _

  open_found-IsReply :
      (n : NodeId) (flags : OpenFlags) (k : NodeKind) → IsReply m (open_found m n flags k)
  unfolding open_found
  open_found-IsReply n flags (file content) =
      let m' = if flags.trunc then truncate m n else m in
      if-IsReply flags.directory (fail m _) (open_created m n m' flags.write) (fail-IsReply m _)
        (success ((open_created-Yields m n m' flags.write).of _ refl))
  open_found-IsReply n flags (symlink t) = fail-IsReply m _
  open_found-IsReply n flags socket = fail-IsReply m _
  open_found-IsReply n flags dir =
      if-IsReply (flags.write || flags.trunc) (fail m _) (open_dir_node m n) (fail-IsReply m _)
        (success (open_dir_node-Succeeds n))
  open_found-IsReply n flags opaque =
      if-IsReply (flags.write || flags.trunc) (fail m _) (open_dir_node m n) (fail-IsReply m _)
        (success (open_dir_node-Succeeds n))

  open_resolved-IsReply :
      (start : Start) (path : Bytes) (flags : OpenFlags) (r : Result NodeId)
      → IsReply m (open_resolved m start path flags r)
  unfolding open_resolved
  open_resolved-IsReply start path flags (ok n) = open_found-IsReply n flags _
  open_resolved-IsReply start path flags (err Result.enoent) =
      if-IsReply flags.create (run m (open_create m start path flags)) (fail m _)
        (run-IsReply _ (open_create-Yields start path flags)) (fail-IsReply m _)
  open_resolved-IsReply start path flags (err e) = fail-IsReply m e

  open_unless-IsReply :
      (start : Start) (path : Bytes) (flags : OpenFlags) (o : Option Errno)
      → IsReply m (open_unless m start path flags o)
  unfolding open_unless open_plain
  open_unless-IsReply start path flags (some e) = fail-IsReply m e
  open_unless-IsReply start path flags none =
      if-IsReply (flags.create && flags.excl) (run m (open_excl m start path flags))
        (open_resolved m start path flags (resolve m virtual start path (not flags.nofollow)))
        (run-IsReply _ (open_excl-Yields start path flags))
        (open_resolved-IsReply start path flags _)

  pub do_open-IsReply :
      (start : Start) (path : Bytes) (flags : OpenFlags) → IsReply m (do_open m start path flags)
  unfolding do_open
  do_open-IsReply start path flags =
      if-IsReply (flags.create && flags.directory) (fail m _) _ (fail-IsReply m _) (
        if-IsReply (flags.create && is_root_operand path) (fail m _) _ (fail-IsReply m _) (
          open_unless-IsReply start path flags (
            if flags.create && has_trailing_slash path
            then open_trailing m start path flags.excl (resolve_parent_unchecked m start path)
            else none)))

  pub do_opendir-IsReply : (start : Start) (path : Bytes) → IsReply m (do_opendir m start path)
  unfolding do_opendir opendir_at
  do_opendir-IsReply start path =
      run-IsReply _
        (Yields-any _ _ λ n. Yields-guard _ _ _ λ _. Yields-ok _ (open_dir_node-Succeeds n))

  write_at-IsReply :
      (fd n at : ℕ) (bytes : Bytes) (k : NodeKind) → IsReply m (write_at m fd n at bytes k)
  unfolding write_at
  write_at-IsReply fd n at bytes (file content) = success (okout-Succeeds _ _)
  write_at-IsReply fd n at bytes dir = fail-IsReply m _
  write_at-IsReply fd n at bytes _ = fail-IsReply m _

  write_entry-IsReply :
      (fd : ℕ) (bytes : Bytes) (o : Option FdEntry) → IsReply m (write_entry m fd bytes o)
  unfolding write_entry
  write_entry-IsReply fd bytes none = fail-IsReply m _
  write_entry-IsReply fd bytes (some (FdEntry.file n at true)) = write_at-IsReply fd n at bytes _
  write_entry-IsReply fd bytes (some (FdEntry.file n at false)) = fail-IsReply m _
  write_entry-IsReply fd bytes (some (FdEntry.dir n)) = fail-IsReply m _

  pub do_write-IsReply : (fd : ℕ) (bytes : Bytes) → IsReply m (do_write m fd bytes)
  unfolding do_write
  do_write-IsReply fd bytes = write_entry-IsReply fd bytes (get fd m.fds)

  read_at-IsReply :
      (fd n at : ℕ) (write : Bool) (len : ℕ) (k : NodeKind)
      → IsReply m (read_at m fd n at write len k)
  unfolding read_at dataout
  read_at-IsReply fd n at write len (file content) =
      success (record { count = _; ret = refl; errno = refl })
  read_at-IsReply fd n at write len dir = fail-IsReply m _
  read_at-IsReply fd n at write len _ = fail-IsReply m _

  read_entry-IsReply : (fd len : ℕ) (o : Option FdEntry) → IsReply m (read_entry m fd len o)
  unfolding read_entry
  read_entry-IsReply fd len none = fail-IsReply m _
  read_entry-IsReply fd len (some (FdEntry.file n at write)) = read_at-IsReply fd n at write len _
  read_entry-IsReply fd len (some (FdEntry.dir n)) = fail-IsReply m _

  pub do_read-IsReply : (fd len : ℕ) → IsReply m (do_read m fd len)
  unfolding do_read
  do_read-IsReply fd len = read_entry-IsReply fd len (get fd m.fds)

  close_entry-IsReply : (fd : ℕ) (o : Option FdEntry) → IsReply m (close_entry m fd o)
  unfolding close_entry
  close_entry-IsReply fd none = fail-IsReply m _
  close_entry-IsReply fd (some e) = success (okout-Succeeds _ _)

  pub do_close-IsReply : (fd : ℕ) → IsReply m (do_close m fd)
  unfolding do_close
  do_close-IsReply fd = close_entry-IsReply fd (get fd m.fds)
