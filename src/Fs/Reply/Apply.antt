-- ===== src/Fs/Reply/Apply.antt =====
-- crates/world-fsmodel/src/lib.rs: how the queries end, and every operation that `apply` dispatches.
use world.Prelude.{
  ℕ, ◌≡◌, refl, subst, Bool, true, false, ◌&&◌, not, ltb, length, Option, some, Option-cases, inl,
  inr, arith, if◌then◌else◌,
}
use world.Bytes.{Bytes, starts_with_slash}
use world.Result.{Result, ok, err}
use world.Result.Yields.{Yields, Yields-ok, Yields-err, Yields-guard}
use world.Fs.Types.{NodeId, NodeKind, dir, symlink, socket, Model, Op, virtual, cwd}
use world.Fs.Paths.{at_start, is_root_operand}
use world.Fs.Nodes.{node, dataout, path_max, is_detached}
use world.Fs.Resolve.{resolve}
use world.Fs.Names.{full_path}
use world.Fs.Ops.Run.{Effect, fail, run}
use world.Fs.Ops.Query.{
  do_readlink, readlink_kind, do_chdir, path_reply, do_getcwd, realpath_found, do_realpath, do_stat,
  connect_kind, connect_at, do_connect, do_list,
}
use world.Fs.Ops.Apply.{apply}
use world.Fs.Reply.{
  Succeeds, IsReply, success, fail-IsReply, run-IsReply, if-IsReply, Yields-any, done-Yields,
}
use world.Fs.Reply.Writes.{
  do_mkdir-IsReply, do_symlink-IsReply, do_bind-IsReply, do_mkstemp-IsReply, unlink_impl-IsReply,
  do_rename-IsReply,
}
use world.Fs.Reply.Opens.{
  do_open-IsReply, do_opendir-IsReply, do_write-IsReply, do_read-IsReply, do_close-IsReply,
}

dataout-Succeeds : (m : Model) (n : ℕ) (d : Bytes) → Succeeds (m, dataout n d)
unfolding dataout
dataout-Succeeds m n d = record { count = n; ret = refl; errno = refl }

-- The reply of a call that returns
abbrev Returns : Model → Option Effect → Type 0
Returns m o = (x : Effect) → o ≡ some x → IsReply m x

some-Returns : {m : Model} (x : Effect) → IsReply m x → Returns m (some x)
some-Returns {m} x h y p = subst (IsReply m) (ground (arith, p)) h

if-Returns :
    {m : Model} (b : Bool) (x y : Option Effect)
    → Returns m x
    → Returns m y
    → Returns m (if b then x else y)
if-Returns true x y h k = h
if-Returns false x y h k = k

module _ (m : Model) where
  readlink_kind-Yields : (k : NodeKind) → Yields Succeeds (readlink_kind m k)
  unfolding readlink_kind
  readlink_kind-Yields (symlink t) = Yields-ok _ (dataout-Succeeds m _ t)
  readlink_kind-Yields dir = Yields-err _
  readlink_kind-Yields _ = Yields-err _

  do_readlink-IsReply : (path : Bytes) → IsReply m (do_readlink m path)
  unfolding do_readlink
  do_readlink-IsReply path =
      run-IsReply _ (Yields-any _ _ λ n. readlink_kind-Yields (node m n).kind)

  do_chdir-IsReply : (path : Bytes) → IsReply m (do_chdir m path)
  unfolding do_chdir
  do_chdir-IsReply path = run-IsReply _ (Yields-any _ _ λ n. Yields-guard _ _ _ λ _. done-Yields _)

  do_stat-IsReply : (path : Bytes) (follow : Bool) → IsReply m (do_stat m path follow)
  unfolding do_stat
  do_stat-IsReply path follow =
      run-IsReply _ (Yields-any _ _ λ n. Yields-ok _ (dataout-Succeeds m 0 _))

  do_list-IsReply : (path : Bytes) → IsReply m (do_list m path)
  unfolding do_list
  do_list-IsReply path =
      run-IsReply _
        (Yields-any _ _ λ n. Yields-guard _ _ _ λ _. Yields-ok _ (dataout-Succeeds m _ _))

  connect_kind-Yields : (k : NodeKind) → Yields Succeeds (connect_kind m k)
  unfolding connect_kind
  connect_kind-Yields socket = done-Yields m
  connect_kind-Yields dir = Yields-err _
  connect_kind-Yields _ = Yields-err _

  do_connect-IsReply : (path : Bytes) → IsReply m (do_connect m path)
  unfolding do_connect connect_at
  do_connect-IsReply path =
      if-IsReply (not (ltb (length path) (path_max m))) (fail m _) _ (fail-IsReply m _) (
        if-IsReply (is_root_operand path) (fail m _) (run m (connect_at m path)) (fail-IsReply m _)
          (run-IsReply _ (
            Yields-any _ _ λ x. Yields-any _ _ λ p. Yields-guard _ _ _ λ _.
              Yields-guard _ _ _ λ _. Yields-any _ _ λ n. connect_kind-Yields (node m n).kind)))

  path_reply-Returns : (n : NodeId) → Returns m (path_reply m n)
  unfolding path_reply
  path_reply-Returns n x h = elim (Option-cases (full_path m virtual n)) [
    | inl p ↦ absurd (ground (arith, h, p))
    | inr (b, p) ↦
        some-Returns (m, dataout (length b) b) (success (dataout-Succeeds m (length b) b)) x
          (ground (arith, h, p))
  ]

  do_getcwd-Returns : Returns m (do_getcwd m)
  unfolding do_getcwd
  do_getcwd-Returns =
      if-Returns (is_detached m m.cwd) (some (fail m _)) (path_reply m m.cwd)
        (some-Returns _ (fail-IsReply m _)) (path_reply-Returns m.cwd)

  realpath_found-Returns : (r : Result NodeId) → Returns m (realpath_found m r)
  unfolding realpath_found
  realpath_found-Returns (ok n) = path_reply-Returns n
  realpath_found-Returns (err e) = some-Returns _ (fail-IsReply m e)

  do_realpath-Returns : (path : Bytes) → Returns m (do_realpath m path)
  unfolding do_realpath
  do_realpath-Returns path =
      if-Returns (not (starts_with_slash path) && is_detached m m.cwd) (some (fail m _))
        (realpath_found m (resolve m virtual cwd path true)) (some-Returns _ (fail-IsReply m _))
        (realpath_found-Returns (resolve m virtual cwd path true))

-- An operation that returns either succeeds, with a result that is not negative and no errno, or
-- gives -1 with an errno, which is not 0, and no data, and then the model is the one that it was given.
pub apply-IsReply : (m : Model) (op : Op) (x : Effect) → apply m op ≡ some x → IsReply m x
unfolding apply
apply-IsReply m (Op.mkdir path mode) = some-Returns _ (do_mkdir-IsReply m cwd path)
apply-IsReply m (Op.mkdir_at d path) = some-Returns _ (do_mkdir-IsReply m (at_start d path) path)
apply-IsReply m (Op.open_file path flags) = some-Returns _ (do_open-IsReply m cwd path flags)
apply-IsReply m (Op.open_at d path flags) =
    some-Returns _ (do_open-IsReply m (at_start d path) path flags)
apply-IsReply m (Op.open_dir path) = some-Returns _ (do_opendir-IsReply m cwd path)
apply-IsReply m (Op.write fd bytes) = some-Returns _ (do_write-IsReply m fd bytes)
apply-IsReply m (Op.read fd len) = some-Returns _ (do_read-IsReply m fd len)
apply-IsReply m (Op.symlink target path) = some-Returns _ (do_symlink-IsReply m target path)
apply-IsReply m (Op.readlink path) = some-Returns _ (do_readlink-IsReply m path)
apply-IsReply m (Op.rename from to) = some-Returns _ (do_rename-IsReply m from to)
apply-IsReply m (Op.unlink path) = some-Returns _ (unlink_impl-IsReply m cwd path _)
apply-IsReply m (Op.rmdir path) = some-Returns _ (unlink_impl-IsReply m cwd path _)
apply-IsReply m (Op.unlink_at d path rmdir) =
    some-Returns _ (unlink_impl-IsReply m (at_start d path) path rmdir)
apply-IsReply m (Op.chdir path) = some-Returns _ (do_chdir-IsReply m path)
apply-IsReply m Op.getcwd = do_getcwd-Returns m
apply-IsReply m (Op.realpath path) = do_realpath-Returns m path
apply-IsReply m (Op.stat path) = some-Returns _ (do_stat-IsReply m path true)
apply-IsReply m (Op.lstat path) = some-Returns _ (do_stat-IsReply m path false)
apply-IsReply m (Op.bind path) = some-Returns _ (do_bind-IsReply m path)
apply-IsReply m (Op.connect path) = some-Returns _ (do_connect-IsReply m path)
apply-IsReply m (Op.mkstemp_adopt name) = some-Returns _ (do_mkstemp-IsReply m name)
apply-IsReply m (Op.list path) = some-Returns _ (do_list-IsReply m path)
apply-IsReply m (Op.close_fd fd) = some-Returns _ (do_close-IsReply m fd)
