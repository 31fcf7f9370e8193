-- ===== src/Fs/Step/Query.antt =====
-- crates/world-fsmodel/src/lib.rs: the steps of `do_chdir` and of the operations that only look.
use world.Prelude.{
  ◌<◌, ◌≡◌, subst, Bool, true, false, ◌&&◌, not, Option, some, ltb, length, if◌then◌else◌, arith,
  Option-cases, inl, inr,
}
use world.Bytes.{Bytes}
use world.Map.Order.{bytes_key, fd_key}
use world.Result.{Result, Errno, ok, err}
use world.Result.Yields.{Yields, Yields-ok, Yields-err, Yields-bind, Yields-guard}
use world.Fs.Types.{NodeId, NodeKind, symlink, socket, dir, cwd, Model, virtual}
use world.Fs.Paths.{is_root_operand}
use world.Fs.Nodes.{path_max, node}
use world.Fs.Ops.Run.{Effect, run, fail, done}
use world.Fs.Valid.{size}
use world.Fs.Valid.Climb.{IsSound}
use world.Fs.Step.{Step, Steps, stay}
use world.Fs.Step.Rules.{run-Steps, if-Steps}
use world.Bytes.{starts_with_slash}
use world.Fs.Nodes.{is_detached}
use world.Fs.Resolve.{resolve}
use world.Fs.Names.{full_path}
use world.Fs.Paths.{parent_and_name}
use world.Fs.Create.{dir_or_start}
use world.Fs.Ops.Query.{
  readlink_kind, do_readlink, do_chdir, path_reply, do_getcwd, realpath_found, do_realpath, do_stat,
  connect_kind, connect_at, do_connect, do_list,
}
use world.Fs.Valid.Lookups.{resolve-lt}
use world.Fs.Step.Rules.{one}

module _ {m : Model} (s : IsSound m) where
  readlink_kind-Steps : (k : NodeKind) → Yields (λ e. Steps m e.0) (readlink_kind m k)
  unfolding readlink_kind
  readlink_kind-Steps (symlink t) = Yields-ok _ stay
  readlink_kind-Steps dir = Yields-err _
  readlink_kind-Steps _ = Yields-err _

  pub do_readlink-Steps : (path : Bytes) → Steps m (do_readlink m path).0
  unfolding do_readlink
  do_readlink-Steps path = run-Steps _ (
      Yields-bind (λ n. n < size m) _ _ (resolve-lt s.valid virtual cwd path false)
        λ n _. readlink_kind-Steps (node m n).kind)

  pub do_chdir-Steps : (path : Bytes) → Steps m (do_chdir m path).0
  unfolding do_chdir
  do_chdir-Steps path = run-Steps _ (
      Yields-bind (λ n. n < size m) _ _ (resolve-lt s.valid virtual cwd path true)
        λ n h. Yields-guard _ _ _ λ d. Yields-ok _ (one (Step.enter_dir n (h, d))))

  pub do_stat-Steps : (path : Bytes) (follow : Bool) → Steps m (do_stat m path follow).0
  unfolding do_stat
  do_stat-Steps path follow = run-Steps _ (
      Yields-bind (λ n. n < size m) _ _ (resolve-lt s.valid virtual cwd path follow)
        λ n _. Yields-ok _ stay)

  pub do_list-Steps : (path : Bytes) → Steps m (do_list m path).0
  unfolding do_list
  do_list-Steps path = run-Steps _ (
      Yields-bind (λ n. n < size m) _ _ (resolve-lt s.valid virtual cwd path true)
        λ n _. Yields-guard _ _ _ λ _. Yields-ok _ stay)

  connect_kind-Steps : (k : NodeKind) → Yields (λ e. Steps m e.0) (connect_kind m k)
  unfolding connect_kind done
  connect_kind-Steps socket = Yields-ok _ stay
  connect_kind-Steps dir = Yields-err _
  connect_kind-Steps _ = Yields-err _

  connect_at-Steps : (path : Bytes) → Yields (λ e. Steps m e.0) (connect_at m path)
  unfolding connect_at
  connect_at-Steps path =
      Yields-bind (λ x. Unit {0}) (parent_and_name path) _ (record { of = λ a e. tt })
        λ x _.
          Yields-bind (λ x. Unit {0}) (dir_or_start m cwd x.dir) _ (record { of = λ a e. tt })
            λ p _. Yields-guard _ _ _ λ _. Yields-guard _ _ _ λ _.
              Yields-bind (λ n. n < size m) _ _ (resolve-lt s.valid virtual cwd path true)
                λ n _. connect_kind-Steps (node m n).kind

  pub do_connect-Steps : (path : Bytes) → Steps m (do_connect m path).0
  unfolding do_connect
  do_connect-Steps path = if-Steps (not (ltb (length path) (path_max m))) (fail m _) _ stay (
      if-Steps (is_root_operand path) (fail m _) (run m (connect_at m path)) stay
        (run-Steps _ (connect_at-Steps path)))

  -- The reply of a call that returns
  abbrev pub Replies : Option Effect → Type 0
  Replies o = (e : Effect) → o ≡ some e → Steps m e.0

  path_reply-Steps : (n : NodeId) → Replies (path_reply m n)
  unfolding path_reply
  path_reply-Steps n e h = elim (Option-cases (full_path m virtual n)) [
    | inl p ↦ absurd (ground (arith, h, p))
    | inr (b, p) ↦ subst (λ m'. Steps m m') (ground (arith, h, p)) stay
  ]

  fail-Replies : (e : Errno) → Replies (some (fail m e))
  unfolding fail
  fail-Replies e x h = subst (λ m'. Steps m m') (ground (arith, h)) stay

  pub if-Replies :
      (b : Bool) (x y : Option Effect) → Replies x → Replies y → Replies (if b then x else y)
  if-Replies true x y h k = h
  if-Replies false x y h k = k

  pub do_getcwd-Steps : Replies (do_getcwd m)
  unfolding do_getcwd
  do_getcwd-Steps =
      if-Replies (is_detached m m.cwd) (some (fail m _)) (path_reply m m.cwd) (fail-Replies _)
        (path_reply-Steps m.cwd)

  realpath_found-Steps : (r : Result NodeId) → Replies (realpath_found m r)
  unfolding realpath_found
  realpath_found-Steps (ok n) = path_reply-Steps n
  realpath_found-Steps (err e) = fail-Replies e

  pub do_realpath-Steps : (path : Bytes) → Replies (do_realpath m path)
  unfolding do_realpath
  do_realpath-Steps path =
      if-Replies (not (starts_with_slash path) && is_detached m m.cwd) (some (fail m _))
        (realpath_found m (resolve m virtual cwd path true)) (fail-Replies _)
        (realpath_found-Steps (resolve m virtual cwd path true))
