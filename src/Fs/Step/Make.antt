-- ===== src/Fs/Step/Make.antt =====
-- crates/world-fsmodel/src/lib.rs: the steps of `do_mkdir`, `do_symlink`, `do_bind` and `do_mkstemp`.
use world.Prelude.{refl, Bool, true, ◌&&◌, not, ltb, length, is_empty}
use world.Bytes.{Bytes}
use world.Map.Order.{bytes_key, fd_key}
use world.Result
use world.Result.{Result, Errno, ok, err}
use world.Result.Yields.{Yields, Yields-ok, Yields-err, Yields-bind, Yields-guard, Yields-if}
use world.Fs.Types.{NodeId, NodeKind, symlink, Start, cwd, Model}
use world.Fs.Paths.{is_root_operand}
use world.Fs.Nodes.{path_max, is_mac, child}
use world.Fs.Create.{Target, Trail, missing, dangling, non_dir}
use world.Fs.Ops.Run.{run, fail}
use world.Fs.Ops.Make.{
  do_mkdir, mkdir_place, mkdir_found, mkdir_at, do_symlink, symlink_at, do_bind, bind_end,
  bind_place, bind_at, names_symlink, do_mkstemp,
}
use world.Fs.Valid.Targets.{
  IsPlace, IsTrail, resolve_parent-IsPlace, trail_mac-IsTrail, resolve_for_create-IsPlace,
}
use world.Fs.Valid.Climb.{IsSound}
use world.Fs.Step.{Steps, stay}
use world.Fs.Step.Rules.{run-Steps, if-Steps, create_done-Steps, create_open-Steps}

module _ {m : Model} (s : IsSound m) where
  mkdir_place-IsPlace :
      (parent : NodeId) (k : Bytes) (t : Trail)
      → IsPlace m parent
      → IsTrail s.valid t
      → Yields (λ p. IsPlace m p.0) (mkdir_place m parent k t)
  unfolding mkdir_place
  mkdir_place-IsPlace parent k missing h i = Yields-ok _ h
  mkdir_place-IsPlace parent k (dangling p n) h i = Yields-ok _ i
  mkdir_place-IsPlace parent k (Trail.dir t) h i = Yields-err _
  mkdir_place-IsPlace parent k non_dir h i = Yields-err _

  mkdir_found-IsPlace :
      (start : Start) (path : Bytes) (parent : NodeId) (k : Bytes) (trailing : Bool)
      → IsPlace m parent
      → Yields (λ p. IsPlace m p.0) (mkdir_found m start path parent k trailing)
  unfolding mkdir_found
  mkdir_found-IsPlace start path parent k trailing h =
      Yields-if (trailing && is_mac m) _ _
        (λ _.
          Yields-bind (IsTrail s.valid) _ _ (trail_mac-IsTrail s.valid start parent k path h.0)
            λ t i. mkdir_place-IsPlace parent k t h i)
        (λ _. Yields-ok _ h)

  pub do_mkdir-Steps : (start : Start) (path : Bytes) → Steps m (do_mkdir m start path).0
  unfolding do_mkdir mkdir_at
  do_mkdir-Steps start path =
      if-Steps (is_root_operand path) (fail m _) (run m (mkdir_at m start path)) stay (
        run-Steps _ (
          Yields-bind (λ t. IsPlace m t.0) _ _ (resolve_parent-IsPlace s.valid start path)
            λ t h. Yields-guard _ _ _ λ _.
              Yields-bind (λ p. IsPlace m p.0) _ _ (mkdir_found-IsPlace start path t.0 _ t.2 h)
                λ p i. create_done-Steps p.0 p.1 NodeKind.dir _ i))

  pub do_symlink-Steps : (target path : Bytes) → Steps m (do_symlink m target path).0
  unfolding do_symlink symlink_at
  do_symlink-Steps target path =
      if-Steps (not (ltb (length target) (path_max m))) (fail m _) _ stay (
        if-Steps (is_empty target && not (is_mac m)) (fail m _) _ stay (
          if-Steps (is_root_operand path) (fail m _) (run m (symlink_at m target path)) stay (
            run-Steps _ (
              Yields-bind (λ t. IsPlace m t.0) _ _ (resolve_parent-IsPlace s.valid cwd path)
                λ t h.
                  Yields-guard _ _ _
                    λ _. Yields-guard _ _ _ λ _. create_done-Steps t.0 _ (symlink target) _ h))))

  bind_end-IsPlace :
      (r : Result Target)
      → Yields (λ t. IsPlace m t.0) r
      → Yields (λ p. IsPlace m p.0) (bind_end m r)
  unfolding bind_end
  bind_end-IsPlace (ok t) h = Yields-ok _ (h.of t refl)
  bind_end-IsPlace (err Result.eexist) h = Yields-err _
  bind_end-IsPlace (err e) h = Yields-err _

  bind_place-IsPlace :
      (parent : NodeId) (k path : Bytes)
      → IsPlace m parent
      → Yields (λ p. IsPlace m p.0) (bind_place m parent k path)
  unfolding bind_place
  bind_place-IsPlace parent k path h =
      Yields-if (is_mac m && names_symlink m (child m parent k)) _ _
        (λ _. bind_end-IsPlace _ (resolve_for_create-IsPlace s.valid cwd path)) (λ _. Yields-ok _ h)

  pub do_bind-Steps : (path : Bytes) → Steps m (do_bind m path).0
  unfolding do_bind bind_at
  do_bind-Steps path = if-Steps (is_root_operand path) (fail m _) (run m (bind_at m path)) stay (
      run-Steps _ (
        Yields-bind (λ t. IsPlace m t.0) _ _ (resolve_parent-IsPlace s.valid cwd path)
          λ t h. Yields-guard _ _ _ λ _. Yields-guard _ _ _ λ _. Yields-guard _ _ _ λ _.
            Yields-bind (λ p. IsPlace m p.0) _ _ (bind_place-IsPlace t.0 _ path h)
              λ p i. Yields-guard _ _ _ λ _. create_done-Steps p.0 p.1 NodeKind.socket _ i))

  pub do_mkstemp-Steps : (name : Bytes) → Steps m (do_mkstemp m name).0
  unfolding do_mkstemp
  do_mkstemp-Steps name = run-Steps _ (
      Yields-guard _ _ _ λ _. Yields-guard _ _ _ λ _.
        Yields-guard _ _ _
          λ d. Yields-guard _ _ _ λ _. create_open-Steps m.cwd _ _ true s (s.valid.cwd, d))
