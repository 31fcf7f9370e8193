-- ===== src/Fs/Step/Open.antt =====
-- crates/world-fsmodel/src/lib.rs: the steps of `do_open` and `do_opendir`.
use world.Prelude.{
  ◌<◌, ◌≡◌, refl, sym, subst, Bool, true, false, ◌&&◌, ◌||◌, not, Option, none, some, if◌then◌else◌,
  [],
}
use world.Bytes.{Bytes}
use world.Map.Order.{bytes_key, fd_key}
use world.Result
use world.Result.{Result, Errno, ok, err}
use world.Result.Yields.{Yields, Yields-ok, Yields-bind, Yields-guard}
use world.Fs.Types.{
  NodeId, NodeKind, file, symlink, socket, dir, opaque, Start, FdEntry, Model, OpenFlags, virtual,
}
use world.Fs.Paths.{is_root_operand}
use world.Fs.Nodes.{node}
use world.Fs.Ops.Run.{run, fail}
use world.Fs.Ops.Make.{open_created}
use world.Fs.Valid.{size}
use world.Fs.Valid.Updates.{size-set_node}
use world.Fs.Valid.Targets.{IsPlace, resolve_parent-IsPlace, resolve_for_create-IsPlace}
use world.Fs.Valid.Climb.{IsSound}
use world.Fs.Step.{Step, Steps, stay, next}
use world.Fs.Step.Sound.{Step-IsSound}
use world.Fs.Step.Rules.{run-Steps, if-Steps, create_open-Steps}
use world.Fs.Resolve.{resolve}
use world.Fs.Ops.Open.{
  open_excl, open_create, open_dir_node, truncate, open_found, open_resolved, open_plain,
  open_unless, open_trailing, do_open, do_opendir,
}
use world.Fs.Valid.Lookups.{resolve-lt}
use world.Fs.Step.Rules.{one, alloc_fd-Step}
use world.Fs.Create.{resolve_parent_unchecked}
use world.Fs.Paths.{has_trailing_slash}

module _ {m : Model} (s : IsSound m) where
  open_excl-Steps :
      (start : Start) (path : Bytes) (flags : OpenFlags)
      → Yields (λ e. Steps m e.0) (open_excl m start path flags)
  unfolding open_excl
  open_excl-Steps start path flags =
      Yields-bind (λ t. IsPlace m t.0) _ _ (resolve_parent-IsPlace s.valid start path)
        λ t h. Yields-guard _ _ _ λ _. create_open-Steps t.0 _ _ flags.write s h

  open_create-Steps :
      (start : Start) (path : Bytes) (flags : OpenFlags)
      → Yields (λ e. Steps m e.0) (open_create m start path flags)
  unfolding open_create
  open_create-Steps start path flags = Yields-guard _ _ _ λ _.
      Yields-bind (λ t. IsPlace m t.0) _ _ (resolve_for_create-IsPlace s.valid start path)
        λ t h. Yields-guard _ _ _ λ _. create_open-Steps t.0 _ _ flags.write s h

  open_dir_node-Steps : (n : NodeId) → n < size m → Steps m (open_dir_node m n).0
  unfolding open_dir_node
  open_dir_node-Steps n h = one (alloc_fd-Step (FdEntry.dir n) s.valid h)

  -- An open file, truncated first if the flags say so
  open_file-Steps :
      (n : NodeId) (trunc write : Bool) {content : Bytes}
      → n < size m
      → (node m n).kind ≡ file content
      → Steps m (open_created m n (if trunc then truncate m n else m) write).0
  unfolding open_created truncate
  open_file-Steps n false write h e = one (alloc_fd-Step (FdEntry.file n 0 write) s.valid h)
  open_file-Steps n true write h e =
      let st = Step.content n [] h e in
      next (one st) (
        alloc_fd-Step (FdEntry.file n 0 write) (Step-IsSound s st).valid
          (subst (λ k. n < k) (sym (size-set_node m n _)) h))

  open_found-Steps :
      (n : NodeId) (flags : OpenFlags) (k : NodeKind)
      → n < size m
      → (node m n).kind ≡ k
      → Steps m (open_found m n flags k).0
  unfolding open_found
  open_found-Steps n flags (file content) h e =
      if-Steps flags.directory (fail m _)
        (open_created m n (if flags.trunc then truncate m n else m) flags.write) stay
        (open_file-Steps n flags.trunc flags.write h e)
  open_found-Steps n flags (symlink t) h e = stay
  open_found-Steps n flags socket h e = stay
  open_found-Steps n flags dir h e =
      if-Steps (flags.write || flags.trunc) (fail m _) (open_dir_node m n) stay
        (open_dir_node-Steps n h)
  open_found-Steps n flags opaque h e =
      if-Steps (flags.write || flags.trunc) (fail m _) (open_dir_node m n) stay
        (open_dir_node-Steps n h)

  open_resolved-Steps :
      (start : Start) (path : Bytes) (flags : OpenFlags) (r : Result NodeId)
      → Yields (λ n. n < size m) r
      → Steps m (open_resolved m start path flags r).0
  unfolding open_resolved
  open_resolved-Steps start path flags (ok n) h = open_found-Steps n flags _ (h.of n refl) refl
  open_resolved-Steps start path flags (err Result.enoent) h =
      if-Steps flags.create (run m (open_create m start path flags)) (fail m _)
        (run-Steps _ (open_create-Steps start path flags)) stay
  open_resolved-Steps start path flags (err e) h = stay

  open_plain-Steps :
      (start : Start) (path : Bytes) (flags : OpenFlags) → Steps m (open_plain m start path flags).0
  unfolding open_plain
  open_plain-Steps start path flags =
      if-Steps (flags.create && flags.excl) (run m (open_excl m start path flags))
        (open_resolved m start path flags (resolve m virtual start path (not flags.nofollow)))
        (run-Steps _ (open_excl-Steps start path flags))
        (open_resolved-Steps start path flags _ (resolve-lt s.valid virtual start path _))

  open_unless-Steps :
      (start : Start) (path : Bytes) (flags : OpenFlags) (o : Option Errno)
      → Steps m (open_unless m start path flags o).0
  unfolding open_unless
  open_unless-Steps start path flags (some e) = stay
  open_unless-Steps start path flags none = open_plain-Steps start path flags

  pub do_open-Steps :
      (start : Start) (path : Bytes) (flags : OpenFlags) → Steps m (do_open m start path flags).0
  unfolding do_open
  do_open-Steps start path flags = if-Steps (flags.create && flags.directory) (fail m _) _ stay (
      if-Steps (flags.create && is_root_operand path) (fail m _) _ stay (
        open_unless-Steps start path flags (
          if flags.create && has_trailing_slash path
          then open_trailing m start path flags.excl (resolve_parent_unchecked m start path)
          else none)))

  pub do_opendir-Steps : (start : Start) (path : Bytes) → Steps m (do_opendir m start path).0
  unfolding do_opendir
  do_opendir-Steps start path = run-Steps _ (
      Yields-bind (λ n. n < size m) _ _ (resolve-lt s.valid virtual start path true)
        λ n h. Yields-guard _ _ _ λ _. Yields-ok _ (open_dir_node-Steps n h))
