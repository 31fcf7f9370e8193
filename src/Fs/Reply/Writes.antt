-- ===== src/Fs/Reply/Writes.antt =====
-- crates/world-fsmodel/src/lib.rs: how `do_mkdir`, `do_symlink`, `do_bind`, `do_mkstemp`, `unlink_impl`
-- and `do_rename` end.
use world.Prelude.{◌==◌, ltb, Bool, true, ◌&&◌, ◌||◌, not, is_empty, length, Option, none, some}
use world.Bytes.{Bytes}
use world.Result.{ok}
use world.Result.Yields.{Yields, Yields-ok, Yields-err, Yields-if, Yields-guard, Yields-then}
use world.Fs.Types.{NodeId, Model, Start}
use world.Fs.Paths.{is_root_operand}
use world.Fs.Nodes.{is_mac, path_max}
use world.Fs.Ops.Run.{fail, run}
use world.Fs.Ops.Make.{
  do_mkdir, mkdir_at, do_symlink, symlink_at, do_bind, bind_at, do_mkstemp, mkstemp_at,
  open_created,
}
use world.Fs.Ops.Remove.{Victim, unlink_impl, unlink_found}
use world.Fs.Ops.Rename.{
  do_rename, rename_root, rename_names, rename_onto, rename_allowed, replaceable,
}
use world.Fs.Reply.{
  Succeeds, IsReply, fail-IsReply, run-IsReply, if-IsReply, Yields-any, okout-Succeeds, done-Yields,
}

pub open_created-Yields :
    (m : Model) (n : NodeId) (m' : Model) (write : Bool)
    → Yields Succeeds (ok (open_created m n m' write))
unfolding open_created
open_created-Yields m n m' write = Yields-ok _ (okout-Succeeds _ _)

module _ (m : Model) where
  pub do_mkdir-IsReply : (start : Start) (path : Bytes) → IsReply m (do_mkdir m start path)
  unfolding do_mkdir mkdir_at
  do_mkdir-IsReply start path =
      if-IsReply (is_root_operand path) (fail m _) (run m (mkdir_at m start path))
        (fail-IsReply m _)
        (run-IsReply _ (
          Yields-any _ _
            λ t. Yields-guard _ _ _ λ _. Yields-any _ _ λ p. Yields-any _ _ λ m'. done-Yields m'))

  pub do_symlink-IsReply : (target path : Bytes) → IsReply m (do_symlink m target path)
  unfolding do_symlink symlink_at
  do_symlink-IsReply target path =
      if-IsReply (not (ltb (length target) (path_max m))) (fail m _) _ (fail-IsReply m _) (
        if-IsReply (is_empty target && not (is_mac m)) (fail m _) _ (fail-IsReply m _) (
          if-IsReply (is_root_operand path) (fail m _) (run m (symlink_at m target path))
            (fail-IsReply m _)
            (run-IsReply _ (
              Yields-any _ _ λ t.
                Yields-guard _ _ _
                  λ _. Yields-guard _ _ _ λ _. Yields-any _ _ λ m'. done-Yields m'))))

  pub do_bind-IsReply : (path : Bytes) → IsReply m (do_bind m path)
  unfolding do_bind bind_at
  do_bind-IsReply path =
      if-IsReply (is_root_operand path) (fail m _) (run m (bind_at m path)) (fail-IsReply m _) (
        run-IsReply _ (
          Yields-any _ _ λ t. Yields-guard _ _ _ λ _. Yields-guard _ _ _ λ _.
            Yields-guard _ _ _
              λ _. Yields-any _ _ λ p. Yields-guard _ _ _ λ _. Yields-any _ _ λ m'. done-Yields m'))

  pub do_mkstemp-IsReply : (name : Bytes) → IsReply m (do_mkstemp m name)
  unfolding do_mkstemp mkstemp_at
  do_mkstemp-IsReply name = run-IsReply _ (
      Yields-guard _ _ _ λ _. Yields-guard _ _ _ λ _.
        Yields-guard _ _ _
          λ _. Yields-guard _ _ _ λ _. Yields-any _ _ λ m'. open_created-Yields m _ m' true)

  pub unlink_impl-IsReply :
      (start : Start) (path : Bytes) (is_rmdir : Bool)
      → IsReply m (unlink_impl m start path is_rmdir)
  unfolding unlink_impl unlink_found
  unlink_impl-IsReply start path is_rmdir =
      if-IsReply (is_root_operand path) (fail m _) (run m (unlink_found m start path is_rmdir))
        (fail-IsReply m _) (run-IsReply _ (Yields-any _ _ λ w. Yields-then _ _ (done-Yields _)))

  rename_onto-Yields :
      (v : Victim) (t : NodeId × Bytes × Bool) (existing : Option NodeId)
      → Yields Succeeds (rename_onto m v t existing)
  unfolding rename_onto
  rename_onto-Yields v t none = done-Yields _
  rename_onto-Yields v t (some e) =
      Yields-if (e == v.2) _ _ (λ _. done-Yields m)
        (λ _. Yields-then (replaceable m v.2 e) _ (done-Yields _))

  pub do_rename-IsReply : (from to : Bytes) → IsReply m (do_rename m from to)
  unfolding do_rename rename_root rename_names
  do_rename-IsReply from to =
      if-IsReply (is_root_operand from || is_root_operand to) (run m (rename_root m from to))
        (run m (rename_names m from to)) (run-IsReply _ (Yields-then _ _ (Yields-err _)))
        (run-IsReply _ (
          Yields-any _ _ λ w.
            Yields-any _ _ λ t. Yields-then (rename_allowed m w t) _ (rename_onto-Yields w.0 t _)))
