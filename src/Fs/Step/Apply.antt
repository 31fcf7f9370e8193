-- ===== src/Fs/Step/Apply.antt =====
-- crates/world-fsmodel/src/lib.rs: the steps of `apply`, and of a run of several operations.
use world.Prelude.{◌≡◌, subst, List, [], ◌∷◌, some, arith, Option-cases, inl, inr}
use world.Fs.Types.{Op, Model, cwd}
use world.Fs.Paths.{at_start}
use world.Fs.Ops.Run.{Effect}
use world.Fs.Ops.Apply.{apply, apply_all}
use world.Fs.Valid.Climb.{IsSound}
use world.Fs.Step.{Steps}
use world.Fs.Step.Sound.{Steps-IsSound}
use world.Fs.Step.Make.{do_mkdir-Steps, do_symlink-Steps, do_bind-Steps, do_mkstemp-Steps}
use world.Fs.Step.Open.{do_open-Steps, do_opendir-Steps}
use world.Fs.Step.Io.{do_write-Steps, do_read-Steps, do_close-Steps}
use world.Fs.Step.Remove.{unlink_impl-Steps}
use world.Fs.Step.Rename.{do_rename-Steps}
use world.Fs.Step.Query.{
  do_readlink-Steps, do_chdir-Steps, do_getcwd-Steps, do_realpath-Steps, do_stat-Steps,
  do_connect-Steps, do_list-Steps,
}

returned : {m : Model} (x : Effect) → Steps m x.0 → (e : Effect) → some x ≡ some e → Steps m e.0
returned {m} x h e p = subst (λ m'. Steps m m') (ground (arith, p)) h

-- From a sound model, every operation that returns is a run of steps.
pub apply-Steps :
    {m : Model} (s : IsSound m) (op : Op) (e : Effect) → apply m op ≡ some e → Steps m e.0
unfolding apply
apply-Steps s (Op.mkdir path mode) = returned _ (do_mkdir-Steps s cwd path)
apply-Steps s (Op.mkdir_at d path) = returned _ (do_mkdir-Steps s (at_start d path) path)
apply-Steps s (Op.open_file path flags) = returned _ (do_open-Steps s cwd path flags)
apply-Steps s (Op.open_at d path flags) = returned _ (do_open-Steps s (at_start d path) path flags)
apply-Steps s (Op.open_dir path) = returned _ (do_opendir-Steps s cwd path)
apply-Steps s (Op.write fd bytes) = returned _ (do_write-Steps s fd bytes)
apply-Steps s (Op.read fd len) = returned _ (do_read-Steps s fd len)
apply-Steps s (Op.symlink target path) = returned _ (do_symlink-Steps s target path)
apply-Steps s (Op.readlink path) = returned _ (do_readlink-Steps s path)
apply-Steps s (Op.rename from to) = returned _ (do_rename-Steps s from to)
apply-Steps s (Op.unlink path) = returned _ (unlink_impl-Steps s cwd path _)
apply-Steps s (Op.rmdir path) = returned _ (unlink_impl-Steps s cwd path _)
apply-Steps s (Op.unlink_at d path rmdir) =
    returned _ (unlink_impl-Steps s (at_start d path) path rmdir)
apply-Steps s (Op.chdir path) = returned _ (do_chdir-Steps s path)
apply-Steps s Op.getcwd = do_getcwd-Steps s
apply-Steps s (Op.realpath path) = do_realpath-Steps s path
apply-Steps s (Op.stat path) = returned _ (do_stat-Steps s path _)
apply-Steps s (Op.lstat path) = returned _ (do_stat-Steps s path _)
apply-Steps s (Op.bind path) = returned _ (do_bind-Steps s path)
apply-Steps s (Op.connect path) = returned _ (do_connect-Steps s path)
apply-Steps s (Op.mkstemp_adopt name) = returned _ (do_mkstemp-Steps s name)
apply-Steps s (Op.list path) = returned _ (do_list-Steps s path)
apply-Steps s (Op.close_fd fd) = returned _ (do_close-Steps s fd)

-- Whatever operations are applied to a sound model, the model that they leave is sound: all ids are
-- indices of the arena, and no chain of parents is a cycle.
pub apply_all-IsSound :
    {m m' : Model} (ops : List Op) → IsSound m → apply_all m ops ≡ some m' → IsSound m'
unfolding apply_all
apply_all-IsSound [] s h = subst IsSound (ground (arith, h)) s
apply_all-IsSound {m} (op ∷ ops) s h = elim (Option-cases (apply m op)) [
  | inl p ↦ absurd (ground (arith, h, p))
  | inr (e, p) ↦
      apply_all-IsSound ops (Steps-IsSound s (apply-Steps s op e p)) (ground (arith, h, p))
]
