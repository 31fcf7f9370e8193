-- ===== src/Fs/Step/Remove.antt =====
-- crates/world-fsmodel/src/lib.rs: the steps of `unlink_impl`.
use world.Prelude.{ℕ, ◌<◌, ◌==◌, sym, subst, Bool, true, false, ◌&&◌, ◌||◌, Option, none, some}
use world.Bytes.{Bytes}
use world.Map.Order.{bytes_key, fd_key}
use world.Result.Yields.{Yields, Yields-ok, Yields-err, Yields-bind, Yields-if, Yields-then}
use world.Fs.Types.{NodeId, Start, Model}
use world.Fs.Paths.{is_root_operand}
use world.Fs.Nodes.{node, is_mac}
use world.Fs.Create.{Trail, missing, dangling, non_dir, owner_of, owner_key, parent_owner, is_some}
use world.Fs.Ops.Run.{run, fail}
use world.Fs.Valid.{Below, size}
use world.Fs.Valid.Updates.{size-set_node}
use world.Fs.Valid.Targets.{IsPlace, IsTrail, resolve_parent-IsPlace, trail_mac-IsTrail}
use world.Fs.Valid.Climb.{IsSound}
use world.Fs.Step.{Step, Steps, stay, next}
use world.Fs.Step.Rules.{run-Steps, if-Steps}
use world.Fs.Ops.Remove.{
  Victim, present, linked_victim, trailing_victim, removable, remove_victim, followed_victim,
  find_victim, unlink_found, unlink_impl,
}
use world.Fs.Step.Rules.{one}
use world.Fs.Nodes.{remove_child}
use world.Fs.Valid.Lookups.{child-Below}

-- What is removed lies in the arena, and so does the directory that lists it.
abbrev pub IsVictim : Model → Victim → Type 0
IsVictim m v = (v.0 < size m) × (v.2 < size m)

pub present-lt : {n : ℕ} (o : Option NodeId) → Below n o → Yields (λ i. i < n) (present o)
present-lt none h = Yields-err _
present-lt (some i) h = Yields-ok i h

module _ {m : Model} (s : IsSound m) where
  owner_key-lt :
      (p : NodeId) (o : Option Bytes) → p < size m → Yields (λ w. w.0 < size m) (owner_key p o)
  owner_key-lt p none h = Yields-err _
  owner_key-lt p (some k) h = Yields-ok _ h

  parent_owner-lt :
      (t : NodeId) (o : Option NodeId)
      → Below (size m) o
      → Yields (λ w. w.0 < size m) (parent_owner m t o)
  unfolding parent_owner
  parent_owner-lt t none h = Yields-err _
  parent_owner-lt t (some p) h =
      Yields-if (p == t) _ _ (λ _. Yields-err _) (λ _. owner_key-lt p _ h)

  pub owner_of-lt : (t : NodeId) → Yields (λ w. w.0 < size m) (owner_of m t)
  unfolding owner_of
  owner_of-lt t =
      Yields-if (is_some (node m t).virtual_parent || is_some (node m t).mounted_by) _ _
        (λ _. Yields-err _) (λ _. parent_owner-lt t (node m t).parent (s.valid.at t).parent)

  pub linked_victim-IsVictim :
      (v : Victim) (t : NodeId)
      → IsVictim m v
      → t < size m
      → Yields (IsVictim m) (linked_victim m v t)
  unfolding linked_victim
  linked_victim-IsVictim v t h l =
      Yields-if (t == v.2) _ _ (λ _. Yields-ok _ h)
        (λ _. Yields-bind (λ w. w.0 < size m) _ _ (owner_of-lt t) λ w o. Yields-ok _ (o, l))

  trailing_victim-IsVictim :
      (is_rmdir : Bool) (v : Victim) (t : Trail)
      → IsVictim m v
      → IsTrail s.valid t
      → Yields (IsVictim m) (trailing_victim m is_rmdir v t)
  unfolding trailing_victim
  trailing_victim-IsVictim is_rmdir v missing h i = Yields-err _
  trailing_victim-IsVictim is_rmdir v (dangling p n) h i = Yields-err _
  trailing_victim-IsVictim is_rmdir v non_dir h i = Yields-err _
  trailing_victim-IsVictim is_rmdir v (Trail.dir t) h i =
      Yields-if is_rmdir _ _ (λ _. linked_victim-IsVictim v t h i.0) (λ _. Yields-err _)

  followed_victim-IsVictim :
      (start : Start) (path : Bytes) (is_rmdir trailing : Bool) (v : Victim)
      → IsVictim m v
      → Yields (IsVictim m) (followed_victim m start path is_rmdir trailing v)
  unfolding followed_victim
  followed_victim-IsVictim start path is_rmdir trailing v h =
      Yields-if (trailing && is_mac m) _ _
        (λ _.
          Yields-bind (IsTrail s.valid) _ _ (trail_mac-IsTrail s.valid start v.0 v.1 path h.0)
            λ t i. trailing_victim-IsVictim is_rmdir v t h i)
        (λ _. Yields-ok _ h)

  find_victim-IsVictim :
      (start : Start) (path : Bytes) (is_rmdir : Bool)
      → Yields (λ w. IsVictim m w.0) (find_victim m start path is_rmdir)
  unfolding find_victim
  find_victim-IsVictim start path is_rmdir =
      Yields-bind (λ t. IsPlace m t.0) _ _ (resolve_parent-IsPlace s.valid start path)
        λ t h.
          Yields-bind (λ i. i < size m) _ _ (present-lt _ (child-Below s.valid t.0 _))
            λ i l.
              Yields-bind (IsVictim m) _ _
                (followed_victim-IsVictim start path is_rmdir t.2 (t.0, _, i) (h.0, l))
                λ v w. Yields-ok _ w

  remove_victim-Steps :
      (is_rmdir : Bool) (v : Victim) → IsVictim m v → Steps m (remove_victim m is_rmdir v)
  unfolding remove_victim
  remove_victim-Steps false v h = one (Step.unlist v.0 v.1 h.0)
  remove_victim-Steps true v h = next (one (Step.unlist v.0 v.1 h.0)) (
      Step.kill v.2 (subst (λ k. v.2 < k) (sym (unfold remove_child in size-set_node m v.0 _)) h.1))

  pub unlink_impl-Steps :
      (start : Start) (path : Bytes) (is_rmdir : Bool)
      → Steps m (unlink_impl m start path is_rmdir).0
  unfolding unlink_impl unlink_found
  unlink_impl-Steps start path is_rmdir =
      if-Steps (is_root_operand path) (fail m _) (run m (unlink_found m start path is_rmdir)) stay (
        run-Steps _ (
          Yields-bind (λ w. IsVictim m w.0) _ _ (find_victim-IsVictim start path is_rmdir)
            λ w h.
              Yields-then (removable m is_rmdir w.1 w.0.2) _
                (Yields-ok _ (remove_victim-Steps is_rmdir w.0 h))))
