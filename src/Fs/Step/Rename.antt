-- ===== src/Fs/Step/Rename.antt =====
-- crates/world-fsmodel/src/lib.rs: the steps of `do_rename`, and its check on descendants.
use world.Prelude.{
  ◌<◌, ◌==◌, ◌≡◌, ◌≢◌, refl, Bool, true, false, ◌&&◌, ◌||◌, Option, none, some, arith,
}
use world.Bytes.{Bytes}
use world.Map.Order.{bytes_key, fd_key}
use world.Result
use world.Result.{Result, Errno, ok, err}
use world.Result.Yields.{
  Yields, Yields-ok, Yields-err, Yields-bind, Yields-guard, Yields-if, Yields-then, Yields-unit,
}
use world.Fs.Types.{NodeId, cwd, Model}
use world.Fs.Paths.{is_root_operand}
use world.Fs.Nodes.{check_live, is_dir, is_mac, child, is_descendant}
use world.Fs.Create.{Trail, missing, dangling, non_dir}
use world.Fs.Ops.Run.{run}
use world.Fs.Valid.{Below, size}
use world.Fs.Valid.Targets.{IsPlace, IsTrail, resolve_parent-IsPlace, trail_mac-IsTrail}
use world.Fs.Valid.Climb.{IsSound}
use world.Fs.Step.{Step, Steps, stay}
use world.Fs.Step.Rules.{run-Steps, if-Steps}
use world.Fs.Ops.Remove.{Victim}
use world.Fs.Ops.Rename.{
  rename_root, trailing_source, followed_source, find_source, names, trailing_target,
  followed_target, find_target, rename_allowed, replaceable, move_node, rename_onto, rename_names,
  do_rename,
}
use world.Fs.Step.Rules.{one}
use world.Fs.Valid.Lookups.{child-Below}
use world.Fs.Step.Remove.{IsVictim, present-lt, linked_victim-IsVictim, owner_of-lt}

-- A last check establishes what its test says.
only_guard-Yields :
    {P : Type 0} (b : Bool) (e : Errno) → (b ≡ true → P) → Yields (λ u. P) (Result.guard b e)
unfolding Result.guard
only_guard-Yields true e h = Yields-ok _ (h refl)
only_guard-Yields false e h = Yields-err e

-- Where a rename may put its node: not at the node itself, nor below it
abbrev IsFree : Model → Victim → NodeId → Type 0
IsFree m v t = (t ≢ v.2) × (is_descendant m v.2 t ≡ false)

rename_allowed-IsFree :
    (m : Model) (v : Victim) (trailing : Bool) (t : NodeId × Bytes × Bool)
    → Yields (λ u. IsFree m v t.0) (rename_allowed m (v, trailing) t)
unfolding rename_allowed
rename_allowed-IsFree m v trailing t = Yields-guard _ _ _ λ _.
    Yields-then (check_live m t.0) _
      (Yields-guard _ _ _ λ _. only_guard-Yields _ _ λ e. (ground (arith, e), ground (arith, e)))

module _ {m : Model} (s : IsSound m) where
  trailing_source-IsVictim :
      (v : Victim) (t : Trail)
      → IsVictim m v
      → IsTrail s.valid t
      → Yields (IsVictim m) (trailing_source m v t)
  unfolding trailing_source
  trailing_source-IsVictim v missing h i = Yields-err _
  trailing_source-IsVictim v (dangling p n) h i = Yields-err _
  trailing_source-IsVictim v non_dir h i = Yields-err _
  trailing_source-IsVictim v (Trail.dir t) h i = linked_victim-IsVictim s v t h i.0

  followed_source-IsVictim :
      (from : Bytes) (trailing : Bool) (v : Victim)
      → IsVictim m v
      → Yields (IsVictim m) (followed_source m from trailing v)
  unfolding followed_source
  followed_source-IsVictim from trailing v h =
      Yields-if (trailing && is_mac m) _ _
        (λ _.
          Yields-bind (IsTrail s.valid) _ _ (trail_mac-IsTrail s.valid cwd v.0 v.1 from h.0)
            λ t i. trailing_source-IsVictim v t h i)
        (λ _. Yields-ok _ h)

  find_source-IsVictim : (from : Bytes) → Yields (λ w. IsVictim m w.0) (find_source m from)
  unfolding find_source
  find_source-IsVictim from =
      Yields-bind (λ t. IsPlace m t.0) _ _ (resolve_parent-IsPlace s.valid cwd from)
        λ t h.
          Yields-bind (λ i. i < size m) _ _ (present-lt _ (child-Below s.valid t.0 _))
            λ i l.
              Yields-bind (IsVictim m) _ _ (followed_source-IsVictim from t.2 (t.0, _, i) (h.0, l))
                λ v w. Yields-ok _ w

  trailing_target-lt :
      (b : Bool) (parent : NodeId) (k : Bytes) (t : Trail)
      → parent < size m
      → IsTrail s.valid t
      → Yields (λ w. w.0 < size m) (trailing_target m b parent k t)
  unfolding trailing_target
  trailing_target-lt b parent k missing h i =
      Yields-if b _ _ (λ _. Yields-ok _ h) (λ _. Yields-err _)
  trailing_target-lt b parent k (dangling p n) h i =
      Yields-if b _ _ (λ _. Yields-ok _ i.0) (λ _. Yields-err _)
  trailing_target-lt b parent k non_dir h i = Yields-err _
  trailing_target-lt b parent k (Trail.dir t) h i =
      Yields-if (names (child m parent k) t) _ _ (λ _. Yields-ok _ h) (λ _. owner_of-lt s t)

  followed_target-lt :
      (to : Bytes) (b trailing : Bool) (parent : NodeId) (k : Bytes)
      → parent < size m
      → Yields (λ w. w.0 < size m) (followed_target m to b trailing parent k)
  unfolding followed_target
  followed_target-lt to b trailing parent k h =
      Yields-if (trailing && is_mac m) _ _
        (λ _.
          Yields-bind (IsTrail s.valid) _ _ (trail_mac-IsTrail s.valid cwd parent k to h)
            λ t i. trailing_target-lt b parent k t h i)
        (λ _. Yields-ok _ h)

  find_target-lt : (to : Bytes) (b : Bool) → Yields (λ w. w.0 < size m) (find_target m to b)
  unfolding find_target
  find_target-lt to b =
      Yields-bind (λ t. IsPlace m t.0) _ _ (resolve_parent-IsPlace s.valid cwd to)
        λ t h. Yields-guard _ _ _ λ _.
          Yields-bind (λ w. w.0 < size m) _ _ (followed_target-lt to b t.2 t.0 _ h.0)
            λ w l. Yields-ok _ l

  move-Steps :
      (v : Victim) (t : NodeId × Bytes × Bool) (existing : Option NodeId)
      → IsVictim m v
      → t.0 < size m
      → Below (size m) existing
      → IsFree m v t.0
      → Steps m (move_node m v t existing)
  move-Steps v t existing h l b f = one (Step.move v t existing h.0 h.1 l b f.0 f.1)

  rename_onto-Steps :
      (v : Victim) (t : NodeId × Bytes × Bool) (existing : Option NodeId)
      → IsVictim m v
      → t.0 < size m
      → Below (size m) existing
      → IsFree m v t.0
      → Yields (λ e. Steps m e.0) (rename_onto m v t existing)
  unfolding rename_onto
  rename_onto-Steps v t none h l b f = Yields-ok _ (move-Steps v t none h l b f)
  rename_onto-Steps v t (some e) h l b f =
      Yields-if (e == v.2) _ _ (λ _. Yields-ok _ stay)
        (λ _. Yields-then (replaceable m v.2 e) _ (Yields-ok _ (move-Steps v t (some e) h l b f)))

  rename_root-Steps : (from to : Bytes) → Yields (λ e. Steps m e.0) (rename_root m from to)
  unfolding rename_root
  rename_root-Steps from to = Yields-then _ _ (Yields-err _)

  rename_names-Steps : (from to : Bytes) → Yields (λ e. Steps m e.0) (rename_names m from to)
  unfolding rename_names
  rename_names-Steps from to =
      Yields-bind (λ w. IsVictim m w.0) _ _ (find_source-IsVictim from)
        λ w h.
          Yields-bind (λ t. t.0 < size m) _ _ (find_target-lt to (is_dir m w.0.2))
            λ t l.
              Yields-unit (λ u. IsFree m w.0 t.0) (rename_allowed m w t) _
                (rename_allowed-IsFree m w.0 w.1 t)
                λ f. rename_onto-Steps w.0 t _ h l (child-Below s.valid t.0 t.1) f

  pub do_rename-Steps : (from to : Bytes) → Steps m (do_rename m from to).0
  unfolding do_rename
  do_rename-Steps from to =
      if-Steps (is_root_operand from || is_root_operand to) (run m (rename_root m from to))
        (run m (rename_names m from to)) (run-Steps _ (rename_root-Steps from to))
        (run-Steps _ (rename_names-Steps from to))
