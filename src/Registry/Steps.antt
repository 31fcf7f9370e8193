-- ===== src/Registry/Steps.antt =====
-- crates/world-runtime/src/silo.rs: the operations as steps of all registries under one home, which share
-- the disk. Each step is a whole operation: registries with different state directories have different
-- locks, and operations of theirs that overlap are no runs here.
use world.Prelude.{◌≡◌, sym, subst, Bool, true, false, ◌||◌, not, Option, none, some}
use world.Bytes.{Bytes}
use world.Map.{Map, get, insert, remove}
use world.Map.Order.{bytes_key}
use world.Registry.Types.{
  Ipv4Addr, World, Record, Stored, Store, unsupported, invalid_id, other_workdir, uses_vm,
  unknown_workspace, invalid_entry, bad_shape, pure, ensure, or_fail, ◌>>◌,
}
use world.Registry.Paths.{
  same_path, Host, root_for, third_ancestor, check_workdir, stale_workdir, host_home, workdir_of,
}
use world.Registry.Records.{natives, checked_records, give, registry, get_vm, save}
use world.Registry.Roots.{root_owner, mark_root, allocate, temp_root, moved}
use world.Registry.Create.{
  lacks, is_supported, is_valid_id, valid_world, workdir_moves, fill, save_if, refresh, enter_new,
  create_entry_for, create_in, complete, get_locked, get_in, keep_or_move, owned_temp_root,
}
use world.Registry.Logic.{
  Extends, Keeps, bind-Keeps, seq-Keeps, pure-Keeps, ensure-Keeps, or_fail-Keeps, if-Keeps,
}
use world.Registry.Marks.{give-Keeps, registry-Keeps, get_vm-Keeps, save-Keeps}
use world.Registry.Claims.{
  host_home-Keeps, workdir_of-Keeps, reject_shared_temp-Keeps, root_owner-Keeps, mark_root-Keeps,
  allocate-Keeps, fill_temp_root-Keeps, temp_root-Keeps,
}

-- The entry of a new workspace
abbrev pub entry_at : Bytes → Bytes → Ipv4Addr × Bytes → World
entry_at id workdir place =
    moved (record { id = id; ip = place.0; workdir = workdir; temp_root = none }) place

-- The entry of a workspace that moves to another address
abbrev pub moved_entry : World → Bytes → Ipv4Addr × Bytes → World
moved_entry w home place = moved w (place.0, root_for home place.0)

module _ (host : Host) where
  pub check_workdir-Keeps : {frozen : Bool} (dir : Bytes) → Keeps frozen (check_workdir host dir)
  unfolding check_workdir
  check_workdir-Keeps dir = reject_shared_temp-Keeps host dir

  pub workdir_moves-Keeps :
      {frozen : Bool} (w : World) (workdir : Bytes) → Keeps frozen (workdir_moves host w workdir)
  workdir_moves-Keeps w workdir = if-Keeps (same_path w.workdir workdir) (pure w) _ (pure-Keeps w) (
      seq-Keeps (ensure (stale_workdir host w.workdir) other_workdir)
        (pure (record w { workdir = workdir }))
        (ensure-Keeps (stale_workdir host w.workdir) other_workdir)
        (pure-Keeps (record w { workdir = workdir })))

  pub fill-Keeps :
      {frozen : Bool} (id : Bytes) (worlds : Map Bytes World) (w : World)
      → Keeps frozen (fill host id worlds w)
  fill-Keeps id worlds w = if-Keeps (not (lacks w.temp_root)) (pure w) _ (pure-Keeps w) (
      bind-Keeps (host_home host) _ (host_home-Keeps host) λ home.
        bind-Keeps (root_owner host id) _ (root_owner-Keeps host id)
          λ owner. fill_temp_root-Keeps host w worlds home owner)

  saved-Keeps :
      (worlds : Map Bytes World) (w : World) → Keeps false (save host.persistence worlds >> pure w)
  saved-Keeps worlds w =
      seq-Keeps (save host.persistence worlds) (pure w) (save-Keeps host.persistence worlds)
        (pure-Keeps w)

  save_if-Keeps :
      (b : Bool) (id : Bytes) (worlds : Map Bytes World) (w : World)
      → Keeps false (save_if host b id worlds w)
  save_if-Keeps true id worlds w = saved-Keeps (insert id w worlds) w
  save_if-Keeps false id worlds w = pure-Keeps w

  refresh-Keeps :
      (id workdir : Bytes) (worlds : Map Bytes World) (old : World)
      → Keeps false (refresh host id workdir worlds old)
  refresh-Keeps id workdir worlds old =
      bind-Keeps (workdir_moves host old workdir) _ (workdir_moves-Keeps old workdir) λ w.
        bind-Keeps (fill host id worlds w) _ (fill-Keeps id worlds w) λ filled.
          save_if-Keeps (not (same_path old.workdir workdir) || lacks w.temp_root) id worlds filled

  enter_new-Keeps :
      (id workdir : Bytes) (worlds : Map Bytes World)
      → Keeps false (enter_new host id workdir worlds)
  enter_new-Keeps id workdir worlds = bind-Keeps (host_home host) _ (host_home-Keeps host) λ home.
      bind-Keeps (root_owner host id) _ (root_owner-Keeps host id) λ owner.
        bind-Keeps (allocate host worlds home owner) _ (allocate-Keeps host worlds home owner)
          λ place.
            saved-Keeps (insert id (entry_at id workdir place) worlds) (entry_at id workdir place)

  create_entry_for-Keeps :
      (id workdir : Bytes) (worlds : Map Bytes World) (o : Option World)
      → Keeps false (create_entry_for host id workdir worlds o)
  create_entry_for-Keeps id workdir worlds none = enter_new-Keeps id workdir worlds
  create_entry_for-Keeps id workdir worlds (some old) = refresh-Keeps id workdir worlds old

  create_in-Keeps : (id path : Bytes) → Keeps false (create_in host id path)
  unfolding create_in
  create_in-Keeps id path =
      seq-Keeps (ensure (is_supported host.target) unsupported) _
        (ensure-Keeps (is_supported host.target) unsupported)
        (seq-Keeps (ensure (is_valid_id id) invalid_id) _ (ensure-Keeps (is_valid_id id) invalid_id)
          (bind-Keeps (workdir_of host path) _ (workdir_of-Keeps host path) λ workdir.
            seq-Keeps (check_workdir host workdir) _ (check_workdir-Keeps workdir) (
              bind-Keeps registry _ registry-Keeps λ worlds.
                bind-Keeps (get_vm id) _ (get_vm-Keeps id) λ v.
                  seq-Keeps (ensure (lacks v) uses_vm) _ (ensure-Keeps (lacks v) uses_vm)
                    (create_entry_for-Keeps id workdir worlds (get id worlds)))))

  complete-Keeps :
      (id : Bytes) (worlds : Map Bytes World) (w : World) → Keeps false (complete host id worlds w)
  complete-Keeps id worlds w = if-Keeps (not (lacks w.temp_root)) (pure w) _ (pure-Keeps w) (
      bind-Keeps (fill host id worlds w) _ (fill-Keeps id worlds w)
        λ filled. saved-Keeps (insert id filled worlds) filled)

  get_locked-Keeps : (id : Bytes) → Keeps false (get_locked host id)
  get_locked-Keeps id = bind-Keeps registry _ registry-Keeps λ worlds.
      bind-Keeps (or_fail (get id worlds) unknown_workspace) _
        (or_fail-Keeps (get id worlds) unknown_workspace)
        λ w.
          seq-Keeps (ensure (valid_world w id) invalid_entry) _
            (ensure-Keeps (valid_world w id) invalid_entry) (complete-Keeps id (remove id worlds) w)

  get_in-Keeps : (seen : Stored (Map Bytes Record)) (id : Bytes) → Keeps false (get_in host seen id)
  unfolding get_in
  get_in-Keeps seen id =
      bind-Keeps (give (checked_records seen)) _ (give-Keeps (checked_records seen)) λ m.
        bind-Keeps (or_fail (get id (natives m)) unknown_workspace) _
          (or_fail-Keeps (get id (natives m)) unknown_workspace)
          λ w.
            seq-Keeps (ensure (valid_world w id) invalid_entry) _
              (ensure-Keeps (valid_world w id) invalid_entry)
              (if-Keeps (lacks w.temp_root) (get_locked host id) (pure w) (get_locked-Keeps id)
                (pure-Keeps w))

  keep_or_move-Keeps :
      (worlds : Map Bytes World) (w : World) (root owner : Bytes) (b : Bool)
      → Keeps false (keep_or_move host worlds w root owner b)
  keep_or_move-Keeps worlds w root owner true = pure-Keeps (w, root)
  keep_or_move-Keeps worlds w root owner false =
      bind-Keeps (or_fail (third_ancestor root) bad_shape) _
        (or_fail-Keeps (third_ancestor root) bad_shape)
        λ home.
          bind-Keeps (allocate host worlds home owner) _ (allocate-Keeps host worlds home owner)
            λ place.
              seq-Keeps (save host.persistence (insert w.id (moved_entry w home place) worlds)) _
                (save-Keeps host.persistence (insert w.id (moved_entry w home place) worlds))
                (bind-Keeps (temp_root host (moved_entry w home place)) _
                  (temp_root-Keeps host (moved_entry w home place))
                  λ again. pure-Keeps (moved_entry w home place, again))

  owned_temp_root-Keeps : (world : World) → Keeps false (owned_temp_root host world)
  unfolding owned_temp_root
  owned_temp_root-Keeps world = bind-Keeps registry _ registry-Keeps λ worlds.
      bind-Keeps (or_fail (get world.id worlds) unknown_workspace) _
        (or_fail-Keeps (get world.id worlds) unknown_workspace)
        λ stored.
          seq-Keeps (ensure (valid_world stored world.id) invalid_entry) _
            (ensure-Keeps (valid_world stored world.id) invalid_entry)
            (bind-Keeps (temp_root host stored) _ (temp_root-Keeps host stored) λ root.
              bind-Keeps (root_owner host stored.id) _ (root_owner-Keeps host stored.id) λ owner.
                bind-Keeps (mark_root host root owner) _ (mark_root-Keeps host root owner)
                  λ owned. keep_or_move-Keeps worlds stored root owner owned)

-- The operations, of any registry
pub data Operation : Type 0 where
  create : (id path : Bytes) → Operation
  find : (seen : Stored (Map Bytes Record)) (id : Bytes) → Operation
  own : World → Operation

unfoldable pub perform : Host → Operation → Store → Store
unfolding create_in get_in owned_temp_root
perform host (create id path) s = (create_in host id path s).1
perform host (find seen id) s = (get_in host seen id s).1
perform host (own world) s = (owned_temp_root host world s).1

pub perform-Extends : (host : Host) (o : Operation) (s : Store) → Extends false s (perform host o s)
unfolding perform
perform-Extends host (create id path) s = (create_in-Keeps host id path).kept s
perform-Extends host (find seen id) s = (get_in-Keeps host seen id).kept s
perform-Extends host (own world) s = (owned_temp_root-Keeps host world).kept s

abbrev pub Disk : Type 0
Disk = Map Bytes (Option Bytes)

-- What any sequence of operations, each of any registry, makes of the disk
pub data Run : Disk → Disk → Type 0 where
  here : {d : Disk} → Run d d
  step :
      {d e : Disk} (host : Host) (o : Operation) (s : Store)
      → s.disk ≡ d
      → Run (perform host o s).disk e
      → Run d e

pub Run-marks :
    {d e : Disk} (root text : Bytes)
    → Run d e
    → get root d ≡ some (some text)
    → get root e ≡ some (some text)
Run-marks root text here h = h
Run-marks root text (step host o s same run) h = Run-marks root text run (
    (perform-Extends host o s).marks root text
      (subst (λ d. get root d ≡ some (some text)) (sym same) h))
