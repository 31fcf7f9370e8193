-- ===== src/Registry/Create.antt =====
-- crates/world-runtime/src/silo.rs: the operations on a workspace's entry. Each runs under the lock of the
-- registry, and is one action here; only `get_in` looks at the file before it takes the lock.
use world.Prelude.{
  ◌==◌, ltb, Bool, true, false, ◌&&◌, ◌||◌, not, Option, none, some, length, is_empty,
  if◌then◌else◌,
}
use world.Bytes.{Bytes, beq, contains}
use world.Map.{Map, get, insert, remove}
use world.Map.Order.{bytes_key}
use world.Registry.Types.{
  World, Record, Stored, Act, unsupported, invalid_id, other_workdir, uses_vm, unknown_workspace,
  invalid_entry, bad_shape, pure, ensure, or_fail, ◌>>=◌, ◌>>◌,
}
use world.Registry.Paths.{
  same_path, Host, Platform, macos, linux, other, root_for, third_ancestor, check_workdir,
  stale_workdir, host_home, workdir_of,
}
use world.Registry.Records.{natives, checked_records, give, registry, get_vm, save}
use world.Registry.Roots.{root_owner, mark_root, allocate, fill_temp_root, temp_root, moved}

abbrev pub lacks : {A : Type 0} → Option A → Bool
lacks none = true
lacks (some a) = false

abbrev pub is_supported : Platform → Bool
is_supported other = false
is_supported macos = true
is_supported linux = true

unfoldable pub is_valid_id : Bytes → Bool
is_valid_id id = not (
    is_empty id || ltb 128 (length id) || (contains 0 id || contains b'\r' id || contains b'\n' id))

-- `valid`
unfoldable pub valid_world : World → Bytes → Bool
valid_world w id = beq w.id id && (w.ip.first == 127 && w.ip.second == 77)

module _ (host : Host) where
  abbrev pub workdir_moves : World → Bytes → Act World
  workdir_moves w workdir = if same_path w.workdir workdir then pure w else do
    ensure (stale_workdir host w.workdir) other_workdir
    pure (record w { workdir = workdir })

  abbrev pub fill : Bytes → Map Bytes World → World → Act World
  fill id worlds w = if not (lacks w.temp_root) then pure w else do
    home ← host_home host
    owner ← root_owner host id
    fill_temp_root host w worlds home owner

  abbrev pub save_if : Bool → Bytes → Map Bytes World → World → Act World
  save_if true id worlds w = do save host.persistence (insert id w worlds); pure w
  save_if false id worlds w = pure w

  -- An entry that is there: `dirty` where its workdir has moved or its temp root was missing
  abbrev pub refresh : Bytes → Bytes → Map Bytes World → World → Act World
  refresh id workdir worlds old = do
    w ← workdir_moves old workdir
    filled ← fill id worlds w
    save_if (not (same_path old.workdir workdir) || lacks w.temp_root) id worlds filled

  abbrev pub enter_new : Bytes → Bytes → Map Bytes World → Act World
  enter_new id workdir worlds = do
    home ← host_home host
    owner ← root_owner host id
    place ← allocate host worlds home owner
    let w : World =
        moved (record { id = id; ip = place.0; workdir = workdir; temp_root = none }) place
    save host.persistence (insert id w worlds)
    pure w

  abbrev pub create_entry_for : Bytes → Bytes → Map Bytes World → Option World → Act World
  create_entry_for id workdir worlds none = enter_new id workdir worlds
  create_entry_for id workdir worlds (some old) = refresh id workdir worlds old

  unfoldable pub create_in : Bytes → Bytes → Act World
  unfolding root_owner fill_temp_root allocate registry get_vm save workdir_of check_workdir
      host_home stale_workdir is_valid_id ◌>>=◌
  create_in id path = do
    ensure (is_supported host.target) unsupported
    ensure (is_valid_id id) invalid_id
    workdir ← workdir_of host path
    check_workdir host workdir
    worlds ← registry
    v ← get_vm id
    ensure (lacks v) uses_vm
    create_entry_for id workdir worlds (get id worlds)

  -- Under the lock, of a legacy entry
  abbrev pub complete : Bytes → Map Bytes World → World → Act World
  complete id worlds w = if not (lacks w.temp_root) then pure w else do
    filled ← fill id worlds w
    save host.persistence (insert id filled worlds)
    pure filled

  abbrev pub get_locked : Bytes → Act World
  get_locked id = do
    worlds ← registry
    w ← or_fail (get id worlds) unknown_workspace
    ensure (valid_world w id) invalid_entry
    complete id (remove id worlds) w

  -- `seen` is the file as it is read before the lock is taken.
  unfoldable pub get_in : Stored (Map Bytes Record) → Bytes → Act World
  unfolding root_owner fill_temp_root registry natives save host_home valid_world ◌>>=◌
  get_in seen id = do
    m ← give (checked_records seen)
    w ← or_fail (get id (natives m)) unknown_workspace
    ensure (valid_world w id) invalid_entry
    if lacks w.temp_root then get_locked id else pure w

  abbrev pub keep_or_move : Map Bytes World → World → Bytes → Bytes → Bool → Act (World × Bytes)
  keep_or_move worlds w root owner true = pure (w, root)
  keep_or_move worlds w root owner false = do
    home ← or_fail (third_ancestor root) bad_shape
    place ← allocate host worlds home owner
    let next_world : World = moved w (place.0, root_for home place.0)
    save host.persistence (insert w.id next_world worlds)
    again ← temp_root host next_world
    pure (next_world, again)

  unfoldable pub owned_temp_root : World → Act (World × Bytes)
  unfolding root_owner mark_root allocate registry save temp_root third_ancestor root_for
      valid_world ◌>>=◌
  owned_temp_root world = do
    worlds ← registry
    stored ← or_fail (get world.id worlds) unknown_workspace
    ensure (valid_world stored world.id) invalid_entry
    root ← temp_root host stored
    owner ← root_owner host stored.id
    owned ← mark_root host root owner
    keep_or_move worlds stored root owner owned
