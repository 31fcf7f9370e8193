-- ===== src/Registry/Invariant.antt =====
-- crates/world-runtime/src/silo.rs: every operation leaves a sound registry, however it ends.
use world.Prelude.{◌≡◌, refl, subst, Bool, true, false, ◌||◌, not, Option, none, some, if_cases}
use world.Bytes.{Bytes}
use world.Map.{Map, get, insert, remove}
use world.Map.Order.{bytes_key}
use world.Registry.Types.{
  World, Record, Stored, Store, Act, done, pure, ensure, or_fail, unsupported, invalid_id, uses_vm,
  unknown_workspace, invalid_entry, bad_shape,
}
use world.Registry.Paths.{same_path, Host, third_ancestor, check_workdir, host_home, workdir_of}
use world.Registry.Records.{natives, checked_records, give, registry, get_vm}
use world.Registry.Roots.{root_owner, mark_root, allocate, temp_root}
use world.Registry.Create.{
  lacks, is_supported, is_valid_id, valid_world, workdir_moves, fill, save_if, refresh, enter_new,
  create_entry_for, create_in, complete, get_locked, get_in, keep_or_move, owned_temp_root,
}
use world.Registry.Logic.{or_fail-done, pure-Keeps, ensure-Keeps, or_fail-Keeps, bind-Keeps}
use world.Registry.Marks.{give-Keeps, registry-Keeps, get_vm-Keeps}
use world.Registry.Claims.{
  host_home-Keeps, workdir_of-Keeps, root_owner-Keeps, mark_root-Keeps, allocate-Keeps,
  temp_root-Keeps,
}
use world.Registry.Steps.{
  Operation, create, find, own, perform, entry_at, moved_entry, check_workdir-Keeps,
  workdir_moves-Keeps, fill-Keeps,
}
use world.Registry.Owners.{allocate-IsPlace}
use world.Registry.Worlds.{AreWorlds, IsRegistry, insert-AreWorlds, registry-done}
use world.Registry.Sound.{
  Sound, frozen-Sound, past-Sound, past_seq-Sound, saved-Sound, valid_world-moved, get-removed,
  unused-IsFree, fill-IsFilled, filled-AreWorlds, workdir_moves-done,
}

module _ (host : Host) where
  save_if-Sound :
      (b : Bool) (id : Bytes) (worlds : Map Bytes World) (w : World) (s : Store)
      → AreWorlds (insert id w worlds)
      → IsRegistry s
      → Sound (save_if host b id worlds w) s
  save_if-Sound true id worlds w s a r =
      saved-Sound host (insert id w worlds) (pure w) s a r (pure-Keeps w)
  save_if-Sound false id worlds w s a r = frozen-Sound (pure w) s (pure-Keeps w) r

  refresh-Sound :
      (id workdir : Bytes) (worlds : Map Bytes World) (old : World) (s : Store)
      → AreWorlds worlds
      → get id worlds ≡ some old
      → IsRegistry s
      → Sound (refresh host id workdir worlds old) s
  refresh-Sound id workdir worlds old s a g r =
      past-Sound (workdir_moves host old workdir) _ s (workdir_moves-Keeps host old workdir) r
        λ w t h i. past-Sound (fill host id worlds w) _ t (fill-Keeps host id worlds w) i λ v u k j.
          let (e, f) = workdir_moves-done host old w workdir s t h in
          save_if-Sound (not (same_path old.workdir workdir) || lacks w.temp_root) id worlds v u
            (filled-AreWorlds host id old w v worlds worlds a a g (λ _ _ x. x) e f
              (fill-IsFilled host id w v worlds t u k))
            j

  enter_new-Sound :
      (id workdir : Bytes) (worlds : Map Bytes World) (s : Store)
      → AreWorlds worlds
      → IsRegistry s
      → Sound (enter_new host id workdir worlds) s
  enter_new-Sound id workdir worlds s a r =
      past-Sound (host_home host) _ s (host_home-Keeps host) r λ home t _ i.
        past-Sound (root_owner host id) _ t (root_owner-Keeps host id) i λ owner u _ j.
          past-Sound (allocate host worlds home owner) _ u (allocate-Keeps host worlds home owner) j
            λ place v h k.
              let found = allocate-IsPlace host worlds home owner place u v h in
              let w = entry_at id workdir place in
              saved-Sound host (insert id w worlds) (pure w) v
                (insert-AreWorlds id w worlds a
                  (valid_world-moved w id found.number refl found.address)
                  (unused-IsFree id w worlds found.unused))
                k (pure-Keeps w)

  create_entry_for-Sound :
      (id workdir : Bytes) (worlds : Map Bytes World) (o : Option World) (s : Store)
      → AreWorlds worlds
      → get id worlds ≡ o
      → IsRegistry s
      → Sound (create_entry_for host id workdir worlds o) s
  create_entry_for-Sound id workdir worlds none s a g r = enter_new-Sound id workdir worlds s a r
  create_entry_for-Sound id workdir worlds (some old) s a g r =
      refresh-Sound id workdir worlds old s a g r

  -- The entries that are read are those of the registry.
  read-AreWorlds :
      (worlds : Map Bytes World) (s t : Store)
      → registry s ≡ (done worlds, t)
      → IsRegistry s
      → AreWorlds worlds
  read-AreWorlds worlds s t h r = subst AreWorlds (registry-done worlds s t h).0 r

  create_in-Sound : (id path : Bytes) (s : Store) → IsRegistry s → Sound (create_in host id path) s
  unfolding create_in
  create_in-Sound id path s r =
      past_seq-Sound (ensure (is_supported host.target) unsupported) _ s
        (ensure-Keeps (is_supported host.target) unsupported) r
        λ a _ ra.
          past_seq-Sound (ensure (is_valid_id id) invalid_id) _ a
            (ensure-Keeps (is_valid_id id) invalid_id) ra
            λ b _ rb.
              past-Sound (workdir_of host path) _ b (workdir_of-Keeps host path) rb
                λ workdir c _ rc.
                  past_seq-Sound (check_workdir host workdir) _ c (check_workdir-Keeps host workdir)
                    rc
                    λ d _ rd. past-Sound registry _ d registry-Keeps rd λ worlds e h re.
                      past-Sound (get_vm id) _ e (get_vm-Keeps id) re λ v f _ rf.
                        past_seq-Sound (ensure (lacks v) uses_vm) _ f
                          (ensure-Keeps (lacks v) uses_vm) rf
                          λ g _ rg.
                            create_entry_for-Sound id workdir worlds (get id worlds) g
                              (read-AreWorlds worlds d e h rd) refl rg

  remove-AreWorlds :
      (id : Bytes) (worlds : Map Bytes World) → AreWorlds worlds → AreWorlds (remove id worlds)
  remove-AreWorlds id worlds a = record {
    named = λ k w g. a.named k w (there k w g);
    apart = λ k l w v g h. a.apart k l w v (there k w g) (there l v h);
  }
    where
      there : (k : Bytes) (w : World) → get k (remove id worlds) ≡ some w → get k worlds ≡ some w
      there k w g = get-removed id k w worlds g

  complete-Sound :
      (id : Bytes) (worlds : Map Bytes World) (old : World) (s : Store)
      → AreWorlds worlds
      → get id worlds ≡ some old
      → IsRegistry s
      → Sound (complete host id (remove id worlds) old) s
  complete-Sound id worlds old s a g r =
      if_cases (λ (m : Act World). Sound m s) (not (lacks old.temp_root)) (pure old) _
        (λ _. frozen-Sound (pure old) s (pure-Keeps old) r)
        λ _.
          past-Sound (fill host id (remove id worlds) old) _ s
            (fill-Keeps host id (remove id worlds) old) r
            λ v t h i.
              saved-Sound host (insert id v (remove id worlds)) (pure v) t
                (filled-AreWorlds host id old old v worlds (remove id worlds) a
                  (remove-AreWorlds id worlds a) g (λ other u e. get-removed id other u worlds e)
                  refl refl (fill-IsFilled host id old v (remove id worlds) s t h))
                i (pure-Keeps v)

  get_locked-Sound : (id : Bytes) (s : Store) → IsRegistry s → Sound (get_locked host id) s
  get_locked-Sound id s r = past-Sound registry _ s registry-Keeps r λ worlds t h i.
      past-Sound (or_fail (get id worlds) unknown_workspace) _ t
        (or_fail-Keeps (get id worlds) unknown_workspace) i
        λ w u k j.
          past_seq-Sound (ensure (valid_world w id) invalid_entry) _ u
            (ensure-Keeps (valid_world w id) invalid_entry) j
            λ v _ l.
              complete-Sound id worlds w v (read-AreWorlds worlds s t h r)
                (or_fail-done (get id worlds) unknown_workspace t u w k).0 l

  get_in-Sound :
      (seen : Stored (Map Bytes Record)) (id : Bytes) (s : Store)
      → IsRegistry s
      → Sound (get_in host seen id) s
  unfolding get_in
  get_in-Sound seen id s r =
      past-Sound (give (checked_records seen)) _ s (give-Keeps (checked_records seen)) r λ m t _ i.
        past-Sound (or_fail (get id (natives m)) unknown_workspace) _ t
          (or_fail-Keeps (get id (natives m)) unknown_workspace) i
          λ w u _ j.
            past_seq-Sound (ensure (valid_world w id) invalid_entry) _ u
              (ensure-Keeps (valid_world w id) invalid_entry) j
              λ v _ l.
                if_cases (λ (n : Act World). Sound n v) (lacks w.temp_root) (get_locked host id)
                  (pure w) (λ _. get_locked-Sound id v l)
                  λ _. frozen-Sound (pure w) v (pure-Keeps w) l

  keep_or_move-Sound :
      (worlds : Map Bytes World) (w : World) (root owner : Bytes) (b : Bool) (s : Store)
      → AreWorlds worlds
      → IsRegistry s
      → Sound (keep_or_move host worlds w root owner b) s
  keep_or_move-Sound worlds w root owner true s a r =
      frozen-Sound (pure (w, root)) s (pure-Keeps (w, root)) r
  keep_or_move-Sound worlds w root owner false s a r =
      past-Sound (or_fail (third_ancestor root) bad_shape) _ s
        (or_fail-Keeps (third_ancestor root) bad_shape) r
        λ home t _ i.
          past-Sound (allocate host worlds home owner) _ t (allocate-Keeps host worlds home owner) i
            λ place u h j.
              let found = allocate-IsPlace host worlds home owner place t u h in
              let entry = moved_entry w home place in
              saved-Sound host (insert w.id entry worlds) _ u
                (insert-AreWorlds w.id entry worlds a
                  (valid_world-moved entry w.id found.number refl found.address)
                  (unused-IsFree w.id entry worlds found.unused))
                j
                (bind-Keeps (temp_root host entry) _ (temp_root-Keeps host entry)
                  λ again. pure-Keeps (entry, again))

  owned_temp_root-Sound :
      (world : World) (s : Store) → IsRegistry s → Sound (owned_temp_root host world) s
  unfolding owned_temp_root
  owned_temp_root-Sound world s r = past-Sound registry _ s registry-Keeps r λ worlds a h ra.
      past-Sound (or_fail (get world.id worlds) unknown_workspace) _ a
        (or_fail-Keeps (get world.id worlds) unknown_workspace) ra
        λ stored b _ rb.
          past_seq-Sound (ensure (valid_world stored world.id) invalid_entry) _ b
            (ensure-Keeps (valid_world stored world.id) invalid_entry) rb
            λ c _ rc.
              past-Sound (temp_root host stored) _ c (temp_root-Keeps host stored) rc λ root d _ rd.
                past-Sound (root_owner host stored.id) _ d (root_owner-Keeps host stored.id) rd
                  λ owner e _ re.
                    past-Sound (mark_root host root owner) _ e (mark_root-Keeps host root owner) re
                      λ owned f _ rf.
                        keep_or_move-Sound worlds stored root owner owned f
                          (read-AreWorlds worlds s a h r) rf

-- `create_in`, `get_in` and `owned_temp_root` keep the registry sound, whether they succeed or fail, and
-- whatever the kernel answers: each entry stands under its own identifier, with an address in 127.77/16
-- that no other entry of the registry has.
pub perform-IsRegistry :
    (host : Host) (o : Operation) (s : Store) → IsRegistry s → IsRegistry (perform host o s)
unfolding perform
perform-IsRegistry host (create id path) s r = create_in-Sound host id path s r
perform-IsRegistry host (find seen id) s r = get_in-Sound host seen id s r
perform-IsRegistry host (own world) s r = owned_temp_root-Sound host world s r
