-- ===== src/Registry/Claims.antt =====
-- crates/world-runtime/src/silo.rs: no claim of a temp root takes a marker away.
use world.Prelude.{
  ℕ, zero, suc, ◌≡◌, refl, Bool, true, false, ◌||◌, ◌&&◌, not, Option, none, some, reverse,
}
use world.Bytes.{Bytes, codes, beq, real_components}
use world.Map.{Map}
use world.Map.Order.{bytes_key}
use world.Proxy.Prepare.{hex}
use world.Registry.Types.{
  Ipv4Addr, World, Stored, absent, unreadable, holds, Store, Act, root_unavailable, unusable_root,
  no_temp_root, bad_shape, no_home, bad_workdir, pool_exhausted, invalid_registry_id,
  below_shared_temp, pure, ensure, or_fail,
}
use world.Registry.Paths.{
  plain_path, same_path, Host, root_for, ip_name, third_ancestor, check_root, new_root,
  is_normalized, reject_shared_temp, canonical_of, host_home, holds_home, workdir_of,
}
use world.Registry.Records.{hex_id}
use world.Registry.Roots.{
  ip_at, when_owned, has_shape, by_registry_id, registry_id, root_owner, temp_root_in, mark_root,
  is_unmarked_root, claim_marked, claim_root, or_next, allocate_from, allocate, or_moved,
  fill_temp_root, temp_root,
}
use world.Registry.Logic.{
  Extends, Extends-refl, Keeps, bind-Keeps, seq-Keeps, pure-Keeps, bail-Keeps, ensure-Keeps,
  or_fail-Keeps, if-Keeps,
}
use world.Registry.Marks.{by_building-Keeps, by_marking-Extends, persist_id-Extends}

module _ (host : Host) where
  pub reject_shared_temp-Keeps :
      {frozen : Bool} (p : Bytes) → Keeps frozen (reject_shared_temp host p)
  unfolding reject_shared_temp
  reject_shared_temp-Keeps p = ensure-Keeps _ below_shared_temp

  pub host_home-Keeps : {frozen : Bool} → Keeps frozen (host_home host)
  unfolding host_home
  host_home-Keeps =
      bind-Keeps (or_fail (canonical_of host host.home_var) no_home) _ (or_fail-Keeps _ no_home)
        λ home.
          seq-Keeps (reject_shared_temp host home) _ (reject_shared_temp-Keeps home)
            (pure-Keeps home)

  pub workdir_of-Keeps : {frozen : Bool} (path : Bytes) → Keeps frozen (workdir_of host path)
  unfolding workdir_of
  workdir_of-Keeps path =
      bind-Keeps (or_fail (host.canonicalize path) bad_workdir) _ (or_fail-Keeps _ bad_workdir)
        λ dir.
          seq-Keeps (ensure (host.is_directory dir) bad_workdir) _
            (ensure-Keeps (host.is_directory dir) bad_workdir)
            (seq-Keeps (ensure (is_dedicated dir) bad_workdir) (pure dir)
              (ensure-Keeps (is_dedicated dir) bad_workdir) (pure-Keeps dir))
    where
      is_dedicated : Bytes → Bool
      is_dedicated dir =
          not (beq dir (codes "/") || holds_home host dir (canonical_of host host.home_var))

  check_root-Keeps : {frozen : Bool} (root : Bytes) → Keeps frozen (check_root host root)
  unfolding check_root
  check_root-Keeps root = ensure-Keeps _ unusable_root

  new_root-Keeps :
      {frozen : Bool} (home : Bytes) (ip : Ipv4Addr) → Keeps frozen (new_root host home ip)
  unfolding new_root
  new_root-Keeps home ip =
      seq-Keeps (check_root host (root_for home ip)) _ (check_root-Keeps (root_for home ip))
        (pure-Keeps (root_for home ip))

  registry_id-Keeps : {frozen : Bool} → Keeps frozen (registry_id host)
  unfolding registry_id
  registry_id-Keeps {frozen = frozen} = record { kept = λ s. by_file s s.id_file refl }
    where
      by_file :
          (s : Store) (f : Stored Bytes)
          → s.id_file ≡ f
          → Extends frozen s (by_registry_id host f s).1
      by_file s absent g = persist_id-Extends host.persistence (hex host.random) s g
      by_file s unreadable g = (bail-Keeps Bytes invalid_registry_id).kept s
      by_file s (holds id) g =
          (seq-Keeps (ensure (hex_id id) invalid_registry_id) (pure id)
              (ensure-Keeps (hex_id id) invalid_registry_id) (pure-Keeps id)).kept
            s

  pub root_owner-Keeps : {frozen : Bool} (id : Bytes) → Keeps frozen (root_owner host id)
  unfolding root_owner
  root_owner-Keeps id = bind-Keeps (registry_id host) _ registry_id-Keeps λ r. pure-Keeps _

  temp_root_in-Keeps :
      {frozen : Bool} (home : Bytes) (ip : Ipv4Addr) → Keeps frozen (temp_root_in host home ip)
  unfolding temp_root_in
  temp_root_in-Keeps home ip = by_building-Keeps (host.builds home ip) (root_for home ip)

  pub mark_root-Keeps :
      {frozen : Bool} (root owner : Bytes) → Keeps frozen (mark_root host root owner)
  unfolding mark_root
  mark_root-Keeps root owner = record {
    kept = λ s. by_marking-Extends (host.marks root) (plain_path root) owner _ s refl;
  }

  claim_marked-Keeps :
      {frozen : Bool} (home : Bytes) (ip : Ipv4Addr) (owner root : Bytes) (b : Bool)
      → Keeps frozen (claim_marked host home ip owner root b)
  claim_marked-Keeps home ip owner root true = pure-Keeps none
  claim_marked-Keeps home ip owner root false =
      bind-Keeps (temp_root_in host home ip) _ (temp_root_in-Keeps home ip) λ _.
        bind-Keeps (mark_root host root owner) _ (mark_root-Keeps root owner)
          λ owned. pure-Keeps (when_owned root owned)

  is_unmarked_root-Keeps :
      {frozen : Bool} (root : Bytes) → Keeps frozen (is_unmarked_root host root)
  is_unmarked_root-Keeps root = record { kept = λ s. Extends-refl s }

  claim_root-Keeps :
      {frozen : Bool} (home : Bytes) (ip : Ipv4Addr) (owner : Bytes)
      → Keeps frozen (claim_root host home ip owner)
  unfolding claim_root
  claim_root-Keeps home ip owner =
      bind-Keeps (new_root host home ip) _ (new_root-Keeps home ip) λ root.
        bind-Keeps (is_unmarked_root host root) _ (is_unmarked_root-Keeps root)
          λ u. claim_marked-Keeps home ip owner root u

  or_next-Keeps :
      {frozen : Bool} (ip : Ipv4Addr) (more : Act (Ipv4Addr × Bytes)) (o : Option Bytes)
      → Keeps frozen more
      → Keeps frozen (or_next host ip more o)
  or_next-Keeps ip more (some root) h = pure-Keeps (ip, root)
  or_next-Keeps ip more none h = h

  allocate_from-Keeps :
      {frozen : Bool} (worlds : Map Bytes World) (home owner : Bytes) (rounds n : ℕ)
      → Keeps frozen (allocate_from host worlds home owner rounds n)
  unfolding allocate_from
  allocate_from-Keeps worlds home owner zero n = bail-Keeps _ pool_exhausted
  allocate_from-Keeps worlds home owner (suc rounds) n =
      let more = allocate_from-Keeps worlds home owner rounds (suc n) in
      if-Keeps _ _ _ more (
        bind-Keeps (claim_root host home (ip_at n) owner) _ (claim_root-Keeps home (ip_at n) owner)
          λ o. or_next-Keeps (ip_at n) _ o more)

  pub allocate-Keeps :
      {frozen : Bool} (worlds : Map Bytes World) (home owner : Bytes)
      → Keeps frozen (allocate host worlds home owner)
  unfolding allocate
  allocate-Keeps worlds home owner = allocate_from-Keeps worlds home owner 65534 1

  or_moved-Keeps :
      {frozen : Bool} (w : World) (worlds : Map Bytes World) (home owner : Bytes) (o : Option Bytes)
      → Keeps frozen (or_moved host w worlds home owner o)
  or_moved-Keeps w worlds home owner (some root) = pure-Keeps _
  or_moved-Keeps w worlds home owner none =
      bind-Keeps (allocate host worlds home owner) _ (allocate-Keeps worlds home owner)
        λ place. pure-Keeps _

  pub fill_temp_root-Keeps :
      {frozen : Bool} (w : World) (worlds : Map Bytes World) (home owner : Bytes)
      → Keeps frozen (fill_temp_root host w worlds home owner)
  unfolding fill_temp_root
  fill_temp_root-Keeps w worlds home owner =
      bind-Keeps (claim_root host home w.ip owner) _ (claim_root-Keeps home w.ip owner)
        λ o. or_moved-Keeps w worlds home owner o

  pub temp_root-Keeps : {frozen : Bool} (w : World) → Keeps frozen (temp_root host w)
  unfolding temp_root
  temp_root-Keeps w =
      bind-Keeps (or_fail w.temp_root no_temp_root) _ (or_fail-Keeps _ no_temp_root) λ root.
        seq-Keeps (check_root host root) _ (check_root-Keeps root) (
          seq-Keeps (ensure (is_shaped root) bad_shape) _ (ensure-Keeps (is_shaped root) bad_shape)
            (bind-Keeps (or_fail (third_ancestor root) bad_shape) _ (or_fail-Keeps _ bad_shape)
              λ home. seq-Keeps (reject_shared_temp host home) _ (reject_shared_temp-Keeps home) (
                bind-Keeps (temp_root_in host home w.ip) _ (temp_root_in-Keeps home w.ip) λ got.
                  seq-Keeps (ensure (same_path got root) root_unavailable) (pure got)
                    (ensure-Keeps (same_path got root) root_unavailable) (pure-Keeps got))))
    where
      is_shaped : Bytes → Bool
      is_shaped root =
          is_normalized root && has_shape (ip_name w.ip) (reverse (real_components root))
