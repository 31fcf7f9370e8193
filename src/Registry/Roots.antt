-- ===== src/Registry/Roots.antt =====
-- crates/world-runtime/src/silo.rs: the temp roots, who owns them, and the search for a free address.
use world.Prelude.{
  ℕ, zero, suc, ◌/◌, ◌%◌, Bool, true, false, ◌&&◌, ◌||◌, not, List, [], ◌∷◌, ◌++◌, Option, none,
  some, if◌then◌else◌, reverse,
}
use world.Bytes.{Bytes, codes, beq, real_components}
use world.Map.{Map, get, insert, contains_key}
use world.Map.Order.{bytes_key}
use world.Proxy.Prepare.{hex}
use world.Registry.Types.{
  Ipv4Addr, same_ip, World, Stored, absent, unreadable, holds, Store, Act, done, failed,
  invalid_registry_id, marker_failed, root_unavailable, pool_exhausted, not_persisted, no_temp_root,
  bad_shape, pure, bail, ensure, or_fail, ◌>>=◌, ◌>>◌,
}
use world.Registry.Paths.{
  Host, Persistence, durable, unwritten, unsynced, Building, built, not_built, half_built, Marking,
  marked, torn, is_linux, is_normalized, ip_name, root_for, third_ancestor, plain_path, same_path,
  new_root, check_root, reject_shared_temp,
}
use world.Registry.Records.{hex_id}

abbrev pub persist_id : Persistence → Bytes → Act Bytes
persist_id durable id s = (done id, record s { id_file = holds id })
persist_id unwritten id s = (failed not_persisted, s)
persist_id unsynced id s = (failed not_persisted, record s { id_file = holds id })

abbrev pub insert_new : Bytes → Store → Store
insert_new root s =
    if contains_key root s.disk then s else record s { disk = insert root none s.disk }

abbrev pub by_building : Building → Bytes → Act Bytes
by_building built root s = (done root, insert_new (plain_path root) s)
by_building not_built root s = (failed root_unavailable, s)
by_building half_built root s = (failed root_unavailable, insert_new (plain_path root) s)

abbrev pub write_marker : Bytes → Bytes → Store → Store
write_marker root text s = record s { disk = insert root (some text) s.disk }

-- An exclusive creation of the marker: whether the root is there, and has one
abbrev pub by_marking : Marking → Bytes → Bytes → Option (Option Bytes) → Act Bool
by_marking marked root owner (some none) s = (done true, write_marker root owner s)
by_marking marked root owner (some (some text)) s = (done (beq text owner), s)
by_marking (torn text) root owner (some none) s = (failed marker_failed, write_marker root text s)
by_marking other root owner entry s = (failed marker_failed, s)

-- Whether a root exists without a marker
abbrev pub is_unmarked : Option (Option Bytes) → Bool
is_unmarked (some none) = true
is_unmarked other = false

-- The address that the loop of `allocate` tries in round `n`
unfoldable pub ip_at : ℕ → Ipv4Addr
ip_at n = record { first = 127; second = 77; third = n / 256 % 256; fourth = n % 256 }

unfoldable pub in_use : Ipv4Addr → Map Bytes World → Bool
unfolding same_ip
in_use ip [] = false
in_use ip ((id, w) ∷ worlds) = same_ip w.ip ip || in_use ip worlds

abbrev pub when_owned : Bytes → Bool → Option Bytes
when_owned root true = some root
when_owned root false = none

-- `shape_ok`, of the components, last one first
abbrev pub has_shape : Bytes → List Bytes → Bool
has_shape name (c ∷ d ∷ e ∷ home) = beq c name && beq d (codes "tmp") && beq e (codes ".world")
has_shape name cs = false

abbrev pub moved : World → Ipv4Addr × Bytes → World
moved w (ip, root) = record w { ip = ip; temp_root = some root }

module _ (host : Host) where
  abbrev pub by_registry_id : Stored Bytes → Act Bytes
  by_registry_id (holds id) = do ensure (hex_id id) invalid_registry_id; pure id
  by_registry_id absent = persist_id host.persistence (hex host.random)
  by_registry_id unreadable = bail invalid_registry_id

  unfoldable pub registry_id : Act Bytes
  unfolding hex_id hex ◌>>◌
  registry_id s = by_registry_id s.id_file s

  unfoldable pub root_owner : Bytes → Act Bytes
  unfolding registry_id ◌>>=◌
  root_owner id = do registry ← registry_id; pure (registry ++ b'\n' ∷ (id ++ b'\n' ∷ []))

  unfoldable pub temp_root_in : Bytes → Ipv4Addr → Act Bytes
  unfolding root_for
  temp_root_in home ip = by_building (host.builds home ip) (root_for home ip)

  unfoldable pub mark_root : Bytes → Bytes → Act Bool
  mark_root root owner s =
      by_marking (host.marks root) (plain_path root) owner (get (plain_path root) s.disk) s

  abbrev pub is_unmarked_root : Bytes → Act Bool
  is_unmarked_root root s = (done (is_unmarked (get (plain_path root) s.disk)), s)

  abbrev pub claim_marked : Bytes → Ipv4Addr → Bytes → Bytes → Bool → Act (Option Bytes)
  claim_marked home ip owner root true = pure none
  claim_marked home ip owner root false = do
    _ ← temp_root_in home ip
    owned ← mark_root root owner
    pure (when_owned root owned)

  unfoldable pub claim_root : Bytes → Ipv4Addr → Bytes → Act (Option Bytes)
  unfolding new_root temp_root_in mark_root ◌>>=◌
  claim_root home ip owner = do
    root ← new_root host home ip
    unmarked ← is_unmarked_root root
    claim_marked home ip owner root unmarked

  abbrev pub or_next : Ipv4Addr → Act (Ipv4Addr × Bytes) → Option Bytes → Act (Ipv4Addr × Bytes)
  or_next ip more (some root) = pure (ip, root)
  or_next ip more none = more

  -- The rounds from `n` on
  unfoldable pub allocate_from :
      Map Bytes World → Bytes → Bytes → (rounds n : ℕ) → Act (Ipv4Addr × Bytes)
  unfolding ip_at in_use claim_root ◌>>=◌
  allocate_from worlds home owner zero n = bail pool_exhausted
  allocate_from worlds home owner (suc rounds) n =
      let more = allocate_from worlds home owner rounds (suc n) in
      if in_use (ip_at n) worlds || (not (is_linux host.target) && host.alias_ready (ip_at n))
      then more
      else (claim_root home (ip_at n) owner >>= or_next (ip_at n) more)

  unfoldable pub allocate : Map Bytes World → Bytes → Bytes → Act (Ipv4Addr × Bytes)
  unfolding allocate_from
  allocate worlds home owner = allocate_from worlds home owner 65534 1

  abbrev pub or_moved : World → Map Bytes World → Bytes → Bytes → Option Bytes → Act World
  or_moved w worlds home owner (some root) = pure (record w { temp_root = some root })
  or_moved w worlds home owner none = do place ← allocate worlds home owner; pure (moved w place)

  unfoldable pub fill_temp_root : World → Map Bytes World → Bytes → Bytes → Act World
  unfolding claim_root allocate ◌>>=◌
  fill_temp_root w worlds home owner = do
    claimed ← claim_root home w.ip owner
    or_moved w worlds home owner claimed

  -- `temp_root`
  unfoldable pub temp_root : World → Act Bytes
  unfolding check_root reject_shared_temp temp_root_in third_ancestor is_normalized ◌>>=◌
  temp_root w = do
    root ← or_fail w.temp_root no_temp_root
    check_root host root
    ensure (is_normalized root && has_shape (ip_name w.ip) (reverse (real_components root)))
        bad_shape
    home ← or_fail (third_ancestor root) bad_shape
    reject_shared_temp host home
    got ← temp_root_in home w.ip
    ensure (same_path got root) root_unavailable
    pure got
