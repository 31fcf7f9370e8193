-- ===== src/Registry/Types.antt =====
-- crates/world-runtime/src/silo.rs: the records of a registry, what is on disk beside it, and the actions
-- on both. An action leaves what it has done also when it fails.
use world.Prelude.{ℕ, ◌==◌, Bool, true, false, ◌&&◌, Option, none, some}
use world.Bytes.{Bytes}
use world.Map.{Map}

-- `Ipv4Addr`, by its octets: numbers, without the bound of `u8`
pub record Ipv4Addr : Type 0 where
  pub first : ℕ
  pub second : ℕ
  pub third : ℕ
  pub fourth : ℕ

unfoldable pub same_ip : Ipv4Addr → Ipv4Addr → Bool
same_ip x y =
    x.first == y.first && x.second == y.second && x.third == y.third && x.fourth == y.fourth

pub record World : Type 0 where
  pub id : Bytes
  pub ip : Ipv4Addr
  pub workdir : Bytes
  pub temp_root : Option Bytes

pub record Vm : Type 0 where
  pub schema_version : ℕ
  pub id : Bytes
  pub backend : Bytes
  pub execution_os : Bytes
  pub arch : Bytes
  pub instance_id : Bytes
  pub owner : Bytes
  pub image : Bytes
  pub cpus : ℕ
  pub memory_mib : ℕ

pub data Record : Type 0 where
  native : World → Record
  vm : Vm → Record

-- A file that is read whole
pub data Stored (A : Type 0) : Type 0 where
  absent : Stored A
  unreadable : Stored A
  holds : A → Stored A

-- `registry.json` and `registry-id` of the state directory, and the temp roots that exist, by their plain
-- paths, each with the text of its owner marker, if it has one. The roots belong to all registries.
pub record Store : Type 0 where
  pub registry_json : Stored (Map Bytes Record)
  pub id_file : Stored Bytes
  pub disk : Map Bytes (Option Bytes)

pub data Trouble : Type 0 where
  unsupported invalid_id bad_workdir below_shared_temp other_workdir uses_vm : Trouble
  corrupt_registry invalid_vm invalid_registry_id unknown_workspace invalid_entry : Trouble
  no_home unusable_root no_temp_root bad_shape root_unavailable marker_failed : Trouble
  pool_exhausted backend_conflict not_persisted : Trouble

pub data Tried (A : Type 0) : Type 0 where
  done : A → Tried A
  failed : Trouble → Tried A

abbrev pub Act : Type 0 → Type 0
Act A = Store → Tried A × Store

abbrev pub after : {A B : Type 0} → Tried A × Store → (A → Act B) → Tried B × Store
after (done a, s) f = f a s
after (failed e, s) f = (failed e, s)

unfoldable pub pure : {A : Type 0} → A → Act A
pure a s = (done a, s)

unfoldable pub bail : {A : Type 0} → Trouble → Act A
bail e s = (failed e, s)

-- `ensure!`
unfoldable pub ensure : Bool → Trouble → Act (Unit {0})
ensure b e = elim b [ true ↦ pure tt | false ↦ bail e ]

infixl 5 ◌>>=◌ ◌>>◌
unfoldable pub ◌>>=◌ : {A B : Type 0} → Act A → (A → Act B) → Act B
unfolding pure bail ensure
◌>>=◌ m f s = after (m s) f

unfoldable pub ◌>>◌ : {B : Type 0} → Act (Unit {0}) → Act B → Act B
unfolding ◌>>=◌
m >> k = m >>= λ _. k

abbrev pub or_fail : {A : Type 0} → Option A → Trouble → Act A
or_fail (some a) e = pure a
or_fail none e = bail e

-- The action, if the test holds
abbrev pub when : Bool → Act (Unit {0}) → Act (Unit {0})
when true m = m
when false m = pure tt
