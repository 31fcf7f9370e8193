-- ===== src/Registry/Records.antt =====
-- crates/world-runtime/src/silo.rs and apple_vm.rs: the file of the registry.
use world.Prelude.{
  ℕ, ◌==◌, Bool, true, ◌&&◌, ◌||◌, [], ◌∷◌, ◌++◌, Option, none, some, length, if◌then◌else◌,
}
use world.Bytes.{Bytes, codes, beq}
use world.Map.{Map, get, insert, contains_key}
use world.Map.Order.{bytes_key}
use world.Fs.Codec.Escape.{between}
use world.Registry.Types.{
  World, Vm, Record, native, vm, Stored, absent, unreadable, holds, Act, Tried, done, failed,
  corrupt_registry, invalid_vm, not_persisted, backend_conflict, pure, ◌>>=◌,
}
use world.Registry.Paths.{Persistence, durable, unwritten, unsynced}

-- `is_ascii_hexdigit`
abbrev pub is_hex_digit : ℕ → Bool
is_hex_digit b = between b'0' b'9' b || between b'a' b'f' b || between b'A' b'F' b

unfoldable pub all_hex : Bytes → Bool
all_hex [] = true
all_hex (b ∷ bs) = is_hex_digit b && all_hex bs

unfoldable pub hex_id : Bytes → Bool
unfolding all_hex
hex_id s = length s == 32 && all_hex s

abbrev pub image_digest : Bytes
image_digest =
    codes
      "docker.io/library/python@sha256:bf12ecc0bea3f171d55145dd02c78b5eeb09f30ee2ac9cc2b4c9e4e8f5e30741"

-- `Vm::validate`
unfoldable pub valid_vm : Bytes → Vm → Bool
unfolding hex_id
valid_vm id v =
    v.schema_version == 2
    && beq v.id id
    && beq v.backend (codes "apple-container")
    && beq v.execution_os (codes "linux")
    && beq v.arch (codes "arm64")
    && (hex_id v.owner && beq v.instance_id (codes "world-" ++ v.owner))
    && (beq v.image image_digest && between 1 8 v.cpus && between 256 4096 v.memory_mib)

abbrev pub valid_record : Bytes → Record → Bool
valid_record id (native w) = true
valid_record id (vm v) = valid_vm id v

unfoldable pub valid_records : Map Bytes Record → Bool
unfolding valid_vm
valid_records [] = true
valid_records ((id, r) ∷ m) = valid_record id r && valid_records m

abbrev pub checked_records : Stored (Map Bytes Record) → Tried (Map Bytes Record)
checked_records absent = done []
checked_records unreadable = failed corrupt_registry
checked_records (holds m) = if valid_records m then done m else failed invalid_vm

unfoldable pub records : Act (Map Bytes Record)
unfolding valid_records
records s = (checked_records s.registry_json, s)

-- The native entries
unfoldable pub natives : Map Bytes Record → Map Bytes World
natives [] = []
natives ((id, native w) ∷ m) = (id, w) ∷ natives m
natives ((id, vm v) ∷ m) = natives m

unfoldable pub registry : Act (Map Bytes World)
unfolding records natives ◌>>=◌ pure
registry = do m ← records; pure (natives m)

abbrev pub only_vm : Option Record → Option Vm
only_vm none = none
only_vm (some (native w)) = none
only_vm (some (vm v)) = some v

-- `apple_vm::get`
unfoldable pub get_vm : Bytes → Act (Option Vm)
unfolding records ◌>>=◌ pure
get_vm id = do m ← records; pure (only_vm (get id m))

-- `retain`
unfoldable pub retain_vms : Map Bytes Record → Map Bytes Record
retain_vms [] = []
retain_vms ((id, native w) ∷ m) = retain_vms m
retain_vms ((id, vm v) ∷ m) = (id, vm v) ∷ retain_vms m

-- The loop of `save`
unfoldable pub insert_each : Map Bytes World → Map Bytes Record → Tried (Map Bytes Record)
insert_each [] = λ m. done m
insert_each ((id, w) ∷ worlds) = λ m.
    if contains_key id m
    then failed backend_conflict
    else insert_each worlds (insert id (native w) m)

-- `persist` of the registry
unfoldable pub persist_records : Persistence → Map Bytes Record → Act (Unit {0})
persist_records durable m s = (done tt, record s { registry_json = holds m })
persist_records unwritten m s = (failed not_persisted, s)
persist_records unsynced m s = (failed not_persisted, record s { registry_json = holds m })

abbrev pub give : {A : Type 0} → Tried A → Act A
give r s = (r, s)

unfoldable pub save : Persistence → Map Bytes World → Act (Unit {0})
unfolding records retain_vms insert_each persist_records ◌>>=◌
save p worlds = do
  m ← records
  merged ← give (insert_each worlds (retain_vms m))
  persist_records p merged
