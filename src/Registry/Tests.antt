-- ===== src/Registry/Tests.antt =====
-- Runs of the registry's operations on a host where every path is canonical.
use world.Prelude.{◌≡◌, refl, true, false, [], ◌∷◌, ◌++◌, some, replicate}
use world.Bytes.{Bytes, codes}
use world.Registry.Types.{
  Ipv4Addr, World, native, Stored, absent, holds, Store, Tried, done, failed, other_workdir,
  below_shared_temp, unknown_workspace,
}
use world.Registry.Paths.{Host, linux, built, marked, durable, third_ancestor, root_for}
use world.Registry.Create.{create_in, get_in, owned_temp_root}

-- The definitions that a run computes with
unfoldable pub machine : Unit {0}
unfolding world.Bytes.beq world.Bytes.lex world.Bytes.starts_with world.Bytes.ends_with_slash
    world.Bytes.starts_with_slash world.Bytes.contains world.Bytes.split world.Bytes.is_real
    world.Bytes.keep_real world.Bytes.real_components world.Bytes.lower
    world.Bytes.to_ascii_lowercase world.Fs.Codec.Number.digits world.Fs.Codec.Number.display
    world.Fs.Codec.Number.digit_val world.Fs.Codec.Number.parse_digits
    world.Fs.Codec.Number.from_str_radix world.Fs.Codec.Number.display_bool
    world.Fs.Codec.Number.parse_bool world.Map.get world.Map.contains_key world.Map.insert
    world.Map.remove world.Map.keys world.Map.key_of world.Policy.octet world.Policy.four_octets
    world.Policy.parse_v4 world.Policy.show_v4 world.Policy.all_zero world.Policy.is_unspecified
    world.Policy.is_multicast world.Policy.mapped_v4 world.Policy.strip_dot
    world.Policy.all_label_bytes world.Policy.ends_with_dash world.Policy.valid_label
    world.Policy.valid_labels world.Policy.check_host world.Policy.authority world.Policy.parse_ip
    world.Policy.show_ip world.Policy.canonical_ip world.Policy.canonical_host
    world.Policy.check_endpoints world.Policy.validate world.Proxy.Prepare.any_private
    world.Proxy.Prepare.hex world.Proxy.Prepare.url world.Proxy.Prepare.addresses_of
    world.Proxy.Prepare.route_each world.Proxy.Prepare.prepare world.Registry.Create.is_valid_id
    world.Registry.Create.valid_world world.Registry.Create.create_in world.Registry.Create.get_in
    world.Registry.Create.owned_temp_root world.Registry.Paths.is_prefix world.Registry.Paths.under
    world.Registry.Paths.any_parent_dir world.Registry.Paths.is_normalized world.Registry.Paths.join
    world.Registry.Paths.ip_name world.Registry.Paths.root_for world.Registry.Paths.skip_blank
    world.Registry.Paths.parent_pieces world.Registry.Paths.pieces_text
    world.Registry.Paths.plain_path world.Registry.Paths.same_path
    world.Registry.Paths.third_ancestor world.Registry.Paths.in_temp_dirs
    world.Registry.Paths.in_shared_temp world.Registry.Paths.reject_shared_temp
    world.Registry.Paths.check_workdir world.Registry.Paths.stale_workdir
    world.Registry.Paths.host_home world.Registry.Paths.workdir_of
    world.Registry.Paths.is_usable_root world.Registry.Paths.check_root
    world.Registry.Paths.new_root world.Registry.Records.all_hex world.Registry.Records.hex_id
    world.Registry.Records.valid_vm world.Registry.Records.valid_records
    world.Registry.Records.records world.Registry.Records.natives world.Registry.Records.registry
    world.Registry.Records.get_vm world.Registry.Records.retain_vms
    world.Registry.Records.insert_each world.Registry.Records.persist_records
    world.Registry.Records.save world.Registry.Roots.ip_at world.Registry.Roots.in_use
    world.Registry.Roots.registry_id world.Registry.Roots.root_owner
    world.Registry.Roots.temp_root_in world.Registry.Roots.mark_root world.Registry.Roots.claim_root
    world.Registry.Roots.allocate_from world.Registry.Roots.allocate
    world.Registry.Roots.fill_temp_root world.Registry.Roots.temp_root world.Registry.Steps.perform
    world.Registry.Types.same_ip world.Registry.Types.pure world.Registry.Types.bail
    world.Registry.Types.ensure world.Registry.Types.◌>>=◌ world.Registry.Types.◌>>◌
    world.TmpPath.strip_prefix world.TmpPath.component_rest world.TmpPath.all_plain
    world.TmpPath.outside world.TmpPath.valid_root world.TmpPath.base_parent
    world.TmpPath.Scanning.any_component world.TmpPath.Scanning.has_tmp_component
    world.TmpPath.Scanning.count_dotdot world.TmpPath.Scanning.dotdot_count
    world.TmpPath.Scanning.enter_name world.TmpPath.Scanning.push_name
    world.TmpPath.Scanning.pop_name world.TmpPath.Scanning.scan_step
    world.TmpPath.Scanning.scan_from world.TmpPath.Scanning.scan
machine = tt

abbrev pub host : Host
host = record {
  target = linux;
  home_var = some (codes "/home/u");
  canonicalize = λ p. some p;
  is_directory = λ p. true;
  builds = λ home ip. built;
  marks = λ root. marked;
  alias_ready = λ ip. false;
  random = replicate 16 0xab;
  persistence = durable;
}

abbrev pub host_two : Host
host_two = record host { random = replicate 16 0xcd }

abbrev pub empty_store : Store
empty_store = record { registry_json = absent; id_file = absent; disk = [] }

abbrev pub ip_one : Ipv4Addr
ip_one = record { first = 127; second = 77; third = 0; fourth = 1 }

abbrev pub ip_two : Ipv4Addr
ip_two = record { first = 127; second = 77; third = 0; fourth = 2 }

abbrev pub world_one : World
world_one = record {
  id = codes "one";
  ip = ip_one;
  workdir = codes "/work/a";
  temp_root = some (codes "/home/u/.world/tmp/127.77.0.1");
}

abbrev pub owner_one : Bytes
owner_one = codes "abababababababababababababababab" ++ b'\n' ∷ (codes "one" ++ b'\n' ∷ [])

abbrev pub store_one : Store
store_one = record {
  registry_json = holds ((codes "one", native world_one) ∷ []);
  id_file = holds (codes "abababababababababababababababab");
  disk = (codes "/home/u/.world/tmp/127.77.0.1", some owner_one) ∷ [];
}

creates : create_in host (codes "one") (codes "/work/a") empty_store ≡ (done world_one, store_one)
unfolding machine
creates = refl

-- Another registry under the same home gets the next address.
abbrev pub other_registry : Store
other_registry = record store_one { registry_json = absent; id_file = absent }

abbrev pub world_two : World
world_two = record {
  id = codes "two";
  ip = ip_two;
  workdir = codes "/work/b";
  temp_root = some (codes "/home/u/.world/tmp/127.77.0.2");
}

creates_next :
    (create_in host_two (codes "two") (codes "/work/b") other_registry).0 ≡ done world_two
unfolding machine
creates_next = refl

refuses_other_workdir :
    create_in host (codes "one") (codes "/work/b") store_one ≡ (failed other_workdir, store_one)
unfolding machine
refuses_other_workdir = refl

refuses_temp :
    create_in host (codes "two") (codes "/tmp/x") store_one ≡ (failed below_shared_temp, store_one)
unfolding machine
refuses_temp = refl

gets : get_in host store_one.registry_json (codes "one") store_one ≡ (done world_one, store_one)
unfolding machine
gets = refl

owns :
    owned_temp_root host world_one store_one
    ≡ (done (world_one, codes "/home/u/.world/tmp/127.77.0.1"), store_one)
unfolding machine
owns = refl

-- A root that another registry has claimed meanwhile is left to it.
abbrev pub taken_store : Store
taken_store = record store_one {
  disk = (codes "/home/u/.world/tmp/127.77.0.1", some (codes "x")) ∷ [];
}

moves :
    (owned_temp_root host world_one taken_store).0
    ≡ done (
      record world_one { ip = ip_two; temp_root = some (codes "/home/u/.world/tmp/127.77.0.2") },
      codes "/home/u/.world/tmp/127.77.0.2",
    )
unfolding machine
moves = refl

climbs : third_ancestor (codes "/home/u/.world/tmp/127.77.0.1") ≡ some (codes "/home/u")
unfolding machine
climbs = refl

climbs_to_root : third_ancestor (codes "//.world/./tmp/127.77.0.1/") ≡ some (codes "/")
unfolding machine
climbs_to_root = refl
