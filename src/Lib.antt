-- ===== src/Lib.antt =====
-- A model of parts of four crates of `world`: crates/world-fsmodel, the in-memory filesystem that the
-- tests run beside a real kernel, with the path mapping of the two backends (the macOS shim and the
-- Linux mounts); crates/world-tmp-path, the mapping of host temp paths that the macOS shim itself
-- performs; the network policy of crates/world-runtime, the proxy that applies it and the registry of
-- workspaces; and the minimization of the fuzz driver of crates/world-cli.
--
-- The parts of crates/world-fsmodel/src/lib.rs, with the file that models each.
--   Bytes, Map           `[u8]` and its slice methods; `BTreeMap`, as a list sorted by key
--   Result               `Result<_, Errno>` with `?` as a do block, and the errnos by name; the errno of an
--                        outcome is optional, with `none` for 0
--   Fs/Types             NodeKind, Node, FdEntry, Model, Op, Outcome, OpenFlags
--   Fs/Paths             at_start, is_root_operand, parent_and_name
--   Fs/Nodes             the arena: enter, node_parent, key, push_node, alloc_fd, fd_dir, is_detached,
--                        check_live, is_descendant, the limits of each profile
--   Fs/Resolve           resolve, resolve_traced, resolve_inner, follow_symlink
--   Fs/Chain, Fs/Create  resolve_for_create, resolve_parent, trail_mac, owner_of,
--                        trailing_create_errno
--   Fs/Names             full_path, node_name_and_parent, mount_of
--   Fs/Build             new, new_plain, mkdir_p, mkchild, set_child, add_fixture_*
--   Fs/Ops               one module for each group of operations, and `apply`
--   Fs/Codec             escape, unescape, to_flag_str, from_flag_str, to_line, from_line, path_operands
--   Fs/Equiv             errno_equiv
--   Fs/Valid, Fs/Step    the invariant, and the transition system that the operations implement
--   Fs/Reply             how each operation ends
--   Fs/Tests             runs at concrete trees; Fs/Witnesses has the theorems at concrete inputs
--
-- The parts of crates/world-tmp-path/src/lib.rs.
--   TmpPath              HOST_ROOTS, CANONICAL, valid_root, component_rest, Base, Scan
--   TmpPath/Scanning     the scan of map_with, has_tmp_component, dotdot_count
--   TmpPath/Map          map_with, map_target, textual_parent; TmpPath/Map/Below is about where its scan stands
--   TmpPath/MapAt        map_at_with, pop_component, first_real_component
--   TmpPath/Unmap        unmap_in_place, copy_cwd, copy_link, unix_path, unmap_sockaddr, requeried_unix
--   TmpPath/Tests        runs with a small kernel; TmpPath/Witnesses has the theorems at concrete inputs
--
-- The parts of crates/world-runtime/src/policy.rs.
--   Policy               Policy, Endpoint, validate, canonical_host, authority
--   Policy/Tests         runs of the checks; Policy/Witnesses has the theorems at concrete inputs
--
-- The parts of crates/world-runtime/src/proxy.rs, which uses the policy.
--   Proxy/Public         public_ip; Proxy/Ranges compares it with the networks in dotted notation
--   Proxy/Headers        strip_hop_headers, over the operations of `HeaderMap` and their laws;
--                        Proxy/Trim says what `trim` leaves
--   Proxy/Prepare        prepare, Prepared::url; Proxy/Routes tells its keys apart
--   Proxy/Forward        handle, forward: the connections that one request makes the proxy try
--   Proxy/Tests          runs with a list of headers and one server; Proxy/Witnesses has the theorems at
--                        concrete inputs
--
-- The registry of crates/world-runtime/src/silo.rs, with the records of apple_vm.rs and the check of a
-- workdir of run.rs.
--   Registry/Types       World, Vm, Record, what is on disk, and the actions on it
--   Registry/Paths       in_temp_dirs, check_workdir, stale_workdir, host_home, root_for, check_root
--   Registry/Records     Vm::validate, records, registry, save
--   Registry/Roots       registry_id, root_owner, claim_root, mark_root, allocate, fill_temp_root, temp_root
--   Registry/Create      create_in, get_in, owned_temp_root
--   Registry/Logic       what a chain of actions that succeeds has done, and what no action undoes
--   Registry/Steps       the operations of several registries that share a disk
--   Registry/Tests       runs on a small host; Registry/Witnesses has the theorems at concrete inputs
--
-- The search of crates/world-cli/examples/fuzz_driver/ddmin.rs.
--   Ddmin                the two passes of minimize; Ddmin/Tests has runs, Ddmin/Witnesses concrete lines
--
-- An IPv4 address is read and written as the standard library does; the text of an IPv6 address is a pair
-- of parameters, `parse_v6` and `show_v6`. The proxy gets the rest of what it does not compute itself from
-- Proxy/Forward.Outside: name server, connections, base64, the texts of HTTP and the upstream's answer.
-- Bodies of messages and the tasks that copy bytes or wait for cancellation are left out.
--
-- An operation of the registry is an action: it gives a value or an error, and what it has done to the file
-- and to the temp roots stays also when it fails. It is one step, since it runs under the registry's lock.
-- That lock is one of the state directory: registries with different state directories share the temp roots of
-- a home, and their operations may overlap in the code, where the exclusive creation of the markers decides.
-- The runs of Registry/Steps hold such operations one after the other only, so what is said of runs is said
-- of operations that do not overlap. The octets of an Ipv4Addr are numbers without the bound of u8; the
-- addresses of the loop of allocate keep the wrap-around of a byte. Registry/Paths.Host is what the kernel answers: canonical paths, whether a temp root can be built
-- and marked, how far a write to disk gets. The loop of allocate has 65534 rounds, as in the code.
-- Deleting a temp root is no operation of the program, and no step here. The registry's file is its parsed
-- content, or it is absent or unreadable; serde_json is not modelled.
--
-- The kernel under map_with is a parameter with a state of its own, `resolve`, since its answers may differ
-- from call to call; `path_max` and `af_unix` are libc's PATH_MAX and AF_UNIX. A text in a buffer is the list
-- of its bytes: a call's result is the name that it writes, with a NUL behind it. What map_with leaves in
-- its output buffer when it fails is not modelled.
--
-- How state is passed. A method with `&mut self` is a function from the model to the new model and the
-- outcome (Fs/Ops/Run.Effect); `run` turns an early return into `errout` with the model of the
-- start, as the code does, which returns before its first write. The counter of links and the trace of
-- resolve_inner are the state of a small monad (Fs/Resolve.Lookup).
--
-- Fuel. A lookup takes one unit for each link that may be followed and one for the first call
-- (link_fuel = max_symlinks + 1): the counter refuses the next link before the fuel ends. A loop that
-- climbs parents takes the number of nodes: without a cycle no node is met twice.
-- full_path follows virtual parents too, and its result is `none` where the climb does not end.
--
-- What differs from the code. An index out of the arena panics there; here it reads a bare directory,
-- and the invariant excludes it. Errnos are names, since their numbers are those of libc. `next_fd`
-- wraps at 2^32, as in a release build. Positions in a file are natural numbers, without the bound of
-- usize. The fixtures' `expect` on a path with no name is `none`.
--
-- A restart of map_with takes one unit of fuel of as many as the path has `..`, and one for the first scan:
-- each restart must leave fewer of them. The
-- coarse pass of minimize takes at most n * (n + 1) + n + 1 rounds for n lines, since a round that does not
-- shorten the list makes the divisor larger, and the divisor is at most n. The replay of a candidate, which
-- is a child process, is a parameter with a state (`repro`).
--
-- Not modelled: tree, walk and tree_json; Rng; in crates/world-tmp-path the calls of the kernel
-- (kernel_full_path_at, real_base) and the functions that only pass it on (map, map_at, map_under);
-- Policy::read, which hands the input to serde_json; in proxy.rs the tasks of serve, start and close;
-- in apple_vm.rs all but the records; in silo.rs the migration of the state directory, the lock file,
-- the descriptors of temp_root_in, setup and exec; and the rest of crates/world-runtime and
-- crates/world-cli, which set up a sandbox, forward its connections, parse the command line and run
-- the fuzz driver.
pub mod Prelude
pub mod Bytes
pub mod Map
pub mod Result
pub mod Fs
pub mod TmpPath
pub mod Policy
pub mod Proxy
pub mod Registry
pub mod Ddmin
