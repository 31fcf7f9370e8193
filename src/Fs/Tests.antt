-- ===== src/Fs/Tests.antt =====
-- Runs of the model on small trees.
use world.Prelude.{◌≡◌, refl, true, false, [], ◌∷◌, List, Option, none, some}
use world.Bytes.{Bytes, codes}
use world.Result
use world.Result.{eloop}
use world.Fs.Types.{mac_shim, linux_mount, Model, Outcome, Op, OpenFlags}
use world.Fs.Nodes.{okout, errout, dataout}
use world.Fs.Build.{new, add_fixture_symlink}
use world.Fs.Ops.Apply.{apply}

-- The definitions that a run computes with
unfoldable pub machine : Unit {0}
unfolding world.Bytes.beq world.Bytes.lex world.Bytes.starts_with world.Bytes.ends_with_slash
    world.Bytes.starts_with_slash world.Bytes.contains world.Bytes.split world.Bytes.is_real
    world.Bytes.keep_real world.Bytes.real_components world.Bytes.lower
    world.Bytes.to_ascii_lowercase world.Fs.Build.add_child world.Fs.Build.mkchild
    world.Fs.Build.set_child world.Fs.Build.existing_child world.Fs.Build.mkdir_child
    world.Fs.Build.entered world.Fs.Build.mkdir_step world.Fs.Build.mkdir_walk
    world.Fs.Build.mkdir_p world.Fs.Build.add_fixture world.Fs.Build.add_fixture_dir
    world.Fs.Build.add_fixture_file world.Fs.Build.add_fixture_symlink
    world.Fs.Build.add_fixture_socket world.Fs.Build.add_opaque_ancestors
    world.Fs.Build.set_case_insensitive world.Fs.Build.initial world.Fs.Build.mount
    world.Fs.Build.new_mac world.Fs.Build.new_linux world.Fs.Build.new world.Fs.Build.new_plain
    world.Fs.Chain.unsnoc world.Fs.Chain.walk_init world.Fs.Chain.create_through
    world.Fs.Chain.create_entry world.Fs.Chain.create_last world.Fs.Chain.create_split
    world.Fs.Chain.create_body world.Fs.Chain.resolve_for_create_inner world.Fs.Create.dir_or_start
    world.Fs.Create.resolve_parent_unchecked world.Fs.Create.resolve_parent
    world.Fs.Create.resolve_for_create world.Fs.Create.classify world.Fs.Create.trail_link
    world.Fs.Create.trail_mac world.Fs.Create.parent_owner world.Fs.Create.owner_of
    world.Fs.Create.trailing_create_errno world.Fs.Equiv.pair world.Fs.Equiv.removes_dir
    world.Fs.Equiv.unlinks world.Fs.Equiv.errno_equiv world.Fs.Equiv.Classes.standard
    world.Fs.Names.physical_name world.Fs.Names.node_name_and_parent world.Fs.Names.name_parts
    world.Fs.Names.joined world.Fs.Names.full_path world.Fs.Names.mount_from world.Fs.Names.mount_of
    world.Fs.Nodes.max_symlinks world.Fs.Nodes.path_max world.Fs.Nodes.is_mac
    world.Fs.Nodes.root_mutation_errno world.Fs.Nodes.errout world.Fs.Nodes.okout
    world.Fs.Nodes.dataout world.Fs.Nodes.node world.Fs.Nodes.set_node world.Fs.Nodes.is_dir
    world.Fs.Nodes.is_symlink world.Fs.Nodes.enter world.Fs.Nodes.node_parent world.Fs.Nodes.key
    world.Fs.Nodes.child world.Fs.Nodes.has_child world.Fs.Nodes.push_node
    world.Fs.Nodes.insert_child world.Fs.Nodes.remove_child world.Fs.Nodes.create_child
    world.Fs.Nodes.alloc_fd world.Fs.Nodes.fd_dir world.Fs.Nodes.start_node
    world.Fs.Nodes.detached_from world.Fs.Nodes.is_detached world.Fs.Nodes.check_live
    world.Fs.Nodes.descends_from world.Fs.Nodes.is_descendant world.Fs.Ops.Apply.apply
    world.Fs.Ops.Apply.apply_all world.Fs.Ops.Io.grow world.Fs.Ops.Io.splice
    world.Fs.Ops.Io.write_at world.Fs.Ops.Io.write_entry world.Fs.Ops.Io.do_write
    world.Fs.Ops.Io.slice_at world.Fs.Ops.Io.read_at world.Fs.Ops.Io.read_entry
    world.Fs.Ops.Io.do_read world.Fs.Ops.Io.close_entry world.Fs.Ops.Io.do_close
    world.Fs.Ops.Make.mkdir_place world.Fs.Ops.Make.create_free world.Fs.Ops.Make.mkdir_found
    world.Fs.Ops.Make.mkdir_at world.Fs.Ops.Make.do_mkdir world.Fs.Ops.Make.symlink_at
    world.Fs.Ops.Make.do_symlink world.Fs.Ops.Make.sun_path_cap world.Fs.Ops.Make.bind_end
    world.Fs.Ops.Make.bind_place world.Fs.Ops.Make.bind_at world.Fs.Ops.Make.do_bind
    world.Fs.Ops.Make.open_created world.Fs.Ops.Make.mkstemp_at world.Fs.Ops.Make.do_mkstemp
    world.Fs.Ops.Open.open_trailing world.Fs.Ops.Open.open_excl world.Fs.Ops.Open.open_create
    world.Fs.Ops.Open.open_dir_node world.Fs.Ops.Open.truncate world.Fs.Ops.Open.open_found
    world.Fs.Ops.Open.open_resolved world.Fs.Ops.Open.open_plain world.Fs.Ops.Open.open_unless
    world.Fs.Ops.Open.do_open world.Fs.Ops.Open.opendir_at world.Fs.Ops.Open.do_opendir
    world.Fs.Ops.Query.readlink_kind world.Fs.Ops.Query.do_readlink world.Fs.Ops.Query.do_chdir
    world.Fs.Ops.Query.path_reply world.Fs.Ops.Query.do_getcwd world.Fs.Ops.Query.realpath_found
    world.Fs.Ops.Query.do_realpath world.Fs.Ops.Query.do_stat world.Fs.Ops.Query.connect_kind
    world.Fs.Ops.Query.connect_at world.Fs.Ops.Query.do_connect world.Fs.Ops.Query.do_list
    world.Fs.Ops.Remove.linked_victim world.Fs.Ops.Remove.trailing_victim
    world.Fs.Ops.Remove.removable world.Fs.Ops.Remove.detach world.Fs.Ops.Remove.remove_victim
    world.Fs.Ops.Remove.followed_victim world.Fs.Ops.Remove.find_victim
    world.Fs.Ops.Remove.unlink_found world.Fs.Ops.Remove.unlink_impl world.Fs.Ops.Rename.root_parent
    world.Fs.Ops.Rename.rename_root world.Fs.Ops.Rename.trailing_source
    world.Fs.Ops.Rename.followed_source world.Fs.Ops.Rename.find_source
    world.Fs.Ops.Rename.trailing_target world.Fs.Ops.Rename.followed_target
    world.Fs.Ops.Rename.find_target world.Fs.Ops.Rename.rename_allowed world.Fs.Ops.Rename.over_dir
    world.Fs.Ops.Rename.replaceable world.Fs.Ops.Rename.drop_existing world.Fs.Ops.Rename.reparent
    world.Fs.Ops.Rename.move_node world.Fs.Ops.Rename.rename_onto world.Fs.Ops.Rename.rename_names
    world.Fs.Ops.Rename.do_rename world.Fs.Ops.Run.fail world.Fs.Ops.Run.run world.Fs.Ops.Run.done
    world.Fs.Paths.at_start world.Fs.Paths.all_slashes world.Fs.Paths.is_root_operand
    world.Fs.Paths.trim_end world.Fs.Paths.split_last_slash world.Fs.Paths.parent_and_name
    world.Fs.Paths.has_trailing_slash world.Fs.Resolve.pure world.Fs.Resolve.raise
    world.Fs.Resolve.guard world.Fs.Resolve.lift world.Fs.Resolve.◌>>=◌ world.Fs.Resolve.◌>>◌
    world.Fs.Resolve.base_of world.Fs.Resolve.follow_link world.Fs.Resolve.descend
    world.Fs.Resolve.step world.Fs.Resolve.walk world.Fs.Resolve.resolve_body
    world.Fs.Resolve.resolve_inner world.Fs.Resolve.follow_symlink world.Fs.Resolve.resolve_impl
    world.Fs.Resolve.resolve world.Fs.Resolve.resolve_traced world.Map.get world.Map.contains_key
    world.Map.insert world.Map.remove world.Map.keys world.Map.key_of world.Result.Errno-discrete
    world.Result.same_errno world.Result.Code-discrete world.Result.same_code world.Result.guard
    world.Result.◌>>=◌ world.Result.◌>>◌
machine = tt

-- The outcomes of a run
outcomes : Model → List Op → List (Option Outcome)
outcomes m [] = []
outcomes m (op ∷ ops) = elim (apply m op) [
  | none ↦ none ∷ []
  | some (m', out) ↦ some out ∷ outcomes m' ops
]

abbrev pub rw_new : OpenFlags
rw_new = record {
  create = true;
  excl = false;
  trunc = false;
  write = true;
  directory = false;
  nofollow = false;
}

abbrev mac : Model
mac = new (mac_shim (codes "/ws"))

abbrev linux : Model
linux = new (linux_mount (codes "/ws"))

mac_run :
    outcomes mac (
      Op.mkdir (codes "/tmp/a") 0
      ∷ Op.chdir (codes "/private/tmp/a")
      ∷ Op.getcwd
      ∷ Op.open_file (codes "f") rw_new
      ∷ Op.write 3 (codes "hello")
      ∷ Op.stat (codes "/ws/tmp/a/f")
      ∷ Op.rmdir (codes "../a")
      ∷ Op.list (codes "..")
      ∷ Op.symlink (codes "l") (codes "l")
      ∷ Op.stat (codes "l")
      ∷ [])
    ≡ (some (okout 0)
        ∷ some (okout 0)
        ∷ some (dataout 14 (codes "/private/tmp/a"))
        ∷ some (okout 3)
        ∷ some (okout 5)
        ∷ some (dataout 0 (1 ∷ []))
        ∷ some (errout Result.enotempty)
        ∷ some (dataout 1 (codes "a"))
        ∷ some (okout 0)
        ∷ some (errout eloop)
        ∷ [])
unfolding machine outcomes
mac_run = refl

-- On macOS `/private` can be moved below the mount of `/private/tmp`: the name of the current
-- directory is then never complete.
mac_cycle :
    outcomes mac (
      Op.chdir (codes "/private/tmp")
      ∷ Op.rename (codes "/private") (codes "/private/tmp/x")
      ∷ Op.getcwd
      ∷ [])
    ≡ (some (okout 0) ∷ some (okout 0) ∷ none ∷ [])
unfolding machine outcomes
mac_cycle = refl
