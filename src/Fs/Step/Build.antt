-- ===== src/Fs/Step/Build.antt =====
-- crates/world-fsmodel/src/lib.rs: sound models, and `new` and `new_plain`.
use world.Prelude.{ℕ, zero, suc, ◌<◌, ◌≡◌, refl, ap, ◌∙◌, none, some, arith}
use world.Bytes.{Bytes, codes}
use world.Map.{get}
use world.Map.Order.{bytes_key, fd_key}
use world.Fs.Types.{
  NodeId, Profile, mac_shim, linux_mount, physical, dir, symlink, opaque, Node, Model,
}
use world.Fs.Nodes.{node, set_node, bare}
use world.Fs.Build.{initial, mount, new_mac, new_linux, populated, new, new_plain}
use world.Fs.Valid.{size, NodeBelow}
use world.Fs.Valid.Climb.{parent_of, top, IsSound}
use world.Fs.Step.Writes.{set_node-IsValid}
use world.Fs.Step.Parents.{IsAcyclic-SameParents, set_node-SameParents}
use world.Fs.Step.Sound.{outside-SameParents}
use world.Fs.Step.Grow.{mkchild-IsGrown, mkdir_p-IsGrown}
use world.Fs.Valid.Updates.{size-set_node}

initial-node : (p : Profile) (i : NodeId) → node (initial p) i ≡ bare dir none
unfolding node initial
initial-node p zero = refl
initial-node p (suc i) = refl

initial-IsSound : (p : Profile) → IsSound (initial p)
initial-IsSound p = record {
  valid = record {
    root_node = unfold initial in omega arith;
    cwd = unfold initial in omega arith;
    at = λ i. rw initial-node (record {
      parent = tt;
      children = λ k. unfold get in tt;
      mounted_by = tt;
      virtual_parent = tt;
    });
    fds = λ f. unfold initial get in tt;
  };
  acyclic = λ i. (0, top (ap (λ (d : Node). d.parent) (initial-node p i)));
}

-- A node's mount fields may name any nodes of the arena.
mounted-Below :
    {n : ℕ} (d : Node) (t : NodeId)
    → NodeBelow n d
    → t < n
    → NodeBelow n (record d { mounted_by = some t })
mounted-Below d t h l = record {
  parent = h.parent;
  children = h.children;
  mounted_by = l;
  virtual_parent = h.virtual_parent;
}

target-Below :
    {n : ℕ} (d : Node) (p : NodeId) (name : Bytes)
    → NodeBelow n d
    → p < n
    → NodeBelow n (record d { virtual_parent = some p; mount_name = some name })
target-Below d p name h l = record {
  parent = h.parent;
  children = h.children;
  mounted_by = h.mounted_by;
  virtual_parent = l;
}

write-IsSound :
    {m : Model} (i : NodeId) (n : Node)
    → IsSound m
    → i < size m
    → NodeBelow (size m) n
    → n.parent ≡ parent_of m i
    → IsSound (set_node m i n)
write-IsSound {m} i n s h d e = record {
  valid = set_node-IsValid i n s.valid h d;
  acyclic = IsAcyclic-SameParents (set_node-SameParents m i n h e) s.acyclic;
}

mount-IsSound :
    {m : Model} (point target parent : NodeId)
    → IsSound m
    → point < size m
    → target < size m
    → parent < size m
    → IsSound (mount m point target parent) × (size (mount m point target parent) ≡ size m)
unfolding mount
mount-IsSound {m} point target parent s hp ht hq =
    let n1 : Node = record (node m point) { mounted_by = some target } in
    let m1 = set_node m point n1 in
    let s1 = write-IsSound point n1 s hp (mounted-Below _ target (s.valid.at point) ht) refl in
    let e : size m1 ≡ size m = size-set_node m point n1 in
    (
      write-IsSound target _ s1 (omega arith)
          (target-Below (node m1 target) parent (codes "tmp") (s1.valid.at target) (omega arith))
          refl,
      size-set_node m1 target _ ∙ e,
    )

-- The workspace's private directories, over the host's
new_linux-IsSound :
    {m : Model} (s : IsSound m) (root_path : Bytes) → IsSound (new_linux m root_path)
unfolding new_linux
new_linux-IsSound {m} s root_path =
    let g1 = mkchild-IsGrown s m.root_node (codes "tmp") dir s.valid.root_node in
    let g2 =
      mkchild-IsGrown g1.sound m.root_node (codes "var") dir
        (omega (arith, s.valid.root_node, g1.grown)) in
    let g3 = mkchild-IsGrown g2.sound _ (codes "tmp") dir g2.inside in
    let g4 = mkdir_p-IsGrown g3.sound physical root_path dir in
    let g5 = mkchild-IsGrown g4.sound _ (codes "tmp") dir g4.inside in
    let g6 = mkchild-IsGrown g5.sound _ (codes "var") dir (omega (arith, g4.inside, g5.grown)) in
    let g7 = mkchild-IsGrown g6.sound _ (codes "tmp") dir g6.inside in
    let r1 =
      mount-IsSound _ _ m.root_node g7.sound
        (omega (arith, g1.inside, g2.grown, g3.grown, g4.grown, g5.grown, g6.grown, g7.grown))
        (omega (arith, g5.inside, g6.grown, g7.grown))
        (omega (
          arith, s.valid.root_node, g1.grown, g2.grown, g3.grown, g4.grown, g5.grown, g6.grown,
          g7.grown,
        )) in
    (mount-IsSound _ _ _ r1.0
      (omega (arith, r1.1, g3.inside, g4.grown, g5.grown, g6.grown, g7.grown))
      (omega (arith, r1.1, g7.inside))
      (omega (arith, r1.1, g2.inside, g3.grown, g4.grown, g5.grown, g6.grown, g7.grown))).0

new_mac-IsSound : {m : Model} (s : IsSound m) (root_path : Bytes) → IsSound (new_mac m root_path)
unfolding new_mac
new_mac-IsSound {m} s root_path =
    let g1 = mkchild-IsGrown s m.root_node (codes "private") dir s.valid.root_node in
    let g2 = mkchild-IsGrown g1.sound _ (codes "var") dir g1.inside in
    let g3 = mkchild-IsGrown g2.sound _ (codes "tmp") opaque (omega (arith, g1.inside, g2.grown)) in
    let g4 = mkchild-IsGrown g3.sound _ (codes "tmp") opaque (omega (arith, g2.inside, g3.grown)) in
    let g5 =
      mkchild-IsGrown g4.sound m.root_node (codes "tmp") (symlink (codes "private/tmp"))
        (omega (arith, s.valid.root_node, g1.grown, g2.grown, g3.grown, g4.grown)) in
    let g6 =
      mkchild-IsGrown g5.sound m.root_node (codes "var") (symlink (codes "private/var"))
        (omega (arith, s.valid.root_node, g1.grown, g2.grown, g3.grown, g4.grown, g5.grown)) in
    let g7 = mkdir_p-IsGrown g6.sound physical root_path dir in
    let g8 = mkchild-IsGrown g7.sound _ (codes "tmp") dir g7.inside in
    let g9 = mkchild-IsGrown g8.sound _ (codes "var") dir (omega (arith, g7.inside, g8.grown)) in
    let g10 = mkchild-IsGrown g9.sound _ (codes "tmp") dir g9.inside in
    let r1 =
      mount-IsSound _ _ _ g10.sound
        (omega
          (arith, g3.inside, g4.grown, g5.grown, g6.grown, g7.grown, g8.grown, g9.grown, g10.grown))
        (omega (arith, g8.inside, g9.grown, g10.grown))
        (omega (
          arith, g1.inside, g2.grown, g3.grown, g4.grown, g5.grown, g6.grown, g7.grown, g8.grown,
          g9.grown, g10.grown,
        )) in
    (mount-IsSound _ _ _ r1.0
      (omega (arith, r1.1, g4.inside, g5.grown, g6.grown, g7.grown, g8.grown, g9.grown, g10.grown))
      (omega (arith, r1.1, g10.inside))
      (omega (
        arith, r1.1, g2.inside, g3.grown, g4.grown, g5.grown, g6.grown, g7.grown, g8.grown,
        g9.grown, g10.grown,
      ))).0

populated-IsSound : (p : Profile) → IsSound (populated p)
populated-IsSound (mac_shim r) = new_mac-IsSound (initial-IsSound (mac_shim r)) r
populated-IsSound (linux_mount r) = new_linux-IsSound (initial-IsSound (linux_mount r)) r

-- The working directory may be any node of the arena.
with_cwd-IsSound :
    {m : Model} (i : NodeId) → IsSound m → i < size m → IsSound (record m { cwd = i })
with_cwd-IsSound {m} i s h = record {
  valid = record {
    root_node = s.valid.root_node;
    cwd = h;
    at = unfold node in s.valid.at;
    fds = s.valid.fds;
  };
  acyclic = IsAcyclic-SameParents (outside-SameParents m m.fds m.next_fd i) s.acyclic;
}

-- A new model is sound, whatever the profile and the root's path.
pub new-IsSound : (p : Profile) → IsSound (new p)
unfolding new
new-IsSound p =
    let s = populated-IsSound p in with_cwd-IsSound (populated p).root_node s s.valid.root_node

pub new_plain-IsSound : (anchor : Bytes) → IsSound (new_plain anchor)
unfolding new_plain
new_plain-IsSound anchor =
    let g = mkdir_p-IsGrown (initial-IsSound (linux_mount anchor)) physical anchor dir in
    with_cwd-IsSound _ g.sound g.inside
