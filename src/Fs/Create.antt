-- ===== src/Fs/Create.antt =====
-- crates/world-fsmodel/src/lib.rs: the lookups that find where an operation creates or removes a name:
-- `resolve_parent`, `resolve_for_create`, `trail_mac`, `owner_of`.
use world.Prelude.{
  ltb, leb, ◌==◌, Bool, true, false, ◌||◌, not, Option, none, some, length, if◌then◌else◌,
}
use world.Bytes.{Bytes, beq, dot, dotdot}
use world.Map.{key_of}
use world.Result.{
  Result, ok, err, Errno, enoent, enotdir, einval, enametoolong, ebusy, ◌>>=◌, ◌>>◌, guard,
}
use world.Fs.Types.{NodeId, virtual, Start, Model}
use world.Fs.Paths.{has_trailing_slash, parent_and_name}
use world.Fs.Nodes.{
  node, name_max, path_max, is_mac, is_dir, is_symlink, child, has_child, start_node,
}
use world.Fs.Resolve.{resolve, link_fuel, follow_symlink, start_walk}
use world.Fs.Chain.{resolve_for_create_inner}

abbrev pub Target : Type 0
Target = NodeId × Bytes × Bool

-- `if dir == b"." { the start itself } else { resolve(dir) }`
unfoldable pub dir_or_start : Model → Start → Bytes → Result NodeId
unfolding start_node
dir_or_start m start d = if beq d dot then start_node m start else resolve m virtual start d true

unfoldable pub resolve_parent_unchecked : Model → Start → Bytes → Result Target
unfolding dir_or_start
resolve_parent_unchecked m start path = do
  guard (ltb (length path) (path_max m)) enametoolong
  s ← parent_and_name path
  guard (not (beq s.name dot || beq s.name dotdot)) einval
  parent ← dir_or_start m start s.dir
  ok (parent, s.name, s.trailing)

unfoldable pub resolve_parent : Model → Start → Bytes → Result Target
unfolding is_dir
resolve_parent m start path = do
  t ← resolve_parent_unchecked m start path
  guard (is_dir m t.0) enotdir
  guard (leb (length t.1) name_max) enametoolong
  ok t

unfoldable pub resolve_for_create : Model → Start → Bytes → Result Target
unfolding start_node
resolve_for_create m start path = do
  s ← start_node m start
  t ← (resolve_for_create_inner (link_fuel m) m s path start_walk).0
  ok (t.0, t.1, has_trailing_slash path)

pub data Trail : Type 0 where
  missing : Trail
  dangling : NodeId → Bytes → Trail
  non_dir : Trail
  dir : NodeId → Trail

unfoldable pub classify : Model → NodeId → Trail
unfolding is_dir
classify m target = if is_dir m target then dir target else non_dir

unfoldable pub trail_link : Model → Start → Bytes → Result NodeId → Result Trail
unfolding classify
trail_link m start path (ok t) = ok (classify m t)
trail_link m start path (err enoent) = do t ← resolve_for_create m start path; ok (dangling t.0 t.1)
trail_link m start path (err e) = err e

unfoldable pub trail_mac : Model → Start → NodeId → Bytes → Bytes → Result Trail
unfolding trail_link is_symlink child
trail_mac m start parent k path = elim (child m parent k) [
  | none ↦ ok missing
  | some id ↦
      if is_symlink m id
      then trail_link m start path (follow_symlink m virtual parent id start_walk).0
      else ok (classify m id)
]

abbrev pub is_some {ℓ} : {A : Type ℓ} → Option A → Bool
is_some none = false
is_some (some a) = true

abbrev pub owner_key : NodeId → Option Bytes → Result (NodeId × Bytes)
owner_key p none = err ebusy
owner_key p (some k) = ok (p, k)

-- The parent, unless the node is its own, and the key under which it lists `t`
unfoldable pub parent_owner : Model → NodeId → Option NodeId → Result (NodeId × Bytes)
unfolding node
parent_owner m t none = err ebusy
parent_owner m t (some p) =
    if p == t then err ebusy else owner_key p (key_of (λ c. c == t) (node m p).children)

unfoldable pub owner_of : Model → NodeId → Result (NodeId × Bytes)
unfolding node parent_owner
owner_of m t =
    if is_some (node m t).virtual_parent || is_some (node m t).mounted_by
    then err ebusy
    else parent_owner m t (node m t).parent

abbrev trail_errno : Errno → Result Trail → Errno
trail_errno exists_errno (err e) = e
trail_errno exists_errno (ok missing) = enoent
trail_errno exists_errno (ok (dangling p n)) = enoent
trail_errno exists_errno (ok non_dir) = enotdir
trail_errno exists_errno (ok (dir t)) = exists_errno

unfoldable pub trailing_create_errno : Model → Start → NodeId → Bytes → Bytes → Errno → Errno
unfolding trail_mac has_child
trailing_create_errno m start parent k path exists_errno =
    if not (is_mac m)
    then if has_child m parent k then exists_errno else enoent
    else trail_errno exists_errno (trail_mac m start parent k path)
