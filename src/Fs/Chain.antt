-- ===== src/Fs/Chain.antt =====
-- crates/world-fsmodel/src/lib.rs: `resolve_for_create_inner`, the lookup that follows a chain of
-- dangling links to the place where a file would be created.
use world.Prelude.{
  ℕ, zero, suc, ◌+◌, ltb, leb, false, not, List, [], ◌∷◌, Option, none, some, length, is_empty,
  if◌then◌else◌,
}
use world.Bytes.{Bytes, beq, dotdot, real_components}
use world.Result.{err, enoent, enotdir, eexist, einval, eloop, enametoolong}
use world.Fs.Types.{NodeId, virtual, NodeKind, symlink, Model}
use world.Fs.Nodes.{node, name_max, max_symlinks, path_max, is_dir, enter, key, child}
use world.Fs.Resolve.{
  Lookup, Walk, ◌>>=◌, ◌>>◌, guard, pure, raise, step, resolve_inner, link_fuel, base_of,
}

abbrev pub Place : Type 0
Place = NodeId × Bytes

-- `split_last`
unfoldable pub unsnoc : List Bytes → Option (List Bytes × Bytes)
unsnoc [] = none
unsnoc (c ∷ cs) = elim (unsnoc cs) [
  | none ↦ some ([], c)
  | some (init, last) ↦ some (c ∷ init, last)
]

-- The loop over the components before the last: its round is the one of `resolve_inner` for a
-- component that is not the last.
unfoldable pub walk_init : Model → NodeId → List Bytes → Lookup NodeId
unfolding step
walk_init m cur [] = pure cur
walk_init m cur (comp ∷ rest) =
    step (resolve_inner (link_fuel m) m virtual) m virtual false false cur comp false >>= λ next.
    walk_init m next rest

module _ (rec : NodeId → Bytes → Lookup Place) (m : Model) where
  -- The `Some(id)` arm: a symlink at the last component is followed, and anything else exists.
  unfoldable pub create_through : NodeId → NodeKind → Lookup Place
  create_through cur (symlink target) w =
      let w' : Walk = record w { links = w.links + 1 } in
      if ltb (max_symlinks m) (w.links + 1)
      then (err eloop, w')
      else if is_empty target
      then (err enoent, w')
      else rec (base_of m cur target) target w'
  create_through cur k w = (err eexist, w)

  unfoldable pub create_entry : NodeId → Bytes → Option NodeId → Lookup Place
  unfolding create_through node
  create_entry cur last none = pure (cur, last)
  create_entry cur last (some id) = create_through cur (node m id).kind

  -- The last component, in the directory that the others lead to
  unfoldable pub create_last : NodeId → Bytes → Lookup Place
  unfolding create_entry is_dir
  create_last cur last = do
    guard (not (beq last dotdot)) einval
    guard (leb (length last) name_max) enametoolong
    guard (is_dir m cur) enotdir
    create_entry cur last (child m cur (key m last))

  -- A path with no real component leaves no name to create.
  unfoldable pub create_split : NodeId → Option (List Bytes × Bytes) → Lookup Place
  unfolding create_last walk_init
  create_split cur none = raise eexist
  create_split cur (some (init, last)) = walk_init m cur init >>= λ d. create_last d last

  unfoldable pub create_body : NodeId → Bytes → Lookup Place
  unfolding create_split unsnoc
  create_body cur path = do
    guard (ltb (length path) (path_max m)) enametoolong
    guard (not (is_empty path)) enoent
    create_split (enter m virtual (base_of m cur path)) (unsnoc (real_components path))

unfoldable pub resolve_for_create_inner : ℕ → Model → NodeId → Bytes → Lookup Place
resolve_for_create_inner zero m cur path = raise eloop
resolve_for_create_inner (suc fuel) m cur path =
    create_body (resolve_for_create_inner fuel m) m cur path
