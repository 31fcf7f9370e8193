-- ===== src/Fs/Valid/Targets.antt =====
-- In a valid model, what an operation acts on lies in the arena: parents, link targets, owners.
use world.Prelude.{
  ℕ, zero, suc, ◌+◌, ◌<◌, ltb, ◌≡◌, refl, true, false, List, [], ◌∷◌, Option, none, some, is_empty,
  if◌then◌else◌, Bool-cases, inl, inr,
}
use world.Bytes.{Bytes, beq, dot, real_components}
use world.Result.{Result, ok, err, enoent}
use world.Result.Yields.{Yields, Yields-ok, Yields-err, Yields-bind, Yields-guard, Yields-if}
use world.Fs.Types.{NodeId, virtual, NodeKind, symlink, Start, Model}
use world.Fs.Paths.{parent_and_name}
use world.Fs.Nodes.{node, child, key, is_dir, is_symlink, max_symlinks}
use world.Fs.Resolve.{Lookup, raise, resolve_inner, link_fuel, follow_symlink, start_walk}
use world.Fs.Chain.{
  Place, unsnoc, walk_init, create_through, create_entry, create_split, create_body,
  resolve_for_create_inner,
}
use world.Fs.Create.{
  dir_or_start, resolve_parent_unchecked, resolve_parent, resolve_for_create, Trail, missing,
  dangling, dir, classify, trail_link, trail_mac,
}
use world.Fs.Valid.{Below, size, IsValid}
use world.Fs.Valid.Lookups.{
  Finds, Finds-pure, Finds-bind, Finds-guard, Yields-pick, enter-lt, base_of-lt, child-Below,
  step-lt, resolve_inner-lt, follow_symlink-lt, start_node-lt, resolve-lt,
}

-- A parent that an operation may write to: a directory of the arena
abbrev pub IsPlace : Model → NodeId → Type 0
IsPlace m p = (p < size m) × (is_dir m p ≡ true)

module _ {m : Model} (v : IsValid m) where
  dir_or_start-lt : (start : Start) (d : Bytes) → Yields (λ i. i < size m) (dir_or_start m start d)
  unfolding dir_or_start
  dir_or_start-lt start d =
      Yields-if (beq d dot) _ _ (λ _. start_node-lt v start)
        (λ _. resolve-lt v virtual start d true)

  resolve_parent_unchecked-lt :
      (start : Start) (path : Bytes)
      → Yields (λ t. t.0 < size m) (resolve_parent_unchecked m start path)
  unfolding resolve_parent_unchecked
  resolve_parent_unchecked-lt start path = Yields-guard _ _ _ λ _.
      Yields-bind (λ s. Unit {0}) (parent_and_name path) _ (record { of = λ s e. tt })
        λ s _. Yields-guard _ _ _ λ _.
          Yields-bind (λ i. i < size m) _ _ (dir_or_start-lt start s.dir) λ parent h. Yields-ok _ h

  pub resolve_parent-IsPlace :
      (start : Start) (path : Bytes) → Yields (λ t. IsPlace m t.0) (resolve_parent m start path)
  unfolding resolve_parent
  resolve_parent-IsPlace start path =
      Yields-bind (λ t. t.0 < size m) _ _ (resolve_parent_unchecked-lt start path)
        λ t h. Yields-guard _ _ _ λ d. Yields-guard _ _ _ λ _. Yields-ok _ (h, d)

  walk_init-lt :
      (cur : NodeId) (comps : List Bytes)
      → cur < size m
      → Finds (λ i. i < size m) (walk_init m cur comps)
  unfolding walk_init
  walk_init-lt cur [] h = Finds-pure cur h
  walk_init-lt cur (comp ∷ rest) h =
      Finds-bind (λ i. i < size m) _ _
        (step-lt v (resolve_inner (link_fuel m) m virtual) virtual
          (resolve_inner-lt v (link_fuel m) virtual) false false cur comp false h)
        λ next n. walk_init-lt next rest n

  module _ (rec : NodeId → Bytes → Lookup Place) where
    -- A recursive call that starts in the arena finds a place.
    abbrev RecPlace : Type 0
    RecPlace = (d : NodeId) (path : Bytes) → d < size m → Finds (λ t. IsPlace m t.0) (rec d path)

    create_through-IsPlace :
        RecPlace
        → (cur : NodeId) (k : NodeKind) → cur < size m
        → Finds (λ t. IsPlace m t.0) (create_through rec m cur k)
    unfolding create_through
    create_through-IsPlace ih cur (symlink t) h = record {
      of = λ w.
          Yields-pick (ltb (max_symlinks m) (w.links + 1)) _ _ (Yields-err _)
            (Yields-pick (is_empty t) _ _ (Yields-err _) ((ih _ t (base_of-lt v cur t h)).of _));
    }
    create_through-IsPlace ih cur _ h = record { of = λ w. Yields-err _ }

    create_entry-IsPlace :
        RecPlace
        → (cur : NodeId) (last : Bytes) (o : Option NodeId) → IsPlace m cur
        → Finds (λ t. IsPlace m t.0) (create_entry rec m cur last o)
    unfolding create_entry
    create_entry-IsPlace ih cur last none h = Finds-pure _ h
    create_entry-IsPlace ih cur last (some id) h =
        create_through-IsPlace ih cur (node m id).kind h.0

    create_split-IsPlace :
        RecPlace
        → (cur : NodeId) (o : Option (List Bytes × Bytes)) → cur < size m
        → Finds (λ t. IsPlace m t.0) (create_split rec m cur o)
    unfolding create_split raise
    create_split-IsPlace ih cur none h = record { of = λ w. Yields-err _ }
    create_split-IsPlace ih cur (some (init, last)) h =
        Finds-bind (λ i. i < size m) _ _ (walk_init-lt cur init h)
          λ d l. Finds-guard _ _ _ λ _. Finds-guard _ _ _ λ _.
            Finds-guard _ _ _ λ is. create_entry-IsPlace ih d last (child m d (key m last)) (l, is)

    create_body-IsPlace :
        RecPlace
        → (cur : NodeId) (path : Bytes) → cur < size m
        → Finds (λ t. IsPlace m t.0) (create_body rec m cur path)
    unfolding create_body
    create_body-IsPlace ih cur path h = Finds-guard _ _ _ λ _. Finds-guard _ _ _ λ _.
        create_split-IsPlace ih _ (unsnoc (real_components path))
          (enter-lt v virtual _ (base_of-lt v cur path h))

  resolve_for_create_inner-IsPlace :
      (fuel : ℕ) (cur : NodeId) (path : Bytes)
      → cur < size m
      → Finds (λ t. IsPlace m t.0) (resolve_for_create_inner fuel m cur path)
  unfolding resolve_for_create_inner raise
  resolve_for_create_inner-IsPlace zero cur path h = record { of = λ w. Yields-err _ }
  resolve_for_create_inner-IsPlace (suc fuel) cur path h =
      create_body-IsPlace (resolve_for_create_inner fuel m) (resolve_for_create_inner-IsPlace fuel)
        cur path h

  pub resolve_for_create-IsPlace :
      (start : Start) (path : Bytes) → Yields (λ t. IsPlace m t.0) (resolve_for_create m start path)
  unfolding resolve_for_create
  resolve_for_create-IsPlace start path =
      Yields-bind (λ i. i < size m) _ _ (start_node-lt v start)
        λ s h.
          Yields-bind (λ t. IsPlace m t.0) _ _
            ((resolve_for_create_inner-IsPlace (link_fuel m) s path h).of start_walk)
            λ t p. Yields-ok _ p

  -- What a trail leads to: a place to create in, or a directory
  abbrev pub IsTrail : Trail → Type 0
  IsTrail (dangling p name) = IsPlace m p
  IsTrail (dir t) = IsPlace m t
  IsTrail t = Unit

  classify-IsTrail : (t : NodeId) → t < size m → IsTrail (classify m t)
  unfolding classify
  classify-IsTrail t h = elim (Bool-cases (is_dir m t)) [ inl e ↦ rw e (h, e) | inr e ↦ rw e tt ]

  trail_link-IsTrail :
      (start : Start) (path : Bytes) (r : Result NodeId)
      → Yields (λ t. t < size m) r
      → Yields IsTrail (trail_link m start path r)
  unfolding trail_link
  trail_link-IsTrail start path (ok t) h = Yields-ok _ (classify-IsTrail t (h.of t refl))
  trail_link-IsTrail start path (err enoent) h =
      Yields-bind (λ t. IsPlace m t.0) _ _ (resolve_for_create-IsPlace start path)
        λ t p. Yields-ok _ p
  trail_link-IsTrail start path (err e) h = Yields-err _

  classified-IsTrail :
      (start : Start) (path : Bytes) (parent : NodeId) (o : Option NodeId)
      → parent < size m
      → Below (size m) o
      → Yields IsTrail (elim o [
        | none ↦ ok missing
        | some id ↦
            if is_symlink m id
            then trail_link m start path (follow_symlink m virtual parent id start_walk).0
            else ok (classify m id)
      ])
  classified-IsTrail start path parent none h b = Yields-ok _ tt
  classified-IsTrail start path parent (some id) h b =
      Yields-if (is_symlink m id) _ _
        (λ _.
          trail_link-IsTrail start path _
            ((follow_symlink-lt v virtual parent id h b).of start_walk))
        (λ _. Yields-ok _ (classify-IsTrail id b))

  pub trail_mac-IsTrail :
      (start : Start) (parent : NodeId) (k path : Bytes)
      → parent < size m
      → Yields IsTrail (trail_mac m start parent k path)
  unfolding trail_mac
  trail_mac-IsTrail start parent k path h =
      classified-IsTrail start path parent (child m parent k) h (child-Below v parent k)
