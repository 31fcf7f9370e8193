-- ===== src/Fs/Valid/Lookups.antt =====
-- crates/world-fsmodel/src/lib.rs: where the lookups of a valid model end.
use world.Prelude.{
  ℕ, zero, suc, ◌+◌, ◌<◌, ltb, ◌≡◌, refl, Bool, true, false, ◌&&◌, List, [], ◌∷◌, Option, none,
  some, is_empty, if◌then◌else◌, arith,
}
use world.Bytes.{Bytes, beq, dotdot}
use world.Map.{get}
use world.Map.Order.{fd_key}
use world.Result.{Result, Errno, ok, err}
use world.Result.Yields.{Yields, Yields-ok, Yields-err}
use world.Fs.Types.{
  NodeId, View, virtual, physical, NodeKind, symlink, Start, cwd, fd, root, FdEntry, Model,
}
use world.Fs.Nodes.{
  fd_entry_dir, node, enter, node_parent, child, key, is_symlink, max_symlinks, or_else, start_node,
}
use world.Fs.Resolve.{
  Lookup, Walk, Rec, ◌>>=◌, ◌>>◌, guard, lift, pure, raise, found, after, base_of, follow_target,
  follow_link, through, descend, step, walk, resolve_body, resolve_inner, link_fuel, follow_symlink,
  resolve_impl, resolve, start_walk,
}
use world.Fs.Valid.{Below, size, FdBelow, IsValid}

-- A lookup whose result, from any state, satisfies `P`
pub record Finds {A : Type 0} (P : A → Type 0) (l : Lookup A) : Type 0 where
  pub of : (w : Walk) → Yields P (l w).0

module _ {A : Type 0} {P : A → Type 0} where
  pub Finds-pure : (a : A) → P a → Finds P (pure a)
  unfolding pure
  Finds-pure a h = record { of = λ w. Yields-ok a h }

  pub Finds-lift : (r : Result A) → Yields P r → Finds P (lift r)
  unfolding lift
  Finds-lift r h = record { of = λ w. h }

  pub Finds-if :
      (b : Bool) (l l' : Lookup A)
      → (b ≡ true → Finds P l)
      → (b ≡ false → Finds P l')
      → Finds P (if b then l else l')
  Finds-if true l l' h k = h refl
  Finds-if false l l' h k = k refl

  pub Finds-guard :
      (b : Bool) (e : Errno) (l : Lookup A) → (b ≡ true → Finds P l) → Finds P (guard b e >> l)
  unfolding ◌>>◌
  Finds-guard true e l h = record { of = λ w. (h refl).of w }
  Finds-guard false e l h = record { of = λ w. Yields-err e }

Yields-after :
    {A B : Type 0} (P : A → Type 0) {Q : B → Type 0} (r : Result A) (w : Walk) (f : A → Lookup B)
    → Yields P r
    → ((a : A) → P a → Finds Q (f a))
    → Yields Q (after (r, w) f).0
Yields-after P (ok a) w f h k = (k a (h.of a refl)).of w
Yields-after P (err e) w f h k = Yields-err e

pub Finds-bind :
    {A B : Type 0} (P : A → Type 0) {Q : B → Type 0} (l : Lookup A) (f : A → Lookup B)
    → Finds P l
    → ((a : A) → P a → Finds Q (f a))
    → Finds Q (l >>= f)
unfolding ◌>>=◌
Finds-bind P l f h k = record { of = λ w. Yields-after P (l w).0 (l w).1 f (h.of w) k }

pub Yields-pick :
    {A : Type 0} {P : A → Type 0} (b : Bool) (x y : Result A × Walk)
    → Yields P x.0
    → Yields P y.0
    → Yields P (if b then x else y).0
Yields-pick true x y h k = h
Yields-pick false x y h k = k

-- A recursive call that is given an id of the arena finds one.
abbrev RecBelow : ℕ → Rec → Type 0
RecBelow n rec = (d : NodeId) (path : Bytes) (b : Bool) → d < n → Finds (λ i. i < n) (rec d path b)

module _ {m : Model} (v : IsValid m) where
  pub or_else-lt :
      (o : Option NodeId) (i : NodeId) → Below (size m) o → i < size m → or_else o i < size m
  or_else-lt none i h k = k
  or_else-lt (some j) i h k = h

  pub enter-lt : (view : View) (i : NodeId) → i < size m → enter m view i < size m
  unfolding enter
  enter-lt virtual i h = or_else-lt _ i (v.at i).mounted_by h
  enter-lt physical i h = h

  pub node_parent-lt : (view : View) (i : NodeId) → i < size m → node_parent m view i < size m
  unfolding node_parent
  node_parent-lt virtual i h =
      or_else-lt _ _ (v.at i).virtual_parent (or_else-lt _ i (v.at i).parent h)
  node_parent-lt physical i h = or_else-lt _ i (v.at i).parent h

  pub child-Below : (p : NodeId) (k : Bytes) → Below (size m) (child m p k)
  unfolding child
  child-Below p k = (v.at p).children k

  found-lt : (o : Option NodeId) → Below (size m) o → Finds (λ i. i < size m) (found o)
  unfolding raise
  found-lt none h = record { of = λ w. Yields-err _ }
  found-lt (some i) h = Finds-pure i h

  pub base_of-lt : (d : NodeId) (t : Bytes) → d < size m → base_of m d t < size m
  unfolding base_of
  base_of-lt d t h = ground (arith, v.root_node)

  module _ (rec : Rec) (view : View) (ih : RecBelow (size m) rec) where
    follow_target-lt :
        (d link : NodeId) (t : Bytes)
        → d < size m
        → Finds (λ i. i < size m) (follow_target rec m view d link t)
    follow_target-lt d link t h = record {
      of = λ w.
          Yields-pick (ltb (max_symlinks m) (w.links + 1)) _ _ (Yields-err _)
            (Yields-pick (is_empty t) _ _ (Yields-err _) ((ih _ t true (base_of-lt d t h)).of _));
    }

    follow_kind-lt :
        (d link : NodeId) (k : NodeKind)
        → d < size m
        → link < size m
        → Finds
            (λ i. i < size m)
            (elim k [ symlink t ↦ follow_target rec m view d link t | _ ↦ pure link ])
    follow_kind-lt d link (symlink t) h l = follow_target-lt d link t h
    follow_kind-lt d link _ h l = Finds-pure link l

    follow_link-lt :
        (d link : NodeId)
        → d < size m
        → link < size m
        → Finds (λ i. i < size m) (follow_link rec m view d link)
    unfolding follow_link
    follow_link-lt d link h l = follow_kind-lt d link (node m link).kind h l

    through-lt :
        (b : Bool) (d entry : NodeId)
        → d < size m
        → entry < size m
        → Finds (λ i. i < size m) (through rec m view b d entry)
    through-lt b d entry h e =
        Finds-if (b && is_symlink m entry) _ _ (λ _. follow_link-lt d entry h e)
          (λ _. Finds-pure entry e)

    descend-lt :
        (follow_last trailing : Bool) (cur : NodeId) (comp : Bytes) (is_last : Bool)
        → cur < size m
        → Finds (λ i. i < size m) (descend rec m view follow_last trailing cur comp is_last)
    unfolding descend
    descend-lt follow_last trailing cur comp is_last h = Finds-guard _ _ _ λ _.
        Finds-guard _ _ _ λ _.
          Finds-bind (λ i. i < size m) _ _ (found-lt _ (child-Below cur (key m comp)))
            λ entry e.
              Finds-bind (λ i. i < size m) _ _ (through-lt _ cur entry h e)
                λ target t. Finds-guard _ _ _ λ _. Finds-pure _ (enter-lt view target t)

    pub step-lt :
        (follow_last trailing : Bool) (cur : NodeId) (comp : Bytes) (is_last : Bool)
        → cur < size m
        → Finds (λ i. i < size m) (step rec m view follow_last trailing cur comp is_last)
    unfolding step
    step-lt follow_last trailing cur comp is_last h =
        Finds-if (beq comp dotdot) _ (descend rec m view follow_last trailing cur comp is_last)
          (λ _. Finds-pure _ (enter-lt view _ (node_parent-lt view cur h)))
          (λ _. descend-lt follow_last trailing cur comp is_last h)

    pub walk-lt :
        (follow_last trailing : Bool) (cur : NodeId) (comps : List Bytes)
        → cur < size m
        → Finds (λ i. i < size m) (walk rec m view follow_last trailing cur comps)
    unfolding walk
    walk-lt follow_last trailing cur [] h = Finds-pure cur h
    walk-lt follow_last trailing cur (comp ∷ rest) h =
        Finds-bind (λ i. i < size m) _ _ (step-lt follow_last trailing cur comp (is_empty rest) h)
          λ next n. walk-lt follow_last trailing next rest n

    resolve_body-lt : RecBelow (size m) (resolve_body rec m view)
    unfolding resolve_body
    resolve_body-lt cur path follow_last h = Finds-guard _ _ _ λ _.
        Finds-guard _ _ _ λ _. walk-lt follow_last _ _ _ (enter-lt view _ (base_of-lt cur path h))

  pub resolve_inner-lt : (fuel : ℕ) (view : View) → RecBelow (size m) (resolve_inner fuel m view)
  unfolding resolve_inner raise
  resolve_inner-lt zero view cur path b h = record { of = λ w. Yields-err _ }
  resolve_inner-lt (suc fuel) view cur path b h =
      resolve_body-lt (resolve_inner fuel m view) view (resolve_inner-lt fuel view) cur path b h

  pub follow_symlink-lt :
      (view : View) (d link : NodeId)
      → d < size m
      → link < size m
      → Finds (λ i. i < size m) (follow_symlink m view d link)
  unfolding follow_symlink
  follow_symlink-lt view d link =
      follow_link-lt (resolve_inner (link_fuel m) m view) view (resolve_inner-lt (link_fuel m) view)
        d link

  fd_entry-lt :
      (o : Option FdEntry) → FdBelow (size m) o → Yields (λ i. i < size m) (fd_entry_dir o)
  fd_entry-lt (some (FdEntry.dir i)) h = Yields-ok i h
  fd_entry-lt (some (FdEntry.file i p w)) h = Yields-err _
  fd_entry-lt none h = Yields-err _

  pub start_node-lt : (start : Start) → Yields (λ i. i < size m) (start_node m start)
  unfolding start_node
  start_node-lt root = Yields-ok _ v.root_node
  start_node-lt cwd = Yields-ok _ v.cwd
  start_node-lt (fd f) = fd_entry-lt (get f m.fds) (v.fds f)

  pub resolve-lt :
      (view : View) (start : Start) (path : Bytes) (b : Bool)
      → Yields (λ i. i < size m) (resolve m view start path b)
  unfolding resolve resolve_impl
  resolve-lt view start path b =
      (Finds-bind (λ i. i < size m) _ _ (Finds-lift _ (start_node-lt start))
          (λ s h. resolve_inner-lt (link_fuel m) view s path b h)).of
        start_walk
