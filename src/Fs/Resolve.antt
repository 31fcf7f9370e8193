-- ===== src/Fs/Resolve.antt =====
-- crates/world-fsmodel/src/lib.rs: path resolution. A lookup carries the count of links followed and
-- the links it crossed, also out of an error. The recursion through links takes fuel (`link_fuel`).
pub mod Rises
pub mod Fuel
use world.Prelude.{
  ℕ, zero, suc, ◌+◌, ltb, leb, ◌≡◌, Bool, true, false, ◌&&◌, ◌||◌, not, List, [], ◌∷◌, ◌++◌, Option,
  none, some, length, is_empty, if◌then◌else◌,
}
use world.Bytes.{Bytes, beq, dotdot, real_components, starts_with_slash}
use world.Result
use world.Result.{Result, ok, err, Errno, enoent, enotdir, eloop, enametoolong}
use world.Fs.Types.{NodeId, View, NodeKind, symlink, Start, Model}
use world.Fs.Paths.{has_trailing_slash}
use world.Fs.Nodes.{
  node, name_max, max_symlinks, path_max, is_dir, is_symlink, enter, node_parent, key, child,
  start_node,
}

pub record Walk : Type 0 where
  pub links : ℕ
  pub crossed : List NodeId

abbrev pub Lookup : Type 0 → Type 0
Lookup A = Walk → Result A × Walk

abbrev pub after : {A B : Type 0} → Result A × Walk → (A → Lookup B) → Result B × Walk
after (ok a, w) f = f a w
after (err e, w) f = (err e, w)

unfoldable pub pure : {A : Type 0} → A → Lookup A
pure a w = (ok a, w)

unfoldable pub raise : {A : Type 0} → Errno → Lookup A
raise e w = (err e, w)

unfoldable pub guard : Bool → Errno → Lookup (Unit {0})
unfolding Result.guard
guard b e w = (Result.guard b e, w)

unfoldable pub lift : {A : Type 0} → Result A → Lookup A
lift r w = (r, w)

-- Opening this opens `pure`, `raise`, `guard` and `lift` too.
infixl 5 ◌>>=◌ ◌>>◌
unfoldable pub ◌>>=◌ : {A B : Type 0} → Lookup A → (A → Lookup B) → Lookup B
unfolding pure raise guard lift
◌>>=◌ m f w = after (m w) f

unfoldable pub ◌>>◌ : {B : Type 0} → Lookup (Unit {0}) → Lookup B → Lookup B
unfolding ◌>>=◌
m >> k = m >>= λ _. k

abbrev pub found : Option NodeId → Lookup NodeId
found (some i) = pure i
found none = raise enoent

-- A recursive call: base node, path, `follow_last`
abbrev pub Rec : Type 0
Rec = NodeId → Bytes → Bool → Lookup NodeId

-- `if target[0] == b'/' { root } else { dir }`
unfoldable pub base_of : Model → NodeId → Bytes → NodeId
base_of m d target = if starts_with_slash target then m.root_node else d

module _ (rec : Rec) (m : Model) (view : View) where
  abbrev pub follow_target : NodeId → NodeId → Bytes → Lookup NodeId
  follow_target d link target w =
      let w' : Walk = record { links = w.links + 1; crossed = w.crossed ++ link ∷ [] } in
      if ltb (max_symlinks m) (w.links + 1)
      then (err eloop, w')
      else if is_empty target
      then (err enoent, w')
      else rec (base_of m d target) target true w'

  -- `follow_symlink`, whose `resolve_inner` is `rec`
  unfoldable pub follow_link : NodeId → NodeId → Lookup NodeId
  unfolding node
  follow_link d link = elim (node m link).kind [
    | symlink target ↦ follow_target d link target
    | _ ↦ pure link
  ]

  -- `must_follow` and the link check of one entry
  abbrev pub through : Bool → NodeId → NodeId → Lookup NodeId
  through must_follow cur entry =
      if must_follow && is_symlink m entry then follow_link cur entry else pure entry

  -- One round of the loop over the components, at a name other than `..`
  unfoldable pub descend : Bool → Bool → NodeId → Bytes → Bool → Lookup NodeId
  unfolding is_symlink is_dir
  descend follow_last trailing cur comp is_last = do
    guard (leb (length comp) name_max) enametoolong
    guard (is_dir m cur) enotdir
    entry ← found (child m cur (key m comp))
    target ← through (not is_last || follow_last || trailing) cur entry
    guard (not (not is_last || trailing) || is_dir m target) enotdir
    pure (enter m view target)

  -- One round of the loop over the components
  unfoldable pub step : Bool → Bool → NodeId → Bytes → Bool → Lookup NodeId
  unfolding descend
  step follow_last trailing cur comp is_last =
      if beq comp dotdot
      then pure (enter m view (node_parent m view cur))
      else descend follow_last trailing cur comp is_last

  unfoldable pub walk : Bool → Bool → NodeId → List Bytes → Lookup NodeId
  unfolding step
  walk follow_last trailing cur [] = pure cur
  walk follow_last trailing cur (comp ∷ rest) =
      step follow_last trailing cur comp (is_empty rest) >>= λ next.
      walk follow_last trailing next rest

  -- The body of `resolve_inner`
  unfoldable pub resolve_body : Rec
  unfolding walk
  resolve_body cur path follow_last = do
    guard (ltb (length path) (path_max m)) enametoolong
    guard (not (is_empty path)) enoent
    walk follow_last (has_trailing_slash path) (enter m view (base_of m cur path))
        (real_components path)

unfoldable pub resolve_inner : ℕ → Model → View → Rec
resolve_inner zero m view cur path follow_last = raise eloop
resolve_inner (suc fuel) m view cur path follow_last =
    resolve_body (resolve_inner fuel m view) m view cur path follow_last

-- One call for each link that may be followed, and the first
abbrev pub link_fuel : Model → ℕ
link_fuel m = suc (max_symlinks m)

unfoldable pub follow_symlink : Model → View → NodeId → NodeId → Lookup NodeId
follow_symlink m view = follow_link (resolve_inner (link_fuel m) m view) m view

abbrev pub start_walk : Walk
start_walk = record { links = 0; crossed = [] }

unfoldable pub resolve_impl : Model → View → Start → Bytes → Bool → Lookup NodeId
unfolding start_node
resolve_impl m view start path follow_last =
    lift (start_node m start) >>= λ s. resolve_inner (link_fuel m) m view s path follow_last

unfoldable pub resolve : Model → View → Start → Bytes → Bool → Result NodeId
resolve m view start path follow_last = (resolve_impl m view start path follow_last start_walk).0

-- `crossed` is what the caller's vector holds before the call.
unfoldable pub resolve_traced :
    Model → View → Start → Bytes → Bool → List NodeId → Result NodeId × List NodeId
resolve_traced m view start path follow_last crossed =
    let (r, w) =
      resolve_impl m view start path follow_last (record { links = 0; crossed = crossed }) in
    (r, w.crossed)
