-- ===== src/Fs/Resolve/Fuel.antt =====
-- crates/world-fsmodel/src/lib.rs: the fuel of the path lookups, and the count of followed links.
use world.Prelude.{
  ℕ, zero, suc, ◌+◌, ◌<◌, ◌≤◌, ltb, ◌≡◌, refl, Bool, true, false, ◌&&◌, List, [], ◌∷◌, is_empty,
  if◌then◌else◌, arith,
}
use world.Bytes.{Bytes, beq, dotdot, real_components}
use world.Fs.Types.{NodeId, View, NodeKind, symlink, Model}
use world.Fs.Paths.{has_trailing_slash}
use world.Fs.Nodes.{node, enter, node_parent, child, key, is_symlink, max_symlinks}
use world.Fs.Resolve.{
  Walk, Rec, pure, base_of, follow_target, follow_link, through, descend, step, walk, resolve_body,
  resolve_inner, link_fuel,
}
use world.Fs.Resolve.Rises.{
  Rises, Same, Same-bind, Same-refl, Same-guard, Same-if, found-Rises, counted, through-Rises,
  step-Rises, resolve_inner-Rises,
}

if-Same :
    {A : Type 0} (b : Bool) (x y y' : A)
    → (b ≡ false → y ≡ y')
    → (if b then x else y) ≡ (if b then x else y')
if-Same true x y y' h = refl
if-Same false x y y' h = h refl

module _ (m : Model) (view : View) (rec rec' : Rec) (n : ℕ)
    (r : (d : NodeId) (t : Bytes) (b : Bool) → Rises (rec d t b))
    (h : (d : NodeId) (t : Bytes) (b : Bool) (w : Walk)
      → n < w.links
      → w.links ≤ max_symlinks m
      → rec d t b w ≡ rec' d t b w) where
  follow_target-Same :
      (d link : NodeId) (t : Bytes)
      → Same n (follow_target rec m view d link t) (follow_target rec' m view d link t)
  follow_target-Same d link t = record {
    at = λ w k. if-Same (ltb (max_symlinks m) (w.links + 1)) _ _ _ λ few.
        if-Same (is_empty t) _ _ _
          λ _. h (base_of m d t) t true (counted w link) (omega arith) (ground (arith, few));
  }

  follow_kind-Same :
      (d link : NodeId) (k : NodeKind)
      → Same n
          (elim k [ symlink t ↦ follow_target rec m view d link t | _ ↦ pure link ])
          (elim k [ symlink t ↦ follow_target rec' m view d link t | _ ↦ pure link ])
  follow_kind-Same d link (symlink t) = follow_target-Same d link t
  follow_kind-Same d link _ = Same-refl (pure link)

  follow_link-Same :
      (d link : NodeId) → Same n (follow_link rec m view d link) (follow_link rec' m view d link)
  unfolding follow_link
  follow_link-Same d link = follow_kind-Same d link (node m link).kind

  through-Same :
      (b : Bool) (d entry : NodeId)
      → Same n (through rec m view b d entry) (through rec' m view b d entry)
  through-Same b d entry =
      Same-if (b && is_symlink m entry) _ _ _ _ (follow_link-Same d entry) (Same-refl (pure entry))

  descend-Same :
      (fl trailing : Bool) (cur : NodeId) (comp : Bytes) (is_last : Bool)
      → Same n
          (descend rec m view fl trailing cur comp is_last)
          (descend rec' m view fl trailing cur comp is_last)
  unfolding descend
  descend-Same fl trailing cur comp is_last = Same-guard _ _ _ _ (
      Same-guard _ _ _ _ (
        Same-bind _ _ _ _ (Same-refl _) (found-Rises (child m cur (key m comp))) λ entry.
          Same-bind _ _ _ _ (through-Same _ cur entry) (through-Rises m view rec r _ cur entry)
            λ t. Same-refl _))

  step-Same :
      (fl trailing : Bool) (cur : NodeId) (comp : Bytes) (is_last : Bool)
      → Same n
          (step rec m view fl trailing cur comp is_last)
          (step rec' m view fl trailing cur comp is_last)
  unfolding step
  step-Same fl trailing cur comp is_last =
      Same-if (beq comp dotdot) _ _ (descend rec m view fl trailing cur comp is_last)
        (descend rec' m view fl trailing cur comp is_last)
        (Same-refl (pure (enter m view (node_parent m view cur))))
        (descend-Same fl trailing cur comp is_last)

  walk-Same :
      (fl trailing : Bool) (cur : NodeId) (comps : List Bytes)
      → Same n (walk rec m view fl trailing cur comps) (walk rec' m view fl trailing cur comps)
  unfolding walk
  walk-Same fl trailing cur [] = Same-refl _
  walk-Same fl trailing cur (comp ∷ rest) =
      Same-bind _ _ _ _ (step-Same fl trailing cur comp (is_empty rest))
        (step-Rises m view rec r fl trailing cur comp (is_empty rest))
        λ next. walk-Same fl trailing next rest

  resolve_body-Same :
      (cur : NodeId) (path : Bytes) (b : Bool)
      → Same n (resolve_body rec m view cur path b) (resolve_body rec' m view cur path b)
  unfolding resolve_body
  resolve_body-Same cur path b =
      Same-guard _ _ _ _
        (Same-guard _ _ _ _ (walk-Same b (has_trailing_slash path) _ (real_components path)))

-- Fuel above what the count leaves makes no difference.
resolve_inner-enough :
    (f g : ℕ) (m : Model) (view : View) (n : ℕ) (d : NodeId) (t : Bytes) (b : Bool) (w : Walk)
    → max_symlinks m < n + f
    → max_symlinks m < n + g
    → n ≤ w.links
    → w.links ≤ max_symlinks m
    → resolve_inner f m view d t b w ≡ resolve_inner g m view d t b w
unfolding resolve_inner
resolve_inner-enough zero g m view n d t b w h k l u = absurd (omega arith)
resolve_inner-enough (suc f) zero m view n d t b w h k l u = absurd (omega arith)
resolve_inner-enough (suc f) (suc g) m view n d t b w h k l u =
    (resolve_body-Same m view (resolve_inner f m view) (resolve_inner g m view) n
        (resolve_inner-Rises f m view)
        (λ d' t' b' w' l' u'.
          resolve_inner-enough f g m view (suc n) d' t' b' w' (omega arith) (omega arith) l' u')
        d t b).at
      w l

-- The lookup, at the fuel that the model gives it, is its own body with itself for the recursive
-- calls: it computes what the source's unbounded recursion computes.
pub resolve_inner_equation :
    (m : Model) (view : View) (d : NodeId) (path : Bytes) (follow_last : Bool) (w : Walk)
    → resolve_inner (link_fuel m) m view d path follow_last w
      ≡ resolve_body (resolve_inner (link_fuel m) m view) m view d path follow_last w
unfolding resolve_inner
resolve_inner_equation m view d path follow_last w =
    (resolve_body-Same m view (resolve_inner (max_symlinks m) m view)
        (resolve_inner (link_fuel m) m view) 0 (resolve_inner-Rises (max_symlinks m) m view)
        (λ d' t' b' w' l' u'.
          resolve_inner-enough (max_symlinks m) (link_fuel m) m view 1 d' t' b' w' (omega arith)
            (omega arith) l' u')
        d path follow_last).at
      w (omega arith)
