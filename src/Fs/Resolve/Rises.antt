-- ===== src/Fs/Resolve/Rises.antt =====
-- crates/world-fsmodel/src/lib.rs: how the path lookups count the links that they follow.
use world.Prelude.{
  ℕ, zero, suc, ◌+◌, ◌++◌, ◌≤◌, ltb, ◌≡◌, refl, ◌∙◌, ap, Bool, true, false, ◌&&◌, List, [], ◌∷◌,
  Option, none, some, is_empty, if◌then◌else◌, arith,
}
use world.Bytes.{Bytes, beq, dotdot, real_components}
use world.Result.{Result, Errno, ok, err}
use world.Fs.Types.{NodeId, View, NodeKind, symlink, Model}
use world.Fs.Paths.{has_trailing_slash}
use world.Fs.Nodes.{node, child, key, is_symlink, max_symlinks}
use world.Fs.Resolve.{
  Walk, Lookup, Rec, after, pure, raise, guard, found, ◌>>=◌, ◌>>◌, base_of, follow_target,
  follow_link, through, descend, step, walk, resolve_body, resolve_inner,
}

-- A lookup never lowers the count.
pub record Rises {A : Type 0} (l : Lookup A) : Type 0 where
  pub at : (w : Walk) → w.links ≤ (l w).1.links

-- Two lookups agree from every state that has counted `n` links.
pub record Same {A : Type 0} (n : ℕ) (l l' : Lookup A) : Type 0 where
  pub at : (w : Walk) → n ≤ w.links → l w ≡ l' w

module _ {A B : Type 0} where
  after-Rises :
      (r : Result A) (w : Walk) (f : A → Lookup B)
      → ((a : A) → Rises (f a))
      → w.links ≤ (after (r, w) f).1.links
  after-Rises (ok a) w f h = (h a).at w
  after-Rises (err e) w f h = omega arith

  Rises-bind :
      (l : Lookup A) (f : A → Lookup B) → Rises l → ((a : A) → Rises (f a)) → Rises (l >>= f)
  unfolding ◌>>=◌
  Rises-bind l f h k = record { at = λ w. omega (arith, h.at w, after-Rises (l w).0 (l w).1 f k) }

  after-Same :
      (n : ℕ) (r : Result A) (w : Walk) (f f' : A → Lookup B)
      → ((a : A) → Same n (f a) (f' a))
      → n ≤ w.links
      → after (r, w) f ≡ after (r, w) f'
  after-Same n (ok a) w f f' h k = (h a).at w k
  after-Same n (err e) w f f' h k = refl

  pub Same-bind :
      {n : ℕ} (l l' : Lookup A) (f f' : A → Lookup B)
      → Same n l l'
      → Rises l
      → ((a : A) → Same n (f a) (f' a))
      → Same n (l >>= f) (l' >>= f')
  unfolding ◌>>=◌
  Same-bind {n} l l' f f' h r k = record {
    at = λ w b.
        after-Same n (l w).0 (l w).1 f f' k (omega (arith, r.at w))
        ∙ ap (λ (x : Result A × Walk). after x f') (h.at w b);
  }

module _ {A : Type 0} where
  Rises-pure : (a : A) → Rises (pure a)
  unfolding pure
  Rises-pure a = record { at = λ w. omega arith }

  Rises-raise : (e : Errno) → Rises (raise {A = A} e)
  unfolding raise
  Rises-raise e = record { at = λ w. omega arith }

  Rises-guard : (b : Bool) (e : Errno) (l : Lookup A) → Rises l → Rises (guard b e >> l)
  unfolding ◌>>◌
  Rises-guard true e l h = record { at = h.at }
  Rises-guard false e l h = record { at = λ w. omega arith }

  Rises-if : (b : Bool) (l l' : Lookup A) → Rises l → Rises l' → Rises (if b then l else l')
  Rises-if true l l' h k = h
  Rises-if false l l' h k = k

  pub Same-refl : {n : ℕ} (l : Lookup A) → Same n l l
  Same-refl l = record { at = λ w h. refl }

  pub Same-guard :
      {n : ℕ} (b : Bool) (e : Errno) (l l' : Lookup A)
      → Same n l l'
      → Same n (guard b e >> l) (guard b e >> l')
  unfolding ◌>>◌
  Same-guard true e l l' h = record { at = h.at }
  Same-guard false e l l' h = record { at = λ w k. refl }

  pub Same-if :
      {n : ℕ} (b : Bool) (l l' k k' : Lookup A)
      → Same n l l'
      → Same n k k'
      → Same n (if b then l else k) (if b then l' else k')
  Same-if true l l' k k' h i = h
  Same-if false l l' k k' h i = i

pub found-Rises : (o : Option NodeId) → Rises (found o)
found-Rises none = Rises-raise _
found-Rises (some i) = Rises-pure i

if-Rises :
    {A : Type 0} (n : ℕ) (b : Bool) (x y : Result A × Walk)
    → n ≤ x.1.links
    → n ≤ y.1.links
    → n ≤ (if b then x else y).1.links
if-Rises n true x y h k = h
if-Rises n false x y h k = k

-- The state after one link more
abbrev pub counted : Walk → NodeId → Walk
counted w link = record { links = w.links + 1; crossed = w.crossed ++ link ∷ [] }

module _ (m : Model) (view : View) (rec : Rec)
    (h : (d : NodeId) (t : Bytes) (b : Bool) → Rises (rec d t b)) where
  follow_target-Rises : (d link : NodeId) (t : Bytes) → Rises (follow_target rec m view d link t)
  follow_target-Rises d link t = record {
    at = λ w. if-Rises w.links (ltb (max_symlinks m) (w.links + 1)) _ _ (omega arith) (
        if-Rises w.links (is_empty t) _ _ (omega arith)
          (omega (arith, (h (base_of m d t) t true).at (counted w link))));
  }

  follow_kind-Rises :
      (d link : NodeId) (k : NodeKind)
      → Rises (elim k [ symlink t ↦ follow_target rec m view d link t | _ ↦ pure link ])
  follow_kind-Rises d link (symlink t) = follow_target-Rises d link t
  follow_kind-Rises d link _ = Rises-pure link

  follow_link-Rises : (d link : NodeId) → Rises (follow_link rec m view d link)
  unfolding follow_link
  follow_link-Rises d link = follow_kind-Rises d link (node m link).kind

  pub through-Rises : (b : Bool) (d entry : NodeId) → Rises (through rec m view b d entry)
  through-Rises b d entry =
      Rises-if (b && is_symlink m entry) _ _ (follow_link-Rises d entry) (Rises-pure entry)

  descend-Rises :
      (follow_last trailing : Bool) (cur : NodeId) (comp : Bytes) (is_last : Bool)
      → Rises (descend rec m view follow_last trailing cur comp is_last)
  unfolding descend
  descend-Rises follow_last trailing cur comp is_last = Rises-guard _ _ _ (
      Rises-guard _ _ _ (
        Rises-bind _ _ (found-Rises (child m cur (key m comp))) λ entry.
          Rises-bind _ _ (through-Rises _ cur entry) λ t. Rises-guard _ _ _ (Rises-pure _)))

  pub step-Rises :
      (follow_last trailing : Bool) (cur : NodeId) (comp : Bytes) (is_last : Bool)
      → Rises (step rec m view follow_last trailing cur comp is_last)
  unfolding step
  step-Rises follow_last trailing cur comp is_last =
      Rises-if (beq comp dotdot) _ (descend rec m view follow_last trailing cur comp is_last)
        (Rises-pure _) (descend-Rises follow_last trailing cur comp is_last)

  walk-Rises :
      (follow_last trailing : Bool) (cur : NodeId) (comps : List Bytes)
      → Rises (walk rec m view follow_last trailing cur comps)
  unfolding walk
  walk-Rises follow_last trailing cur [] = Rises-pure cur
  walk-Rises follow_last trailing cur (comp ∷ rest) =
      Rises-bind _ _ (step-Rises follow_last trailing cur comp (is_empty rest))
        λ next. walk-Rises follow_last trailing next rest

  resolve_body-Rises :
      (cur : NodeId) (path : Bytes) (b : Bool) → Rises (resolve_body rec m view cur path b)
  unfolding resolve_body
  resolve_body-Rises cur path b =
      Rises-guard _ _ _
        (Rises-guard _ _ _ (walk-Rises b (has_trailing_slash path) _ (real_components path)))

pub resolve_inner-Rises :
    (fuel : ℕ) (m : Model) (view : View) (d : NodeId) (t : Bytes) (b : Bool)
    → Rises (resolve_inner fuel m view d t b)
unfolding resolve_inner
resolve_inner-Rises zero m view d t b = Rises-raise _
resolve_inner-Rises (suc fuel) m view d t b =
    resolve_body-Rises m view (resolve_inner fuel m view) (resolve_inner-Rises fuel m view) d t b
