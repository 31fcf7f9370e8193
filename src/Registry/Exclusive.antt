-- ===== src/Registry/Exclusive.antt =====
-- crates/world-runtime/src/silo.rs: no two workspaces are given the same temp root.
use world.Prelude.{
  ℕ, ◌==◌, ◌≡◌, refl, ap, sym, ◌∙◌, subst, Bool, true, false, ◌&&◌, ◌||◌, [], ◌∷◌, ◌++◌, some,
  arith, reverse,
}
use world.Bytes.{Bytes, starts_with_slash, beq, beq_iff, contains, real_components}
use world.Map.{Map, get, insert}
use world.Map.Order.{bytes_key}
use world.Registry.Types.{
  World, holds, Store, Act, Tried, done, unknown_workspace, invalid_entry, bad_shape,
  root_unavailable, no_temp_root, pure, ensure, or_fail,
}
use world.Registry.Paths.{
  plain_path, same_path, Host, root_for, ip_name, third_ancestor, is_normalized, check_root,
  reject_shared_temp,
}
use world.Registry.Records.{registry, save}
use world.Registry.Roots.{root_owner, has_shape, temp_root_in, mark_root, allocate, temp_root}
use world.Registry.Create.{valid_world, keep_or_move, owned_temp_root}
use world.Registry.Logic.{
  bind-IsDone, seq-IsDone, pure-done, ensure-done, or_fail-done, Extends, Keeps,
}
use world.Registry.Marks.{save-Keeps}
use world.Registry.Claims.{temp_root-Keeps, mark_root-Keeps, allocate-Keeps}
use world.Registry.Steps.{own, perform, perform-Extends, Run, Run-marks, moved_entry}
use world.Registry.Owners.{
  IsMarked, owner_text, IsOwner, root_owner-IsOwner, mark_root-IsMarked, allocate-IsPlace,
}

unlined :
    (xs ys us vs : Bytes)
    → contains b'\n' xs ≡ false
    → contains b'\n' ys ≡ false
    → (xs ++ b'\n' ∷ us) ≡ (ys ++ b'\n' ∷ vs)
    → (xs ≡ ys) × (us ≡ vs)
unfolding contains
unlined [] [] us vs p q e = (refl, ground (arith, e))
unlined [] (y ∷ ys) us vs p q e = absurd (ground (arith, e, q))
unlined (x ∷ xs) [] us vs p q e = absurd (ground (arith, e, p))
unlined (x ∷ xs) (y ∷ ys) us vs p q e =
    let (same, rest) =
      unlined xs ys us vs (right (x == b'\n') p) (right (y == b'\n') q) (ground (arith, e)) in
    (ground (arith, e, same), rest)
  where
    right : (a : Bool) {b : Bool} → (a || b) ≡ false → b ≡ false
    right a h = ground (arith, h)

without_last : Bytes → Bytes
without_last [] = []
without_last (x ∷ []) = []
without_last (x ∷ y ∷ xs) = x ∷ without_last (y ∷ xs)

without_last-append : (xs : Bytes) (x : ℕ) → without_last (xs ++ x ∷ []) ≡ xs
unfolding without_last
without_last-append [] x = refl
without_last-append (y ∷ []) x = refl
without_last-append (y ∷ z ∷ xs) x = ap (λ l. y ∷ l) (without_last-append (z ∷ xs) x)

-- Two owners with the same text are the same workspace of the same registry.
owner_text-same :
    (r q id other : Bytes)
    → contains b'\n' r ≡ false
    → contains b'\n' q ≡ false
    → owner_text r id ≡ owner_text q other
    → (r ≡ q) × (id ≡ other)
owner_text-same r q id other p o e =
    let (same, rest) = unlined r q (id ++ b'\n' ∷ []) (other ++ b'\n' ∷ []) p o e in
    (
      same,
      sym (without_last-append id b'\n') ∙ ap without_last rest ∙ without_last-append other b'\n',
    )

same_path-plain : (p q : Bytes) → same_path p q ≡ true → plain_path p ≡ plain_path q
unfolding same_path
same_path-plain p q h =
    (beq_iff (plain_path p) (plain_path q)).0
      (last (starts_with_slash p) (starts_with_slash q) (beq (plain_path p) (plain_path q)) h)
  where
    last : (a b c : Bool) → (a && b && c) ≡ true → c ≡ true
    last a b c h = ground (arith, h)

module _ (host : Host) where
  temp_root-recorded :
      (w : World) (got : Bytes) (s t : Store)
      → temp_root host w s ≡ (done got, t)
      → (recorded : Bytes) × (w.temp_root ≡ some recorded) × (plain_path recorded ≡ plain_path got)
  unfolding temp_root
  temp_root-recorded w got s t h =
      let a = bind-IsDone (or_fail w.temp_root no_temp_root) _ s got t h in
      let (known, _) = or_fail-done w.temp_root no_temp_root s a.between a.value a.first in
      let b = seq-IsDone (check_root host a.value) _ a.between got t a.then_done in
      let c = seq-IsDone (ensure (is_shaped a.value) bad_shape) _ b.between got t b.then_done in
      let d =
        bind-IsDone (or_fail (third_ancestor a.value) bad_shape) _ c.between got t c.then_done in
      let e = seq-IsDone (reject_shared_temp host d.value) _ d.between got t d.then_done in
      let f = bind-IsDone (temp_root_in host d.value w.ip) _ e.between got t e.then_done in
      let g =
        seq-IsDone (ensure (same_path f.value a.value) root_unavailable) (pure f.value) f.between
          got t f.then_done in
      let (same, _) =
        ensure-done (same_path f.value a.value) root_unavailable f.between g.between g.first in
      let (result, _) = pure-done f.value got g.between t g.then_done in
      (a.value, known, sym (same_path-plain f.value a.value same) ∙ ap plain_path result)
    where
      is_shaped : Bytes → Bool
      is_shaped root =
          is_normalized root && has_shape (ip_name w.ip) (reverse (real_components root))

  -- The marker of the root names the workspace and its registry.
  pub record IsHolder (id root : Bytes) (t : Store) : Type 0 where
    pub owner : Bytes
    pub owned : IsOwner host id owner t
    pub mark : IsMarked root owner t

  IsOwner-Extends :
      (id owner : Bytes) (s t : Store)
      → Extends false s t
      → IsOwner host id owner s
      → IsOwner host id owner t
  IsOwner-Extends id owner s t x o = record {
    registry = o.registry;
    identity = x.identity o.registry o.identity;
    one_line = o.one_line;
    text = o.text;
  }

  IsHolder-Extends :
      (id root : Bytes) (s t : Store) → Extends false s t → IsHolder id root s → IsHolder id root t
  IsHolder-Extends id root s t x h = record {
    owner = h.owner;
    owned = IsOwner-Extends id h.owner s t x h.owned;
    mark = x.marks (plain_path root) h.owner h.mark;
  }

  IsHolder-path :
      (id root other : Bytes) (s : Store)
      → plain_path root ≡ plain_path other
      → IsHolder id root s
      → IsHolder id other s
  IsHolder-path id root other s e h = record {
    owner = h.owner;
    owned = h.owned;
    mark = subst (λ p. get p s.disk ≡ some (some h.owner)) e h.mark;
  }

  -- What an action that keeps markers leaves, when it succeeds
  Keeps-done :
      {A : Type 0} (m : Act A) (s t : Store) (a : A)
      → Keeps false m
      → m s ≡ (done a, t)
      → Extends false s t
  Keeps-done {A = A} m s t a k h = subst (λ (r : Tried A × Store). Extends false s r.1) h (k.kept s)

  keep_or_move-IsHolder :
      (worlds : Map Bytes World) (w : World) (root owner : Bytes) (b : Bool) (place : World × Bytes)
      → (s t : Store) → IsOwner host w.id owner s
      → (b ≡ true → IsMarked root owner s)
      → keep_or_move host worlds w root owner b s ≡ (done place, t)
      → (place.0.id ≡ w.id) × IsHolder w.id place.1 t
  keep_or_move-IsHolder worlds w root owner true place s t o m h =
      let (same, kept) = pure-done (w, root) place s t h in
      let held : IsHolder w.id root s = record { owner = owner; owned = o; mark = m refl } in
      (
        sym (ap (λ (p : World × Bytes). p.0.id) same),
        subst (IsHolder w.id place.1) kept
            (subst (λ (p : World × Bytes). IsHolder w.id p.1 s) same held),
      )
  keep_or_move-IsHolder worlds w root owner false place s t o m h =
      let a = bind-IsDone (or_fail (third_ancestor root) bad_shape) _ s place t h in
      let (_, kept) = or_fail-done (third_ancestor root) bad_shape s a.between a.value a.first in
      let b = bind-IsDone (allocate host worlds a.value owner) _ a.between place t a.then_done in
      let found = allocate-IsPlace host worlds a.value owner b.value a.between b.between b.first in
      let entry = moved_entry w a.value b.value in
      let c =
        seq-IsDone (save host.persistence (insert w.id entry worlds)) _ b.between place t
          b.then_done in
      let d = bind-IsDone (temp_root host entry) _ c.between place t c.then_done in
      let (same, end) = pure-done (entry, d.value) place d.between t d.then_done in
      let (known, recorded, same_place) =
        temp_root-recorded entry d.value c.between d.between d.first in
      let before : Extends false s b.between =
        subst (λ x. Extends false x b.between) (sym kept)
          (Keeps-done (allocate host worlds a.value owner) a.between b.between b.value
            (allocate-Keeps host worlds a.value owner) b.first) in
      let held : IsHolder w.id (root_for a.value b.value.0) b.between = record {
        owner = owner;
        owned = IsOwner-Extends w.id owner s b.between before o;
        mark = subst (λ r. IsMarked r owner b.between) found.claimed.place found.claimed.mark;
      } in
      let saved =
        IsHolder-Extends w.id (root_for a.value b.value.0) b.between c.between
          (Keeps-done (save host.persistence (insert w.id entry worlds)) b.between c.between tt
            (save-Keeps host.persistence (insert w.id entry worlds)) c.first)
          held in
      let ended =
        IsHolder-Extends w.id (root_for a.value b.value.0) c.between d.between
          (Keeps-done (temp_root host entry) c.between d.between d.value
            (temp_root-Keeps host entry) d.first)
          saved in
      (
        sym (ap (λ (p : World × Bytes). p.0.id) same),
        subst (IsHolder w.id place.1) end (
            IsHolder-path w.id (root_for a.value b.value.0) place.1 d.between
              (ap plain_path (some_inj recorded)
                ∙ same_place
                ∙ ap (λ (p : World × Bytes). plain_path p.1) same)
              ended),
      )
    where
      some_inj : {x y : Bytes} → some x ≡ some y → x ≡ y
      some_inj e = ground (arith, e)

  pub owned_temp_root-IsHolder :
      (world : World) (place : World × Bytes) (s t : Store)
      → owned_temp_root host world s ≡ (done place, t)
      → (place.0.id ≡ world.id) × IsHolder world.id place.1 t
  unfolding owned_temp_root valid_world
  owned_temp_root-IsHolder world place s t h =
      let a = bind-IsDone registry _ s place t h in
      let b =
        bind-IsDone (or_fail (get world.id a.value) unknown_workspace) _ a.between place t
          a.then_done in
      let stored = b.value in
      let c =
        seq-IsDone (ensure (valid_world stored world.id) invalid_entry) _ b.between place t
          b.then_done in
      let (valid, _) =
        ensure-done (valid_world stored world.id) invalid_entry b.between c.between c.first in
      let d = bind-IsDone (temp_root host stored) _ c.between place t c.then_done in
      let e = bind-IsDone (root_owner host stored.id) _ d.between place t d.then_done in
      let f = bind-IsDone (mark_root host d.value e.value) _ e.between place t e.then_done in
      let owner = root_owner-IsOwner host stored.id e.value d.between e.between e.first in
      let marking =
        Keeps-done (mark_root host d.value e.value) e.between f.between f.value
          (mark_root-Keeps host d.value e.value) f.first in
      let (same, held) =
        keep_or_move-IsHolder a.value stored d.value e.value f.value place f.between t
          (IsOwner-Extends stored.id e.value e.between f.between marking owner)
          (λ m.
            mark_root-IsMarked host d.value e.value e.between f.between
              (f.first ∙ ap (λ x. (done x, f.between)) m))
          f.then_done in
      let named : stored.id ≡ world.id = (beq_iff stored.id world.id).0 (left _ _ valid) in
      (same ∙ named, subst (λ id. IsHolder id place.1 t) named held)
    where
      left : (x y : Bool) → (x && y) ≡ true → x ≡ true
      left x y e = ground (arith, e)

-- If two workspaces are given the same temp root by two operations, with any operations of any registries
-- between them and none that overlap, then they have the same identifier in registries of the same
-- identity: in such a run no workspace is given a root that another one was given.
pub owned_temp_root-exclusive :
    (host host' : Host) (world world' : World) (place place' : World × Bytes) (s t s' t' : Store)
    → owned_temp_root host world s ≡ (done place, t)
    → Run t.disk s'.disk
    → owned_temp_root host' world' s' ≡ (done place', t')
    → plain_path place.1 ≡ plain_path place'.1
    → (world.id ≡ world'.id) × (t.id_file ≡ t'.id_file)
unfolding perform
owned_temp_root-exclusive host host' world world' place place' s t s' t' h run h' same =
    let (_, first) = owned_temp_root-IsHolder host world place s t h in
    let (_, last) = owned_temp_root-IsHolder host' world' place' s' t' h' in
    let kept = Run-marks (plain_path place.1) first.owner run first.mark in
    let later =
      (perform-Extends host' (own world') s').marks (plain_path place.1) first.owner kept in
    let there : get (plain_path place.1) t'.disk ≡ some (some first.owner) =
      subst
        (λ (r : Tried (World × Bytes) × Store).
          get (plain_path place.1) r.1.disk ≡ some (some first.owner))
        h' (later) in
    let owners = some_inj (sym there ∙ ap (λ r. get r t'.disk) same ∙ last.mark) in
    let (registry, id) =
      owner_text-same first.owned.registry last.owned.registry world.id world'.id
        first.owned.one_line last.owned.one_line
        (first.owned.text ∙ owners ∙ sym last.owned.text) in
    (id, first.owned.identity ∙ ap holds registry ∙ sym last.owned.identity)
  where
    some_inj : {x y : Bytes} → some (some x) ≡ some (some y) → x ≡ y
    some_inj e = ground (arith, e)
