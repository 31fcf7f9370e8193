-- ===== src/Registry/Sound.antt =====
-- crates/world-runtime/src/silo.rs: actions that leave a sound registry, however they end.
use world.Prelude.{
  ℕ, ◌≡◌, ◌≢◌, ◌⊎◌, inl, inr, refl, ap, sym, ◌∙◌, subst, Bool, true, false, ◌&&◌, not, Option, none,
  some, if_cases, arith,
}
use world.Bytes.{Bytes, beq, beq_iff}
use world.Map.{Map, get, insert, remove}
use world.Map.Order.{bytes_key}
use world.Map.Laws.{get-remove}
use world.Registry.Types.{
  same_ip, World, Store, Act, Tried, done, failed, after, pure, ensure, other_workdir, ◌>>=◌, ◌>>◌,
}
use world.Registry.Paths.{same_path, Host, stale_workdir, host_home}
use world.Registry.Records.{save}
use world.Registry.Roots.{
  ip_at, in_use, root_owner, claim_root, allocate, or_moved, fill_temp_root, moved,
}
use world.Registry.Create.{lacks, valid_world, workdir_moves, fill}
use world.Registry.Logic.{Keeps, bind-IsDone, seq-IsDone, pure-done}
use world.Registry.Owners.{allocate-IsPlace}
use world.Registry.Saved.{entries_of}
use world.Registry.Worlds.{
  AreWorlds, IsFree, IsRegistry, in_use-apart, insert-AreWorlds, save-IsRegistry,
}

-- What an action leaves, however it ends
abbrev pub Sound : {A : Type 0} → Act A → Store → Type 0
Sound m s = IsRegistry (m s).1

pub frozen-Sound : {A : Type 0} (m : Act A) (s : Store) → Keeps true m → IsRegistry s → Sound m s
frozen-Sound m s k r = subst (λ f. AreWorlds (entries_of f)) ((k.kept s).file refl) r

pub bind-Sound :
    {A B : Type 0} (m : Act A) (f : A → Act B) (s : Store)
    → Sound m s
    → ((a : A) (t : Store) → m s ≡ (done a, t) → IsRegistry t → Sound (f a) t)
    → Sound (m >>= f) s
unfolding ◌>>=◌
bind-Sound {A = A} m f s r k = by_first (m s) refl r
  where
    by_first : (o : Tried A × Store) → m s ≡ o → IsRegistry o.1 → IsRegistry (after o f).1
    by_first (done a, t) e g = k a t e g
    by_first (failed x, t) e g = g

-- After an action that leaves the file alone
pub past-Sound :
    {A B : Type 0} (m : Act A) (f : A → Act B) (s : Store)
    → Keeps true m
    → IsRegistry s
    → ((a : A) (t : Store) → m s ≡ (done a, t) → IsRegistry t → Sound (f a) t)
    → Sound (m >>= f) s
past-Sound m f s h r k = bind-Sound m f s (frozen-Sound m s h r) k

pub past_seq-Sound :
    {B : Type 0} (m : Act (Unit {0})) (k : Act B) (s : Store)
    → Keeps true m
    → IsRegistry s
    → ((t : Store) → m s ≡ (done tt, t) → IsRegistry t → Sound k t)
    → Sound (m >> k) s
unfolding ◌>>◌
past_seq-Sound m k s h r i = past-Sound m (λ _. k) s h r λ _ t e g. i t e g

pub saved-Sound :
    {B : Type 0} (host : Host) (worlds : Map Bytes World) (k : Act B) (s : Store)
    → AreWorlds worlds
    → IsRegistry s
    → Keeps true k
    → Sound (save host.persistence worlds >> k) s
unfolding ◌>>◌
saved-Sound host worlds k s a r h =
    bind-Sound (save host.persistence worlds) (λ _. k) s
      (save-IsRegistry host.persistence worlds s a r) λ _ t e g. frozen-Sound k t h g

pub valid_world-moved :
    (w : World) (id : Bytes) (n : ℕ) → w.id ≡ id → w.ip ≡ ip_at n → valid_world w id ≡ true
unfolding valid_world ip_at
valid_world-moved w id n e h = rw (h, (beq_iff w.id id).1 e) refl

pub both : (a b : Bool) → (a && b) ≡ true → (a ≡ true) × (b ≡ true)
both a b e = ground (arith, e)

pub valid_world-id : (w : World) (id : Bytes) → valid_world w id ≡ true → w.id ≡ id
unfolding valid_world
valid_world-id w id h = (beq_iff w.id id).0 (both _ _ h).0

pub get-removed :
    (id k : Bytes) (w : World) (worlds : Map Bytes World)
    → get k (remove id worlds) ≡ some w
    → get k worlds ≡ some w
get-removed id k w worlds g =
    if_cases (λ o. o ≡ some w → get k worlds ≡ some w) (beq id k) none (get k worlds)
      (λ _ e. absurd (no_world e)) (λ _ e. e) (sym (get-remove id k worlds) ∙ g)
  where
    no_world : ◌≢◌ {A = Option World} none (some w)
    no_world e = cc

-- An entry with the name and the address of a sound one
pub valid_world-same :
    (w v : World) (id : Bytes)
    → v.id ≡ w.id
    → v.ip ≡ w.ip
    → valid_world w id ≡ true
    → valid_world v id ≡ true
unfolding valid_world
valid_world-same w v id e f h = rw (e, f) h

pub unused-IsFree :
    (id : Bytes) (w : World) (worlds : Map Bytes World)
    → in_use w.ip worlds ≡ false
    → IsFree id w worlds
unused-IsFree id w worlds u other v g same =
    absurd (no_both (sym same ∙ in_use-apart w.ip worlds other v u g))
  where
    no_both : true ≢ false
    no_both e = cc

module _ (host : Host) where
  -- The address that an entry is left with: its own, or a free one
  abbrev pub IsFilled : Map Bytes World → World → World → Type 0
  IsFilled worlds w v =
      (v.id ≡ w.id) × ((v.ip ≡ w.ip) ⊎ (n : ℕ) × (v.ip ≡ ip_at n) × (in_use v.ip worlds ≡ false))

  pub fill_temp_root-IsFilled :
      (w v : World) (worlds : Map Bytes World) (home owner : Bytes) (s t : Store)
      → fill_temp_root host w worlds home owner s ≡ (done v, t)
      → IsFilled worlds w v
  unfolding fill_temp_root
  fill_temp_root-IsFilled w v worlds home owner s t h =
      let a =
        bind-IsDone (claim_root host home w.ip owner) (or_moved host w worlds home owner) s v t h in
      by_claim a.value a.between a.then_done
    where
      by_claim :
          (o : Option Bytes) (u : Store)
          → or_moved host w worlds home owner o u ≡ (done v, t)
          → IsFilled worlds w v
      by_claim (some root) u k =
          let (same, _) = pure-done (record w { temp_root = some root }) v u t k in
          subst (IsFilled worlds w) same (refl, inl refl)
      by_claim none u k =
          let b = bind-IsDone (allocate host worlds home owner) _ u v t k in
          let place = allocate-IsPlace host worlds home owner b.value u b.between b.first in
          let (same, _) = pure-done (moved w b.value) v b.between t b.then_done in
          subst (IsFilled worlds w) same (refl, inr (place.number, place.address, place.unused))

  pub fill-IsFilled :
      (id : Bytes) (w v : World) (worlds : Map Bytes World) (s t : Store)
      → fill host id worlds w s ≡ (done v, t)
      → IsFilled worlds w v
  fill-IsFilled id w v worlds s t h =
      if_cases (λ (m : Act World). m s ≡ (done v, t) → IsFilled worlds w v)
        (not (lacks w.temp_root)) (pure w) _
        (λ _ k. subst (IsFilled worlds w) (pure-done w v s t k).0 (refl, inl refl))
        (λ _ k.
          let a = bind-IsDone (host_home host) _ s v t k in
          let b = bind-IsDone (root_owner host id) _ a.between v t a.then_done in
          fill_temp_root-IsFilled w v worlds a.value b.value b.between t b.then_done)
        h

  -- A filled entry may be written under its identifier.
  pub filled-AreWorlds :
      (id : Bytes) (old w v : World) (worlds others : Map Bytes World)
      → AreWorlds worlds
      → AreWorlds others
      → get id worlds ≡ some old
      → ((other : Bytes) (u : World) → get other others ≡ some u → get other worlds ≡ some u)
      → w.id ≡ old.id
      → w.ip ≡ old.ip
      → IsFilled others w v
      → AreWorlds (insert id v others)
  filled-AreWorlds id old w v worlds others a b g sub e f (named, inl kept) =
      insert-AreWorlds id v others b
        (valid_world-same old v id (named ∙ e) (kept ∙ f) (a.named id old g))
        λ other u h same.
          a.apart other id u old (sub other u h) g
            (subst (λ x. same_ip u.ip x ≡ true) (kept ∙ f) same)
  filled-AreWorlds id old w v worlds others a b g sub e f (named, inr (n, address, unused)) =
      insert-AreWorlds id v others b
        (valid_world-moved v id n (named ∙ e ∙ valid_world-id old id (a.named id old g)) address)
        (unused-IsFree id v others unused)

  pub workdir_moves-done :
      (old w : World) (workdir : Bytes) (s t : Store)
      → workdir_moves host old workdir s ≡ (done w, t)
      → (w.id ≡ old.id) × (w.ip ≡ old.ip)
  workdir_moves-done old w workdir s t h =
      if_cases (λ (m : Act World). m s ≡ (done w, t) → (w.id ≡ old.id) × (w.ip ≡ old.ip))
        (same_path old.workdir workdir) (pure old) _ (λ _ k. same_as (pure-done old w s t k).0)
        (λ _ k.
          let a =
            seq-IsDone (ensure (stale_workdir host old.workdir) other_workdir)
              (pure (record old { workdir = workdir })) s w t k in
          let (same, _) = pure-done (record old { workdir = workdir }) w a.between t a.then_done in
          (sym (ap (λ (x : World). x.id) same), sym (ap (λ (x : World). x.ip) same)))
        h
    where
      same_as : old ≡ w → (w.id ≡ old.id) × (w.ip ≡ old.ip)
      same_as e = (sym (ap (λ (x : World). x.id) e), sym (ap (λ (x : World). x.ip) e))
