-- ===== src/Registry/Worlds.antt =====
-- crates/world-runtime/src/silo.rs: the entries of a registry name their workspaces and share no address.
use world.Prelude.{
  ◌≡◌, ◌↔◌, ◌⊎◌, inl, inr, refl, ap, sym, ◌∙◌, subst, Bool, true, false, ◌||◌, [], ◌∷◌, Option,
  none, some, if_cases, arith,
}
use world.Bytes.{Bytes, beq, beq_iff}
use world.Map.{Map, get, insert}
use world.Map.Order.{bytes_key}
use world.Map.Laws.{get-insert}
use world.Registry.Types.{
  Ipv4Addr, same_ip, World, Record, Stored, absent, unreadable, holds, Store, Tried, done, failed,
  invalid_vm, after, pure, ◌>>=◌,
}
use world.Registry.Paths.{Persistence, durable, unwritten, unsynced}
use world.Registry.Records.{
  valid_records, checked_records, records, natives, registry, retain_vms, insert_each,
  persist_records, give, save,
}
use world.Registry.Roots.{in_use}
use world.Registry.Create.{valid_world}
use world.Registry.Logic.{pure-done}
use world.Registry.Saved.{entries_of, entries, natives-retain_vms, or_else, natives-insert_each}

-- Each entry stands under its own identifier, with an address in 127.77/16 that no other entry has.
pub record AreWorlds (worlds : Map Bytes World) : Type 0 where
  pub named : (id : Bytes) (w : World) → get id worlds ≡ some w → valid_world w id ≡ true
  pub apart :
      (id other : Bytes) (w v : World)
      → get id worlds ≡ some w
      → get other worlds ≡ some v
      → same_ip w.ip v.ip ≡ true
      → id ≡ other

pub same_ip-symmetric : (x y : Ipv4Addr) → same_ip x y ≡ true → same_ip y x ≡ true
unfolding same_ip
same_ip-symmetric x y h = ground (arith, h)

pub same_ip_iff : (x y : Ipv4Addr) → (same_ip x y ≡ true) ↔ (x ≡ y)
unfolding same_ip
same_ip_iff x y = (λ h. ground (arith, h), λ e. ground (arith, e))

pub in_use-apart :
    (ip : Ipv4Addr) (worlds : Map Bytes World) (id : Bytes) (w : World)
    → in_use ip worlds ≡ false
    → get id worlds ≡ some w
    → same_ip w.ip ip ≡ false
unfolding in_use get
in_use-apart ip [] id w u g = cc
in_use-apart ip ((k, v) ∷ worlds) id w u g =
    if_cases (λ o. o ≡ some w → same_ip w.ip ip ≡ false) (beq k id) (some v) (get id worlds)
      (λ _ e. subst (λ x. same_ip x.ip ip ≡ false) (some_inj e) (left _ _ u))
      (λ _ e. in_use-apart ip worlds id w (right _ _ u) e) g
  where
    some_inj : some v ≡ some w → v ≡ w
    some_inj e = ground (arith, e)

    left : (a b : Bool) → (a || b) ≡ false → a ≡ false
    left a b e = ground (arith, e)

    right : (a b : Bool) → (a || b) ≡ false → b ≡ false
    right a b e = ground (arith, e)

-- Only the entry of `id` may have the address of `w`.
abbrev pub IsFree : Bytes → World → Map Bytes World → Type 0
IsFree id w worlds =
    (other : Bytes) (v : World) → get other worlds ≡ some v → same_ip v.ip w.ip ≡ true → other ≡ id

pub insert-AreWorlds :
    (id : Bytes) (w : World) (worlds : Map Bytes World)
    → AreWorlds worlds
    → valid_world w id ≡ true
    → IsFree id w worlds
    → AreWorlds (insert id w worlds)
insert-AreWorlds id w worlds a valid free = record {
  named = λ k v g. elim (at_key k v g) [
    | inl (e, same) ↦ subst (valid_at k) same (subst (λ x. valid_world w x ≡ true) e valid)
    | inr h ↦ a.named k v h
  ];
  apart = λ k l v u g h same. elim (at_key k v g) [
    | inl (e, p) ↦ elim (at_key l u h) [
      | inl (f, q) ↦ sym e ∙ f
      | inr q ↦
          sym e
          ∙ sym (
              free l u q
                (same_ip-symmetric w.ip u.ip (subst (λ x. same_ip x.ip u.ip ≡ true) (sym p) same)))
    ]
    | inr p ↦ elim (at_key l u h) [
      | inl (f, q) ↦ free k v p (subst (λ x. same_ip v.ip x.ip ≡ true) (sym q) same) ∙ f
      | inr q ↦ a.apart k l v u p q same
    ]
  ];
}
  where
    valid_at : Bytes → World → Type 0
    valid_at k v = valid_world v k ≡ true

    at_key :
        (k : Bytes) (v : World)
        → get k (insert id w worlds) ≡ some v
        → (id ≡ k) × (w ≡ v) ⊎ (get k worlds ≡ some v)
    at_key k v g =
        if_cases (λ o. o ≡ some v → (id ≡ k) × (w ≡ v) ⊎ (get k worlds ≡ some v)) (beq id k)
          (some w) (get k worlds) (λ e s. inl ((beq_iff id k).0 e, some_inj s)) (λ _ s. inr s)
          (sym (get-insert id k w worlds) ∙ g)
      where
        some_inj : some w ≡ some v → w ≡ v
        some_inj e = ground (arith, e)

-- The registry of a store is sound.
abbrev pub IsRegistry : Store → Type 0
IsRegistry s = AreWorlds (entries s)

-- What lookups see decides.
same_lookups-AreWorlds :
    (worlds others : Map Bytes World)
    → ((id : Bytes) → get id others ≡ get id worlds)
    → AreWorlds worlds
    → AreWorlds others
same_lookups-AreWorlds worlds others same a = record {
  named = λ id w g. a.named id w (sym (same id) ∙ g);
  apart = λ id other w v g h. a.apart id other w v (sym (same id) ∙ g) (sym (same other) ∙ h);
}

pub registry-done :
    (worlds : Map Bytes World) (s t : Store)
    → registry s ≡ (done worlds, t)
    → (entries s ≡ worlds) × (s ≡ t)
unfolding registry records natives
registry-done worlds s t h = by_file s.registry_json refl h
  where
    tried : Tried (Map Bytes Record) → Tried (Map Bytes World) × Store
    tried r = after (r, s) λ m. pure (natives m)

    by_file :
        (f : Stored (Map Bytes Record))
        → s.registry_json ≡ f
        → tried (checked_records f) ≡ (done worlds, t)
        → (entries s ≡ worlds) × (s ≡ t)
    by_file absent g k =
        let (same, kept) = pure-done (natives []) worlds s t k in (ap entries_of g ∙ same, kept)
    by_file unreadable g k = cc
    by_file (holds m) g k =
        if_cases (λ r. tried r ≡ (done worlds, t) → (entries s ≡ worlds) × (s ≡ t))
          (valid_records m) (done m) (failed invalid_vm)
          (λ _ e.
            let (same, kept) = pure-done (natives m) worlds s t e in (ap entries_of g ∙ same, kept))
          (λ _ e. cc) k

-- Whichever way it ends, `save` of sound entries leaves a sound registry.
pub save-IsRegistry :
    (p : Persistence) (worlds : Map Bytes World) (s : Store)
    → AreWorlds worlds
    → IsRegistry s
    → IsRegistry (save p worlds s).1
unfolding save records persist_records get ◌>>=◌
save-IsRegistry p worlds s a r = by_records (checked_records s.registry_json)
  where
    by_persistence :
        (q : Persistence) (out : Map Bytes Record)
        → AreWorlds (natives out)
        → IsRegistry (persist_records q out s).1
    by_persistence durable out b = b
    by_persistence unwritten out b = r
    by_persistence unsynced out b = b

    by_merged :
        (m : Map Bytes Record) (o : Tried (Map Bytes Record))
        → insert_each worlds (retain_vms m) ≡ o
        → IsRegistry (after (o, s) (persist_records p)).1
    by_merged m (failed e) g = r
    by_merged m (done out) g = by_persistence p out (
        same_lookups-AreWorlds worlds (natives out)
          (λ id.
            natives-insert_each id worlds (retain_vms m) out g
            ∙ ap (λ n. or_else (get id worlds) (get id n)) (natives-retain_vms m)
            ∙ or_none (get id worlds))
          a)
      where
        or_none : (o : Option World) → or_else o none ≡ o
        or_none none = refl
        or_none (some w) = refl

    by_records :
        (o : Tried (Map Bytes Record))
        → IsRegistry
            (after (o, s) λ m. give (insert_each worlds (retain_vms m)) >>= persist_records p).1
    by_records (failed e) = r
    by_records (done m) = by_merged m (insert_each worlds (retain_vms m)) refl
