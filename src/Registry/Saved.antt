-- ===== src/Registry/Saved.antt =====
-- crates/world-runtime/src/silo.rs: `save` and `registry` are inverse to each other.
use world.Prelude.{
  ◌≡◌, ◌≢◌, refl, ap, sym, ◌∙◌, subst, true, false, [], ◌∷◌, Option, none, some, ◌⊎◌, if◌then◌else◌,
  Bool-cases, inl, inr, arith,
}
use world.Bytes.{Bytes, beq, beq_iff}
use world.Map.{Map, get, insert, contains_key}
use world.Map.Order.{bytes_key}
use world.Map.Laws.{get-insert}
use world.Registry.Types.{
  World, Record, native, vm, Stored, absent, unreadable, holds, Store, done, failed, Trouble,
}
use world.Registry.Records.{natives, retain_vms, insert_each}

-- The native entries of a registry's file
abbrev pub entries_of : Stored (Map Bytes Record) → Map Bytes World
entries_of absent = []
entries_of unreadable = []
entries_of (holds m) = natives m

abbrev pub entries : Store → Map Bytes World
entries s = entries_of s.registry_json

pub natives-retain_vms : (m : Map Bytes Record) → natives (retain_vms m) ≡ []
unfolding natives retain_vms
natives-retain_vms [] = refl
natives-retain_vms ((id, native w) ∷ m) = natives-retain_vms m
natives-retain_vms ((id, vm v) ∷ m) = natives-retain_vms m

-- A new entry does not hide another.
natives-insert :
    (k id : Bytes) (w : World) (m : Map Bytes Record)
    → contains_key k m ≡ false
    → get id (natives (insert k (native w) m)) ≡ (if beq k id then some w else get id (natives m))
unfolding natives insert contains_key get
natives-insert k id w [] h = refl
natives-insert k id w ((a, native v) ∷ m) h =
    ground (arith, natives-insert k id w m, h, beq_iff a k, beq_iff a id, beq_iff k id)
natives-insert k id w ((a, vm v) ∷ m) h =
    ground (arith, natives-insert k id w m, h, beq_iff a k, beq_iff a id, beq_iff k id)

-- A round of the loop of `save`
insert_each-round :
    (k : Bytes) (w : World) (worlds : Map Bytes World) (m out : Map Bytes Record)
    → insert_each ((k, w) ∷ worlds) m ≡ done out
    → (contains_key k m ≡ false) × (insert_each worlds (insert k (native w) m) ≡ done out)
unfolding insert_each
insert_each-round k w worlds m out h = elim (Bool-cases (contains_key k m)) [
  | inl e ↦ absurd (refused (rw e at h))
  | inr e ↦ (e, rw e at h)
]
  where
    refused : {x : Trouble} → failed x ≢ done out
    refused e = cc

contains_key-insert :
    (k id : Bytes) (r : Record) (m : Map Bytes Record)
    → contains_key id m ≡ true
    → contains_key id (insert k r m) ≡ true
unfolding contains_key
contains_key-insert k id r m h = ground (arith, h, get-insert k id r m)

contains_key-inserted :
    (k : Bytes) (r : Record) (m : Map Bytes Record) → contains_key k (insert k r m) ≡ true
unfolding contains_key
contains_key-inserted k r m = ground (arith, get-insert k k r m, beq_iff k k)

-- An identifier that is there is not among those that the loop goes on to insert.
insert_each-absent :
    (id : Bytes) (worlds : Map Bytes World) (m out : Map Bytes Record)
    → contains_key id m ≡ true
    → insert_each worlds m ≡ done out
    → get id worlds ≡ none
unfolding get
insert_each-absent id [] m out c h = refl
insert_each-absent id ((k, w) ∷ worlds) m out c h =
    let (new, rest) = insert_each-round k w worlds m out h in
    let other : beq k id ≡ false = apart k new in
    rw other (
      insert_each-absent id worlds (insert k (native w) m) out
        (contains_key-insert k id (native w) m c) rest)
  where
    apart : (k : Bytes) → contains_key k m ≡ false → beq k id ≡ false
    apart k new = elim (Bool-cases (beq k id)) [
      | inr e ↦ e
      | inl e ↦ absurd (no_both (sym (ap (λ x. contains_key x m) ((beq_iff k id).0 e) ∙ c) ∙ new))
    ]
      where
        no_both : true ≢ false
        no_both e = cc

abbrev pub or_else : Option World → Option World → Option World
or_else (some w) other = some w
or_else none other = other

pub natives-insert_each :
    (id : Bytes) (worlds : Map Bytes World) (m out : Map Bytes Record)
    → insert_each worlds m ≡ done out
    → get id (natives out) ≡ or_else (get id worlds) (get id (natives m))
unfolding get insert_each
natives-insert_each id [] m out h = ap (λ x. get id (natives x)) (sym (of_done h))
  where
    of_done : {x y : Map Bytes Record} → done x ≡ done y → x ≡ y
    of_done e = ground (arith, e)
natives-insert_each id ((k, w) ∷ worlds) m out h =
    let (new, rest) = insert_each-round k w worlds m out h in
    natives-insert_each id worlds (insert k (native w) m) out rest
    ∙ ap (or_else (get id worlds)) (natives-insert k id w m new)
    ∙ by_key k w worlds (Bool-cases (beq k id)) (λ e.
      insert_each-absent id worlds (insert k (native w) m) out
        (subst (λ x. contains_key x (insert k (native w) m) ≡ true) ((beq_iff k id).0 e)
          (contains_key-inserted k (native w) m))
        rest)
  where
    by_key :
        (k : Bytes) (w : World) (worlds : Map Bytes World)
        → (beq k id ≡ true) ⊎ (beq k id ≡ false)
        → (beq k id ≡ true → get id worlds ≡ none)
        → or_else (get id worlds) (if beq k id then some w else get id (natives m))
          ≡ or_else (if beq k id then some w else get id worlds) (get id (natives m))
    by_key k w worlds (inl e) none_left = rw (e, none_left e) refl
    by_key k w worlds (inr e) none_left = rw e refl
