-- ===== src/Registry/Marks.antt =====
-- crates/world-runtime/src/silo.rs: no operation takes a marker away.
use world.Prelude.{
  ◌≡◌, ◌≢◌, ◌⊎◌, refl, ap, ◌∙◌, sym, Bool, true, false, Option, none, some, Bool-cases, inl, inr,
  arith, if_cases,
}
use world.Bytes.{Bytes, beq, beq_iff}
use world.Map.{Map, get, insert, contains_key}
use world.Map.Order.{bytes_key}
use world.Map.Laws.{get-insert}
use world.Registry.Types.{World, Record, Stored, absent, holds, Store, Tried}
use world.Registry.Paths.{
  plain_path, Building, built, not_built, half_built, Marking, marked, not_marked, torn,
  Persistence, durable, unwritten, unsynced,
}
use world.Registry.Records.{
  records, natives, registry, get_vm, insert_each, retain_vms, give, persist_records, save,
}
use world.Registry.Roots.{persist_id, insert_new, by_building, by_marking}
use world.Registry.Logic.{Extends, Extends-refl, Keeps, bind-Keeps, pure-Keeps}

-- A new entry under a path without a marker keeps every marker.
insert-Extends :
    {frozen : Bool} (root : Bytes) (entry : Option Bytes) (s : Store)
    → ((text : Bytes) → get root s.disk ≢ some (some text))
    → Extends frozen s (record s { disk = insert root entry s.disk })
insert-Extends root entry s h = record {
  marks = λ other text g. kept other text g (Bool-cases (beq root other));
  identity = λ id i. i;
  file = λ f. refl;
}
  where
    kept :
        (other text : Bytes)
        → get other s.disk ≡ some (some text)
        → (beq root other ≡ true) ⊎ (beq root other ≡ false)
        → get other (insert root entry s.disk) ≡ some (some text)
    kept other text g (inl e) =
        absurd (h text (ap (λ k. get k s.disk) ((beq_iff root other).0 e) ∙ g))
    kept other text g (inr e) = get-insert root other entry s.disk ∙ rw e g

insert_new-Extends :
    {frozen : Bool} (root : Bytes) (s : Store) → Extends frozen s (insert_new root s)
unfolding contains_key
insert_new-Extends {frozen = frozen} root s =
    if_cases (Extends frozen s) (contains_key root s.disk) _ _ (λ _. Extends-refl s)
      λ c. insert-Extends root none s λ text g. absurd (has_key root text s c g)
  where
    has_key :
        (root text : Bytes) (s : Store)
        → contains_key root s.disk ≡ false
        → get root s.disk ≡ some (some text)
        → ⊥
    has_key root text s c g = ground (arith, c, g)

pub by_building-Keeps :
    {frozen : Bool} (b : Building) (root : Bytes) → Keeps frozen (by_building b root)
by_building-Keeps built root = record { kept = λ s. insert_new-Extends (plain_path root) s }
by_building-Keeps not_built root = record { kept = λ s. Extends-refl s }
by_building-Keeps half_built root = record { kept = λ s. insert_new-Extends (plain_path root) s }

pub by_marking-Extends :
    {frozen : Bool} (m : Marking) (root owner : Bytes) (entry : Option (Option Bytes)) (s : Store)
    → get root s.disk ≡ entry
    → Extends frozen s (by_marking m root owner entry s).1
by_marking-Extends marked root owner (some none) s g =
    insert-Extends root (some owner) s λ text h. apart text (sym g ∙ h)
  where
    apart : (text : Bytes) → ◌≢◌ {A = Option (Option Bytes)} (some none) (some (some text))
    apart text e = cc
by_marking-Extends marked root owner (some (some text)) s g = Extends-refl s
by_marking-Extends marked root owner none s g = Extends-refl s
by_marking-Extends (torn text) root owner (some none) s g =
    insert-Extends root (some text) s λ other h. apart other (sym g ∙ h)
  where
    apart : (text : Bytes) → ◌≢◌ {A = Option (Option Bytes)} (some none) (some (some text))
    apart text e = cc
by_marking-Extends (torn text) root owner (some (some other)) s g = Extends-refl s
by_marking-Extends (torn text) root owner none s g = Extends-refl s
by_marking-Extends not_marked root owner entry s g = Extends-refl s

pub persist_id-Extends :
    {frozen : Bool} (p : Persistence) (id : Bytes) (s : Store)
    → s.id_file ≡ absent
    → Extends frozen s (persist_id p id s).1
persist_id-Extends durable id s g = record {
  marks = λ root text h. h;
  identity = λ other h. absurd (apart (sym g ∙ h));
  file = λ f. refl;
}
  where
    apart : {other : Bytes} → ◌≢◌ {A = Stored Bytes} absent (holds other)
    apart e = cc
persist_id-Extends unwritten id s g = Extends-refl s
persist_id-Extends unsynced id s g = record {
  marks = λ root text h. h;
  identity = λ other h. absurd (apart (sym g ∙ h));
  file = λ f. refl;
}
  where
    apart : {other : Bytes} → ◌≢◌ {A = Stored Bytes} absent (holds other)
    apart e = cc

pub give-Keeps : {frozen : Bool} {A : Type 0} (r : Tried A) → Keeps frozen (give r)
give-Keeps r = record { kept = λ s. Extends-refl s }

same_places :
    (m : Map Bytes Record) (s : Store) → Extends false s (record s { registry_json = holds m })
same_places m s = record {
  marks = λ root text h. h;
  identity = λ id h. h;
  file = λ f. absurd (apart f);
}
  where
    apart : false ≢ true
    apart f = cc

persist_records-Keeps : (p : Persistence) (m : Map Bytes Record) → Keeps false (persist_records p m)
unfolding persist_records
persist_records-Keeps durable m = record { kept = λ s. same_places m s }
persist_records-Keeps unwritten m = record { kept = λ s. Extends-refl s }
persist_records-Keeps unsynced m = record { kept = λ s. same_places m s }

records-Keeps : {frozen : Bool} → Keeps frozen records
unfolding records
records-Keeps = record { kept = λ s. Extends-refl s }

pub registry-Keeps : {frozen : Bool} → Keeps frozen registry
unfolding registry
registry-Keeps = bind-Keeps records _ records-Keeps λ m. pure-Keeps (natives m)

pub get_vm-Keeps : {frozen : Bool} (id : Bytes) → Keeps frozen (get_vm id)
unfolding get_vm
get_vm-Keeps id = bind-Keeps records _ records-Keeps λ m. pure-Keeps _

pub save-Keeps : (p : Persistence) (worlds : Map Bytes World) → Keeps false (save p worlds)
unfolding save
save-Keeps p worlds = bind-Keeps records _ records-Keeps λ m.
    bind-Keeps (give (insert_each worlds (retain_vms m))) _ (give-Keeps _)
      λ merged. persist_records-Keeps p merged
