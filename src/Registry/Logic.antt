-- ===== src/Registry/Logic.antt =====
-- crates/world-runtime/src/silo.rs: what an action that succeeds has done, and what no action undoes.
use world.Prelude.{
  ◌≡◌, refl, ap, ◌∙◌, Bool, true, false, Option, none, some, arith, if_cases, if◌then◌else◌,
}
use world.Bytes.{Bytes}
use world.Map.{get}
use world.Map.Order.{bytes_key}
use world.Registry.Types.{
  holds, Store, Act, Tried, done, failed, Trouble, after, pure, bail, ensure, or_fail, ◌>>=◌, ◌>>◌,
}

-- The parts of a chain that succeeds
pub record IsDone {A B : Type 0} (m : Act A) (f : A → Act B) (s : Store) (b : B) (t : Store)
    : Type 0 where
  pub value : A
  pub between : Store
  pub first : m s ≡ (done value, between)
  pub then_done : f value between ≡ (done b, t)

pub bind-IsDone :
    {A B : Type 0} (m : Act A) (f : A → Act B) (s : Store) (b : B) (t : Store)
    → (m >>= f) s ≡ (done b, t)
    → IsDone m f s b t
unfolding ◌>>=◌
bind-IsDone {A = A} m f s b t h = by_first (m s) refl h
  where
    by_first : (r : Tried A × Store) → m s ≡ r → after r f ≡ (done b, t) → IsDone m f s b t
    by_first (done a, u) e k = record { value = a; between = u; first = e; then_done = k }
    by_first (failed x, u) e k = cc

pub done_inj :
    {A : Type 0} {a b : A} {s t : Store}
    → ◌≡◌ {A = Tried A × Store} (done a, s) (done b, t)
    → (a ≡ b) × (s ≡ t)
done_inj h = ground (arith, h)

pub ensure-done :
    (b : Bool) (e : Trouble) (s t : Store) → ensure b e s ≡ (done tt, t) → (b ≡ true) × (s ≡ t)
unfolding ensure pure bail
ensure-done true e s t h = (refl, (done_inj h).1)
ensure-done false e s t h = cc

pub or_fail-done :
    {A : Type 0} (o : Option A) (e : Trouble) (s t : Store) (a : A)
    → or_fail o e s ≡ (done a, t)
    → (o ≡ some a) × (s ≡ t)
unfolding pure bail
or_fail-done none e s t a h = cc
or_fail-done (some x) e s t a h = (ap some (done_inj h).0, (done_inj h).1)

-- No marker is taken away or changed, no registry changes its identity, and, if it is frozen, its file
-- stays as it is.
pub record Extends (frozen : Bool) (s t : Store) : Type 0 where
  pub marks :
      (root text : Bytes) → get root s.disk ≡ some (some text) → get root t.disk ≡ some (some text)
  pub identity : (id : Bytes) → s.id_file ≡ holds id → t.id_file ≡ holds id
  pub file : frozen ≡ true → s.registry_json ≡ t.registry_json

pub Extends-refl : {frozen : Bool} (s : Store) → Extends frozen s s
Extends-refl s = record { marks = λ root text h. h; identity = λ id h. h; file = λ f. refl }

pub Extends-trans :
    {frozen : Bool} {s t u : Store} → Extends frozen s t → Extends frozen t u → Extends frozen s u
Extends-trans x y = record {
  marks = λ root text h. y.marks root text (x.marks root text h);
  identity = λ id h. y.identity id (x.identity id h);
  file = λ f. x.file f ∙ y.file f;
}

pub record Keeps (frozen : Bool) {A : Type 0} (m : Act A) : Type 0 where
  pub kept : (s : Store) → Extends frozen s (m s).1

pub bind-Keeps :
    {frozen : Bool} {A B : Type 0} (m : Act A) (f : A → Act B)
    → Keeps frozen m
    → ((a : A) → Keeps frozen (f a))
    → Keeps frozen (m >>= f)
unfolding ◌>>=◌
bind-Keeps {frozen = frozen} {A = A} m f h k = record {
  kept = λ s. Extends-trans (h.kept s) (by_first (m s));
}
  where
    by_first : (r : Tried A × Store) → Extends frozen r.1 (after r f).1
    by_first (done a, u) = (k a).kept u
    by_first (failed x, u) = Extends-refl u

pub pure-Keeps : {frozen : Bool} {A : Type 0} (a : A) → Keeps frozen (pure a)
unfolding pure
pure-Keeps a = record { kept = λ s. Extends-refl s }

pub bail-Keeps : {frozen : Bool} (A : Type 0) (e : Trouble) → Keeps frozen {A = A} (bail e)
unfolding bail
bail-Keeps A e = record { kept = λ s. Extends-refl s }

pub ensure-Keeps : {frozen : Bool} (x : Bool) (e : Trouble) → Keeps frozen (ensure x e)
unfolding ensure
ensure-Keeps true e = pure-Keeps tt
ensure-Keeps false e = bail-Keeps _ e

pub or_fail-Keeps :
    {frozen : Bool} {A : Type 0} (o : Option A) (e : Trouble) → Keeps frozen (or_fail o e)
or_fail-Keeps none e = bail-Keeps _ e
or_fail-Keeps (some a) e = pure-Keeps a

pub seq-Keeps :
    {frozen : Bool} {B : Type 0} (m : Act (Unit {0})) (k : Act B)
    → Keeps frozen m
    → Keeps frozen k
    → Keeps frozen (m >> k)
unfolding ◌>>◌
seq-Keeps m k h i = bind-Keeps m (λ _. k) h λ _. i

-- The parts of `m >> k`
pub seq-IsDone :
    {B : Type 0} (m : Act (Unit {0})) (k : Act B) (s : Store) (b : B) (t : Store)
    → (m >> k) s ≡ (done b, t)
    → IsDone m (λ _. k) s b t
unfolding ◌>>◌
seq-IsDone m k s b t h = bind-IsDone m (λ _. k) s b t h

pub if-Keeps :
    {frozen : Bool} {A : Type 0} (x : Bool) (m k : Act A)
    → Keeps frozen m
    → Keeps frozen k
    → Keeps frozen (if x then m else k)
if-Keeps {frozen = frozen} x m k h i = if_cases (Keeps frozen) x m k (λ _. h) λ _. i

pub pure-done : {A : Type 0} (a b : A) (s t : Store) → pure a s ≡ (done b, t) → (a ≡ b) × (s ≡ t)
unfolding pure
pure-done a b s t h = done_inj h

-- A chain goes on from what its first part gives.
pub bind-done :
    {A B : Type 0} (m : Act A) (f : A → Act B) (s : Store) (a : A) (t : Store)
    → m s ≡ (done a, t)
    → (m >>= f) s ≡ f a t
unfolding ◌>>=◌
bind-done m f s a t h = ap (λ r. after r f) h
