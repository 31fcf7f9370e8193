-- ===== src/Fs/Step/Rules.antt =====
-- crates/world-fsmodel/src/lib.rs: how an operation becomes a run of steps, the rules that the
-- proofs for the operations share.
use world.Prelude.{
  ℕ, suc, ◌<◌, ◌==◌, ◌≡◌, refl, Bool, true, false, Option, some, length, if◌then◌else◌, arith, [],
}
use world.Bytes.{Bytes}
use world.Map.{get}
use world.Map.Laws.{get-insert}
use world.Map.Order.{bytes_key, fd_key}
use world.Result
use world.Result.{Result, Errno, ok, err}
use world.Result.Yields.{Yields, Yields-ok, Yields-bind, Yields-guard, Yields-then}
use world.Fs.Types.{NodeId, NodeKind, file, FdEntry, Model}
use world.Fs.Nodes.{create_child, alloc_fd, check_live, insert_child}
use world.Fs.Ops.Run.{Effect, run, done}
use world.Fs.Ops.Make.{create_free, open_created}
use world.Fs.Valid.{FdBelow, fd_node, size, IsValid}
use world.Fs.Valid.Updates.{size-set_node, size-push_node}
use world.Fs.Valid.Targets.{IsPlace}
use world.Fs.Valid.Climb.{IsSound}
use world.Fs.Step.{Step, Steps, stay, next}
use world.Fs.Step.Sound.{Step-IsSound}

-- What is left of an operation whose checks have been made is its steps.
pub run-Steps : {m : Model} (r : Result Effect) → Yields (λ e. Steps m e.0) r → Steps m (run m r).0
unfolding run
run-Steps (ok e) h = h.of e refl
run-Steps (err e) h = stay

pub one : {m m' : Model} → Step m m' → Steps m m'
one s = next stay s

-- An option chosen by a test
pub FdBelow-if :
    (n : ℕ) (b : Bool) (x y : Option FdEntry)
    → FdBelow n x
    → FdBelow n y
    → FdBelow n (if b then x else y)
FdBelow-if n true x y h k = h
FdBelow-if n false x y h k = k

pub alloc_fd-Step :
    {m : Model} (e : FdEntry) → IsValid m → fd_node e < size m → Step m (alloc_fd m e).0
unfolding alloc_fd
alloc_fd-Step {m} e v h =
    Step.table _ _
      λ f. rw get-insert (FdBelow-if (size m) (m.next_fd == f) (some e) (get f m.fds) h (v.fds f))

pub size-create_child :
    (m : Model) (p : NodeId) (k : Bytes) (kind : NodeKind)
    → size (create_child m p k kind) ≡ suc (size m)
unfolding create_child insert_child
size-create_child m p k kind = rw (size-set_node, size-push_node) refl

-- A model with one node more, which `create_free` has made
abbrev pub Created : Model → Model → Type 0
Created m m' = Step m m' × (size m' ≡ suc (size m))

pub create_free-Created :
    {m : Model} (p : NodeId) (k : Bytes) (kind : NodeKind) (taken : Errno)
    → IsPlace m p
    → Yields (Created m) (create_free m p k kind taken)
unfolding create_free
create_free-Created {m} p k kind taken h = Yields-guard _ _ _ λ _.
    Yields-then (check_live m p) _
      (Yields-ok _ (Step.create p k kind h, size-create_child m p k kind))

-- Creating a name, and no more
pub create_done-Steps :
    {m : Model} (p : NodeId) (k : Bytes) (kind : NodeKind) (taken : Errno)
    → IsPlace m p
    → Yields (λ e. Steps m e.0) (Result.◌>>=◌ (create_free m p k kind taken) (λ m'. ok (done m')))
unfolding done
create_done-Steps p k kind taken h =
    Yields-bind (Created _) _ _ (create_free-Created p k kind taken h) λ m' c. Yields-ok _ (one c.0)

-- Creating a file and opening it
pub create_open-Steps :
    {m : Model} (p : NodeId) (k : Bytes) (taken : Errno) (write : Bool)
    → IsSound m
    → IsPlace m p
    → Yields
        (λ e. Steps m e.0)
        (Result.◌>>=◌
          (create_free m p k (file []) taken)
          (λ m'. ok (open_created m (length m.nodes) m' write)))
unfolding open_created
create_open-Steps {m} p k taken write s h =
    Yields-bind (Created m) _ _ (create_free-Created p k (file []) taken h) λ m' c. Yields-ok _ (
      next (one c.0) (
        alloc_fd-Step (FdEntry.file (size m) 0 write) (Step-IsSound s c.0).valid
          (omega (arith, c.1))))

pub if-Steps :
    {m : Model} (b : Bool) (x y : Effect)
    → Steps m x.0
    → Steps m y.0
    → Steps m (if b then x else y).0
if-Steps true x y h k = h
if-Steps false x y h k = k
