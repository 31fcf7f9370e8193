-- ===== src/Fs/Reply.antt =====
-- crates/world-fsmodel/src/lib.rs: the two ways in which an operation ends, and a rule for each way to
-- build an effect.
pub mod Writes
pub mod Opens
pub mod Apply
use world.Prelude.{
  ℕ, ◌≡◌, refl, Bool, true, false, if◌then◌else◌, [], Option, none, some, subst, arith,
}
use world.Result
use world.Result.{Result, Errno, ok, err}
use world.Result.Yields.{Yields, Yields-ok, Yields-bind}
use world.Fs.Types.{Model, pos, negsuc}
use world.Fs.Nodes.{okout, errout}
use world.Fs.Ops.Run.{Effect, fail, run, done}

-- The outcome of a success: a result that is not negative, and no errno
pub record Succeeds (x : Effect) : Type 0 where
  pub count : ℕ
  pub ret : x.1.ret ≡ pos count
  pub errno : x.1.errno ≡ none

-- A success, or result -1 with an errno, which is not 0, no data, and the model as it was
pub data IsReply (m : Model) (x : Effect) : Type 0 where
  success : Succeeds x → IsReply m x
  failure :
      (e : Errno) → x.1.ret ≡ negsuc 0 → x.1.errno ≡ some e → x.1.bytes ≡ [] → x.0 ≡ m → IsReply m x

pub fail-IsReply : (m : Model) (e : Errno) → IsReply m (fail m e)
unfolding fail errout
fail-IsReply m e = failure e refl refl refl refl

pub run-IsReply : {m : Model} (r : Result Effect) → Yields Succeeds r → IsReply m (run m r)
unfolding run
run-IsReply (ok x) h = success (h.of x refl)
run-IsReply {m} (err e) h = fail-IsReply m e

pub if-IsReply :
    {m : Model} (b : Bool) (x y : Effect)
    → IsReply m x
    → IsReply m y
    → IsReply m (if b then x else y)
if-IsReply true x y h k = h
if-IsReply false x y h k = k

-- What comes before the last value of a block does not bear on its outcome.
pub Yields-any :
    {A B : Type 0} {P : B → Type 0} (r : Result A) (f : A → Result B)
    → ((a : A) → Yields P (f a))
    → Yields P (Result.◌>>=◌ r f)
Yields-any r f h = Yields-bind (λ a. Unit {0}) r f (record { of = λ a e. tt }) λ a _. h a

pub okout-Succeeds : (m : Model) (n : ℕ) → Succeeds (m, okout n)
unfolding okout
okout-Succeeds m n = record { count = n; ret = refl; errno = refl }

pub done-Yields : (m : Model) → Yields Succeeds (ok (done m))
unfolding done
done-Yields m = Yields-ok _ (okout-Succeeds m 0)
