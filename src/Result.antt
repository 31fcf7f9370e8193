-- ===== src/Result.antt =====
-- Error values. `Errno` names the libc constants that the crates return or match on; their numbers
-- belong to the target's libc, and the code only relies on their being distinct from each other and
-- from 0. The errno 0 of a success is no `Errno`: an outcome has an optional one.
pub mod Yields
use mathlib.Core.Bool.{decide}
use world.Prelude.{Bool, true, false, Option}

pub data Errno : Type 0 where
  eperm enoent enxio ebadf eacces ebusy eexist exdev enotdir eisdir einval erange eloop : Errno
  enametoolong enotempty enotsock eopnotsupp eaddrinuse econnrefused enosys eio : Errno
  -- -1, which no call reports: the answer of a lookup that `map_target` refuses to make
  unresolved : Errno

unfoldable pub Errno-discrete : Discrete Errno
Errno-discrete = hlevel

-- `a == b` on errno values
unfoldable pub same_errno : Errno → Errno → Bool
unfolding Errno-discrete
same_errno a b = decide (Errno-discrete a b)

-- The number in an outcome, `none` for 0
abbrev pub Code : Type 0
Code = Option Errno

unfoldable pub Code-discrete : Discrete Code
unfolding Errno-discrete
Code-discrete = hlevel

-- `a == b` on the numbers of outcomes
unfoldable pub same_code : Code → Code → Bool
unfolding Code-discrete
same_code a b = decide (Code-discrete a b)

pub data Result {ℓ} (A : Type ℓ) : Type ℓ where
  ok : A → Result A
  err : Errno → Result A

-- An early `return Err(e)` unless the test holds
unfoldable pub guard : Bool → Errno → Result (Unit {0})
guard b e = elim b [ true ↦ ok tt | false ↦ err e ]

-- The `?` operator; opening it opens `guard` too.
infixl 5 ◌>>=◌ ◌>>◌
unfoldable pub ◌>>=◌ {ℓ κ} : {A : Type ℓ} {B : Type κ} → Result A → (A → Result B) → Result B
unfolding guard
ok a >>= f = f a
err e >>= f = err e

unfoldable pub ◌>>◌ {ℓ} : {B : Type ℓ} → Result (Unit {0}) → Result B → Result B
unfolding ◌>>=◌
m >> k = m >>= λ _. k
