-- ===== src/Fs/Ops/Run.antt =====
-- How an operation ends: with the model it leaves and its outcome, or early by `return errout(e)`.
use world.Result.{Result, ok, err, Errno}
use world.Fs.Types.{Model, Outcome}
use world.Fs.Nodes.{errout, okout}

abbrev pub Effect : Type 0
Effect = Model × Outcome

unfoldable pub fail : Model → Errno → Effect
unfolding errout
fail m e = (m, errout e)

-- The `Err(e) => errout(e)` arms: nothing has been written when they are reached.
unfoldable pub run : Model → Result Effect → Effect
unfolding fail
run m (ok r) = r
run m (err e) = fail m e

unfoldable pub done : Model → Effect
unfolding okout
done m = (m, okout 0)
