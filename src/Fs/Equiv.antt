-- ===== src/Fs/Equiv.antt =====
-- crates/world-fsmodel/src/lib.rs: `errno_equiv`, the errnos of two kernels that count as the same for
-- an operation.
pub mod Classes
use world.Prelude.{some, Bool, true, false, ◌&&◌, ◌||◌, not, if◌then◌else◌}
use world.Result.{Code, same_code, enotempty, eexist, eisdir, eperm}
use world.Fs.Types.{Op}

-- The closure `pair`
unfoldable pub pair : Code → Code → Code → Code → Bool
pair a b x y = same_code a x && same_code b y || same_code a y && same_code b x

unfoldable pub removes_dir : Op → Bool
removes_dir (Op.rmdir path) = true
removes_dir (Op.unlink_at dirfd path rmdir) = rmdir
removes_dir (Op.rename from to) = true
removes_dir op = false

unfoldable pub unlinks : Op → Bool
unlinks (Op.unlink path) = true
unlinks (Op.unlink_at dirfd path rmdir) = not rmdir
unlinks op = false

unfoldable pub errno_equiv : Bool → Op → Code → Code → Bool
errno_equiv linux op a b =
    if same_code a b
    then true
    else if removes_dir op && pair a b (some enotempty) (some eexist)
    then true
    else not linux && unlinks op && pair a b (some eisdir) (some eperm)
