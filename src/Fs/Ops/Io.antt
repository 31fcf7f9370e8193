-- ===== src/Fs/Ops/Io.antt =====
-- crates/world-fsmodel/src/lib.rs: `do_write`, `do_read`, `do_close`.
pub mod Contents
use world.Prelude.{
  ℕ, ◌+◌, ◌-◌, min, Bool, true, false, ◌++◌, Option, none, some, length, take, drop, replicate,
}
use world.Bytes.{Bytes}
use world.Map.{get, insert, remove}
use world.Map.Order.{fd_key}
use world.Result.{ebadf, eisdir}
use world.Fs.Types.{NodeId, NodeKind, Node, file, FdEntry, Model}
use world.Fs.Nodes.{node, set_node, okout, dataout}
use world.Fs.Ops.Run.{Effect, fail, done}

-- `if content.len() < n { content.resize(n, 0) }`
unfoldable pub grow : ℕ → Bytes → Bytes
grow n content = content ++ replicate (n - length content) 0

-- Grow to `pos`, then to the end of the write, then `content[pos..end].copy_from_slice(data)`
unfoldable pub splice : ℕ → Bytes → Bytes → Bytes
unfolding grow
splice at bytes content =
    let grown = grow (at + length bytes) (grow at content) in
    take at grown ++ (bytes ++ drop (at + length bytes) grown)

unfoldable pub write_at : Model → ℕ → NodeId → ℕ → Bytes → NodeKind → Effect
unfolding set_node node splice insert fail okout
write_at m fd n at bytes (file content) =
    let m' = set_node m n (record (node m n) { kind = file (splice at bytes content) }) in
    (
      record m' { fds = insert fd (FdEntry.file n (at + length bytes) true) m'.fds },
      okout (length bytes),
    )
write_at m fd n at bytes k = fail m ebadf

unfoldable pub write_entry : Model → ℕ → Bytes → Option FdEntry → Effect
unfolding write_at
write_entry m fd bytes (some (FdEntry.file n at true)) = write_at m fd n at bytes (node m n).kind
write_entry m fd bytes e = fail m ebadf

unfoldable pub do_write : Model → ℕ → Bytes → Effect
unfolding write_entry get
do_write m fd bytes = write_entry m fd bytes (get fd m.fds)

-- `content[start..end]`; the source's `saturating_add` is exact below the length of a vector.
unfoldable pub slice_at : ℕ → ℕ → Bytes → Bytes
slice_at at len content =
    let start = min at (length content) in
    let stop = min (start + len) (length content) in drop start (take stop content)

unfoldable pub read_at : Model → ℕ → NodeId → ℕ → Bool → ℕ → NodeKind → Effect
unfolding insert slice_at fail dataout
read_at m fd n at write len (file content) =
    let slice = slice_at at len content in
    (
      record m { fds = insert fd (FdEntry.file n (at + length slice) write) m.fds },
      dataout (length slice) slice,
    )
read_at m fd n at write len k = fail m ebadf

unfoldable pub read_entry : Model → ℕ → ℕ → Option FdEntry → Effect
unfolding read_at node
read_entry m fd len (some (FdEntry.file n at write)) = read_at m fd n at write len (node m n).kind
read_entry m fd len (some (FdEntry.dir n)) = fail m eisdir
read_entry m fd len none = fail m ebadf

unfoldable pub do_read : Model → ℕ → ℕ → Effect
unfolding read_entry get
do_read m fd len = read_entry m fd len (get fd m.fds)

unfoldable pub close_entry : Model → ℕ → Option FdEntry → Effect
unfolding remove fail done
close_entry m fd (some e) = done (record m { fds = remove fd m.fds })
close_entry m fd none = fail m ebadf

unfoldable pub do_close : Model → ℕ → Effect
unfolding get close_entry
do_close m fd = close_entry m fd (get fd m.fds)
