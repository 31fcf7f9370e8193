-- ===== src/Fs/Step/Io.antt =====
-- crates/world-fsmodel/src/lib.rs: the steps of `do_write`, `do_read` and `do_close`.
use world.Prelude.{
  ℕ, ◌+◌, ◌<◌, ◌==◌, ◌≡◌, refl, sym, subst, Bool, true, false, Option, none, some, length,
}
use world.Bytes.{Bytes}
use world.Map.{get, insert, remove}
use world.Map.Laws.{get-insert, get-remove}
use world.Map.Order.{bytes_key, fd_key}
use world.Fs.Types.{NodeId, NodeKind, file, dir, FdEntry, Model}
use world.Fs.Nodes.{node}
use world.Fs.Valid.{FdBelow, fd_node, size}
use world.Fs.Valid.Updates.{size-set_node}
use world.Fs.Valid.Climb.{IsSound}
use world.Fs.Step.{Step, Steps, stay, next}
use world.Fs.Step.Sound.{Step-IsSound}
use world.Fs.Ops.Io.{
  splice, write_at, write_entry, do_write, slice_at, read_at, read_entry, do_read, close_entry,
  do_close,
}
use world.Fs.Step.Rules.{one, FdBelow-if}
use world.Map.{Map}

-- A table with one entry more, or one less, still names nodes of the arena.
insert-FdBelow :
    {n : ℕ} (fds : Map ℕ FdEntry) (fd : ℕ) (e : FdEntry)
    → ((f : ℕ) → FdBelow n (get f fds))
    → fd_node e < n
    → (f : ℕ) → FdBelow n (get f (insert fd e fds))
insert-FdBelow {n} fds fd e h l f =
    rw get-insert (FdBelow-if n (fd == f) (some e) (get f fds) l (h f))

remove-FdBelow :
    (n : ℕ) (fds : Map ℕ FdEntry) (fd : ℕ)
    → ((f : ℕ) → FdBelow n (get f fds))
    → (f : ℕ) → FdBelow n (get f (remove fd fds))
remove-FdBelow n fds fd h f = rw get-remove (FdBelow-if n (fd == f) none (get f fds) tt (h f))

module _ {m : Model} (s : IsSound m) where
  write_at-Steps :
      (fd : ℕ) (n : NodeId) (at : ℕ) (bytes : Bytes) (k : NodeKind)
      → n < size m
      → (node m n).kind ≡ k
      → Steps m (write_at m fd n at bytes k).0
  unfolding write_at
  write_at-Steps fd n at bytes (file content) h e =
      let st = Step.content n (splice at bytes content) h e in
      let v' = (Step-IsSound s st).valid in
      next (one st) (
        Step.table _ _ (
          insert-FdBelow _ fd (FdEntry.file n (at + length bytes) true) v'.fds
            (subst (λ k. n < k) (sym (size-set_node m n _)) h)))
  write_at-Steps fd n at bytes dir h e = stay
  write_at-Steps fd n at bytes _ h e = stay

  write_entry-Steps :
      (fd : ℕ) (bytes : Bytes) (o : Option FdEntry)
      → FdBelow (size m) o
      → Steps m (write_entry m fd bytes o).0
  unfolding write_entry
  write_entry-Steps fd bytes none h = stay
  write_entry-Steps fd bytes (some (FdEntry.file n at true)) h =
      write_at-Steps fd n at bytes _ h refl
  write_entry-Steps fd bytes (some (FdEntry.file n at false)) h = stay
  write_entry-Steps fd bytes (some (FdEntry.dir n)) h = stay

  pub do_write-Steps : (fd : ℕ) (bytes : Bytes) → Steps m (do_write m fd bytes).0
  unfolding do_write
  do_write-Steps fd bytes = write_entry-Steps fd bytes (get fd m.fds) (s.valid.fds fd)

  read_at-Steps :
      (fd : ℕ) (n : NodeId) (at : ℕ) (write : Bool) (len : ℕ) (k : NodeKind)
      → n < size m
      → Steps m (read_at m fd n at write len k).0
  unfolding read_at
  read_at-Steps fd n at write len (file content) h = one (
      Step.table _ _ (
        insert-FdBelow m.fds fd (FdEntry.file n (at + length (slice_at at len content)) write)
          s.valid.fds h))
  read_at-Steps fd n at write len dir h = stay
  read_at-Steps fd n at write len _ h = stay

  read_entry-Steps :
      (fd len : ℕ) (o : Option FdEntry) → FdBelow (size m) o → Steps m (read_entry m fd len o).0
  unfolding read_entry
  read_entry-Steps fd len none h = stay
  read_entry-Steps fd len (some (FdEntry.file n at write)) h =
      read_at-Steps fd n at write len (node m n).kind h
  read_entry-Steps fd len (some (FdEntry.dir n)) h = stay

  pub do_read-Steps : (fd len : ℕ) → Steps m (do_read m fd len).0
  unfolding do_read
  do_read-Steps fd len = read_entry-Steps fd len (get fd m.fds) (s.valid.fds fd)

  close_entry-Steps : (fd : ℕ) (o : Option FdEntry) → Steps m (close_entry m fd o).0
  unfolding close_entry
  close_entry-Steps fd none = stay
  close_entry-Steps fd (some e) =
      one (Step.table _ _ (remove-FdBelow (size m) m.fds fd s.valid.fds))

  pub do_close-Steps : (fd : ℕ) → Steps m (do_close m fd).0
  unfolding do_close
  do_close-Steps fd = close_entry-Steps fd (get fd m.fds)
