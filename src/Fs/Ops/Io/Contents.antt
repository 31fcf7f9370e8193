-- ===== src/Fs/Ops/Io/Contents.antt =====
-- What a write leaves in the file, and what a read finds there.
use mathlib.Core.List.{append_assoc}
use world.Prelude.{
  ℕ, ◌+◌, ◌-◌, ◌<◌, min, ◌≡◌, ◌≢◌, refl, ap, ◌∙◌, subst, Bool, true, ◌++◌, some, length, take, drop,
  replicate, get_or-set, length-append, length-take, length-drop, length-replicate,
  drop-append_length, take-append_length, arith,
}
use world.Bytes.{Bytes}
use world.Map.{get, insert}
use world.Map.Laws.{get-insert}
use world.Map.Order.{fd_key}
use world.Fs.Types.{file, Node, FdEntry, Model}
use world.Fs.Nodes.{node, set_node, okout, dataout}
use world.Fs.Ops.Io.{
  grow, splice, slice_at, write_at, write_entry, do_write, read_at, read_entry, do_read,
}
use world.Fs.Valid.{size}

length-grow : (n : ℕ) (c : Bytes) → length (grow n c) ≡ length c + (n - length c)
unfolding grow
length-grow n c =
    omega (
      arith,
      length-append c (replicate (n - length c) 0),
      length-replicate {A = ℕ} (n - length c) 0,
    )

-- What stands before the write
abbrev before : ℕ → Bytes → Bytes → Bytes
before at bytes c = take at (grow (at + length bytes) (grow at c))

length-before : (at : ℕ) (bytes c : Bytes) → length (before at bytes c) ≡ at
length-before at bytes c = omega (
  arith,
  length-take at (grow (at + length bytes) (grow at c)),
  length-grow (at + length bytes) (grow at c),
  length-grow at c,
)

-- A write of `bytes` at `at` makes the file as long as it was, or up to the write's end.
pub length-splice :
    (at : ℕ) (bytes c : Bytes)
    → length (splice at bytes c) ≡ length c + ((at + length bytes) - length c)
unfolding splice
length-splice at bytes c =
    let g = grow (at + length bytes) (grow at c) in
    omega (
      arith,
      length-append (before at bytes c) (bytes ++ drop (at + length bytes) g),
      length-append bytes (drop (at + length bytes) g),
      length-drop (at + length bytes) g,
      length-before at bytes c,
      length-grow (at + length bytes) (grow at c),
      length-grow at c,
    )

slice_at_middle : (p q z : Bytes) → slice_at (length p) (length q) (p ++ (q ++ z)) ≡ q
unfolding slice_at
slice_at_middle p q z =
    let all = p ++ (q ++ z) in
    let start : min (length p) (length all) ≡ length p = omega (arith, length-append p (q ++ z)) in
    let stop : min (length p + length q) (length all) ≡ length (p ++ q) =
      omega (arith, length-append p (q ++ z), length-append p q, length-append q z) in
    rw (start, stop, ← append_assoc p q z, take-append_length (p ++ q) z) (drop-append_length p q)

-- Reading where a write began gives the bytes that were written.
pub slice_at-splice :
    (at : ℕ) (bytes c : Bytes) → slice_at at (length bytes) (splice at bytes c) ≡ bytes
unfolding splice
slice_at-splice at bytes c =
    let rest = drop (at + length bytes) (grow (at + length bytes) (grow at c)) in
    subst (λ n. slice_at n (length bytes) (before at bytes c ++ (bytes ++ rest)) ≡ bytes)
      (length-before at bytes c) (slice_at_middle (before at bytes c) bytes rest)

-- A read through a descriptor of a file: the slice at its position
pub do_read_lem :
    (m : Model) (fd n at : ℕ) (w : Bool) (len : ℕ) {c : Bytes}
    → get fd m.fds ≡ some (FdEntry.file n at w)
    → (node m n).kind ≡ file c
    → do_read m fd len ≡ (
      record m { fds = insert fd (FdEntry.file n (at + length (slice_at at len c)) w) m.fds },
      dataout (length (slice_at at len c)) (slice_at at len c),
    )
unfolding do_read
do_read_lem m fd n at w len e k = rw (e, read_entry) (rw (k, read_at) refl)

-- The model that a write leaves
abbrev pub written : Model → (fd n at : ℕ) (bytes c : Bytes) → Model
written m fd n at bytes c =
    record (set_node m n (record (node m n) { kind = file (splice at bytes c) })) {
      fds = insert fd (FdEntry.file n (at + length bytes) true) m.fds;
    }

kind-written :
    (m : Model) (fd n at : ℕ) (bytes c : Bytes)
    → n < size m
    → (node (written m fd n at bytes c) n).kind ≡ file (splice at bytes c)
unfolding node set_node
kind-written m fd n at bytes c h =
    ap (λ (d : Node). d.kind) (get_or-set m.nodes n n _ _ h) ∙ ground arith

fds-written :
    (m : Model) (fd g n at : ℕ) (bytes c : Bytes)
    → fd ≢ g
    → get g (written m fd n at bytes c).fds ≡ get g m.fds
fds-written m fd g n at bytes c ne = get-insert fd g _ m.fds ∙ ground (arith, ne)

module _ (m : Model) (fd n at : ℕ) (bytes : Bytes) {c : Bytes} where
  -- A write through a descriptor that may write, to a file: the new contents, and the descriptor
  -- moved to the end of what was written.
  pub do_write_lem :
      get fd m.fds ≡ some (FdEntry.file n at true)
      → (node m n).kind ≡ file c
      → do_write m fd bytes ≡ (written m fd n at bytes c, okout (length bytes))
  unfolding do_write set_node
  do_write_lem e k = rw (e, write_entry) (rw (k, write_at) refl)

  -- When two descriptors stand at one position of a file, and the first may write, what is written
  -- through the first is what a read of that length through the second returns.
  pub do_read-do_write :
      (g : ℕ) (w : Bool)
      → n < size m
      → fd ≢ g
      → get fd m.fds ≡ some (FdEntry.file n at true)
      → get g m.fds ≡ some (FdEntry.file n at w)
      → (node m n).kind ≡ file c
      → (do_read (do_write m fd bytes).0 g (length bytes)).1 ≡ dataout (length bytes) bytes
  do_read-do_write g w h ne e e' k =
      let same = slice_at-splice at bytes c in
      rw (do_write_lem e k) (
        ap (λ x. x.1)
          (do_read_lem (written m fd n at bytes c) g n at w (length bytes)
            (fds-written m fd g n at bytes c ne ∙ e') (kind-written m fd n at bytes c h))
        ∙ ap (λ (b : Bytes). dataout (length b) b) same)
