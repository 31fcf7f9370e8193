-- ===== src/Fs/Names.antt =====
-- crates/world-fsmodel/src/lib.rs: the name of a node (`full_path`) and the mount that it lies on.
pub mod Climb
use world.Prelude.{
  ℕ, zero, suc, ◌==◌, Bool, true, false, List, [], ◌∷◌, ◌++◌, Option, none, some, length,
}
use world.Bytes.{Bytes, codes}
use world.Map.{key_of}
use world.Result.{Result, ok, err}
use world.Fs.Types.{NodeId, mac_shim, linux_mount, View, virtual, physical, root, Model}
use world.Fs.Nodes.{node, or_else}
use world.Fs.Resolve.{resolve}

abbrev pub paired : NodeId → Option Bytes → Option (Bytes × NodeId)
paired p none = none
paired p (some n) = some (n, p)

unfoldable pub physical_name : Model → NodeId → Option (Bytes × NodeId)
unfolding node
physical_name m n = elim (node m n).parent [
  | none ↦ none
  | some p ↦ paired p (key_of (λ c. c == n) (node m p).children)
]

unfoldable pub node_name_and_parent : Model → View → NodeId → Option (Bytes × NodeId)
unfolding physical_name
node_name_and_parent m physical n = physical_name m n
node_name_and_parent m virtual n = elim (node m n).virtual_parent [
  | some vp ↦ some (or_else (node m n).mount_name [], vp)
  | none ↦ physical_name m n
]

-- The loop that pushes the names, the last one first in the result; `none` when the fuel is spent.
unfoldable pub name_parts : ℕ → Model → View → NodeId → List Bytes → Option (List Bytes)
unfolding node_name_and_parent
name_parts zero m view cur parts = none
name_parts (suc fuel) m view cur parts = elim (node_name_and_parent m view cur) [
  | none ↦ some parts
  | some (name, parent) ↦ name_parts fuel m view parent (name ∷ parts)
]

unfoldable pub joined : List Bytes → Bytes
joined [] = []
joined (p ∷ ps) = b'/' ∷ (p ++ joined ps)

abbrev pub or_slash : Bytes → Bytes
or_slash [] = b'/' ∷ []
or_slash (b ∷ bs) = b ∷ bs

-- `none` stands for a loop that does not end within one round for each node and one more.
unfoldable pub full_path : Model → View → NodeId → Option Bytes
unfolding name_parts joined
full_path m view n = elim (name_parts (suc (length m.nodes)) m view n []) [
  | none ↦ none
  | some parts ↦ some (or_slash (joined parts))
]

-- `Some(node) == r.ok()`
abbrev is_node : Result NodeId → NodeId → Bool
is_node (ok t) n = t == n
is_node (err e) n = false

unfoldable pub mount_from : ℕ → Model → Result NodeId → Result NodeId → NodeId → ℕ
unfolding node
mount_from zero m tmp var_tmp n = 0
mount_from (suc fuel) m tmp var_tmp n = elim (is_node tmp n) [
  | true ↦ 1
  | false ↦ elim (is_node var_tmp n) [
    | true ↦ 2
    | false ↦ elim (node m n).parent [
      | none ↦ 0
      | some p ↦ elim (p == n) [ true ↦ 0 | false ↦ mount_from fuel m tmp var_tmp p ]
    ]
  ]
]

unfoldable pub mount_of : Model → NodeId → ℕ
unfolding mount_from
mount_of m n = elim m.profile [
  | mac_shim r ↦ 0
  | linux_mount r ↦
      mount_from (length m.nodes) m (resolve m physical root (r ++ codes "/tmp") true)
        (resolve m physical root (r ++ codes "/var/tmp") true) n
]
