-- ===== src/Ddmin/Tests.antt =====
-- Runs of the search on six lines.
use world.Prelude.{ℕ, ◌+◌, ◌≡◌, refl, Bool, ◌&&◌, [], ◌∷◌, List, some}
use world.Bytes.{contains}
use world.Ddmin.{shrink}

-- The definitions that a run computes with
unfoldable pub machine : Unit {0}
unfolding world.Bytes.beq world.Bytes.lex world.Bytes.starts_with world.Bytes.ends_with_slash
    world.Bytes.starts_with_slash world.Bytes.contains world.Bytes.split world.Bytes.is_real
    world.Bytes.keep_real world.Bytes.real_components world.Bytes.lower
    world.Bytes.to_ascii_lowercase world.Ddmin.drain world.Ddmin.div_ceil world.Ddmin.ask
    world.Ddmin.first_cut world.Ddmin.coarse world.Ddmin.fine world.Ddmin.shrink
machine = tt

-- The divergence needs the lines 3 and 5; the state counts the replays.
abbrev pub needs_two : ℕ → List ℕ → Bool × ℕ
needs_two n lines = (contains 3 lines && contains 5 lines, n + 1)

abbrev pub six : List ℕ
six = 1 ∷ 2 ∷ 3 ∷ 4 ∷ 5 ∷ 6 ∷ []

finds_two : shrink needs_two six 0 ≡ some (3 ∷ 5 ∷ [], 14)
unfolding machine
finds_two = refl
