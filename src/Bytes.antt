-- ===== src/Bytes.antt =====
-- Byte strings as the crates use them: Rust's `[u8]` and `Vec<u8>`, and the slice methods that the
-- code calls on them. A byte is a number; where a proof needs it below 256, the lemma says so.
pub mod Split
use Prim.Native.Char.{code}
use world.Prelude.{
  ℕ, ◌+◌, ◌≡◌, ◌↔◌, Bool, true, false, ◌&&◌, ◌||◌, List, [], ◌∷◌, String, Ordering, compare, arith,
  ◌==◌, leb, if◌then◌else◌, map,
}

abbrev pub Bytes : Type 0
Bytes = List ℕ

-- The bytes of an ASCII literal.
abbrev pub codes : String → Bytes
codes String.[] = []
codes (String.◌∷◌ c s) = code c ∷ codes s

abbrev pub dot : Bytes
dot = b'.' ∷ []

abbrev pub dotdot : Bytes
dotdot = b'.' ∷ b'.' ∷ []

-- `a == b` on slices
unfoldable pub beq : Bytes → Bytes → Bool
beq [] [] = true
beq (a ∷ xs) (b ∷ ys) = a == b && beq xs ys
beq _ _ = false

pub beq_iff : (xs ys : Bytes) → (beq xs ys ≡ true) ↔ (xs ≡ ys)
unfolding beq
beq_iff [] [] = ground arith
beq_iff [] (b ∷ ys) = ground arith
beq_iff (a ∷ xs) [] = ground arith
beq_iff (a ∷ xs) (b ∷ ys) = ground (arith, beq_iff xs ys)

-- `Ord` on slices is lexicographic.
unfoldable pub lex : Bytes → Bytes → Ordering
lex [] [] = Ordering.eq
lex [] (b ∷ bs) = Ordering.lt
lex (a ∷ xs) [] = Ordering.gt
lex (a ∷ xs) (b ∷ ys) =
    let rest = lex xs ys in
    elim (compare a b) [
      | Ordering.lt ↦ Ordering.lt
      | Ordering.eq ↦ rest
      | Ordering.gt ↦ Ordering.gt
    ]

unfoldable pub starts_with : Bytes → Bytes → Bool
starts_with _ [] = true
starts_with [] (p ∷ ps) = false
starts_with (b ∷ bs) (p ∷ ps) = b == p && starts_with bs ps

-- `ends_with(b"/")`
unfoldable pub ends_with_slash : Bytes → Bool
ends_with_slash [] = false
ends_with_slash (b ∷ []) = b == b'/'
ends_with_slash (b ∷ c ∷ bs) = ends_with_slash (c ∷ bs)

-- `first() == Some(&b'/')`, which is also `starts_with(b"/")`
unfoldable pub starts_with_slash : Bytes → Bool
starts_with_slash [] = false
starts_with_slash (b ∷ bs) = b == b'/'

unfoldable pub contains : ℕ → Bytes → Bool
contains x [] = false
contains x (b ∷ bs) = b == x || contains x bs

abbrev pub cons_head : ℕ → List Bytes → List Bytes
cons_head b [] = (b ∷ []) ∷ []
cons_head b (s ∷ ss) = (b ∷ s) ∷ ss

-- `split(|&b| b == sep)`: at least one piece, and an empty one at each end of a run of separators
unfoldable pub split : ℕ → Bytes → List Bytes
split sep [] = [] ∷ []
split sep (b ∷ bs) = let rest = split sep bs in if b == sep then [] ∷ rest else cons_head b rest

-- The `filter(|c| !c.is_empty() && *c != b".")` that each path walk applies to its pieces
unfoldable pub is_real : Bytes → Bool
unfolding beq
is_real [] = false
is_real (b ∷ bs) = if beq (b ∷ bs) dot then false else true

unfoldable pub keep_real : List Bytes → List Bytes
keep_real [] = []
keep_real (c ∷ cs) = let rest = keep_real cs in if is_real c then c ∷ rest else rest

unfoldable pub real_components : Bytes → List Bytes
unfolding split keep_real is_real
real_components path = keep_real (split b'/' path)

-- `to_ascii_lowercase`
unfoldable pub lower : ℕ → ℕ
lower b = if leb b'A' b && leb b b'Z' then b + 32 else b

unfoldable pub to_ascii_lowercase : Bytes → Bytes
unfolding lower
to_ascii_lowercase = map lower
