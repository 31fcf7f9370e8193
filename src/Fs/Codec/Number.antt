-- ===== src/Fs/Codec/Number.antt =====
-- crates/world-fsmodel/src/lib.rs: the numbers of a replay line: `{n}` and `{n:o}`, and what `parse` and
-- `from_str_radix` of the unsigned types read.
use world.Prelude.{
  ℕ, zero, suc, ◌+◌, ◌-◌, ◌*◌, ◌/◌, ◌%◌, ◌^◌, ◌==◌, ltb, Bool, true, false, [], ◌∷◌, ◌++◌, Option,
  none, some, if◌then◌else◌,
}
use world.Bytes.{Bytes, codes, beq}
use world.Fs.Codec.Escape.{between}

-- `u32::MAX + 1` and, on a 64-bit target, `usize::MAX + 1`
abbrev pub u32_end : ℕ
u32_end = 2 ^ 32

abbrev pub usize_end : ℕ
usize_end = 2 ^ 64

-- The digits of a number, with as many rounds as fuel
unfoldable pub digits : ℕ → ℕ → ℕ → Bytes
digits zero radix n = []
digits (suc fuel) radix n =
    let more = digits fuel radix (n / radix) in
    let last = (b'0' + n % radix) ∷ [] in if ltb n radix then last else more ++ last

-- `{n}` and `{n:o}`
unfoldable pub display : ℕ → ℕ → Bytes
unfolding digits
display radix n = digits (suc n) radix n

-- A digit of a radix up to 10
unfoldable pub digit_val : ℕ → ℕ → Option ℕ
digit_val radix c = if between b'0' (b'0' + radix - 1) c then some (c - b'0') else none

abbrev pub below : ℕ → ℕ → Option ℕ
below end n = if ltb n end then some n else none

abbrev pub and_then {ℓ κ} : {A : Type ℓ} {B : Type κ} → Option A → (A → Option B) → Option B
and_then none f = none
and_then (some a) f = f a

-- The rest of the digits, after a number that they extend
unfoldable pub parse_digits : ℕ → ℕ → ℕ → Bytes → Option ℕ
unfolding digit_val
parse_digits radix end n [] = some n
parse_digits radix end n (c ∷ cs) =
    and_then (digit_val radix c)
      λ d. and_then (below end (n * radix + d)) λ m. parse_digits radix end m cs

-- One leading plus sign is allowed, if digits follow.
unfoldable pub from_str_radix : ℕ → ℕ → Bytes → Option ℕ
unfolding parse_digits
from_str_radix radix end [] = none
from_str_radix radix end (c ∷ []) = parse_digits radix end 0 (c ∷ [])
from_str_radix radix end (c ∷ d ∷ cs) =
    if c == b'+' then parse_digits radix end 0 (d ∷ cs) else parse_digits radix end 0 (c ∷ d ∷ cs)

-- `{b}` and `parse` of a `bool`
unfoldable pub display_bool : Bool → Bytes
display_bool true = codes "true"
display_bool false = codes "false"

unfoldable pub parse_bool : Bytes → Option Bool
parse_bool s =
    if beq s (codes "true") then some true else if beq s (codes "false") then some false else none
