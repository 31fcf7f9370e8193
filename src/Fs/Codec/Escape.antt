-- ===== src/Fs/Codec/Escape.antt =====
-- crates/world-fsmodel/src/lib.rs: `escape` and `unescape`. A string is the list of its bytes.
use world.Prelude.{
  ℕ, ◌+◌, ◌-◌, ◌*◌, ◌/◌, ◌%◌, ◌==◌, ltb, leb, Bool, true, false, ◌&&◌, ◌||◌, [], ◌∷◌, Option, none,
  some, if◌then◌else◌,
}
use world.Bytes.{Bytes, contains}

-- `lo..=hi`
abbrev pub between : ℕ → ℕ → ℕ → Bool
between lo hi b = leb lo b && leb b hi

unfoldable pub is_plain : ℕ → Bool
is_plain b =
    between b'0' b'9' b
    || between b'A' b'Z' b
    || between b'a' b'z' b
    || b == b'.'
    || b == b'_'
    || b == b'/'
    || b == b'-'

-- A digit of `{b:02x}`
abbrev pub hex_digit : ℕ → ℕ
hex_digit n = if ltb n 10 then b'0' + n else b'a' + (n - 10)

unfoldable pub escape : Bytes → Bytes
unfolding is_plain
escape [] = []
escape (b ∷ bs) =
    let rest = escape bs in
    if is_plain b then b ∷ rest else b'%' ∷ hex_digit (b / 16) ∷ hex_digit (b % 16) ∷ rest

unfoldable pub hex_val : ℕ → Option ℕ
hex_val b =
    if between b'0' b'9' b
    then some (b - b'0')
    else if between b'a' b'f' b
    then some (b - b'a' + 10)
    else if between b'A' b'F' b
    then some (b - b'A' + 10)
    else none

abbrev pub prepend : ℕ → Option Bytes → Option Bytes
prepend b none = none
prepend b (some out) = some (b ∷ out)

-- `(hi << 4) | lo`, of two digits below 16
abbrev pub hex_pair : Option ℕ → Option ℕ → Option Bytes → Option Bytes
hex_pair (some hi) (some lo) out = prepend (hi * 16 + lo) out
hex_pair hi lo out = none

unfoldable pub unescape : Bytes → Option Bytes
unfolding hex_val
unescape [] = some []
unescape (b ∷ []) = if b == b'%' then none else some (b ∷ [])
unescape (b ∷ h ∷ []) = elim (b == b'%') [ true ↦ none | false ↦ prepend b (unescape (h ∷ [])) ]
unescape (b ∷ h ∷ l ∷ bs) = elim (b == b'%') [
  | true ↦ hex_pair (hex_val h) (hex_val l) (unescape bs)
  | false ↦ prepend b (unescape (h ∷ l ∷ bs))
]

-- A path with a NUL is refused.
unfoldable pub without_nul : Option Bytes → Option Bytes
without_nul none = none
without_nul (some v) = if contains 0 v then none else some v

unfoldable pub unescape_path : Bytes → Option Bytes
unfolding unescape without_nul
unescape_path s = without_nul (unescape s)
