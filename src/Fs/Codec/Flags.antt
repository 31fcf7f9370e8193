-- ===== src/Fs/Codec/Flags.antt =====
-- crates/world-fsmodel/src/lib.rs: `OpenFlags::to_flag_str` and `OpenFlags::from_flag_str`.
use world.Prelude.{
  ℕ, ◌==◌, Bool, true, false, List, [], ◌∷◌, Option, none, some, map, if◌then◌else◌,
}
use world.Bytes.{Bytes}
use world.Fs.Types.{OpenFlags}

unfoldable pub flag_char : Bool → ℕ
flag_char true = b'1'
flag_char false = b'0'

unfoldable pub to_flag_str : OpenFlags → Bytes
unfolding flag_char
to_flag_str f =
    map flag_char (f.create ∷ f.excl ∷ f.trunc ∷ f.write ∷ f.directory ∷ f.nofollow ∷ [])

unfoldable pub flag_bit : ℕ → Option Bool
flag_bit c = if c == b'0' then some false else if c == b'1' then some true else none

abbrev pub also : Option Bool → Option (List Bool) → Option (List Bool)
also (some v) (some vs) = some (v ∷ vs)
also v vs = none

-- `collect::<Option<Vec<bool>>>()`
unfoldable pub flag_bits : Bytes → Option (List Bool)
unfolding flag_bit
flag_bits [] = some []
flag_bits (c ∷ cs) = also (flag_bit c) (flag_bits cs)

-- The slice pattern of six bits
unfoldable pub six_flags : List Bool → Option OpenFlags
six_flags (c ∷ e ∷ t ∷ w ∷ d ∷ n ∷ []) =
    some (record { create = c; excl = e; trunc = t; write = w; directory = d; nofollow = n })
six_flags bits = none

unfoldable pub flags_of : Option (List Bool) → Option OpenFlags
unfolding six_flags
flags_of none = none
flags_of (some bits) = six_flags bits

unfoldable pub from_flag_str : Bytes → Option OpenFlags
unfolding flag_bits flags_of
from_flag_str s = flags_of (flag_bits s)
