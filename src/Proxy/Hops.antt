-- ===== src/Proxy/Hops.antt =====
-- crates/world-runtime/src/proxy.rs: which headers `strip_hop_headers` leaves.
use mathlib.Core.List.{Memᴰ}
use world.Prelude.{◌≡◌, Bool, true, false, ◌||◌, List, [], ◌∷◌}
use world.Bytes.{Bytes, split}
use world.Proxy.Trim.{IsTrimmed}
use world.Proxy.Headers.{same_name, is_text}

-- Whether a name is among some names
unfoldable pub is_named : Bytes → List Bytes → Bool
is_named a [] = false
is_named a (b ∷ bs) = same_name b a || is_named a bs

-- One of the values that is text has the name, in any case of letters, between its commas, with blanks
-- around it.
pub record IsListed (a : Bytes) (values : List Bytes) : Type 0 where
  pub value : Bytes
  pub among : Memᴰ value values
  pub visible : is_text value ≡ true
  pub piece : Bytes
  pub between : Memᴰ piece (split b',' value)
  pub token : Bytes
  pub trimmed : IsTrimmed piece token
  pub same : same_name token a ≡ true
