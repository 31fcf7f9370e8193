-- ===== src/Proxy/Headers.antt =====
-- crates/world-runtime/src/proxy.rs: `strip_hop_headers`, over the operations of `HeaderMap`.
use world.Prelude.{
  ℕ, ◌==◌, ◌≡◌, Bool, true, ◌&&◌, ◌||◌, List, [], ◌∷◌, ◌++◌, reverse, map, if◌then◌else◌,
}
use world.Bytes.{Bytes, codes, beq, split, to_ascii_lowercase}
use world.Fs.Codec.Escape.{between}

-- The name of a header has no case.
unfoldable pub same_name : Bytes → Bytes → Bool
unfolding beq to_ascii_lowercase
same_name a b = beq (to_ascii_lowercase a) (to_ascii_lowercase b)

-- `http::HeaderMap`: what `get_all`, `remove` and `insert` say of each other. A text that is no name of
-- a header has no values.
pub record HeaderMap (H : Type 0) : Type 0 where
  pub get_all : Bytes → H → List Bytes
  pub remove : Bytes → H → H
  pub insert : Bytes → Bytes → H → H
  pub get_all-remove :
      (a b : Bytes) (h : H) → get_all a (remove b h) ≡ (if same_name b a then [] else get_all a h)
  pub get_all-insert :
      (a b v : Bytes) (h : H)
      → get_all a (insert b v h) ≡ (if same_name b a then v ∷ [] else get_all a h)

-- `HeaderValue::to_str` reads visible ASCII and tabs.
unfoldable pub is_text : Bytes → Bool
is_text [] = true
is_text (b ∷ bs) = (between 32 126 b || b == 9) && is_text bs

abbrev pub is_blank : ℕ → Bool
is_blank b = b == b' ' || b == 9

unfoldable pub trim_start : Bytes → Bytes
trim_start [] = []
trim_start (b ∷ bs) = let rest = trim_start bs in if is_blank b then rest else b ∷ bs

-- `trim`, of such a text
unfoldable pub trim : Bytes → Bytes
unfolding trim_start
trim s = reverse (trim_start (reverse (trim_start s)))

-- The names that the values of `Connection` list
unfoldable pub connection_tokens : List Bytes → List Bytes
unfolding is_text trim split
connection_tokens [] = []
connection_tokens (v ∷ vs) =
    let rest = connection_tokens vs in if is_text v then map trim (split b',' v) ++ rest else rest

abbrev pub hop_headers : List Bytes
hop_headers =
    codes "connection"
    ∷ codes "proxy-connection"
    ∷ codes "proxy-authenticate"
    ∷ codes "proxy-authorization"
    ∷ codes "keep-alive"
    ∷ codes "te"
    ∷ codes "trailer"
    ∷ codes "transfer-encoding"
    ∷ codes "upgrade"
    ∷ []

module _ {H : Type 0} ⦃m : HeaderMap H⦄ where
  unfoldable pub remove_each : List Bytes → H → H
  remove_each [] h = h
  remove_each (name ∷ names) h = remove_each names (m.remove name h)

  unfoldable pub strip_hop_headers : H → H
  unfolding remove_each connection_tokens
  strip_hop_headers h =
      remove_each hop_headers (remove_each (connection_tokens (m.get_all (codes "connection") h)) h)
