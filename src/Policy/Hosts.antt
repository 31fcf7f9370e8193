-- ===== src/Policy/Hosts.antt =====
-- crates/world-runtime/src/policy.rs: the host names that `canonical_host` gives.
use world.Prelude.{
  ℕ, ◌==◌, ◌≡◌, ◌≢◌, ◌≤◌, refl, ap, ◌∙◌, sym, subst, Bool, true, false, ◌&&◌, ◌||◌, not, List, [],
  ◌∷◌, ◌++◌, Option, none, length, is_empty, ltb, leb, map, Bool-cases, inl, inr, arith,
  if◌then◌else◌, if_cases,
}
use world.Bytes.{Bytes, cons_head, contains, lower, split, to_ascii_lowercase}
use world.Bytes.Split.{behind, behind-split}
use world.Fs.Codec.Number.{display}
use world.Policy.{
  accepted, strip_dot, label_byte, all_label_bytes, valid_label, valid_labels, check_host,
  authority, starts_with_dash, ends_with_dash, parse_ip, canonical_host,
}

-- The bytes of a host name
abbrev host_byte : ℕ → Bool
host_byte b = label_byte b || b == b'.'

abbrev all_host_bytes : Bytes → Bool
all_host_bytes [] = true
all_host_bytes (b ∷ bs) = host_byte b && all_host_bytes bs

-- A label after the first that is empty
abbrev empty_label : List Bytes → Bool
empty_label [] = false
empty_label (l ∷ ls) = is_empty l || empty_label ls

abbrev later : List Bytes → List Bytes
later [] = []
later (l ∷ ls) = ls

abbrev ends_with_dot : Bytes → Bool
ends_with_dot [] = false
ends_with_dot (b ∷ []) = b == b'.'
ends_with_dot (b ∷ c ∷ bs) = ends_with_dot (c ∷ bs)

both : (a b : Bool) → (a && b) ≡ true → (a ≡ true) × (b ≡ true)
both a b h = ground (arith, h)

both_true : {a b : Bool} → a ≡ true → b ≡ true → (a && b) ≡ true
both_true h k = ground (arith, h, k)

neither : {a b : Bool} → a ≡ false → b ≡ false → (a || b) ≡ false
neither h k = ground (arith, h, k)

either_right : (a : Bool) {b : Bool} → b ≡ true → (a || b) ≡ true
either_right a h = ground (arith, h)

either_left : {a : Bool} (b : Bool) → a ≡ true → (a || b) ≡ true
either_left b h = ground (arith, h)

valid_label-parts :
    (l : Bytes) → valid_label l ≡ true → (is_empty l ≡ false) × (all_label_bytes l ≡ true)
unfolding valid_label
valid_label-parts l h =
    parts (is_empty l) (leb (length l) 63) (starts_with_dash l) (ends_with_dash l)
      (all_label_bytes l) h
  where
    parts :
        (a b c d e : Bool) → (not a && b && not c && not d && e) ≡ true → (a ≡ false) × (e ≡ true)
    parts a b c d e h = ground (arith, h)

valid_labels-cons :
    (l : Bytes) (ls : List Bytes)
    → valid_labels (l ∷ ls) ≡ true
    → (is_empty l ≡ false) × (all_label_bytes l ≡ true) × (valid_labels ls ≡ true)
unfolding valid_labels
valid_labels-cons l ls h =
    let (a, b) = both (valid_label l) (valid_labels ls) h in
    let (c, d) = valid_label-parts l a in (c, d, b)

valid_labels-empty_label : (ls : List Bytes) → valid_labels ls ≡ true → empty_label ls ≡ false
valid_labels-empty_label [] h = refl
valid_labels-empty_label (l ∷ ls) h =
    let (a, b, c) = valid_labels-cons l ls h in neither a (valid_labels-empty_label ls c)

strip_dot-same : (bs : Bytes) → ends_with_dot bs ≡ false → strip_dot bs ≡ bs
unfolding strip_dot
strip_dot-same [] h = refl
strip_dot-same (b ∷ []) h = rw h refl
strip_dot-same (b ∷ c ∷ bs) h = ap (λ l. b ∷ l) (strip_dot-same (c ∷ bs) h)

lower_same : (b : ℕ) → host_byte b ≡ true → lower b ≡ b
unfolding lower
lower_same b h = ground (arith, h)

to_ascii_lowercase-same : (bs : Bytes) → all_host_bytes bs ≡ true → to_ascii_lowercase bs ≡ bs
unfolding to_ascii_lowercase
to_ascii_lowercase-same [] h = refl
to_ascii_lowercase-same (b ∷ bs) h =
    let (x, y) = both (host_byte b) (all_host_bytes bs) h in
    ap (λ n. n ∷ map lower bs) (lower_same b x) ∙ ap (λ l. b ∷ l) (to_ascii_lowercase-same bs y)

-- A text that ends with a dot has an empty label after the first.
split-ends_with_dot :
    (b : ℕ) (bs : Bytes)
    → ends_with_dot (b ∷ bs) ≡ true
    → empty_label (later (split b'.' (b ∷ bs))) ≡ true
unfolding split
split-ends_with_dot b [] h = rw h refl
split-ends_with_dot b (c ∷ bs) h =
    further (b == b'.') b (split b'.' (c ∷ bs)) (split-ends_with_dot c bs h)
  where
    further :
        (e : Bool) (b : ℕ) (ls : List Bytes)
        → empty_label (later ls) ≡ true
        → empty_label (later (if e then [] ∷ ls else cons_head b ls)) ≡ true
    further true b [] h = cc
    further true b (l ∷ ls) h = either_right (is_empty l) h
    further false b [] h = cc
    further false b (l ∷ ls) h = h

later_empty : (ls : List Bytes) → empty_label ls ≡ false → empty_label (later ls) ≡ false
later_empty [] h = h
later_empty (l ∷ ls) h = either_false (is_empty l) h
  where
    either_false : (a : Bool) {b : Bool} → (a || b) ≡ false → b ≡ false
    either_false a h = ground (arith, h)

valid_labels-ends_with_dot :
    (bs : Bytes) → valid_labels (split b'.' bs) ≡ true → ends_with_dot bs ≡ false
valid_labels-ends_with_dot [] h = refl
valid_labels-ends_with_dot (b ∷ bs) h = elim (Bool-cases (ends_with_dot (b ∷ bs))) [
  | inr e ↦ e
  | inl e ↦
      let full =
        later_empty (split b'.' (b ∷ bs)) (valid_labels-empty_label (split b'.' (b ∷ bs)) h) in
      absurd (apart full (split-ends_with_dot b bs e))
]
  where
    apart : {x : Bool} → x ≡ false → x ≢ true
    apart h k = ground (arith, h, k)

all_host_bytes-append :
    (xs ys : Bytes)
    → all_label_bytes xs ≡ true
    → all_host_bytes ys ≡ true
    → all_host_bytes (xs ++ ys) ≡ true
unfolding all_label_bytes
all_host_bytes-append [] ys h k = k
all_host_bytes-append (x ∷ xs) ys h k =
    let (a, b) = both (label_byte x) (all_label_bytes xs) h in
    both_true (either_left (x == b'.') a) (all_host_bytes-append xs ys b k)

behind-all_host_bytes :
    (ls : List Bytes) → valid_labels ls ≡ true → all_host_bytes (behind b'.' ls) ≡ true
behind-all_host_bytes [] h = refl
behind-all_host_bytes (l ∷ ls) h =
    let (a, b, c) = valid_labels-cons l ls h in
    all_host_bytes-append l (behind b'.' ls) b (behind-all_host_bytes ls c)

-- The bytes of a text are those of its labels, and dots.
split-all_host_bytes : (bs : Bytes) → valid_labels (split b'.' bs) ≡ true → all_host_bytes bs ≡ true
split-all_host_bytes bs h =
    subst (λ x. all_host_bytes x ≡ true) (behind-split b'.' bs)
      (behind-all_host_bytes (split b'.' bs) h)

check_host-parts :
    (input host : Bytes)
    → check_host input ≡ accepted host
    → (input ≡ host)
      × (is_empty host ≡ false)
      × (length host ≤ 253)
      × (valid_labels (split b'.' host) ≡ true)
unfolding check_host
check_host-parts input host h =
    if_cases (λ x. x ≡ accepted host → Parts host) (is_empty input || ltb 253 (length input)) _ _
      (λ _ e. cc)
      (λ t.
        if_cases (λ x. x ≡ accepted host → Parts host) (valid_labels (split b'.' input)) _ _
          (λ v e. of_same (same_host e) t v) λ _ e. cc)
      h
  where
    Parts : Bytes → Type 0
    Parts host =
        (input ≡ host)
        × (is_empty host ≡ false)
        × (length host ≤ 253)
        × (valid_labels (split b'.' host) ≡ true)

    same_host : {x : Bytes} → accepted x ≡ accepted host → x ≡ host
    same_host e = ground (arith, e)

    left : {a : Bool} (b : Bool) → (a || b) ≡ false → a ≡ false
    left b t = ground (arith, t)

    right : (a : Bool) (n : ℕ) → (a || ltb 253 n) ≡ false → n ≤ 253
    right a n t = ground (arith, t)

    of_same :
        input ≡ host
        → (is_empty input || ltb 253 (length input)) ≡ false
        → valid_labels (split b'.' input) ≡ true
        → Parts host
    of_same e t v = (
      e,
      subst (λ x. is_empty x ≡ false) e (left _ t),
      subst (λ x. length x ≤ 253) e (right _ (length input) t),
      subst (λ x. valid_labels (split b'.' x) ≡ true) e v,
    )

check_host-again :
    (input host : Bytes)
    → check_host (to_ascii_lowercase (strip_dot input)) ≡ accepted host
    → check_host (to_ascii_lowercase (strip_dot host)) ≡ accepted host
check_host-again input host h =
    let (same, filled, short, labels) = check_host-parts _ host h in
    let bare = strip_dot-same host (valid_labels-ends_with_dot host labels) in
    let low = to_ascii_lowercase-same host (split-all_host_bytes host labels) in
    ap (λ x. check_host (to_ascii_lowercase x)) bare ∙ ap check_host (low ∙ sym same) ∙ h

contains-colon : (bs : Bytes) → all_host_bytes bs ≡ true → contains b':' bs ≡ false
unfolding contains
contains-colon [] h = refl
contains-colon (b ∷ bs) h =
    let (x, y) = both (host_byte b) (all_host_bytes bs) h in
    neither (no_colon b x) (contains-colon bs y)
  where
    no_colon : (b : ℕ) → host_byte b ≡ true → (b == b':') ≡ false
    no_colon b h = ground (arith, h)

module _ (parse_v6 : Bytes → Option (List ℕ)) (show_v6 : List ℕ → Bytes) where
  -- A name that `canonical_host` gives for an input that is no IP address is canonical already, unless it
  -- reads as an IP address itself: it is given back as it is.
  pub canonical_host-again :
      (input host : Bytes)
      → parse_ip parse_v6 show_v6 input ≡ none
      → canonical_host parse_v6 show_v6 input ≡ accepted host
      → parse_ip parse_v6 show_v6 host ≡ none
      → canonical_host parse_v6 show_v6 host ≡ accepted host
  unfolding canonical_host
  canonical_host-again input host n h m = rw m (check_host-again input host (rw n at h))

  -- A name that `canonical_host` gives for an input that is no IP address is not empty, has at most 253
  -- bytes and only labels that are allowed, and `authority` writes it without brackets.
  pub canonical_host-authority :
      (input host : Bytes) (port : ℕ)
      → parse_ip parse_v6 show_v6 input ≡ none
      → canonical_host parse_v6 show_v6 input ≡ accepted host
      → (is_empty host ≡ false)
        × (length host ≤ 253)
        × (valid_labels (split b'.' host) ≡ true)
        × (authority host port ≡ host ++ b':' ∷ display 10 port)
  unfolding canonical_host authority
  canonical_host-authority input host port n h =
      let (same, filled, short, labels) =
        check_host-parts (to_ascii_lowercase (strip_dot input)) host (rw n at h) in
      let colon = contains-colon host (split-all_host_bytes host labels) in
      (filled, short, labels, rw colon refl)
