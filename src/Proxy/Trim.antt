-- ===== src/Proxy/Trim.antt =====
-- crates/world-runtime/src/proxy.rs: what `trim` leaves of a token of `Connection`: the text between the
-- blanks around it.
use mathlib.Core.List.{reverse-cons, reverse-append, reverse-reverse}
use world.Prelude.{
  ◌≡◌, refl, ap, sym, ◌∙◌, Bool, true, false, ◌&&◌, [], ◌∷◌, ◌++◌, reverse, Bool-cases, inl, inr,
  arith,
}
use world.Bytes.{Bytes}
use world.Proxy.Headers.{is_blank, trim_start, trim}

-- A text of blanks
unfoldable pub all_blank : Bytes → Bool
all_blank [] = true
all_blank (b ∷ bs) = is_blank b && all_blank bs

unfoldable pub starts_blank : Bytes → Bool
starts_blank [] = false
starts_blank (b ∷ bs) = is_blank b

-- A text is another one with blanks around it.
pub record IsTrimmed (piece token : Bytes) : Type 0 where
  pub lead : Bytes
  pub trail : Bytes
  pub whole : piece ≡ lead ++ (token ++ trail)
  pub lead_blank : all_blank lead ≡ true
  pub trail_blank : all_blank trail ≡ true
  pub first : starts_blank token ≡ false
  pub last : starts_blank (reverse token) ≡ false

both : (x y : Bool) → (x && y) ≡ true → (x ≡ true) × (y ≡ true)
both x y h = ground (arith, h)

all_blank-append :
    (xs ys : Bytes) → all_blank xs ≡ true → all_blank ys ≡ true → all_blank (xs ++ ys) ≡ true
unfolding all_blank
all_blank-append [] ys h k = k
all_blank-append (x ∷ xs) ys h k =
    let (p, q) = both (is_blank x) (all_blank xs) h in rw (p, all_blank-append xs ys q k) refl

all_blank-reverse : (xs : Bytes) → all_blank xs ≡ true → all_blank (reverse xs) ≡ true
unfolding all_blank
all_blank-reverse [] h = refl
all_blank-reverse (x ∷ xs) h =
    let (p, q) = both (is_blank x) (all_blank xs) h in
    ap all_blank (reverse-cons x xs)
    ∙ all_blank-append (reverse xs) (x ∷ []) (all_blank-reverse xs q) (rw p refl)

-- Leading blanks go.
trim_start-lead :
    (lead xs : Bytes) → all_blank lead ≡ true → trim_start (lead ++ xs) ≡ trim_start xs
unfolding trim_start all_blank
trim_start-lead [] xs h = refl
trim_start-lead (b ∷ lead) xs h =
    let (p, q) = both (is_blank b) (all_blank lead) h in rw p (trim_start-lead lead xs q)

trim_start-stops : (xs : Bytes) → starts_blank xs ≡ false → trim_start xs ≡ xs
unfolding trim_start starts_blank
trim_start-stops [] h = refl
trim_start-stops (x ∷ xs) h = rw h refl

trim_start-blank : (xs : Bytes) → all_blank xs ≡ true → trim_start xs ≡ []
unfolding trim_start all_blank
trim_start-blank [] h = refl
trim_start-blank (b ∷ bs) h =
    let (p, q) = both (is_blank b) (all_blank bs) h in rw p (trim_start-blank bs q)

-- The blanks that `trim_start` takes
trim_start-parts :
    (xs : Bytes)
    → (lead : Bytes) × (xs ≡ lead ++ trim_start xs)
      × (all_blank lead ≡ true)
      × (starts_blank (trim_start xs) ≡ false)
unfolding trim_start all_blank starts_blank
trim_start-parts [] = ([], refl, refl, refl)
trim_start-parts (b ∷ bs) = elim (Bool-cases (is_blank b)) [
  | inl e ↦
      let (lead, whole, blank, stops) = trim_start-parts bs in
      (b ∷ lead, rw e (ap (λ (l : Bytes). b ∷ l) whole), rw (e, blank) refl, rw e stops)
  | inr e ↦ ([], rw e refl, refl, rw (e, e) refl)
]

starts_blank-left : (xs ys : Bytes) → starts_blank (xs ++ ys) ≡ false → starts_blank xs ≡ false
unfolding starts_blank
starts_blank-left [] ys h = refl
starts_blank-left (x ∷ xs) ys h = h

pub trim-IsTrimmed : (piece : Bytes) → IsTrimmed piece (trim piece)
unfolding trim
trim-IsTrimmed piece =
    let rest = trim_start piece in
    let back = trim_start (reverse rest) in
    let (lead, whole, blank, stops) = trim_start-parts piece in
    let (trail, behind, trailing, ends) = trim_start-parts (reverse rest) in
    let parts : rest ≡ reverse back ++ reverse trail =
      sym (reverse-reverse rest) ∙ ap reverse behind ∙ reverse-append trail back in
    record {
      lead = lead;
      trail = reverse trail;
      whole = whole ∙ ap (λ (l : Bytes). lead ++ l) parts;
      lead_blank = blank;
      trail_blank = all_blank-reverse trail trailing;
      first =
          starts_blank-left (reverse back) (reverse trail) (ap starts_blank (sym parts) ∙ stops);
      last = ap starts_blank (reverse-reverse back) ∙ ends;
    }

trim_start-token :
    (token trail : Bytes)
    → starts_blank token ≡ false
    → starts_blank (reverse token) ≡ false
    → all_blank trail ≡ true
    → reverse (trim_start (reverse (trim_start (token ++ trail)))) ≡ token
unfolding starts_blank
trim_start-token [] trail h k b =
    ap (λ (l : Bytes). reverse (trim_start (reverse l))) (trim_start-blank trail b)
    ∙ ap reverse (trim_start-stops [] refl)
trim_start-token (x ∷ token) trail h k b =
    ap (λ (l : Bytes). reverse (trim_start (reverse l))) (trim_start-stops ((x ∷ token) ++ trail) h)
    ∙ ap (λ (l : Bytes). reverse (trim_start l)) (reverse-append (x ∷ token) trail)
    ∙ ap reverse (trim_start-lead (reverse trail) (reverse (x ∷ token)) (all_blank-reverse trail b))
    ∙ ap reverse (trim_start-stops (reverse (x ∷ token)) k)
    ∙ reverse-reverse (x ∷ token)

-- Only `trim` gives a text without the blanks around it.
pub trim_unique : (piece token : Bytes) → IsTrimmed piece token → trim piece ≡ token
unfolding trim
trim_unique piece token t =
    ap (λ (l : Bytes). reverse (trim_start (reverse (trim_start l)))) t.whole
    ∙ ap (λ (l : Bytes). reverse (trim_start (reverse l)))
        (trim_start-lead t.lead (token ++ t.trail) t.lead_blank)
    ∙ trim_start-token token t.trail t.first t.last t.trail_blank
