-- ===== src/Bytes/Split.antt =====
-- `split` on a separator: a text is its pieces, and the pieces of two texts that a separator joins.
use world.Prelude.{
  ℕ, ◌==◌, ◌≡◌, ◌≢◌, refl, ap, ◌∙◌, List, [], ◌∷◌, ◌++◌, Bool-cases, inl, inr, arith,
}
use world.Bytes.{Bytes, cons_head, split}

pub split-ne-nil : (sep : ℕ) (bs : Bytes) → split sep bs ≢ []
unfolding split
split-ne-nil sep [] h = cc
split-ne-nil sep (b ∷ bs) h = elim (Bool-cases (b == sep)) [
  | inl e ↦ cons_ne (rw e at h)
  | inr e ↦ head_ne (split sep bs) (rw e at h)
]
  where
    cons_ne : {x : Bytes} {xs : List Bytes} → x ∷ xs ≡ [] → ⊥
    cons_ne p = cc

    head_ne : (l : List Bytes) → cons_head b l ≡ [] → ⊥
    head_ne [] p = cc
    head_ne (x ∷ l) p = cc

cons_head-append : (b : ℕ) (l m : List Bytes) → l ≢ [] → cons_head b (l ++ m) ≡ cons_head b l ++ m
cons_head-append b [] m h = absurd (h refl)
cons_head-append b (x ∷ l) m h = refl

-- The pieces of two texts that a separator joins
pub split-append :
    (sep : ℕ) (xs ys : Bytes) → split sep (xs ++ sep ∷ ys) ≡ split sep xs ++ split sep ys
unfolding split
split-append sep [] ys = ground arith
split-append sep (b ∷ xs) ys = elim (Bool-cases (b == sep)) [
  | inl e ↦ rw e (ap (λ (l : List Bytes). [] ∷ l) (split-append sep xs ys))
  | inr e ↦ rw e (
      ap (cons_head b) (split-append sep xs ys)
      ∙ cons_head-append b (split sep xs) (split sep ys) (split-ne-nil sep xs))
]

-- The pieces, each behind a separator
abbrev pub behind : ℕ → List Bytes → Bytes
behind sep [] = []
behind sep (c ∷ cs) = sep ∷ (c ++ behind sep cs)

behind-cons_head :
    (sep b : ℕ) (l : List Bytes) (bs : Bytes)
    → behind sep l ≡ sep ∷ bs
    → behind sep (cons_head b l) ≡ sep ∷ (b ∷ bs)
behind-cons_head sep b [] bs h = cc
behind-cons_head sep b (c ∷ l) bs h = ap (λ (x : Bytes). sep ∷ b ∷ x) (ground (arith, h))

-- A text is its pieces.
pub behind-split : (sep : ℕ) (bs : Bytes) → behind sep (split sep bs) ≡ sep ∷ bs
unfolding split
behind-split sep [] = refl
behind-split sep (b ∷ bs) = elim (Bool-cases (b == sep)) [
  | inl e ↦ rw e (
      ap (λ (l : Bytes). sep ∷ l)
        (behind-split sep bs ∙ ap (λ (x : ℕ). x ∷ bs) (ground (arith, e))))
  | inr e ↦ rw e (behind-cons_head sep b (split sep bs) bs (behind-split sep bs))
]
