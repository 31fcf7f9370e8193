-- ===== src/Fs/Codec/Digits.antt =====
-- crates/world-fsmodel/src/lib.rs: numbers of a replay line that are written and read back.
use native.Mathlib.Nat.{mod-lt, mod-eq_of_lt, div-lt_self, div-add-mod'}
use world.Prelude.{
  ltb→lt, is_empty, if_cases, ℕ, zero, suc, ◌+◌, ◌*◌, ◌/◌, ◌%◌, ◌<◌, ◌≤◌, ◌==◌, ltb, ◌≡◌, refl, ◌∙◌,
  subst, sym, Bool, true, false, [], ◌∷◌, ◌++◌, none, some, Option-cases, Bool-cases, inl, inr,
  arith,
}
use world.Bytes.{Bytes, beq, contains}
use world.Fs.Codec.Number.{
  digits, display, digit_val, below, parse_digits, from_str_radix, display_bool, parse_bool,
}

digit_val_written : (radix d : ℕ) → d < radix → digit_val radix (b'0' + d) ≡ some d
unfolding digit_val
digit_val_written radix d h = ground (arith, h)

below_fits : (end n : ℕ) → n < end → below end n ≡ some n
below_fits end n h = ground (arith, h)

parse_digits-snoc :
    (radix end n m d : ℕ) (xs : Bytes)
    → parse_digits radix end n xs ≡ some m
    → d < radix
    → m * radix + d < end
    → parse_digits radix end n (xs ++ (b'0' + d) ∷ []) ≡ some (m * radix + d)
unfolding parse_digits
parse_digits-snoc radix end n m d [] h r e =
    let same : n ≡ m = ground (arith, h) in
    rw (digit_val_written radix d r, same, below_fits end (m * radix + d) e, parse_digits) refl
parse_digits-snoc radix end n m d (c ∷ xs) h r e = elim (Option-cases (digit_val radix c)) [
  | inl x ↦ absurd (none_ne (rw x at h))
  | inr (v, x) ↦ elim (Option-cases (below end (n * radix + v))) [
    | inl y ↦ absurd (none_ne (rw (x, y) at h))
    | inr (k, y) ↦ rw (x, y) (parse_digits-snoc radix end k m d xs (rw (x, y) at h) r e)
  ]
]
  where
    none_ne : {m : ℕ} → none ≡ some m → ⊥
    none_ne h = ground (arith, h)

parse_digits-digits :
    (radix end fuel n : ℕ)
    → 2 ≤ radix
    → n < fuel
    → n < end
    → parse_digits radix end 0 (digits fuel radix n) ≡ some n
unfolding digits parse_digits
parse_digits-digits radix end zero n r f e = absurd (omega arith)
parse_digits-digits radix end (suc fuel) n r f e =
    let last : n % radix < radix = mod-lt n (omega (arith, r)) in
    elim (Bool-cases (ltb n radix)) [
      | inl t ↦
          let small : n < radix = ltb→lt n radix t in
          let whole : 0 * radix + n % radix ≡ n = omega (arith, mod-eq_of_lt small) in
          rw t (
            subst (λ m. parse_digits radix end 0 ((b'0' + n % radix) ∷ []) ≡ some m) whole
              (parse_digits-snoc radix end 0 0 (n % radix) [] (parse_nil radix end) last
                (subst (λ m. m < end) (sym whole) e)))
      | inr t ↦
          let large : radix ≤ n = ground (arith, t) in
          let less : n / radix < n = div-lt_self (omega (arith, r, large)) (omega (arith, r)) in
          let whole : n / radix * radix + n % radix ≡ n = div-add-mod' n radix in
          rw t (
            subst
              (λ m.
                parse_digits radix end 0 (digits fuel radix (n / radix) ++ (b'0' + n % radix) ∷ [])
                ≡ some m)
              whole
              (parse_digits-snoc radix end 0 (n / radix) (n % radix) (digits fuel radix (n / radix))
                (parse_digits-digits radix end fuel (n / radix) r (omega (arith, less, f))
                  (omega (arith, less, e)))
                last (subst (λ m. m < end) (sym whole) e)))
    ]
  where
    parse_nil : (radix end : ℕ) → parse_digits radix end 0 [] ≡ some 0
    parse_nil radix end = refl

pub contains-append :
    (k : ℕ) (xs ys : Bytes)
    → contains k xs ≡ false
    → contains k ys ≡ false
    → contains k (xs ++ ys) ≡ false
unfolding contains
contains-append k [] ys h g = g
contains-append k (x ∷ xs) ys h g = ground (arith, h, contains-append k xs ys (ground (arith, h)) g)

contains-digits : (k radix fuel n : ℕ) → k < b'0' → contains k (digits fuel radix n) ≡ false
unfolding digits contains
contains-digits k radix zero n h = refl
contains-digits k radix (suc fuel) n h =
    let last : contains k ((b'0' + n % radix) ∷ []) ≡ false = ground (arith, h) in
    if_cases (λ (x : Bytes). contains k x ≡ false) (ltb n radix) _ _ (λ _. last)
      λ _.
        contains-append k (digits fuel radix (n / radix)) _
          (contains-digits k radix fuel (n / radix) h) last

pub contains-display : (k radix n : ℕ) → k < b'0' → contains k (display radix n) ≡ false
unfolding display
contains-display k radix n h = contains-digits k radix (suc n) n h

is_empty-snoc : (xs : Bytes) (x : ℕ) → is_empty (xs ++ x ∷ []) ≡ false
is_empty-snoc [] x = refl
is_empty-snoc (y ∷ xs) x = refl

is_empty-display : (radix n : ℕ) → is_empty (display radix n) ≡ false
unfolding display digits
is_empty-display radix n =
    if_cases (λ (x : Bytes). is_empty x ≡ false) (ltb n radix) _ _ (λ _. refl)
      λ _. is_empty-snoc (digits n radix (n / radix)) _

from_str_radix-digits :
    (radix end : ℕ) (s : Bytes)
    → contains b'+' s ≡ false
    → is_empty s ≡ false
    → from_str_radix radix end s ≡ parse_digits radix end 0 s
unfolding from_str_radix contains
from_str_radix-digits radix end [] h e = cc
from_str_radix-digits radix end (c ∷ []) h e = refl
from_str_radix-digits radix end (c ∷ d ∷ cs) h e =
    let digit : (c == b'+') ≡ false = ground (arith, h) in rw digit refl

pub parse_digits-display :
    (radix end n : ℕ) → 2 ≤ radix → n < end → parse_digits radix end 0 (display radix n) ≡ some n
unfolding display
parse_digits-display radix end n r h = parse_digits-digits radix end (suc n) n r (omega arith) h

-- A number that fits its type is read back from its digits.
pub from_str_radix-display :
    (radix end n : ℕ) → 2 ≤ radix → n < end → from_str_radix radix end (display radix n) ≡ some n
from_str_radix-display radix end n r h =
    from_str_radix-digits radix end (display radix n) (contains-display b'+' radix n (omega arith))
      (is_empty-display radix n)
    ∙ parse_digits-display radix end n r h

pub parse_bool-display_bool : (b : Bool) → parse_bool (display_bool b) ≡ some b
unfolding parse_bool display_bool beq
parse_bool-display_bool true = refl
parse_bool-display_bool false = refl

pub contains-display_bool : (b : Bool) → contains b' ' (display_bool b) ≡ false
unfolding display_bool contains
contains-display_bool true = refl
contains-display_bool false = refl
