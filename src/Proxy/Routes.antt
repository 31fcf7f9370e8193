-- ===== src/Proxy/Routes.antt =====
-- crates/world-runtime/src/policy.rs: the keys of the routes of crates/world-runtime/src/proxy.rs tell
-- every host and every port apart.
use native.Mathlib.Nat.{mod-lt}
use world.Prelude.{
  ℕ, suc, zero, ◌+◌, ◌%◌, ◌/◌, ◌<◌, ltb, ◌≡◌, refl, ap, sym, ◌∙◌, Bool, true, false, [], ◌∷◌, ◌++◌,
  some, Bool-cases, inl, inr, if_cases, arith,
}
use world.Bytes.{Bytes, contains}
use world.Fs.Codec.Number.{display, digits, parse_digits}
use world.Fs.Codec.Digits.{contains-append, parse_digits-display}
use world.Policy.{authority}

contains-digits : (k fuel n : ℕ) → b'9' < k → contains k (digits fuel 10 n) ≡ false
unfolding digits contains
contains-digits k zero n h = refl
contains-digits k (suc fuel) n h =
    let small : n % 10 < 10 = mod-lt n (omega arith) in
    let last : contains k ((b'0' + n % 10) ∷ []) ≡ false = ground (arith, h, small) in
    if_cases (λ (x : Bytes). contains k x ≡ false) (ltb n 10) _ _ (λ _. last)
      λ _. contains-append k (digits fuel 10 (n / 10)) _ (contains-digits k fuel (n / 10) h) last

no_colon : (n : ℕ) → contains b':' (display 10 n) ≡ false
unfolding display
no_colon n = contains-digits b':' (suc n) n (omega arith)

display-injective : (p q : ℕ) → display 10 p ≡ display 10 q → p ≡ q
display-injective p q e = some_inj (
    sym (parse_digits-display 10 (suc (p + q)) p (omega arith) (omega arith))
    ∙ ap (parse_digits 10 (suc (p + q)) 0) e
    ∙ parse_digits-display 10 (suc (p + q)) q (omega arith) (omega arith))
  where
    some_inj : {p q : ℕ} → some p ≡ some q → p ≡ q
    some_inj e = ground (arith, e)

false_ne : false ≡ true → ⊥
false_ne e = cc

tail_inj : {a b : ℕ} {xs ys : Bytes} → a ∷ xs ≡ b ∷ ys → xs ≡ ys
tail_inj e = ground (arith, e)

has_colon : (h xs : Bytes) → contains b':' (h ++ b':' ∷ xs) ≡ true
unfolding contains
has_colon [] xs = refl
has_colon (c ∷ h) xs = ground (arith, has_colon h xs)

-- A colon that is the last one splits a text in one way.
last_colon :
    (h g xs ys : Bytes)
    → contains b':' xs ≡ false
    → contains b':' ys ≡ false
    → h ++ b':' ∷ xs ≡ g ++ b':' ∷ ys
    → (h ≡ g) × (xs ≡ ys)
unfolding contains
last_colon [] [] xs ys a b e = (refl, ground (arith, e))
last_colon [] (c ∷ g) xs ys a b e =
    absurd (false_ne (sym a ∙ ap (contains b':') (tail_inj e) ∙ has_colon g ys))
last_colon (c ∷ h) [] xs ys a b e =
    absurd (false_ne (sym b ∙ ap (contains b':') (tail_inj (sym e)) ∙ has_colon h xs))
last_colon (c ∷ h) (d ∷ g) xs ys a b e =
    let (p, q) = last_colon h g xs ys a b (tail_inj e) in (ground (arith, e, p), q)

-- The text of a key: a host with a colon stands in brackets.
abbrev bracketed : Bytes → Bool → Bytes
bracketed host true = b'[' ∷ (host ++ b']' ∷ [])
bracketed host false = host

snoc_assoc : (xs ys : Bytes) (k : ℕ) → xs ++ k ∷ ys ≡ (xs ++ k ∷ []) ++ ys
snoc_assoc [] ys k = refl
snoc_assoc (x ∷ xs) ys k = ap (λ (l : Bytes). x ∷ l) (snoc_assoc xs ys k)

snoc-injective : (xs ys : Bytes) (k : ℕ) → xs ++ k ∷ [] ≡ ys ++ k ∷ [] → xs ≡ ys
snoc-injective [] [] k e = refl
snoc-injective [] (y ∷ []) k e = cc
snoc-injective [] (y ∷ z ∷ ys) k e = cc
snoc-injective (x ∷ []) [] k e = cc
snoc-injective (x ∷ z ∷ xs) [] k e = cc
snoc-injective (x ∷ xs) (y ∷ ys) k e =
    let rest = snoc-injective xs ys k (tail_inj e) in ground (arith, e, rest)

contains-left : (k : ℕ) (xs ys : Bytes) → contains k xs ≡ true → contains k (xs ++ ys) ≡ true
unfolding contains
contains-left k [] ys h = cc
contains-left k (x ∷ xs) ys h = ground (arith, h, contains-left k xs ys)

contains-bracketed : (h : Bytes) → contains b':' h ≡ true → contains b':' (bracketed h true) ≡ true
unfolding contains
contains-bracketed h c = contains-left b':' h (b']' ∷ []) c

authority-bracketed :
    (host : Bytes) (port : ℕ)
    → authority host port ≡ bracketed host (contains b':' host) ++ b':' ∷ display 10 port
unfolding authority
authority-bracketed host port = elim (Bool-cases (contains b':' host)) [
  | inl e ↦ rw e (ap (λ (l : Bytes). b'[' ∷ l) (snoc_assoc host (b':' ∷ display 10 port) b']'))
  | inr e ↦ rw e refl
]

bracketed-injective :
    (h g : Bytes) (b c : Bool)
    → contains b':' h ≡ b
    → contains b':' g ≡ c
    → bracketed h b ≡ bracketed g c
    → h ≡ g
bracketed-injective h g true true b c e = snoc-injective h g b']' (tail_inj e)
bracketed-injective h g false false b c e = e
bracketed-injective h g true false b c e =
    absurd (false_ne (sym c ∙ ap (contains b':') (sym e) ∙ contains-bracketed h b))
bracketed-injective h g false true b c e =
    absurd (false_ne (sym b ∙ ap (contains b':') e ∙ contains-bracketed g c))

-- Two keys are the same only for the same host and the same port.
pub authority-injective :
    (h g : Bytes) (p q : ℕ) → authority h p ≡ authority g q → (h ≡ g) × (p ≡ q)
authority-injective h g p q e =
    let (hosts, ports) =
      last_colon (bracketed h (contains b':' h)) (bracketed g (contains b':' g)) (display 10 p)
        (display 10 q) (no_colon p) (no_colon q)
        (sym (authority-bracketed h p) ∙ e ∙ authority-bracketed g q) in
    (bracketed-injective h g _ _ refl refl hosts, display-injective p q ports)
