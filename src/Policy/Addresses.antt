-- ===== src/Policy/Addresses.antt =====
-- crates/world-runtime/src/policy.rs: the IPv4 addresses that `canonical_host` gives.
use world.Prelude.{
  ltb→lt, ◌*◌, ℕ, zero, suc, ◌+◌, ◌/◌, ◌%◌, ◌<◌, ◌==◌, ◌≡◌, refl, ap, ◌∙◌, sym, subst, Bool, true,
  false, ◌||◌, List, [], ◌∷◌, ◌++◌, Option, none, some, ltb, is_empty, Bool-cases, inl, inr,
  Option-cases, arith, if_cases,
}
use world.Bytes.{Bytes, split}
use world.Bytes.Split.{split-append}
use world.Fs.Codec.Number.{digits, digit_val, display, and_then, parse_digits}
use world.Fs.Codec.Digits.{contains-display, parse_digits-display}
use world.Fs.Codec.Words.{split-word}
use world.Policy.{
  accepted, Ip, v4, octet, four_octets, parse_v4, show_v4, is_unspecified, is_multicast, parse_ip,
  show_ip, canonical_ip, canonical_host,
}

-- The digits of a number that is not zero do not start with zero.
abbrev starts_with_zero : Bytes → Bool
starts_with_zero [] = false
starts_with_zero (b ∷ bs) = b == b'0'

starts_with_zero-append :
    (xs ys : Bytes) → is_empty xs ≡ false → starts_with_zero (xs ++ ys) ≡ starts_with_zero xs
starts_with_zero-append [] ys h = cc
starts_with_zero-append (x ∷ xs) ys h = refl

digits-starts :
    (fuel n : ℕ)
    → 0 < n
    → n < fuel
    → (is_empty (digits fuel 10 n) ≡ false) × (starts_with_zero (digits fuel 10 n) ≡ false)
unfolding digits
digits-starts zero n h f = absurd (omega arith)
digits-starts (suc fuel) n h f =
    if_cases (λ (x : Bytes). (is_empty x ≡ false) × (starts_with_zero x ≡ false)) (ltb n 10) _ _
      (λ t. (refl, one_digit t))
      λ t.
        let (a, b) = digits-starts fuel (n / 10) (more t) (omega (arith, h, f)) in
        (
          filled (digits fuel 10 (n / 10)) _ a,
          starts_with_zero-append (digits fuel 10 (n / 10)) _ a ∙ b,
        )
  where
    one_digit : ltb n 10 ≡ true → (b'0' + n % 10 == b'0') ≡ false
    one_digit t = ground (arith, t, h)

    more : ltb n 10 ≡ false → 0 < n / 10
    more t = ground (arith, t)

    filled : (xs ys : Bytes) → is_empty xs ≡ false → is_empty (xs ++ ys) ≡ false
    filled [] ys h = cc
    filled (x ∷ xs) ys h = refl

octet-plain :
    (s : Bytes)
    → is_empty s ≡ false
    → starts_with_zero s ≡ false
    → octet s ≡ parse_digits 10 256 0 s
unfolding octet
octet-plain [] h z = cc
octet-plain (c ∷ []) h z = refl
octet-plain (c ∷ d ∷ cs) h z = rw z refl

octet-display : (n : ℕ) → n < 256 → octet (display 10 n) ≡ some n
unfolding display octet parse_digits
octet-display zero h = zero_octet
  where
    zero_octet : octet (display 10 0) ≡ some 0
    zero_octet = parse_digits-display 10 256 0 (omega arith) (omega arith)
octet-display (suc n) h =
    let (a, b) = digits-starts (suc (suc n)) (suc n) (omega arith) (omega arith) in
    octet-plain (display 10 (suc n)) a b ∙ parse_digits-display 10 256 (suc n) (omega arith) h

-- The four numbers of an address are octets.
abbrev pub IsV4 : ℕ → ℕ → ℕ → ℕ → Type 0
IsV4 a b c d = (a < 256) × (b < 256) × (c < 256) × (d < 256)

split-show_v4 :
    (a b c d : ℕ)
    → split b'.' (show_v4 a b c d) ≡ display 10 a ∷ display 10 b ∷ display 10 c ∷ display 10 d ∷ []
unfolding show_v4
split-show_v4 a b c d =
    split-append b'.' (display 10 a) _
    ∙ rw
        (
          word a,
          split-append b'.' (display 10 b) (display 10 c ++ b'.' ∷ display 10 d),
          word b,
          split-append b'.' (display 10 c) (display 10 d),
          word c,
          word d,
        )
        refl
  where
    word : (n : ℕ) → split b'.' (display 10 n) ≡ display 10 n ∷ []
    word n = split-word b'.' (display 10 n) (contains-display b'.' 10 n (omega arith))

-- An IPv4 address is read back from its text.
pub parse_v4-show_v4 : (a b c d : ℕ) → IsV4 a b c d → parse_v4 (show_v4 a b c d) ≡ some (v4 a b c d)
unfolding parse_v4 four_octets
parse_v4-show_v4 a b c d h =
    ap four_octets (split-show_v4 a b c d)
    ∙ rw (octet-display a h.0, octet-display b h.1, octet-display c h.2, octet-display d h.3) refl

parse_digits-lt :
    (radix end n m : ℕ) (s : Bytes) → n < end → parse_digits radix end n s ≡ some m → m < end
unfolding parse_digits
parse_digits-lt radix end n m [] h e = subst (λ k. k < end) (ground (arith, e)) h
parse_digits-lt radix end n m (c ∷ s) h e = elim (Option-cases (digit_val radix c)) [
  | inl x ↦ absurd (none_ne (rw x at e))
  | inr (v, x) ↦ elim (Bool-cases (ltb (n * radix + v) end)) [
    | inl t ↦ parse_digits-lt radix end (n * radix + v) m s (ltb→lt _ _ t) (rw (x, t) at e)
    | inr t ↦ absurd (none_ne (rw (x, t) at e))
  ]
]
  where
    none_ne : {m : ℕ} → none ≡ some m → ⊥
    none_ne h = ground (arith, h)

octet-lt : (s : Bytes) (n : ℕ) → octet s ≡ some n → n < 256
unfolding octet
octet-lt [] n e = cc
octet-lt (c ∷ []) n e = parse_digits-lt 10 256 0 n (c ∷ []) (omega arith) e
octet-lt (c ∷ d ∷ cs) n e =
    if_cases (λ o. o ≡ some n → n < 256) (c == b'0') none (parse_digits 10 256 0 (c ∷ d ∷ cs))
      (λ _ g. cc) (λ _ g. parse_digits-lt 10 256 0 n (c ∷ d ∷ cs) (omega arith) g) e

-- What `and_then` gives comes from both parts.
and_then-some {ℓ κ} :
    {A : Type ℓ} {B : Type κ} (o : Option A) (f : A → Option B) (b : B)
    → and_then o f ≡ some b
    → (a : A) × (o ≡ some a) × (f a ≡ some b)
and_then-some none f b h = cc
and_then-some (some a) f b h = (a, refl, h)

record IsDotted (ip : Ip) : Type 0 where
  a : ℕ
  b : ℕ
  c : ℕ
  d : ℕ
  bounds : IsV4 a b c d
  same : v4 a b c d ≡ ip

four_octets-IsDotted : (parts : List Bytes) (ip : Ip) → four_octets parts ≡ some ip → IsDotted ip
unfolding four_octets
four_octets-IsDotted (p ∷ q ∷ r ∷ s ∷ []) ip h =
    let (w, hw, h1) = and_then-some (octet p) _ ip h in
    let (x, hx, h2) = and_then-some (octet q) _ ip h1 in
    let (y, hy, h3) = and_then-some (octet r) _ ip h2 in
    let (z, hz, h4) = and_then-some (octet s) _ ip h3 in
    record {
      a = w;
      b = x;
      c = y;
      d = z;
      bounds = (octet-lt p w hw, octet-lt q x hx, octet-lt r y hy, octet-lt s z hz);
      same = ground (arith, h4);
    }
four_octets-IsDotted parts ip h = cc

module _ (parse_v6 : Bytes → Option (List ℕ)) (show_v6 : List ℕ → Bytes) where
  canonical_ip-shown :
      (ip : Ip) (host : Bytes)
      → canonical_ip parse_v6 show_v6 ip ≡ accepted host
      → show_ip parse_v6 show_v6 ip ≡ host
  unfolding canonical_ip
  canonical_ip-shown ip host h =
      if_cases (λ x. x ≡ accepted host → show_ip parse_v6 show_v6 ip ≡ host)
        (is_unspecified ip || is_multicast ip) _ _ (λ _ e. cc) (λ _ e. ground (arith, e)) h

  canonical_dotted :
      (ip : Ip) (input host : Bytes)
      → IsDotted ip
      → parse_v4 input ≡ some ip
      → canonical_host parse_v6 show_v6 input ≡ accepted host
      → canonical_host parse_v6 show_v6 host ≡ accepted host
  unfolding canonical_host parse_ip show_ip
  canonical_dotted ip input host i p h =
      let given : canonical_ip parse_v6 show_v6 ip ≡ accepted host = rw p at h in
      let dotted : canonical_ip parse_v6 show_v6 (v4 i.a i.b i.c i.d) ≡ accepted host =
        ap (canonical_ip parse_v6 show_v6) i.same ∙ given in
      let shown : show_v4 i.a i.b i.c i.d ≡ host =
        canonical_ip-shown (v4 i.a i.b i.c i.d) host dotted in
      let again : parse_v4 host ≡ some (v4 i.a i.b i.c i.d) =
        ap parse_v4 (sym shown) ∙ parse_v4-show_v4 i.a i.b i.c i.d i.bounds in
      rw again dotted

  -- An IPv4 address that `canonical_host` gives for a dotted input is given back as it is.
  pub canonical_host-v4 :
      (input host : Bytes) (ip : Ip)
      → parse_v4 input ≡ some ip
      → canonical_host parse_v6 show_v6 input ≡ accepted host
      → canonical_host parse_v6 show_v6 host ≡ accepted host
  unfolding parse_v4
  canonical_host-v4 input host ip p h =
      canonical_dotted ip input host (four_octets-IsDotted (split b'.' input) ip p) p h
