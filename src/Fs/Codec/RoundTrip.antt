-- ===== src/Fs/Codec/RoundTrip.antt =====
-- crates/world-fsmodel/src/lib.rs: `unescape` after `escape`, and `from_flag_str` beside `to_flag_str`.
use world.Prelude.{
  ℕ, ◌+◌, ◌*◌, ◌/◌, ◌%◌, ◌<◌, ◌==◌, ◌≡◌, ◌↔◌, refl, subst, ap, ◌∙◌, Bool, true, false, List, [],
  ◌∷◌, none, some, Option-cases, Bool-cases, inl, inr, arith, map, if◌then◌else◌,
}
use world.Prelude.Pigeonhole.{All}
use world.Bytes.{Bytes, contains}
use world.Fs.Types.{OpenFlags}
use world.Fs.Codec.Escape.{
  is_plain, hex_digit, escape, hex_val, prepend, unescape, unescape_path, without_nul,
}
use world.Fs.Codec.Flags.{
  flag_char, to_flag_str, flag_bit, flag_bits, six_flags, flags_of, from_flag_str,
}

hex_val-hex_digit : (n : ℕ) → n < 16 → hex_val (hex_digit n) ≡ some n
unfolding hex_val
hex_val-hex_digit n h = ground arith

-- A byte other than the percent sign stands for itself.
unescape-cons :
    (b : ℕ) (bs : Bytes) → (b == b'%') ≡ false → unescape (b ∷ bs) ≡ prepend b (unescape bs)
unfolding unescape
unescape-cons b [] h = ground (arith, h)
unescape-cons b (x ∷ []) h = rw (h, unescape) refl
unescape-cons b (x ∷ y ∷ bs) h = rw (h, unescape) refl

is_plain-percent : (b : ℕ) → is_plain b ≡ true → (b == b'%') ≡ false
unfolding is_plain
is_plain-percent b h = ground (arith, h)

byte-digits : (b : ℕ) → b / 16 * 16 + b % 16 ≡ b
byte-digits b = omega arith

unescape_escaped :
    (b : ℕ) (bs : Bytes)
    → b < 256
    → unescape (b'%' ∷ hex_digit (b / 16) ∷ hex_digit (b % 16) ∷ bs) ≡ prepend b (unescape bs)
unfolding unescape
unescape_escaped b bs h =
    rw (hex_val-hex_digit (b / 16) (omega arith), hex_val-hex_digit (b % 16) (omega arith))
      (rw (byte-digits b) refl)

escape_step :
    (b : ℕ) (bs rest : Bytes)
    → b < 256
    → unescape rest ≡ some bs
    → unescape
        (if is_plain b then b ∷ rest else b'%' ∷ hex_digit (b / 16) ∷ hex_digit (b % 16) ∷ rest)
      ≡ some (b ∷ bs)
escape_step b bs rest h e = elim (Bool-cases (is_plain b)) [
  | inl p ↦ rw p (unescape-cons b rest (is_plain-percent b p) ∙ ap (prepend b) e)
  | inr n ↦ rw n (unescape_escaped b rest h ∙ ap (prepend b) e)
]

-- The bytes that `escape` writes are read back by `unescape`.
pub unescape-escape : (bs : Bytes) → All (λ b. b < 256) bs → unescape (escape bs) ≡ some bs
unfolding escape unescape
unescape-escape [] h = refl
unescape-escape (b ∷ bs) h = escape_step b bs (escape bs) h.0 (unescape-escape bs h.1)

-- Bytes without a NUL that `escape` writes are read back by `unescape_path`.
pub unescape_path-escape :
    (bs : Bytes)
    → All (λ b. b < 256) bs
    → contains 0 bs ≡ false
    → unescape_path (escape bs) ≡ some bs
unfolding unescape_path without_nul
unescape_path-escape bs h n = rw (unescape-escape bs h) (rw n refl)

flag_bit-flag_char : (v : Bool) → flag_bit (flag_char v) ≡ some v
unfolding flag_bit flag_char
flag_bit-flag_char true = refl
flag_bit-flag_char false = refl

flag_bits-map : (vs : List Bool) → flag_bits (map flag_char vs) ≡ some vs
unfolding flag_bits
flag_bits-map [] = refl
flag_bits-map (v ∷ vs) = rw (flag_bit-flag_char v, flag_bits-map vs) refl

from_flag_str-to_flag_str : (f : OpenFlags) → from_flag_str (to_flag_str f) ≡ some f
unfolding from_flag_str to_flag_str
from_flag_str-to_flag_str f =
    ap flags_of
      (flag_bits-map (f.create ∷ f.excl ∷ f.trunc ∷ f.write ∷ f.directory ∷ f.nofollow ∷ []))

flag_char-flag_bit : (c : ℕ) (v : Bool) → flag_bit c ≡ some v → c ≡ flag_char v
unfolding flag_bit flag_char
flag_char-flag_bit c true h = ground (arith, h)
flag_char-flag_bit c false h = ground (arith, h)

map-flag_bits : (s : Bytes) (vs : List Bool) → flag_bits s ≡ some vs → s ≡ map flag_char vs
unfolding flag_bits
map-flag_bits [] vs h =
    let same : [] ≡ vs = ground (arith, h) in subst (λ x. [] ≡ map flag_char x) same refl
map-flag_bits (c ∷ cs) vs h = elim (Option-cases (flag_bit c)) [
  | inl e ↦ absurd (ground (arith, h, e))
  | inr (v, e) ↦ elim (Option-cases (flag_bits cs)) [
    | inl d ↦ absurd (ground (arith, h, e, d))
    | inr (ws, d) ↦
        let same : v ∷ ws ≡ vs = ground (arith, h, e, d) in
        subst (λ x. c ∷ cs ≡ map flag_char x) same
          (ap (λ (x : ℕ). x ∷ cs) (flag_char-flag_bit c v e)
            ∙ ap (λ (x : Bytes). flag_char v ∷ x) (map-flag_bits cs ws d))
  ]
]

six_flags-chars :
    (vs : List Bool) (f : OpenFlags) → six_flags vs ≡ some f → map flag_char vs ≡ to_flag_str f
unfolding six_flags to_flag_str
six_flags-chars (c ∷ e ∷ t ∷ w ∷ d ∷ n ∷ []) f h =
    subst
      (λ o. elim o [
        | none ↦ Unit
        | some g ↦ map flag_char (c ∷ e ∷ t ∷ w ∷ d ∷ n ∷ []) ≡ to_flag_str g
      ])
      h refl
six_flags-chars vs f h = cc

-- `from_flag_str` reads a text as some flags exactly when `to_flag_str` writes that text for them.
pub from_flag_str_iff :
    (s : Bytes) (f : OpenFlags) → (from_flag_str s ≡ some f) ↔ (s ≡ to_flag_str f)
unfolding from_flag_str flags_of
from_flag_str_iff s f = (
  (λ h. elim (Option-cases (flag_bits s)) [
    | inl e ↦ absurd (ground (arith, h, e))
    | inr (vs, e) ↦ map-flag_bits s vs e ∙ six_flags-chars vs f (ground (arith, h, e))
  ]),
  λ h. ap from_flag_str h ∙ from_flag_str-to_flag_str f,
)
