-- ===== src/Fs/Codec/Paths.antt =====
-- crates/world-fsmodel/src/lib.rs: the paths of the operations that `Op::from_line` reads.
use world.Prelude.{
  ◌≡◌, refl, ap, subst, false, List, [], ◌∷◌, Option, none, some, Option-cases, arith,
  if◌then◌else◌, if_cases, inl, inr,
}
use world.Prelude.Pigeonhole.{All}
use world.Bytes.{Bytes, beq, codes, contains, split}
use world.Fs.Types.{Op}
use world.Fs.Codec.Escape.{unescape, unescape_path, without_nul}
use world.Fs.Codec.Number.{and_then}
use world.Fs.Codec.Line.{
  Parsed, with_token, parsed_op, path_operands, path_command, parse_command, parse_tokens,
  whole_line, from_line,
}

abbrev pub NoNul : Bytes → Type 0
NoNul bs = contains 0 bs ≡ false

-- The operation that is read, if any, has no NUL in a path.
abbrev Safe : Parsed → Type 0
Safe r = (op : Op) (rest : List Bytes) → r ≡ some (op, rest) → All NoNul (path_operands op)

abbrev IsSafe : (List Bytes → Parsed) → Type 0
IsSafe p = (ts : List Bytes) → Safe (p ts)

parsed_op-Safe : (op : Op) (ts : List Bytes) → All NoNul (path_operands op) → Safe (parsed_op op ts)
parsed_op-Safe op ts h op' rest e =
    let same : op ≡ op' = ground (arith, e) in subst (λ o. All NoNul (path_operands o)) same h

and_then-Safe {ℓ} :
    {A : Type ℓ} (o : Option A) (k : A → Parsed)
    → ((a : A) → o ≡ some a → Safe (k a))
    → Safe (and_then o k)
and_then-Safe none k h = λ op rest e. cc
and_then-Safe (some a) k h = h a refl

token-Safe {ℓ} :
    {A : Type ℓ} (f : Bytes → Option A) (k : A → List Bytes → Parsed) (ts : List Bytes)
    → ((a : A) (ts : List Bytes) → Safe (k a ts))
    → Safe (with_token f k ts)
token-Safe f k [] h = λ op rest e. cc
token-Safe f k (t ∷ ts) h = and_then-Safe (f t) (λ a. k a ts) λ a _. h a ts

unescape_path-NoNul : (t p : Bytes) → unescape_path t ≡ some p → NoNul p
unfolding unescape_path without_nul
unescape_path-NoNul t p e = elim (Option-cases (unescape t)) [
  | inl n ↦ absurd (ground (arith, e, n))
  | inr (v, n) ↦ kept v (rw n at e)
]
  where
    kept : (v : Bytes) → (if contains 0 v then none else some v) ≡ some p → NoNul p
    kept v h =
        if_cases (λ (o : Option Bytes). o ≡ some p → NoNul p) (contains 0 v) none (some v)
          (λ _ g. cc) (λ c g. subst NoNul (ground (arith, g)) c) h

path_token-Safe :
    (k : Bytes → List Bytes → Parsed) (ts : List Bytes)
    → ((p : Bytes) (ts : List Bytes) → NoNul p → Safe (k p ts))
    → Safe (with_token unescape_path k ts)
path_token-Safe k [] h = λ op rest e. cc
path_token-Safe k (t ∷ ts) h =
    and_then-Safe (unescape_path t) (λ a. k a ts) λ p e. h p ts (unescape_path-NoNul t p e)

path_command-Safe :
    (f : Bytes → Op) (ts : List Bytes)
    → ((p : Bytes) → NoNul p → All NoNul (path_operands (f p)))
    → Safe (path_command f ts)
path_command-Safe f ts h = path_token-Safe _ ts λ p ts' n. parsed_op-Safe (f p) ts' (h p n)

parse_command-Safe : (cmd : Bytes) → IsSafe (parse_command cmd)
unfolding parse_command path_operands
parse_command-Safe cmd =
    if_cases IsSafe (beq cmd (codes "mkdir")) _ _
      (λ _ ts.
        path_token-Safe _ ts
          λ p0 ts1 h0. token-Safe _ _ ts1 λ a1 ts2. parsed_op-Safe _ ts2 (h0, tt))
      λ _.
        if_cases IsSafe (beq cmd (codes "open")) _ _
          (λ _ ts.
            path_token-Safe _ ts
              λ p0 ts1 h0. token-Safe _ _ ts1 λ a1 ts2. parsed_op-Safe _ ts2 (h0, tt))
          λ _.
            if_cases IsSafe (beq cmd (codes "write")) _ _
              (λ _ ts.
                token-Safe _ _ ts λ a0 ts1. token-Safe _ _ ts1 λ a1 ts2. parsed_op-Safe _ ts2 tt)
              λ _.
                if_cases IsSafe (beq cmd (codes "read")) _ _
                  (λ _ ts.
                    token-Safe _ _ ts
                      λ a0 ts1. token-Safe _ _ ts1 λ a1 ts2. parsed_op-Safe _ ts2 tt)
                  λ _.
                    if_cases IsSafe (beq cmd (codes "symlink")) _ _
                      (λ _ ts. path_token-Safe _ ts λ p0 ts1 h0.
                        path_token-Safe _ ts1 λ p1 ts2 h1. parsed_op-Safe _ ts2 (h0, (h1, tt)))
                      λ _.
                        if_cases IsSafe (beq cmd (codes "readlink")) _ _
                          (λ _ ts. path_command-Safe _ ts λ p h. (h, tt))
                          λ _.
                            if_cases IsSafe (beq cmd (codes "rename")) _ _
                              (λ _ ts. path_token-Safe _ ts λ p0 ts1 h0.
                                path_token-Safe _ ts1
                                  λ p1 ts2 h1. parsed_op-Safe _ ts2 (h0, (h1, tt)))
                              λ _.
                                if_cases IsSafe (beq cmd (codes "unlink")) _ _
                                  (λ _ ts. path_command-Safe _ ts λ p h. (h, tt))
                                  λ _.
                                    if_cases IsSafe (beq cmd (codes "rmdir")) _ _
                                      (λ _ ts. path_command-Safe _ ts λ p h. (h, tt))
                                      λ _.
                                        if_cases IsSafe (beq cmd (codes "chdir")) _ _
                                          (λ _ ts. path_command-Safe _ ts λ p h. (h, tt))
                                          λ _.
                                            if_cases IsSafe (beq cmd (codes "getcwd")) _ _
                                              (λ _ ts. parsed_op-Safe _ ts tt)
                                              λ _.
                                                if_cases IsSafe (beq cmd (codes "realpath")) _ _
                                                  (λ _ ts. path_command-Safe _ ts λ p h. (h, tt))
                                                  λ _.
                                                    if_cases IsSafe (beq cmd (codes "stat")) _ _
                                                      (λ _ ts.
                                                        path_command-Safe _ ts λ p h. (h, tt))
                                                      λ _.
                                                        if_cases IsSafe (beq cmd (codes "lstat")) _
                                                          _
                                                          (λ _ ts.
                                                            path_command-Safe _ ts λ p h. (h, tt))
                                                          λ _.
                                                            if_cases IsSafe
                                                            (beq cmd (codes "opendir")) _ _
                                                            (λ _ ts.
                                                            path_command-Safe _ ts λ p h. (h, tt))
                                                            λ _.
                                                            if_cases IsSafe
                                                            (beq cmd (codes "openat")) _ _
                                                            (λ _ ts. token-Safe _ _ ts λ a0 ts1.
                                                            path_token-Safe _ ts1 λ p1 ts2 h1.
                                                            token-Safe _ _ ts2
                                                            λ a2 ts3. parsed_op-Safe _ ts3 (h1, tt))
                                                            λ _.
                                                            if_cases IsSafe
                                                            (beq cmd (codes "mkdirat")) _ _
                                                            (λ _ ts. token-Safe _ _ ts λ a0 ts1.
                                                            path_token-Safe _ ts1 λ p1 ts2 h1.
                                                            parsed_op-Safe _ ts2 (h1, tt))
                                                            λ _.
                                                            if_cases IsSafe
                                                            (beq cmd (codes "unlinkat")) _ _
                                                            (λ _ ts. token-Safe _ _ ts λ a0 ts1.
                                                            path_token-Safe _ ts1 λ p1 ts2 h1.
                                                            token-Safe _ _ ts2
                                                            λ a2 ts3. parsed_op-Safe _ ts3 (h1, tt))
                                                            λ _.
                                                            if_cases IsSafe (beq cmd (codes "bind"))
                                                            _ _
                                                            (λ _ ts.
                                                            path_command-Safe _ ts λ p h. (h, tt))
                                                            λ _.
                                                            if_cases IsSafe
                                                            (beq cmd (codes "connect")) _ _
                                                            (λ _ ts.
                                                            path_command-Safe _ ts λ p h. (h, tt))
                                                            λ _.
                                                            if_cases IsSafe
                                                            (beq cmd (codes "mkstemp")) _ _
                                                            (λ _ ts.
                                                            path_command-Safe _ ts λ p h. (h, tt))
                                                            λ _.
                                                            if_cases IsSafe (beq cmd (codes "list"))
                                                            _ _
                                                            (λ _ ts.
                                                            path_command-Safe _ ts λ p h. (h, tt))
                                                            λ _.
                                                            if_cases IsSafe
                                                            (beq cmd (codes "close")) _ _
                                                            (λ _ ts.
                                                            token-Safe _ _ ts
                                                            λ a0 ts1. parsed_op-Safe _ ts1 tt)
                                                            λ _. λ ts op rest e. cc

whole_line-some : (r : Parsed) (op : Op) → whole_line r ≡ some op → r ≡ some (op, [])
whole_line-some none op h = cc
whole_line-some (some (o, [])) op h = ap (λ x. some (x, [])) (ground (arith, h))
whole_line-some (some (o, t ∷ ts)) op h = cc

-- Whatever text `from_line` reads, no path of the operation has a NUL, where a system call would cut it.
pub from_line-NoNul : (s : Bytes) (op : Op) → from_line s ≡ some op → All NoNul (path_operands op)
unfolding from_line parse_tokens
from_line-NoNul s op h =
    parsed (split b' ' s) op [] (whole_line-some (parse_tokens (split b' ' s)) op h)
  where
    parsed : IsSafe parse_tokens
    parsed [] = λ op rest e. cc
    parsed (cmd ∷ ts) = parse_command-Safe cmd ts
