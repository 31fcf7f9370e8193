-- ===== src/Fs/Codec/Words.antt =====
-- crates/world-fsmodel/src/lib.rs: `Op::from_line` on the lines that `Op::to_line` writes.
use mathlib.Core.List.{append-nil}
use world.Prelude.{
  ℕ, ◌<◌, ◌/◌, ◌%◌, ◌==◌, ◌≡◌, refl, ap, ◌∙◌, Bool, true, false, List, [], ◌∷◌, ◌++◌, some, map,
  arith, Bool-cases, inl, inr,
}
use world.Prelude.Pigeonhole.{All}
use world.Bytes.{Bytes, beq, contains, split}
use world.Bytes.Split.{behind, split-append}
use world.Fs.Types.{Op, OpenFlags}
use world.Fs.Codec.Escape.{is_plain, hex_digit, escape}
use world.Fs.Codec.Flags.{flag_char, to_flag_str, from_flag_str}
use world.Fs.Codec.Number.{u32_end, usize_end, display}
use world.Fs.Codec.Digits.{
  contains-display, from_str_radix-display, parse_bool-display_bool, contains-display_bool,
}
use world.Fs.Codec.RoundTrip.{unescape-escape, unescape_path-escape, from_flag_str_iff}
use world.Fs.Codec.Line.{
  words, to_line, u32_token, octal_token, usize_token, path_command, parse_command, parse_tokens,
  whole_line, from_line,
}

pub split-word : (sep : ℕ) (w : Bytes) → contains sep w ≡ false → split sep w ≡ w ∷ []
unfolding split contains
split-word sep [] h = refl
split-word sep (b ∷ w) h =
    let other : (b == sep) ≡ false = ground (arith, h) in
    rw (other, split-word sep w (ground (arith, h))) refl

-- Words without a separator are the pieces of their line.
pub split-behind :
    (sep : ℕ) (w : Bytes) (ws : List Bytes)
    → contains sep w ≡ false
    → All (λ x. contains sep x ≡ false) ws
    → split sep (w ++ behind sep ws) ≡ w ∷ ws
split-behind sep w [] h hs = ap (split sep) (append-nil w) ∙ split-word sep w h
split-behind sep w (x ∷ ws) h hs =
    split-append sep w (x ++ behind sep ws)
    ∙ rw (split-word sep w h, split-behind sep x ws hs.0 hs.1) refl

contains-escape : (bs : Bytes) → contains b' ' (escape bs) ≡ false
unfolding escape contains is_plain
contains-escape [] = refl
contains-escape (b ∷ bs) = elim (Bool-cases (is_plain b)) [
  | inl p ↦ rw p (plain_byte b (escape bs) p (contains-escape bs))
  | inr p ↦ rw p (hex_bytes (b / 16) (b % 16) (escape bs) (contains-escape bs))
]
  where
    plain_byte :
        (b : ℕ) (rest : Bytes)
        → is_plain b ≡ true
        → contains b' ' rest ≡ false
        → contains b' ' (b ∷ rest) ≡ false
    plain_byte b rest p h = ground (arith, p, h)

    hex_bytes :
        (m n : ℕ) (rest : Bytes)
        → contains b' ' rest ≡ false
        → contains b' ' (b'%' ∷ hex_digit m ∷ hex_digit n ∷ rest) ≡ false
    hex_bytes m n rest h = ground (arith, h)

contains-to_flag_str : (f : OpenFlags) → contains b' ' (to_flag_str f) ≡ false
unfolding to_flag_str flag_char contains
contains-to_flag_str f =
    contains-map (f.create ∷ f.excl ∷ f.trunc ∷ f.write ∷ f.directory ∷ f.nofollow ∷ [])
  where
    contains-map : (vs : List Bool) → contains b' ' (map flag_char vs) ≡ false
    contains-map [] = refl
    contains-map (true ∷ vs) = contains-map vs
    contains-map (false ∷ vs) = contains-map vs

-- What a path and bytes of an operation are: bytes, and no NUL in a path
abbrev pub IsData : Bytes → Type 0
IsData bs = All (λ b. b < 256) bs

abbrev pub IsPath : Bytes → Type 0
IsPath bs = IsData bs × (contains 0 bs ≡ false)

-- The operands of an operation fit their types.
abbrev pub IsOp : Op → Type 0
IsOp (Op.mkdir path mode) = IsPath path × (mode < u32_end)
IsOp (Op.write fd bytes) = (fd < u32_end) × IsData bytes
IsOp (Op.read fd len) = (fd < u32_end) × (len < usize_end)
IsOp (Op.symlink target path) = IsPath target × IsPath path
IsOp (Op.rename from to) = IsPath from × IsPath to
IsOp (Op.getcwd) = Unit {0}
IsOp (Op.open_file path flags) = IsPath path
IsOp (Op.open_at dirfd path flags) = (dirfd < u32_end) × IsPath path
IsOp (Op.mkdir_at dirfd path) = (dirfd < u32_end) × IsPath path
IsOp (Op.unlink_at dirfd path rmdir) = (dirfd < u32_end) × IsPath path
IsOp (Op.close_fd fd) = fd < u32_end
IsOp (Op.readlink path) = IsPath path
IsOp (Op.unlink path) = IsPath path
IsOp (Op.rmdir path) = IsPath path
IsOp (Op.chdir path) = IsPath path
IsOp (Op.realpath path) = IsPath path
IsOp (Op.stat path) = IsPath path
IsOp (Op.lstat path) = IsPath path
IsOp (Op.open_dir path) = IsPath path
IsOp (Op.bind path) = IsPath path
IsOp (Op.connect path) = IsPath path
IsOp (Op.mkstemp_adopt name) = IsPath name
IsOp (Op.list path) = IsPath path

-- No word of a line has a space.
words-IsLine :
    (op : Op)
    → (contains b' ' (words op).0 ≡ false) × All (λ x. contains b' ' x ≡ false) (words op).1
unfolding words contains
words-IsLine (Op.mkdir path mode) =
    (refl, (contains-escape path, (contains-display b' ' 8 mode (omega arith), tt)))
words-IsLine (Op.open_file path flags) =
    (refl, (contains-escape path, (contains-to_flag_str flags, tt)))
words-IsLine (Op.write fd bytes) =
    (refl, (contains-display b' ' 10 fd (omega arith), (contains-escape bytes, tt)))
words-IsLine (Op.read fd len) = (
  refl,
  (contains-display b' ' 10 fd (omega arith), (contains-display b' ' 10 len (omega arith), tt)),
)
words-IsLine (Op.symlink target path) = (refl, (contains-escape target, (contains-escape path, tt)))
words-IsLine (Op.rename from to) = (refl, (contains-escape from, (contains-escape to, tt)))
words-IsLine (Op.getcwd) = (refl, tt)
words-IsLine (Op.open_at dirfd path flags) = (
  refl,
  (
    contains-display b' ' 10 dirfd (omega arith),
    (contains-escape path, (contains-to_flag_str flags, tt)),
  ),
)
words-IsLine (Op.mkdir_at dirfd path) =
    (refl, (contains-display b' ' 10 dirfd (omega arith), (contains-escape path, tt)))
words-IsLine (Op.unlink_at dirfd path rmdir) = (
  refl,
  (
    contains-display b' ' 10 dirfd (omega arith),
    (contains-escape path, (contains-display_bool rmdir, tt)),
  ),
)
words-IsLine (Op.close_fd fd) = (refl, (contains-display b' ' 10 fd (omega arith), tt))
words-IsLine (Op.readlink path) = (refl, (contains-escape path, tt))
words-IsLine (Op.unlink path) = (refl, (contains-escape path, tt))
words-IsLine (Op.rmdir path) = (refl, (contains-escape path, tt))
words-IsLine (Op.chdir path) = (refl, (contains-escape path, tt))
words-IsLine (Op.realpath path) = (refl, (contains-escape path, tt))
words-IsLine (Op.stat path) = (refl, (contains-escape path, tt))
words-IsLine (Op.lstat path) = (refl, (contains-escape path, tt))
words-IsLine (Op.open_dir path) = (refl, (contains-escape path, tt))
words-IsLine (Op.bind path) = (refl, (contains-escape path, tt))
words-IsLine (Op.connect path) = (refl, (contains-escape path, tt))
words-IsLine (Op.mkstemp_adopt path) = (refl, (contains-escape path, tt))
words-IsLine (Op.list path) = (refl, (contains-escape path, tt))

path_command-escape :
    (f : Bytes → Op) (path : Bytes)
    → IsPath path
    → path_command f (escape path ∷ []) ≡ some (f path, [])
path_command-escape f path h = rw (unescape_path-escape path h.0 h.1) refl

u32_token-display : (n : ℕ) → n < u32_end → u32_token (display 10 n) ≡ some n
unfolding u32_token
u32_token-display n h = from_str_radix-display 10 u32_end n (omega arith) h

from_flag_str-to_flag_str : (f : OpenFlags) → from_flag_str (to_flag_str f) ≡ some f
from_flag_str-to_flag_str f = (from_flag_str_iff (to_flag_str f) f).1 refl

parse_command-words : (op : Op) → IsOp op → parse_command (words op).0 (words op).1 ≡ some (op, [])
unfolding parse_command words beq octal_token usize_token
parse_command-words (Op.mkdir path mode) h =
    rw
      (
        unescape_path-escape path h.0.0 h.0.1,
        from_str_radix-display 8 u32_end mode (omega arith) h.1,
      )
      refl
parse_command-words (Op.open_file path flags) h =
    rw (unescape_path-escape path h.0 h.1, from_flag_str-to_flag_str flags) refl
parse_command-words (Op.write fd bytes) h =
    rw (u32_token-display fd h.0, unescape-escape bytes h.1) refl
parse_command-words (Op.read fd len) h =
    rw (u32_token-display fd h.0, from_str_radix-display 10 usize_end len (omega arith) h.1) refl
parse_command-words (Op.symlink target path) h =
    rw (unescape_path-escape target h.0.0 h.0.1, unescape_path-escape path h.1.0 h.1.1) refl
parse_command-words (Op.rename from to) h =
    rw (unescape_path-escape from h.0.0 h.0.1, unescape_path-escape to h.1.0 h.1.1) refl
parse_command-words (Op.getcwd) h = refl
parse_command-words (Op.open_at dirfd path flags) h =
    rw
      (
        u32_token-display dirfd h.0,
        unescape_path-escape path h.1.0 h.1.1,
        from_flag_str-to_flag_str flags,
      )
      refl
parse_command-words (Op.mkdir_at dirfd path) h =
    rw (u32_token-display dirfd h.0, unescape_path-escape path h.1.0 h.1.1) refl
parse_command-words (Op.unlink_at dirfd path rmdir) h =
    rw
      (
        u32_token-display dirfd h.0,
        unescape_path-escape path h.1.0 h.1.1,
        parse_bool-display_bool rmdir,
      )
      refl
parse_command-words (Op.close_fd fd) h = rw (u32_token-display fd h) refl
parse_command-words (Op.readlink path) h = path_command-escape Op.readlink path h
parse_command-words (Op.unlink path) h = path_command-escape Op.unlink path h
parse_command-words (Op.rmdir path) h = path_command-escape Op.rmdir path h
parse_command-words (Op.chdir path) h = path_command-escape Op.chdir path h
parse_command-words (Op.realpath path) h = path_command-escape Op.realpath path h
parse_command-words (Op.stat path) h = path_command-escape Op.stat path h
parse_command-words (Op.lstat path) h = path_command-escape Op.lstat path h
parse_command-words (Op.open_dir path) h = path_command-escape Op.open_dir path h
parse_command-words (Op.bind path) h = path_command-escape Op.bind path h
parse_command-words (Op.connect path) h = path_command-escape Op.connect path h
parse_command-words (Op.mkstemp_adopt path) h = path_command-escape Op.mkstemp_adopt path h
parse_command-words (Op.list path) h = path_command-escape Op.list path h

-- An operation whose numbers fit their types and whose paths are bytes without a NUL is read back from
-- the line that `to_line` writes for it.
pub from_line-to_line : (op : Op) → IsOp op → from_line (to_line op) ≡ some op
unfolding from_line to_line parse_tokens
from_line-to_line op h =
    let (a, b) = words-IsLine op in
    ap (λ ts. whole_line (parse_tokens ts)) (split-behind b' ' (words op).0 (words op).1 a b)
    ∙ ap whole_line (parse_command-words op h)
