-- ===== src/Fs/Codec/Line.antt =====
-- crates/world-fsmodel/src/lib.rs: `Op::to_line`, `Op::from_line` and `Op::path_operands`.
use world.Prelude.{ℕ, List, [], ◌∷◌, ◌++◌, Option, none, some, if◌then◌else◌}
use world.Bytes.{Bytes, beq, codes, split}
use world.Bytes.Split.{behind}
use world.Fs.Types.{Op}
use world.Fs.Codec.Escape.{escape, unescape, unescape_path}
use world.Fs.Codec.Flags.{to_flag_str, from_flag_str}
use world.Fs.Codec.Number.{
  u32_end, usize_end, display, and_then, from_str_radix, display_bool, parse_bool,
}

unfoldable pub path_operands : Op → List Bytes
path_operands (Op.mkdir path mode) = path ∷ []
path_operands (Op.open_file path flags) = path ∷ []
path_operands (Op.readlink path) = path ∷ []
path_operands (Op.unlink path) = path ∷ []
path_operands (Op.rmdir path) = path ∷ []
path_operands (Op.chdir path) = path ∷ []
path_operands (Op.realpath path) = path ∷ []
path_operands (Op.stat path) = path ∷ []
path_operands (Op.lstat path) = path ∷ []
path_operands (Op.open_dir path) = path ∷ []
path_operands (Op.open_at dirfd path flags) = path ∷ []
path_operands (Op.mkdir_at dirfd path) = path ∷ []
path_operands (Op.unlink_at dirfd path rmdir) = path ∷ []
path_operands (Op.bind path) = path ∷ []
path_operands (Op.connect path) = path ∷ []
path_operands (Op.list path) = path ∷ []
path_operands (Op.symlink target path) = target ∷ path ∷ []
path_operands (Op.rename from to) = from ∷ to ∷ []
path_operands (Op.mkstemp_adopt name) = name ∷ []
path_operands (Op.write fd bytes) = []
path_operands (Op.read fd len) = []
path_operands (Op.getcwd) = []
path_operands (Op.close_fd fd) = []

abbrev decimal : ℕ → Bytes
decimal = display 10

-- The words of a line: the command and its operands
unfoldable pub words : Op → Bytes × List Bytes
unfolding escape to_flag_str display display_bool
words (Op.mkdir path mode) = (codes "mkdir", escape path ∷ display 8 mode ∷ [])
words (Op.open_file path flags) = (codes "open", escape path ∷ to_flag_str flags ∷ [])
words (Op.write fd bytes) = (codes "write", decimal fd ∷ escape bytes ∷ [])
words (Op.read fd len) = (codes "read", decimal fd ∷ decimal len ∷ [])
words (Op.symlink target path) = (codes "symlink", escape target ∷ escape path ∷ [])
words (Op.readlink path) = (codes "readlink", escape path ∷ [])
words (Op.rename from to) = (codes "rename", escape from ∷ escape to ∷ [])
words (Op.unlink path) = (codes "unlink", escape path ∷ [])
words (Op.rmdir path) = (codes "rmdir", escape path ∷ [])
words (Op.chdir path) = (codes "chdir", escape path ∷ [])
words (Op.getcwd) = (codes "getcwd", [])
words (Op.realpath path) = (codes "realpath", escape path ∷ [])
words (Op.stat path) = (codes "stat", escape path ∷ [])
words (Op.lstat path) = (codes "lstat", escape path ∷ [])
words (Op.open_dir path) = (codes "opendir", escape path ∷ [])
words (Op.open_at dirfd path flags) =
    (codes "openat", decimal dirfd ∷ escape path ∷ to_flag_str flags ∷ [])
words (Op.mkdir_at dirfd path) = (codes "mkdirat", decimal dirfd ∷ escape path ∷ [])
words (Op.unlink_at dirfd path rmdir) =
    (codes "unlinkat", decimal dirfd ∷ escape path ∷ display_bool rmdir ∷ [])
words (Op.bind path) = (codes "bind", escape path ∷ [])
words (Op.connect path) = (codes "connect", escape path ∷ [])
words (Op.mkstemp_adopt name) = (codes "mkstemp", escape name ∷ [])
words (Op.list path) = (codes "list", escape path ∷ [])
words (Op.close_fd fd) = (codes "close", decimal fd ∷ [])

-- The words with one space between them
unfoldable pub to_line : Op → Bytes
unfolding words
to_line op = (words op).0 ++ behind b' ' (words op).1

-- An operation and the tokens after it
abbrev pub Parsed : Type 0
Parsed = Option (Op × List Bytes)

-- `it.next()?`, read by `f`
abbrev pub with_token {ℓ} :
    {A : Type ℓ} → (Bytes → Option A) → (A → List Bytes → Parsed) → List Bytes → Parsed
with_token f k [] = none
with_token f k (t ∷ ts) = and_then (f t) λ a. k a ts

abbrev pub parsed_op : Op → List Bytes → Parsed
parsed_op op ts = some (op, ts)

unfoldable pub u32_token : Bytes → Option ℕ
unfolding from_str_radix
u32_token = from_str_radix 10 u32_end

unfoldable pub octal_token : Bytes → Option ℕ
unfolding from_str_radix
octal_token = from_str_radix 8 u32_end

unfoldable pub usize_token : Bytes → Option ℕ
unfolding from_str_radix
usize_token = from_str_radix 10 usize_end

-- A command with one path
abbrev pub path_command : (Bytes → Op) → List Bytes → Parsed
path_command f = with_token unescape_path λ path. parsed_op (f path)

unfoldable pub parse_command : Bytes → List Bytes → Parsed
unfolding unescape unescape_path from_flag_str parse_bool u32_token octal_token usize_token
parse_command cmd =
    if beq cmd (codes "mkdir")
    then (with_token unescape_path
        λ path. with_token octal_token λ mode. parsed_op (Op.mkdir path mode))
    else if beq cmd (codes "open")
    then (with_token unescape_path
        λ path. with_token from_flag_str λ flags. parsed_op (Op.open_file path flags))
    else if beq cmd (codes "write")
    then (with_token u32_token λ fd. with_token unescape λ bytes. parsed_op (Op.write fd bytes))
    else if beq cmd (codes "read")
    then (with_token u32_token λ fd. with_token usize_token λ len. parsed_op (Op.read fd len))
    else if beq cmd (codes "symlink")
    then (with_token unescape_path
        λ target. with_token unescape_path λ path. parsed_op (Op.symlink target path))
    else if beq cmd (codes "readlink")
    then path_command Op.readlink
    else if beq cmd (codes "rename")
    then (with_token unescape_path
        λ from. with_token unescape_path λ to. parsed_op (Op.rename from to))
    else if beq cmd (codes "unlink")
    then path_command Op.unlink
    else if beq cmd (codes "rmdir")
    then path_command Op.rmdir
    else if beq cmd (codes "chdir")
    then path_command Op.chdir
    else if beq cmd (codes "getcwd")
    then parsed_op Op.getcwd
    else if beq cmd (codes "realpath")
    then path_command Op.realpath
    else if beq cmd (codes "stat")
    then path_command Op.stat
    else if beq cmd (codes "lstat")
    then path_command Op.lstat
    else if beq cmd (codes "opendir")
    then path_command Op.open_dir
    else if beq cmd (codes "openat")
    then (with_token u32_token λ dirfd.
        with_token unescape_path
          λ path. with_token from_flag_str λ flags. parsed_op (Op.open_at dirfd path flags))
    else if beq cmd (codes "mkdirat")
    then (with_token u32_token
        λ dirfd. with_token unescape_path λ path. parsed_op (Op.mkdir_at dirfd path))
    else if beq cmd (codes "unlinkat")
    then (with_token u32_token λ dirfd.
        with_token unescape_path
          λ path. with_token parse_bool λ rmdir. parsed_op (Op.unlink_at dirfd path rmdir))
    else if beq cmd (codes "bind")
    then path_command Op.bind
    else if beq cmd (codes "connect")
    then path_command Op.connect
    else if beq cmd (codes "mkstemp")
    then path_command Op.mkstemp_adopt
    else if beq cmd (codes "list")
    then path_command Op.list
    else if beq cmd (codes "close")
    then (with_token u32_token λ fd. parsed_op (Op.close_fd fd))
    else λ ts. none

unfoldable pub parse_tokens : List Bytes → Parsed
unfolding parse_command
parse_tokens [] = none
parse_tokens (cmd ∷ ts) = parse_command cmd ts

-- Tokens that are left over are refused.
abbrev pub whole_line : Parsed → Option Op
whole_line none = none
whole_line (some (op, [])) = some op
whole_line (some (op, t ∷ ts)) = none

unfoldable pub from_line : Bytes → Option Op
unfolding parse_tokens split
from_line s = whole_line (parse_tokens (split b' ' s))
