-- ===== src/Fs/Witnesses.antt =====
-- The theorems about the model at concrete inputs.
use world.Result.{eisdir, eperm}
use world.Fs.Equiv.{errno_equiv}
use world.Fs.Equiv.Classes.{standard, errno_equiv_iff}
use world.Prelude.Pigeonhole.{All}
use world.Fs.Codec.Line.{path_operands, to_line, from_line}
use world.Fs.Codec.Words.{from_line-to_line}
use world.Fs.Codec.Paths.{NoNul, from_line-NoNul}
use world.Fs.Codec.Escape.{escape, unescape_path}
use world.Fs.Codec.Flags.{from_flag_str, to_flag_str}
use world.Fs.Codec.RoundTrip.{unescape_path-escape, from_flag_str_iff}
use world.Fs.Tests.{rw_new}
use world.Prelude.{◌≡◌, ◌↔◌, refl, true, false, [], ◌∷◌, List, Option, none, some, arith}
use world.Bytes.{codes, contains}
use world.Fs.Paths.{parent_and_name}
use world.Fs.Paths.Parts.{Answers, parent_and_name-Answers}
use world.Fs.Names.{full_path}
use world.Fs.Names.Climb.{full_path-physical}
use world.Fs.Reply.{IsReply}
use world.Fs.Reply.Apply.{apply-IsReply}
use world.Bytes.{Bytes}
use world.Fs.Types.{physical, mac_shim, linux_mount, Model, Op, NodeId, file, FdEntry, virtual}
use world.Map.{get}
use world.Map.Order.{fd_key}
use world.Fs.Nodes.{dataout, is_descendant, is_detached, node}
use world.Fs.Build.{new}
use world.Fs.Ops.Run.{Effect}
use world.Fs.Ops.Apply.{apply, apply_all}
use world.Fs.Ops.Io.{do_read, do_write}
use world.Fs.Ops.Io.Contents.{do_read-do_write}
use world.Fs.Resolve.{resolve_inner, resolve_body, link_fuel, start_walk}
use world.Fs.Resolve.Fuel.{resolve_inner_equation}
use world.Fs.Valid.Climb.{Above, IsSound, is_descendant_iff, is_detached_iff}
use world.Fs.Step.{Steps}
use world.Fs.Step.Apply.{apply-Steps, apply_all-IsSound}
use world.Fs.Step.Build.{new-IsSound}
use world.Fs.Tests.{machine}

abbrev linux : Model
linux = new (linux_mount (codes "/ws"))

abbrev mac : Model
mac = new (mac_shim (codes "/ws"))

-- A directory is made, and renamed below another.
abbrev moves : List Op
moves =
    Op.mkdir (codes "/tmp/a") 0
    ∷ Op.mkdir (codes "/tmp/b") 0
    ∷ Op.rename (codes "/tmp/a") (codes "/tmp/b/c")
    ∷ []

after : Option Model → Model
after none = linux
after (some m) = m

moved : apply_all linux moves ≡ some (after (apply_all linux moves))
unfolding machine after
moved = refl

apply_all-IsSound_example : IsSound (after (apply_all linux moves))
apply_all-IsSound_example = apply_all-IsSound moves (new-IsSound (linux_mount (codes "/ws"))) moved

new-IsSound_example : IsSound (new (mac_shim (codes "/ws")))
new-IsSound_example = new-IsSound (mac_shim (codes "/ws"))

-- The effect of the first move, or the start where a call does not return
effect : Option Effect → Model → Effect
effect none m = (m, dataout 0 [])
effect (some e) m = e

renamed :
    apply (after (apply_all linux moves)) (Op.rename (codes "/tmp/b/c") (codes "/tmp/d"))
    ≡ some (
        effect
          (apply (after (apply_all linux moves)) (Op.rename (codes "/tmp/b/c") (codes "/tmp/d")))
          linux)
unfolding machine after effect
renamed = refl

apply-Steps_example :
    Steps
      (after (apply_all linux moves))
      (effect
        (apply (after (apply_all linux moves)) (Op.rename (codes "/tmp/b/c") (codes "/tmp/d")))
        linux).0
apply-Steps_example =
    apply-Steps apply_all-IsSound_example (Op.rename (codes "/tmp/b/c") (codes "/tmp/d")) _ renamed

-- The name `/tmp` of the macOS tree is a symlink, which the lookup follows.
resolve_inner_equation_example :
    resolve_inner (link_fuel mac) mac virtual 0 (codes "/tmp/a") true start_walk
    ≡ resolve_body
        (resolve_inner (link_fuel mac) mac virtual)
        mac
        virtual
        0
        (codes "/tmp/a")
        true
        start_walk
resolve_inner_equation_example =
    resolve_inner_equation mac virtual 0 (codes "/tmp/a") true start_walk

is_descendant_iff_example : (is_descendant linux 0 2 ≡ true) ↔ Above linux 0 2
is_descendant_iff_example =
    is_descendant_iff (new-IsSound (linux_mount (codes "/ws"))) 0 2 (unfold machine in omega arith)

is_detached_iff_example :
    (is_detached linux 2 ≡ true)
    ↔ ((a : NodeId) × Above linux a 2 × ((node linux a).detached ≡ true))
is_detached_iff_example =
    is_detached_iff (new-IsSound (linux_mount (codes "/ws"))) 2 (unfold machine in omega arith)

-- A file of three bytes behind two descriptors
abbrev shared : Model
shared = record {
  nodes =
      record {
        kind = file (codes "abc");
        parent = none;
        children = [];
        mounted_by = none;
        virtual_parent = none;
        mount_name = none;
        detached = false;
      }
      ∷ [];
  profile = linux_mount [];
  root_node = 0;
  case_insensitive = false;
  cwd = 0;
  fds = (3, FdEntry.file 0 1 true) ∷ (4, FdEntry.file 0 1 false) ∷ [];
  next_fd = 5;
}

do_read-do_write_example :
    (do_read (do_write shared 3 (codes "xyz")).0 4 3).1 ≡ dataout 3 (codes "xyz")
unfolding get node
do_read-do_write_example =
    do_read-do_write shared 3 0 1 (codes "xyz") 4 false (omega arith) (omega arith) refl refl refl

apply-IsReply_example : IsReply (after (apply_all linux moves)) (
    effect
      (apply (after (apply_all linux moves)) (Op.rename (codes "/tmp/b/c") (codes "/tmp/d")))
      linux)
apply-IsReply_example =
    apply-IsReply (after (apply_all linux moves)) (Op.rename (codes "/tmp/b/c") (codes "/tmp/d")) _
      renamed

parent_and_name-Answers_example : Answers (codes "/tmp/a//") (parent_and_name (codes "/tmp/a//"))
parent_and_name-Answers_example = parent_and_name-Answers (codes "/tmp/a//")

full_path-physical_example : (rest : Bytes) × (full_path linux physical 2 ≡ some (b'/' ∷ rest))
full_path-physical_example =
    full_path-physical (new-IsSound (linux_mount (codes "/ws"))) 2 (unfold machine in omega arith)

-- A space, which is escaped, and a name
unescape_path-escape_example : unescape_path (escape (codes "a b/%")) ≡ some (codes "a b/%")
unfolding machine
unescape_path-escape_example =
    unescape_path-escape (codes "a b/%")
      (omega arith, (omega arith, (omega arith, (omega arith, (omega arith, tt))))) refl

from_flag_str_iff_example :
    (from_flag_str (codes "100100") ≡ some rw_new) ↔ (codes "100100" ≡ to_flag_str rw_new)
from_flag_str_iff_example = from_flag_str_iff (codes "100100") rw_new

errno_equiv_iff_example :
    (errno_equiv false (Op.unlink (codes "/tmp")) (some eperm) (some eisdir) ≡ true) ↔ (
      standard false (Op.unlink (codes "/tmp")) (some eperm)
      ≡ standard false (Op.unlink (codes "/tmp")) (some eisdir))
errno_equiv_iff_example =
    errno_equiv_iff false (Op.unlink (codes "/tmp")) (some eperm) (some eisdir)

-- The definitions that a line is read with
unfoldable codec : Unit {0}
unfolding world.Bytes.beq world.Bytes.lex world.Bytes.starts_with world.Bytes.ends_with_slash
    world.Bytes.starts_with_slash world.Bytes.contains world.Bytes.split world.Bytes.is_real
    world.Bytes.keep_real world.Bytes.real_components world.Bytes.lower
    world.Bytes.to_ascii_lowercase world.Fs.Codec.Escape.is_plain world.Fs.Codec.Escape.escape
    world.Fs.Codec.Escape.hex_val world.Fs.Codec.Escape.unescape world.Fs.Codec.Escape.without_nul
    world.Fs.Codec.Escape.unescape_path world.Fs.Codec.Flags.flag_char
    world.Fs.Codec.Flags.to_flag_str world.Fs.Codec.Flags.flag_bit world.Fs.Codec.Flags.flag_bits
    world.Fs.Codec.Flags.six_flags world.Fs.Codec.Flags.flags_of world.Fs.Codec.Flags.from_flag_str
    world.Fs.Codec.Line.path_operands world.Fs.Codec.Line.words world.Fs.Codec.Line.to_line
    world.Fs.Codec.Line.u32_token world.Fs.Codec.Line.octal_token world.Fs.Codec.Line.usize_token
    world.Fs.Codec.Line.parse_command world.Fs.Codec.Line.parse_tokens world.Fs.Codec.Line.from_line
    world.Fs.Codec.Number.digits world.Fs.Codec.Number.display world.Fs.Codec.Number.digit_val
    world.Fs.Codec.Number.parse_digits world.Fs.Codec.Number.from_str_radix
    world.Fs.Codec.Number.display_bool world.Fs.Codec.Number.parse_bool
codec = tt

from_line-to_line_example :
    from_line (to_line (Op.mkdir (codes "/a b") 493)) ≡ some (Op.mkdir (codes "/a b") 493)
unfolding codec
from_line-to_line_example =
    from_line-to_line (Op.mkdir (codes "/a b") 493)
      (((omega arith, (omega arith, (omega arith, (omega arith, tt)))), no_nul), omega arith)
  where
    no_nul : contains 0 (codes "/a b") ≡ false
    no_nul = refl

read_back : from_line (codes "rename /a%20b /c") ≡ some (Op.rename (codes "/a b") (codes "/c"))
unfolding codec
read_back = refl

from_line-NoNul_example : All NoNul (path_operands (Op.rename (codes "/a b") (codes "/c")))
from_line-NoNul_example =
    from_line-NoNul (codes "rename /a%20b /c") (Op.rename (codes "/a b") (codes "/c")) read_back
