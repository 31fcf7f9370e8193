-- ===== src/Fs/Types.antt =====
-- crates/world-fsmodel/src/lib.rs: the data types of the model.
use world.Prelude.{ℕ, Bool, List, Option}
use world.Bytes.{Bytes}
use world.Map.{Map}
use world.Result.{Code}

abbrev pub NodeId : Type 0
NodeId = ℕ

pub data Profile : Type 0 where
  mac_shim linux_mount : (root : Bytes) → Profile

pub data View : Type 0 where
  virtual physical : View

pub data NodeKind : Type 0 where
  dir : NodeKind
  file : Bytes → NodeKind
  symlink : Bytes → NodeKind
  socket : NodeKind
  opaque : NodeKind

pub data Start : Type 0 where
  cwd : Start
  fd : ℕ → Start
  root : Start

-- `i64` results: `pos n` is n, `negsuc n` is -(n + 1).
pub data ℤ : Type 0 where
  pos : ℕ → ℤ
  negsuc : ℕ → ℤ

pub record Outcome : Type 0 where
  pub ret : ℤ
  pub errno : Code
  pub bytes : Bytes

pub record OpenFlags : Type 0 where
  pub create : Bool
  pub excl : Bool
  pub trunc : Bool
  pub write : Bool
  pub directory : Bool
  pub nofollow : Bool

pub data Op : Type 0 where
  mkdir : (path : Bytes) (mode : ℕ) → Op
  open_file : (path : Bytes) (flags : OpenFlags) → Op
  write : (fd : ℕ) (bytes : Bytes) → Op
  read : (fd len : ℕ) → Op
  symlink : (target path : Bytes) → Op
  readlink : (path : Bytes) → Op
  rename : (from to : Bytes) → Op
  unlink : (path : Bytes) → Op
  rmdir : (path : Bytes) → Op
  chdir : (path : Bytes) → Op
  getcwd : Op
  realpath : (path : Bytes) → Op
  stat : (path : Bytes) → Op
  lstat : (path : Bytes) → Op
  open_dir : (path : Bytes) → Op
  open_at : (dirfd : ℕ) (path : Bytes) (flags : OpenFlags) → Op
  mkdir_at : (dirfd : ℕ) (path : Bytes) → Op
  unlink_at : (dirfd : ℕ) (path : Bytes) (rmdir : Bool) → Op
  bind : (path : Bytes) → Op
  connect : (path : Bytes) → Op
  mkstemp_adopt : (name : Bytes) → Op
  list : (path : Bytes) → Op
  close_fd : (fd : ℕ) → Op

pub data EntryKind : Type 0 where
  dir : EntryKind
  file : (len : ℕ) → EntryKind
  symlink : (target : Bytes) → EntryKind
  socket : EntryKind

pub record Entry : Type 0 where
  pub path : Bytes
  pub kind : EntryKind

pub record Node : Type 0 where
  pub kind : NodeKind
  pub parent : Option NodeId
  pub children : Map Bytes NodeId
  pub mounted_by : Option NodeId
  pub virtual_parent : Option NodeId
  pub mount_name : Option Bytes
  pub detached : Bool

pub data FdEntry : Type 0 where
  file : (node : NodeId) (pos : ℕ) (write : Bool) → FdEntry
  dir : (node : NodeId) → FdEntry

pub record Model : Type 0 where
  pub nodes : List Node
  pub profile : Profile
  pub root_node : NodeId
  pub case_insensitive : Bool
  pub cwd : NodeId
  pub fds : Map ℕ FdEntry
  pub next_fd : ℕ
