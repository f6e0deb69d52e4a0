-- ===== src/Fsstat.antt =====
-- internal/fsstat/fsstat.go: what a platform can measure. The bits of a Capability are the fields of a
-- record.
pub mod Linux
pub mod Fake
pub mod System
use directory_size_exporter.Base.{Bool, true, false, List, [], ◌∷◌, ◌++◌, Str, str, if◌then◌else◌}

-- The single capabilities.
pub data Capability : Type 0 where
  cap_alloc_bytes cap_inode cap_fs_bytes cap_fs_inodes cap_mountpoint : Capability

pub record Capabilities : Type 0 where
  pub alloc_bytes : Bool
  pub inode : Bool
  pub fs_bytes : Bool
  pub fs_inodes : Bool
  pub mountpoint : Bool

-- `caps.Has`
abbrev pub has_cap : Capability → Capabilities → Bool
has_cap cap_alloc_bytes caps = caps.alloc_bytes
has_cap cap_inode caps = caps.inode
has_cap cap_fs_bytes caps = caps.fs_bytes
has_cap cap_fs_inodes caps = caps.fs_inodes
has_cap cap_mountpoint caps = caps.mountpoint

-- `AllCapabilities`
abbrev pub label_of : Capability → Str
label_of cap_alloc_bytes = str "alloc_bytes"
label_of cap_inode = str "inode"
label_of cap_fs_bytes = str "fs_bytes"
label_of cap_fs_inodes = str "fs_inodes"
label_of cap_mountpoint = str "mountpoint"

abbrev pub all_capabilities : List Capability
all_capabilities = cap_alloc_bytes ∷ cap_inode ∷ cap_fs_bytes ∷ cap_fs_inodes ∷ cap_mountpoint ∷ []
