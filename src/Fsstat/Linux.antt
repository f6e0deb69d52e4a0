-- ===== src/Fsstat/Linux.antt =====
-- internal/fsstat/fsstat_linux.go: the mount point of a path and the capacity of its filesystem. The
-- device of a path is what the system call `stat` answers.
pub mod Mountpoint
use directory_size_exporter.Base.{
  ℕ, zero, suc, ◌+◌, ◌*◌, ◌%◌, ◌^◌, ◌⊎◌, inl, inr, Bool, true, false, not, ◌&&◌, ◌||◌, Option, none,
  some, List, [], ◌∷◌, ◌++◌, Str, str, str_eq, ◌==◌, if◌then◌else◌, nat_beq, length, is_pos64,
}
use mathlib.Core.Option
use directory_size_exporter.Config.{to_lower}
use directory_size_exporter.Fsstat.Fake.Paths.{path_clean}
use directory_size_exporter.Collector.Filesystem.{FsInfo}
use directory_size_exporter.Targets.Paths.{is_empty, separator}

-- What stands before the last separator, where there is one.
abbrev pub before_last : Str → Option Str
before_last [] = none
before_last (c ∷ s) =
    let rest = before_last s in
    elim rest [ some dir ↦ some (c ∷ dir) | none ↦ if nat_beq c separator then some [] else none ]

-- `filepath.Dir` of a clean path.
unfoldable pub parent_of : Str → Str
parent_of path = elim (before_last path) [
  | none ↦ str "."
  | some dir ↦ if is_empty dir then str "/" else dir
]

-- The loop of `mountpointOf`, on the parents of the path; `none` is the end of the fuel.
unfoldable pub climb : (Str → Option ℕ) → ℕ → ℕ → Str → Option Str
climb device dev zero current = none
climb device dev (suc fuel) current =
    let rest = climb device dev fuel (parent_of current) in
    if parent_of current == current then some current else elim (device (parent_of current)) [
      | none ↦ some current
      | some dev' ↦ if not (nat_beq dev' dev) then some current else rest
    ]

-- `mountpointOf`; `none` is the error of the first `stat`.
unfoldable pub mountpoint_of : (Str → Option ℕ) → Str → Option (Option Str × ℕ)
unfolding path_clean
mountpoint_of device path =
    let current = path_clean path in
    Option.map (λ dev. (climb device dev (length current + 3) current, dev)) (device path)

-- `unix.Statfs_t`
pub record Statfs : Type 0 where
  pub blocks : ℕ
  pub bfree : ℕ
  pub bavail : ℕ
  pub files : ℕ
  pub ffree : ℕ
  pub bsize : ℕ
  pub frsize : ℕ
  pub fs_type : ℕ

-- `fsTypeMagic`
abbrev pub fs_type_magic : List (ℕ × Str)
fs_type_magic =
    (44533, str "adfs")
    ∷ (2435016766, str "btrfs")
    ∷ (12805120, str "ceph")
    ∷ (4283649346, str "cifs")
    ∷ (61791, str "ecryptfs")
    ∷ (61267, str "ext2/ext3/ext4")
    ∷ (16390, str "fat")
    ∷ (18225520, str "gfs2")
    ∷ (26985, str "nfs")
    ∷ (13364, str "nilfs")
    ∷ (1952539503, str "ocfs2")
    ∷ (2035054128, str "overlayfs")
    ∷ (1382369651, str "reiserfs")
    ∷ (1936814952, str "squashfs")
    ∷ (16914836, str "tmpfs")
    ∷ (16914839, str "v9fs")
    ∷ (1481003842, str "xfs")
    ∷ (801189825, str "zfs")
    ∷ (40864, str "proc")
    ∷ (1650812274, str "sysfs")
    ∷ (1684170528, str "debugfs")
    ∷ (16914837, str "ramfs")
    ∷ (1768515949, str "fuse")
    ∷ []

-- `fsTypeName`; `hex` is `fmt.Sprintf("%x", …)`.
abbrev pub name_in : List (ℕ × Str) → ℕ → Option Str
name_in [] magic = none
name_in ((m, name) ∷ names) magic =
    let rest = name_in names magic in if nat_beq m magic then some name else rest

unfoldable pub fs_type_name : (ℕ → Str) → ℕ → Str
fs_type_name hex magic = elim (name_in fs_type_magic magic) [
  | some name ↦ name
  | none ↦ str "0x" ++ to_lower (hex magic)
]

-- The block size, or the fragment size where that is not positive; `none` where neither is.
unfoldable pub block_size : Statfs → Option ℕ
block_size sfs =
    if is_pos64 sfs.bsize
    then some sfs.bsize
    else if is_pos64 sfs.frsize
    then some sfs.frsize
    else none

-- `StatFS`, from the answer of the system call `statfs`, where it gives one; `show_device` prints the
-- major and the minor number of a device.
unfoldable pub stat_fs :
    (ℕ → Str) → (ℕ → Str) → (Str → Option ℕ) → (Str → Option Statfs) → Str → Option FsInfo
stat_fs hex show_device device statfs path = Option.bind (statfs path) (λ sfs.
    Option.map
      (λ size.
        let place : Str × Str = elim (mountpoint_of device path) [
          | some (some mountpoint, dev) ↦ (mountpoint, show_device dev)
          | _ ↦ ([], [])
        ] in
        record {
          total_bytes = (sfs.blocks * size) % 2 ^ 64;
          free_bytes = (sfs.bfree * size) % 2 ^ 64;
          avail_bytes = (sfs.bavail * size) % 2 ^ 64;
          total_inodes = sfs.files;
          free_inodes = sfs.ffree;
          mountpoint = place.0;
          device = place.1;
          fs_type = fs_type_name hex sfs.fs_type;
        })
      (block_size sfs))
