-- ===== src/Fsstat/System.antt =====
-- The filesystem of the host: internal/fsstat/fsstat_linux.go and internal/fsstat/fsstat_windows.go. The
-- system calls and package os are parameters on a state of the host. A mode is kept to its type.
pub mod Still
pub mod Walked
use directory_size_exporter.Base.{
  ℕ, ◌+◌, ◌*◌, ◌/◌, ◌%◌, ◌^◌, Bool, true, false, not, ◌&&◌, ◌||◌, Option, none, some, List, [], ◌∷◌,
  ◌++◌, map, Str, str, if◌then◌else◌, nat_beq, length,
}
use directory_size_exporter.Fsstat.{Capability, Capabilities, has_cap, label_of, all_capabilities}
use mathlib.Core.Option
use directory_size_exporter.Collector.Filesystem.{FsInfo, no_info}
use directory_size_exporter.Scan.ErrClass.{Error, Errno, other_errno}
use directory_size_exporter.Scan.Target.{FileMode, FileStat, is_dir}
use directory_size_exporter.Scan.Walk.{Entry}
use directory_size_exporter.Targets.Paths.{is_empty}

-- `platformCaps`, on Linux and on Windows.
abbrev pub linux_caps : Capabilities
linux_caps = record {
  alloc_bytes = true;
  inode = true;
  fs_bytes = true;
  fs_inodes = true;
  mountpoint = true;
}

abbrev pub windows_caps : Capabilities
windows_caps = record {
  alloc_bytes = false;
  inode = false;
  fs_bytes = true;
  fs_inodes = false;
  mountpoint = true;
}

-- The names of the capabilities that are there.
unfoldable pub names_of : Capabilities → List Capability → List Str
names_of caps [] = []
names_of caps (c ∷ known) =
    let rest = names_of caps known in if has_cap c caps then label_of c ∷ rest else rest

-- `strings.Join(names, ",")`
unfoldable pub join_names : List Str → Str
join_names [] = []
join_names (name ∷ []) = name
join_names (name ∷ next ∷ names) = name ++ (str "," ++ join_names (next ∷ names))

-- `Capability.String`
unfoldable pub show_capabilities : Capabilities → Str
unfolding names_of join_names
show_capabilities caps =
    if has_any caps then join_names (names_of caps all_capabilities) else str "none"
  where
    has_any : Capabilities → Bool
    has_any caps =
        caps.alloc_bytes || caps.inode || caps.fs_bytes || caps.fs_inodes || caps.mountpoint

-- `unix.Stat_t`
pub record RawStat : Type 0 where
  pub size : ℕ
  pub blocks : ℕ
  pub dev : ℕ
  pub ino : ℕ
  pub nlink : ℕ
  pub mode : ℕ

-- `fileModeFromSys`: the type of a file stands in the four bits of S_IFMT.
unfoldable pub file_mode_from_sys : ℕ → FileMode
file_mode_from_sys mode =
    let kind = mode / 4096 % 16 in
    record {
      dir = nat_beq kind 4;
      symlink = nat_beq kind 10;
      other_type = nat_beq kind 6 || nat_beq kind 2 || nat_beq kind 1 || nat_beq kind 12;
    }

-- `fillFileStat`, where a block has 512 bytes.
unfoldable pub fill_file_stat : RawStat → FileStat
unfolding file_mode_from_sys
fill_file_stat raw = record {
  size = raw.size;
  alloc_bytes = (raw.blocks * 512) % 2 ^ 64;
  dev = raw.dev;
  ino = raw.ino;
  nlink = raw.nlink;
  mode = file_mode_from_sys raw.mode;
}

-- `fs.FileInfo`
pub record FileInfo : Type 0 where
  pub size : ℕ
  pub mode : FileMode

-- `fillFromFileInfo`, which resets the status first.
unfoldable pub fill_from_file_info : FileInfo → FileStat
fill_from_file_info info = record {
  size = info.size;
  alloc_bytes = 0;
  dev = 0;
  ino = 0;
  nlink = 0;
  mode = info.mode;
}

-- A status that no call has filled.
abbrev pub no_status : FileStat
no_status = record {
  size = 0;
  alloc_bytes = 0;
  dev = 0;
  ino = 0;
  nlink = 0;
  mode = record { dir = false; symlink = false; other_type = false };
}

-- fs.ErrClosed, which no test of the source is about.
abbrev pub err_plain : Error
err_plain = record { is_permission = false; is_not_exist = false; is_eof = false; errno = none }

-- windows.ERROR_CANT_ACCESS_FILE and windows.ERROR_DIRECTORY
abbrev pub err_cant_access : Error
err_cant_access = record err_plain { errno = some (other_errno 1920) }

abbrev pub err_directory : Error
err_directory = record err_plain { errno = some (other_errno 267) }

abbrev pub end_of_file : Error
end_of_file = record err_plain { is_eof = true }

-- The host: opening a directory (with O_NOFOLLOW on Linux), `ReadDir` of the open one, `Fstatat`
-- relative to it, `Lstat` of a path, and the error of closing it.
pub record Os (H : Type 0) : Type 0 where
  pub open_path : Str → H → Option Error × H
  pub read_dir : ℕ → H → (List Entry × Option Error) × H
  pub fstatat : Str → H → (Option Error × RawStat) × H
  pub lstat_path : Str → H → (Option Error × RawStat) × H
  pub lstat_info : Str → H → (Option Error × FileInfo) × H
  pub close_file : H → Option Error × H

-- `linuxDir` and `windowsDir`, with the host: the file is nil once it is closed.
pub record SystemDir (H : Type 0) : Type 0 where
  pub path : Str
  pub has_file : Bool
  pub host : H

-- The error of a read without entries: io.EOF where there is none.
abbrev pub or_eof : Option Error → Option Error
or_eof none = some end_of_file
or_eof (some err) = some err

-- A status is filled where there is no error.
abbrev pub filled : Option Error → FileStat → Option Error × FileStat
filled (some err) st = (some err, no_status)
filled none st = (none, st)

module _ {H : Type 0} (os : Os H) where
  -- `OpenDir` on Linux.
  unfoldable pub linux_open_dir : Str → SystemDir H → Option Error × SystemDir H
  linux_open_dir path d =
      let (err, h) = os.open_path path d.host in
      elim err [
        | some e ↦ (some e, record d { host = h })
        | none ↦ (none, record { path = path; has_file = true; host = h })
      ]

  -- `OpenDir` on Windows.
  unfoldable pub windows_open_dir : Str → SystemDir H → Option Error × SystemDir H
  windows_open_dir path d =
      let ((missing, info), h) = os.lstat_info path d.host in
      elim missing [
        | some e ↦ (some e, record d { host = h })
        | none ↦
            if info.mode.symlink
            then (some err_cant_access, record d { host = h })
            else if not info.mode.dir
            then (some err_directory, record d { host = h })
            else let (err, h') = os.open_path path h in
              elim err [
                | some e ↦ (some e, record d { host = h' })
                | none ↦ (none, record { path = path; has_file = true; host = h' })
              ]
      ]

  -- `Lstat`, on both.
  unfoldable pub linux_lstat : Str → H → (Option Error × FileStat) × H
  unfolding fill_file_stat
  linux_lstat path h =
      let ((err, raw), h') = os.lstat_path path h in (filled err (fill_file_stat raw), h')

  unfoldable pub windows_lstat : Str → H → (Option Error × FileStat) × H
  unfolding fill_from_file_info
  windows_lstat path h =
      let ((err, info), h') = os.lstat_info path h in (filled err (fill_from_file_info info), h')

  -- `Close` on Linux.
  unfoldable pub close_dir_file : SystemDir H → Option Error × SystemDir H
  close_dir_file d =
      if d.has_file
      then (let (err, h) = os.close_file d.host in (err, record d { has_file = false; host = h }))
      else (none, d)

  -- `ReadSome` on Linux.
  unfoldable pub read_some_entries : ℕ → SystemDir H → (List Entry × Option Error) × SystemDir H
  read_some_entries n d =
      if d.has_file
      then (let ((entries, err), h) = os.read_dir n d.host in
          if nat_beq (length entries) 0
          then (([], or_eof err), record d { host = h })
          else ((entries, err), record d { host = h }))
      else (([], some err_plain), d)

  -- `StatEntry` on Linux.
  unfoldable pub linux_stat_entry : Str → SystemDir H → (Option Error × FileStat) × SystemDir H
  unfolding fill_file_stat
  linux_stat_entry name d =
      if d.has_file
      then (let ((err, raw), h) = os.fstatat name d.host in
          (filled err (fill_file_stat raw), record d { host = h }))
      else ((some err_plain, no_status), d)

  -- `StatEntry` on Windows; `join` is `filepath.Join`.
  unfoldable pub windows_stat_entry :
      (Str → Str → Str) → Str → SystemDir H → (Option Error × FileStat) × SystemDir H
  unfolding fill_from_file_info
  windows_stat_entry join name d =
      if d.has_file
      then (let ((err, info), h) = os.lstat_info (join d.path name) d.host in
          (filled err (fill_from_file_info info), record d { host = h }))
      else ((some err_plain, no_status), d)

  -- `Close` and `ReadSome` on Windows, which have the text of those on Linux.
  abbrev pub windows_close : SystemDir H → Option Error × SystemDir H
  windows_close d = close_dir_file d

  abbrev pub windows_read_some : ℕ → SystemDir H → (List Entry × Option Error) × SystemDir H
  windows_read_some n d = read_some_entries n d

-- `StatFS` on Windows: the bytes of GetDiskFreeSpaceEx (for the caller, in all, free), where it gives
-- some, and the root of the volume and the name of its filesystem, where they are known.
unfoldable pub windows_stat_fs :
    (Str → Option (ℕ × ℕ × ℕ)) → (Str → Option Str) → (Str → Option Str) → Str → Option FsInfo
windows_stat_fs space volume_root volume_fs_type path =
    Option.map
      (λ (avail, total, free).
        let info : FsInfo = record no_info {
          total_bytes = total;
          free_bytes = free;
          avail_bytes = avail;
        } in
        elim (volume_root path) [
          | none ↦ info
          | some root ↦ record info {
            mountpoint = root;
            device = root;
            fs_type = elim (volume_fs_type root) [ none ↦ [] | some name ↦ name ];
          }
        ])
      (space path)
