-- ===== src/Tests.antt =====
-- The theorems applied to concrete inputs, and the data of these examples.
mod Stores
mod Scans
mod Latches
mod Listings
mod Resolutions
mod Scrapes
mod Settings
mod Requests
mod Fakes
mod Workers
mod Hosts
use directory_size_exporter.Base.{ℕ, refl, true, false, none, some, List, [], ◌∷◌, Str, str}
use directory_size_exporter.State.{
  Outcome, complete, partial, timeout, cancelled, missing, Result, Options,
}
use directory_size_exporter.Scan.Walk.{Pace, IsUnhurried}
use directory_size_exporter.Scan.Target.{FileMode, FileStat}

abbrev pub day : Str
day = str "/data/day"

abbrev pub night : Str
night = str "/data/night"

-- A finished scan of `day`.
abbrev pub scanned : Outcome → ℕ → Result
scanned outcome size = record {
  target = day;
  outcome = outcome;
  size_bytes = size;
  alloc_bytes = 4096;
  files = 3;
  directories = 1;
  hardlinked_files = 0;
  dedup_saved_bytes = 0;
  hardlink_tracking_exhausted = false;
  duration_seconds = 20;
  errors = (str "permission", 2) ∷ [];
  vanished_files = 1;
  entries_scanned = 5;
  stat_calls = 4;
  dirs_read = 2;
  skipped_other_filesystem = 0;
}

-- Partial results are not published, and a measurement is stale after 1000 nanoseconds.
abbrev pub strict : Options
strict = record { publish_partial = false; stale_after = 1000 }

-- Two scans that complete, with one between them that is partial, and one that is cancelled.
abbrev pub four_scans : List (ℕ × Result)
four_scans =
    (100, scanned complete 10)
    ∷ (200, scanned partial 4)
    ∷ (300, scanned complete 30)
    ∷ (400, scanned cancelled 1)
    ∷ []

abbrev pub plain_mode : FileMode
plain_mode = record { dir = false; symlink = false; other_type = false }

abbrev pub dir_mode : FileMode
dir_mode = record { dir = true; symlink = false; other_type = false }

-- A regular file of the given inode, links and size.
abbrev pub file : ℕ → ℕ → ℕ → FileStat
file ino nlink size = record {
  mode = plain_mode;
  size = size;
  alloc_bytes = 4096;
  dev = 1;
  ino = ino;
  nlink = nlink;
}

-- No deadline, and no limit.
abbrev pub at_leisure : {W : Type 0} → Pace W
at_leisure = record { late = λ w. false; refusal = λ n w. none }

pub at_leisure-IsUnhurried : {W : Type 0} → IsUnhurried {W = W} at_leisure
at_leisure-IsUnhurried = record { not_late = λ w. refl; granted = λ n w. refl }
