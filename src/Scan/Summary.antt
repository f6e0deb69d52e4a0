-- ===== src/Scan/Summary.antt =====
-- internal/scan/summary.go: the one line that is logged for a scan. The line is a level, a message and
-- attributes; a duration is a number of nanoseconds, rounded by `round_to_milliseconds`.
pub mod Counts
use directory_size_exporter.Base.{
  ℕ, ◌+◌, ◌*◌, ◌/◌, Bool, true, false, Option, none, some, List, [], ◌∷◌, ◌++◌, Str, str, str_eq,
  if◌then◌else◌, is_pos64, nat_beq, time_sub,
}
use directory_size_exporter.Base.Dict.{lookup}
use directory_size_exporter.State.{
  Outcome, complete, partial, timeout, cancelled, missing, root_error, outcome_name,
}
use directory_size_exporter.Scan.ErrClass.{all_error_classes, count_of}
use directory_size_exporter.Scan.Target.{TargetScan}

pub data Attribute : Type 0 where
  text : Str → Attribute
  number : ℕ → Attribute
  flag : Bool → Attribute

pub data Level : Type 0 where
  info warn : Level

-- `if n > 0 { attrs = append(attrs, …) }` of an int64.
abbrev pub when_positive : ℕ → List (Str × Attribute) → List (Str × Attribute)
when_positive n attrs = if is_pos64 n then attrs else []

-- The loop over the error classes.
unfoldable pub error_attributes : List (Str × ℕ) → List Str → List (Str × Attribute)
error_attributes counts [] = []
error_attributes counts (class ∷ classes) =
    when_positive (count_of class counts)
      ((str "errors_" ++ class, number (count_of class counts)) ∷ [])
    ++ error_attributes counts classes

-- `time.Duration.Round(time.Millisecond)` of a duration that is not negative.
abbrev pub round_to_milliseconds : ℕ → ℕ
round_to_milliseconds d = (d + 500_000) / 1_000_000 * 1_000_000

-- The attributes of `logSummary`.
unfoldable pub summary_attributes : Outcome → ℕ → TargetScan → List (Str × Attribute)
unfolding error_attributes
summary_attributes outcome now t =
    (str "target", text t.path)
    ∷ (str "outcome", text (outcome_name outcome))
    ∷ (str "duration_seconds", number (round_to_milliseconds (time_sub now t.started_at)))
    ∷ (str "bytes", number t.size)
    ∷ (str "files", number t.files)
    ∷ (str "directories", number t.dirs)
    ∷ (str "entries_scanned", number t.entries)
    ∷ (str "stat_calls", number t.stat_calls)
    ∷ (str "errors", number t.errors.total)
    ∷ (when_positive t.vanished ((str "vanished_entries", number t.vanished) ∷ [])
        ++ (when_positive t.skipped_xdev
              ((str "skipped_other_filesystem", number t.skipped_xdev) ∷ [])
            ++ (when_positive t.hardlinked (
                  (str "hardlinked_files", number t.hardlinked)
                  ∷ (str "dedup_saved_bytes", number t.dedup_saved)
                  ∷ [])
                ++ ((if t.inodes_exhausted
                      then (str "hardlink_tracking_exhausted", flag true) ∷ []
                      else [])
                    ++ error_attributes t.errors.counts all_error_classes))))

-- The level and the message.
unfoldable pub summary_line : Outcome → Level × Str
summary_line complete = (info, str "Directory scan completed")
summary_line cancelled = (info, str "Directory scan cancelled by shutdown")
summary_line missing =
    (warn, str "Directory scan found no target; retaining the previous measurement")
summary_line _ = (warn, str "Directory scan did not complete; previous measurement retained")
