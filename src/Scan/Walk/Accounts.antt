-- ===== src/Scan/Walk/Accounts.antt =====
-- Where the entries of a directory go in the totals of internal/scan/walk.go.
use directory_size_exporter.Base.{
  ℕ, ◌+◌, ◌%◌, ◌^◌, ◌≡◌, Option, none, some, List, [], ◌∷◌, Str, if◌then◌else◌, add64, length,
  length-append, arith, Bool-cases, inl, inr,
}
use directory_size_exporter.Scan.ErrClass.{Error}
use directory_size_exporter.Scan.ErrClass.Laws.{total-add_error}
use directory_size_exporter.Scan.Target.{
  FileStat, is_dir, is_regular, DirTotals, TargetScan, count_file,
}
use directory_size_exporter.Scan.Target.Laws.{bytes-count_file}
use directory_size_exporter.Scan.Walk.{
  Entry, DirRef, WalkConfig, append_child, process_stat, process_status,
}
use directory_size_exporter.Scan.Walk.Pass.{walk_entry, walk_entries}

-- What an entry is, from the type in its listing and the outcome of its stat.
pub data Kind : Type 0 where
  link failed directory special regular : Kind

abbrev pub kind_of_status : Option Error → FileStat → Kind
kind_of_status (some err) st = failed
kind_of_status none st =
    if st.mode.symlink
    then link
    else if is_dir st
    then directory
    else if is_regular st
    then regular
    else special

module _ (stat : Str → Option Error × FileStat) where
  unfoldable pub count_kind : (Kind → FileStat → ℕ) → List Entry → ℕ
  count_kind weight [] = 0
  count_kind weight (entry ∷ es) =
      (if entry.entry_type.symlink
        then weight link (stat entry.name).1
        else weight (kind_of_status (stat entry.name).0 (stat entry.name).1) (stat entry.name).1)
      + count_kind weight es

abbrev pub one_if_failed : Kind → FileStat → ℕ
one_if_failed failed st = 1
one_if_failed _ st = 0

abbrev pub one_if_directory : Kind → FileStat → ℕ
one_if_directory directory st = 1
one_if_directory _ st = 0

abbrev pub size_if_regular : Kind → FileStat → ℕ
size_if_regular regular st = st.size
size_if_regular _ st = 0

-- The counters of `b` are those of `a` with the given numbers added, modulo 2 ^ 64.
pub record Grows (entries failures directories bytes : ℕ) (a : List DirRef × DirTotals)
    (b : List DirRef × DirTotals) : Type 0 where
  pub all_entries : b.1.entries % 2 ^ 64 ≡ (a.1.entries + entries) % 2 ^ 64
  pub all_failures :
      (b.1.vanished + b.1.errors.total) % 2 ^ 64
      ≡ (a.1.vanished + a.1.errors.total + failures) % 2 ^ 64
  pub all_directories :
      (length b.0 + b.1.skipped_xdev) % 2 ^ 64
      ≡ (length a.0 + a.1.skipped_xdev + directories) % 2 ^ 64
  pub all_bytes :
      (b.1.size + b.1.dedup_saved) % 2 ^ 64 ≡ (a.1.size + a.1.dedup_saved + bytes) % 2 ^ 64

module _ (cfg : WalkConfig) (ref : DirRef) (join : Str → Str → Str)
    (stat : Str → Option Error × FileStat) where
  process_status-bytes :
      (child : Str) (st : FileStat) (totals : DirTotals) (t : TargetScan)
      → let totals' = (process_status cfg child ref none st (totals, t)).1.0 in
        (totals'.size + totals'.dedup_saved) % 2 ^ 64
        ≡ (totals.size + totals.dedup_saved + size_if_regular (kind_of_status none st) st) % 2 ^ 64
  unfolding process_status process_stat
  process_status-bytes child st totals t =
      ground (arith, bytes-count_file cfg.dedup_hardlinks st totals t)

  process_status-Grows :
      (child : Str) (err : Option Error) (st : FileStat) (children : List DirRef)
      (totals : DirTotals) (t : TargetScan)
      → let (found, (totals', t')) = process_status cfg child ref err st (totals, t) in
        Grows 0
          (one_if_failed (kind_of_status err st) st)
          (one_if_directory (kind_of_status err st) st)
          (size_if_regular (kind_of_status err st) st)
          (children, totals)
          (append_child found children, totals')
  unfolding process_status process_stat count_file
  process_status-Grows child none st children totals t = record {
    all_entries = ground arith;
    all_failures = ground arith;
    all_directories =
        ground
          (arith, length-append children (record { path = child; depth = ref.depth + 1 } ∷ []));
    all_bytes = process_status-bytes child st totals t;
  }
  process_status-Grows child (some err) st children totals t =
      ground (arith, total-add_error err totals.errors)

  walk_entry-Grows :
      (entry : Entry) (children : List DirRef) (totals : DirTotals) (t : TargetScan)
      → let (found, (totals', t')) = walk_entry cfg ref join stat entry (totals, t) in
        Grows 1
          (count_kind stat one_if_failed (entry ∷ []))
          (count_kind stat one_if_directory (entry ∷ []))
          (count_kind stat size_if_regular (entry ∷ []))
          (children, totals)
          (append_child found children, totals')
  unfolding walk_entry count_kind
  walk_entry-Grows entry children totals t = elim (Bool-cases entry.entry_type.symlink) [
    | inl linked ↦ simp linked (ground arith)
    | inr other ↦
        let step =
          process_status-Grows (join ref.path entry.name) (stat entry.name).0 (stat entry.name).1
            children (called totals) t in
        simp other (record {
          all_entries = omega (arith, step.all_entries);
          all_failures = omega (arith, step.all_failures);
          all_directories = omega (arith, step.all_directories);
          all_bytes = omega (arith, step.all_bytes);
        })
  ]
    where
      called : DirTotals → DirTotals
      called totals =
          let seen = record totals { entries = add64 totals.entries 1 } in
          record seen { stat_calls = add64 seen.stat_calls 1 }

  -- In one pass over the entries of a directory, modulo 2 ^ 64: every entry is counted; every stat
  -- that fails is either a vanished entry or an error; every directory becomes a child or is skipped
  -- as another filesystem; and the bytes of the regular files are counted or
  -- saved by dedup.
  pub walk_entries-Grows :
      (es : List Entry) (children : List DirRef) (totals : DirTotals) (t : TargetScan)
      → let (children', (totals', t')) = walk_entries cfg ref join stat es children (totals, t) in
        Grows
          (length es)
          (count_kind stat one_if_failed es)
          (count_kind stat one_if_directory es)
          (count_kind stat size_if_regular es)
          (children, totals)
          (children', totals')
  unfolding walk_entries count_kind
  walk_entries-Grows [] children totals t = record {
    all_entries = omega arith;
    all_failures = omega arith;
    all_directories = omega arith;
    all_bytes = omega arith;
  }
  walk_entries-Grows (entry ∷ es) children totals t =
      let step = walk_entry-Grows entry children totals t in
      let (found, (totals', t')) = walk_entry cfg ref join stat entry (totals, t) in
      let rest = walk_entries-Grows es (append_child found children) totals' t' in
      record {
        all_entries = omega (arith, step.all_entries, rest.all_entries);
        all_failures = omega (arith, step.all_failures, rest.all_failures);
        all_directories = omega (arith, step.all_directories, rest.all_directories);
        all_bytes = omega (arith, step.all_bytes, rest.all_bytes);
      }
