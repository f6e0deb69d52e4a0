-- ===== src/Tests/Hosts.antt =====
-- Directories of a host.
use directory_size_exporter.Base.{
  ℕ, zero, suc, ◌<◌, ◌≡◌, refl, sym, ◌∙◌, true, false, none, some, List, [], ◌∷◌, ◌++◌, Str, str,
  str_eq, ◌==◌, if◌then◌else◌, length, take, drop, take-append-drop, arith, add64,
}
use directory_size_exporter.Fsstat.System.{
  Os, SystemDir, RawStat, fill_file_stat, filled, end_of_file, or_eof,
}
use directory_size_exporter.Fsstat.System.Still.{ReadsStill, linux_env}
use directory_size_exporter.Fsstat.System.Walked.{process_dir-linux}
use directory_size_exporter.Scan.Target.{TargetScan, no_totals, flush, new_target_scan}
use directory_size_exporter.Scan.Walk.{Entry, DirRef, WalkConfig, process_dir}
use directory_size_exporter.Scan.Walk.Pass.{walk_entries}
use directory_size_exporter.Tests.{at_leisure, at_leisure-IsUnhurried, day, dir_mode, plain_mode}

-- A host of one directory; its state is what is left to read.
abbrev raw : RawStat
raw = record { size = 10; blocks = 8; dev = 1; ino = 2; nlink = 1; mode = 33188 }

abbrev host : Os (List Entry)
host = record {
  open_path = λ path w. (none, w);
  read_dir = λ n w. ((take n w, none), drop n w);
  fstatat = λ name w. ((none, raw), w);
  lstat_path = λ path w. ((none, raw), w);
  lstat_info = λ path w.
      ((none, record { size = 10; mode = if path == day then dir_mode else plain_mode }), w);
  close_file = λ w. (none, w);
}

abbrev Left : List Entry → List Entry → Type 0
Left es w = w ≡ es

emptied :
    (n : ℕ) (w : List Entry)
    → 0 < n
    → take n w ≡ []
    → (drop n w ≡ []) × (or_eof none ≡ some end_of_file)
emptied zero w pos none_left = absurd (omega (arith, pos))
emptied (suc n) [] pos none_left = (refl, refl)
emptied (suc n) (e ∷ w) pos none_left = absurd (ground (arith, none_left))

host-ReadsStill : ReadsStill host Left
host-ReadsStill = record {
  reads = λ n es h pos left.
      (drop n h, sym left ∙ sym (take-append-drop n h), refl, λ _. refl, emptied n h pos);
}

abbrev entries : List Entry
entries =
    record { name = str "a"; entry_type = plain_mode }
    ∷ record { name = str "b"; entry_type = plain_mode }
    ∷ []

abbrev at_day : SystemDir (List Entry)
at_day = record { path = []; has_file = false; host = entries }

abbrev one_a_read : WalkConfig
one_a_read = record {
  batch_size = 1;
  one_filesystem = true;
  dedup_hardlinks = true;
  limited = true;
}

abbrev root : DirRef
root = record { path = day; depth = 0 }

abbrev fresh : TargetScan
fresh = new_target_scan day 50 1000

abbrev joined : Str → Str → Str
joined path name = path ++ 47 ∷ name

process_dir-linux_example :
    let stat = λ (name : Str). filled none (fill_file_stat raw) in
    let (children, (totals, t)) =
      walk_entries one_a_read root joined stat entries [] (no_totals, fresh) in
    (d : SystemDir (List Entry)) × (process_dir
        (linux_env host joined at_leisure)
        one_a_read
        root
        3
        fresh
        at_day
      ≡ some
          (children, (flush (record totals { dirs = add64 totals.dirs (length children) }) t, d)))
unfolding new_target_scan
process_dir-linux_example =
    process_dir-linux host joined at_leisure Left (λ name. filled none (fill_file_stat raw))
      at_leisure-IsUnhurried host-ReadsStill (λ name es h at. (refl, at)) one_a_read root entries 3
      fresh at_day (omega arith) refl (omega arith) refl refl
