-- ===== src/Tests/Listings.antt =====
-- Examples for internal/scan/walk.go.
use directory_size_exporter.Base.{
  ℕ, zero, suc, ◌<◌, ◌≡◌, refl, sym, ◌∙◌, true, false, Option, none, some, List, [], ◌∷◌, ◌++◌, Str,
  str, str_beq, str_eq, ◌==◌, if◌then◌else◌, arith, length, take, drop, take-append-drop, add64,
}
use directory_size_exporter.Scan.ErrClass.{Error}
use directory_size_exporter.Scan.Target.{FileStat, no_totals, TargetScan, new_target_scan, flush}
use directory_size_exporter.Scan.Walk.{
  Entry, DirRef, Env, WalkConfig, is_read_fault, is_eof_error, process_dir,
}
use directory_size_exporter.Scan.Walk.Pass.{walk_entries, Listing}
use directory_size_exporter.Scan.Walk.Listing.{process_dir-walk_entries}
use directory_size_exporter.Scan.Walk.Accounts.{Grows, count_kind, walk_entries-Grows}
use directory_size_exporter.Tests.{day, file, dir_mode, plain_mode}

abbrev end_of_file : Error
end_of_file = record { is_permission = false; is_not_exist = false; is_eof = true; errno = none }

-- The end of the directory is reported with no entries.
abbrev end_if_empty : List Entry → Option Error
end_if_empty [] = some end_of_file
end_if_empty (_ ∷ _) = none

-- The entry "d" is a directory, and every other one a file of ten bytes.
abbrev stat_of : Str → Option Error × FileStat
stat_of name =
    if name == str "d" then (none, record (file 1 1 0) { mode = dir_mode }) else (none, file 2 1 10)

-- A directory whose entries do not change; the world is what is left of them.
abbrev still_env : Env (List Entry)
still_env = record {
  open_dir = λ path w. (none, w);
  read_some = λ n w. ((take n w, end_if_empty (take n w)), drop n w);
  stat_entry = λ name w. (stat_of name, w);
  close = λ w. w;
  ctx_err = λ w. (false, w);
  wait_for_tokens = λ n w. (none, w);
  join = λ path name. path ++ 47 ∷ name;
}

-- The entries that are left are those of the world.
abbrev Left : List Entry → List Entry → Type 0
Left es w = w ≡ es

at_end :
    (n : ℕ) (w : List Entry)
    → 0 < n
    → (is_read_fault (end_if_empty (take n w)) ≡ false)
      × (is_eof_error (end_if_empty (take n w)) ≡ true → drop n w ≡ [])
      × (take n w ≡ [] → drop n w ≡ [])
at_end zero w h = absurd (omega (arith, h))
at_end (suc n) [] h = (refl, λ e. refl, λ e. refl)
at_end (suc n) (e ∷ w) h = (refl, λ q. absurd (cc), λ q. absurd (ground (arith, q)))

still-Listing : Listing still_env stat_of Left
still-Listing = record {
  not_late = λ es w h. (refl, h);
  tokens = λ n es w h. (refl, h);
  stats = λ name es w h. (refl, h);
  reads = λ n es w pos h. (
    drop n w,
    sym h ∙ sym (take-append-drop n w),
    refl,
    (at_end n w pos).0,
    (at_end n w pos).1,
    (at_end n w pos).2,
  );
}

-- Two entries a round.
abbrev by_two : WalkConfig
by_two = record { batch_size = 2; one_filesystem = false; dedup_hardlinks = false; limited = true }

abbrev entries : List Entry
entries =
    record { name = str "a"; entry_type = plain_mode }
    ∷ record { name = str "d"; entry_type = dir_mode }
    ∷ record { name = str "b"; entry_type = plain_mode }
    ∷ []

abbrev root : DirRef
root = record { path = day; depth = 0 }

abbrev fresh : TargetScan
fresh = new_target_scan day 50 1000

process_dir-walk_entries_example :
    let (children, (totals, t)) =
      walk_entries by_two root still_env.join stat_of entries [] (no_totals, fresh) in
    (w : List Entry) × (process_dir still_env by_two root 4 fresh entries
      ≡ some
          (children, (flush (record totals { dirs = add64 totals.dirs (length children) }) t, w)))
unfolding new_target_scan
process_dir-walk_entries_example =
    process_dir-walk_entries still_env by_two root stat_of Left still-Listing entries 4 fresh
      entries (omega arith) refl (omega arith) refl refl

walk_entries-Grows_example :
    let (children, (totals, t)) =
      walk_entries by_two root still_env.join stat_of entries [] (no_totals, fresh) in
    Grows 3 0 1 20 ([], no_totals) (children, totals)
unfolding count_kind str_beq
walk_entries-Grows_example =
    walk_entries-Grows by_two root still_env.join stat_of entries [] no_totals fresh
