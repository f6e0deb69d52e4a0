-- ===== src/Collector/Filesystem/Once.antt =====
-- The series of `collectFilesystems` (internal/collector/filesystem.go) are distinct.
use directory_size_exporter.Base.{
  ℕ, ◌≡◌, refl, Bool, true, false, not, ◌&&◌, ◌||◌, List, [], ◌∷◌, map, All, Str, str_eq, str_beq,
  str_beq_iff, arith, if◌then◌else◌, ◌==◌, ap, sym, subst,
}
use directory_size_exporter.Base.Dict.{
  lookup, contains, keys, Distinct, Distinct-append, is_distinct, is_distinct_sound,
}
use directory_size_exporter.State.{count_or_zero}
use directory_size_exporter.Fsstat.{Capabilities}
use directory_size_exporter.Collector.Descs.{
  fs_names, entry_names, fs_size, fs_free, fs_avail, fs_files, fs_files_free, statfs_timeouts,
  fs_unavailable, mountpoint_info,
}
use directory_size_exporter.Collector.Series.{
  gauge, counter, flag, count, Sample, Series, series_eq, series_of, strs_eq, strs_beq_iff,
  All-when, All-map-append, All-weaken, Sub, keep, Sub-self, Sub-when, Sub-map, All-Sub,
  Distinct-Sub,
}
use directory_size_exporter.Collector.Filesystem.{
  FsEntry, FsInfo, fs_key, fs_samples, entry_samples, now_seen, collect_entries,
}
use mathlib.Core.List.{map-append}

-- The first label value is one of the targets.
abbrev pub starts_in : List Str → List Str → Bool
starts_in targets [] = false
starts_in targets (l ∷ _) = contains l targets

-- A series that the rest of the loop may send: of a filesystem not seen, or of a target to come.
abbrev pub fits : List (List Str) → List Str → Series → Bool
fits seen targets k =
    if contains k.name fs_names
    then not (contains k.labels seen)
    else (contains k.name entry_names && starts_in targets k.labels)

module _ (caps : Capabilities) (timeouts : List (Str × ℕ)) where
  abbrev fs_all : FsInfo → List Sample
  fs_all info =
      record { kind = gauge; desc = fs_size; value = count info.total_bytes; labels = fs_key info }
      ∷ record { kind = gauge; desc = fs_free; value = count info.free_bytes; labels = fs_key info }
      ∷ record {
        kind = gauge;
        desc = fs_avail;
        value = count info.avail_bytes;
        labels = fs_key info;
      }
      ∷ record {
        kind = gauge;
        desc = fs_files;
        value = count info.total_inodes;
        labels = fs_key info;
      }
      ∷ record {
        kind = gauge;
        desc = fs_files_free;
        value = count info.free_inodes;
        labels = fs_key info;
      }
      ∷ []

  fs_samples-Sub : (info : FsInfo) → Sub (fs_samples caps info) (fs_all info)
  fs_samples-Sub info = keep _ (keep _ (keep _ (Sub-when caps.fs_inodes (Sub-self _))))

  abbrev pub entry_all : List (List Str) → Str → FsEntry → List Sample
  entry_all seen target entry =
      record {
        kind = counter;
        desc = statfs_timeouts;
        value = count (count_or_zero (lookup target timeouts));
        labels = target ∷ [];
      }
      ∷ record {
        kind = gauge;
        desc = fs_unavailable;
        value = flag (not entry.available);
        labels = target ∷ [];
      }
      ∷ record {
        kind = gauge;
        desc = mountpoint_info;
        value = count 1;
        labels = target ∷ fs_key entry.info;
      }
      ∷ fs_all entry.info

  pub entry_samples-Sub :
      (seen : List (List Str)) (target : Str) (entry : FsEntry)
      → Sub (entry_samples caps timeouts seen target entry) (entry_all seen target entry)
  entry_samples-Sub seen target entry = keep _ (
      keep _ (
        Sub-when entry.available (
          keep _ (Sub-when (not (contains (fs_key entry.info) seen)) (fs_samples-Sub entry.info)))))

  entry_samples-Distinct :
      (seen : List (List Str)) (target : Str) (entry : FsEntry)
      → Distinct (map series_of (entry_samples caps timeouts seen target entry))
  unfolding contains str_beq is_distinct
  entry_samples-Distinct seen target entry =
      Distinct-Sub (Sub-map series_of (entry_samples-Sub seen target entry))
        (is_distinct_sound (map series_of (entry_all seen target entry)) refl)

  fs_samples-fit :
      (seen : List (List Str)) (targets : List Str) (info : FsInfo) (b : Bool)
      → contains (fs_key info) seen ≡ not b
      → All (λ k. fits seen targets k ≡ b) (map series_of (fs_samples caps info))
  unfolding contains str_beq
  fs_samples-fit seen targets info b h =
      All-Sub (λ k. fits seen targets k ≡ b) (Sub-map series_of (fs_samples-Sub info))
        (let one : not (contains (fs_key info) seen) ≡ b = ground (arith, h) in
          (one, (one, (one, (one, (one, tt))))))

  -- What one entry sends fits before it, and fits no more after it.
  entry_samples-fit :
      (seen : List (List Str)) (target : Str) (entry : FsEntry) (targets : List Str)
      → All
          (λ k. fits seen (target ∷ targets) k ≡ true)
          (map series_of (entry_samples caps timeouts seen target entry))
  unfolding contains str_beq
  entry_samples-fit seen target entry targets =
      let P = λ (k : Series). fits seen (target ∷ targets) k ≡ true in
      let own : (target == target || contains target targets) ≡ true =
        ground (arith, str_beq_iff target target) in
      (
        own,
        (
          own,
          All-when P series_of entry.available _ (λ on. (
            own,
            All-when P series_of (not (contains (fs_key entry.info) seen)) _ (λ new.
                fs_samples-fit seen (target ∷ targets) entry.info true (ground (arith, new))),
          )),
        ),
      )

  entry_samples-over :
      (seen : List (List Str)) (target : Str) (entry : FsEntry) (targets : List Str)
      → contains target targets ≡ false
      → All
          (λ k. fits (now_seen entry seen) targets k ≡ false)
          (map series_of (entry_samples caps timeouts seen target entry))
  unfolding contains str_beq
  entry_samples-over seen target entry targets gone =
      let P = λ (k : Series). fits (now_seen entry seen) targets k ≡ false in
      (
        gone,
        (
          gone,
          All-when P series_of entry.available _ (λ on. (
            gone,
            All-when P series_of (not (contains (fs_key entry.info) seen)) _ (λ new.
                fs_samples-fit (now_seen entry seen) targets entry.info false
                  (ground (arith, on, new, strs_beq_iff (fs_key entry.info) (fs_key entry.info)))),
          )),
        ),
      )

  -- What fits later fits now.
  fits-earlier :
      (seen : List (List Str)) (target : Str) (entry : FsEntry) (targets : List Str) (k : Series)
      → fits (now_seen entry seen) targets k ≡ true
      → fits seen (target ∷ targets) k ≡ true
  unfolding contains
  fits-earlier seen target entry targets k h = ground (arith, h)

  collect_entries-fit :
      (seen : List (List Str)) (entries : List (Str × FsEntry))
      → All
          (λ k. fits seen (keys entries) k ≡ true)
          (map series_of (collect_entries caps timeouts seen entries))
  unfolding collect_entries
  collect_entries-fit seen [] = tt
  collect_entries-fit seen ((target, entry) ∷ entries) =
      All-map-append (λ k. fits seen (target ∷ keys entries) k ≡ true) series_of
        (entry_samples caps timeouts seen target entry)
        (collect_entries caps timeouts (now_seen entry seen) entries)
        (entry_samples-fit seen target entry (keys entries))
        (All-weaken _ _ _ (fits-earlier seen target entry (keys entries))
          (collect_entries-fit (now_seen entry seen) entries))

  pub collect_entries-Distinct :
      (seen : List (List Str)) (entries : List (Str × FsEntry))
      → Distinct (keys entries)
      → Distinct (map series_of (collect_entries caps timeouts seen entries))
  unfolding collect_entries
  collect_entries-Distinct seen [] d = tt
  collect_entries-Distinct seen ((target, entry) ∷ entries) d =
      subst (λ (l : List Series). Distinct l)
        (sym (
          map-append series_of (entry_samples caps timeouts seen target entry)
            (collect_entries caps timeouts (now_seen entry seen) entries)))
        (Distinct-append (λ k. not (fits (now_seen entry seen) (keys entries) k))
          (map series_of (entry_samples caps timeouts seen target entry))
          (map series_of (collect_entries caps timeouts (now_seen entry seen) entries))
          (entry_samples-Distinct seen target entry)
          (collect_entries-Distinct (now_seen entry seen) entries d.1)
          (All-weaken (λ k. fits (now_seen entry seen) (keys entries) k ≡ false)
            (λ k. not (fits (now_seen entry seen) (keys entries) k) ≡ true)
            (map series_of (entry_samples caps timeouts seen target entry)) (λ k h. ap not h)
            (entry_samples-over seen target entry (keys entries) d.0))
          (All-weaken (λ k. fits (now_seen entry seen) (keys entries) k ≡ true)
            (λ k. not (fits (now_seen entry seen) (keys entries) k) ≡ false)
            (map series_of (collect_entries caps timeouts (now_seen entry seen) entries))
            (λ k h. ap not h) (collect_entries-fit (now_seen entry seen) entries)))

  -- Only metrics of this function are sent.
  pub collect_entries-named :
      (seen : List (List Str)) (entries : List (Str × FsEntry))
      → All
          (λ k. (contains k.name fs_names || contains k.name entry_names) ≡ true)
          (map series_of (collect_entries caps timeouts seen entries))
  collect_entries-named seen entries =
      All-weaken _ _ _ (λ k h. ground (arith, h)) (collect_entries-fit seen entries)
