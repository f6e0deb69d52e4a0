-- ===== src/Scan/Target/Laws.antt =====
-- Hard links are counted once per target, and a flush adds up.
use directory_size_exporter.Base.{
  ℕ, ◌+◌, ◌%◌, ◌^◌, ◌≤◌, ◌≡◌, inl, inr, refl, ◌∙◌, Bool, true, false, not, ◌&&◌, ◌||◌, List, [],
  ◌∷◌, if◌then◌else◌, ◌==◌, leb, Bool-cases, length, arith, is_pos64,
}
use directory_size_exporter.Base.Dict.{contains, Distinct}
use directory_size_exporter.Scan.Target.{
  FileStat, InodeKey, inode_eq, DirTotals, TargetScan, inode_beq_iff, count_file,
}

-- The files of a target, in the order in which they are met.
unfoldable pub count_files : Bool → List FileStat → DirTotals × TargetScan → DirTotals × TargetScan
count_files dedup [] (totals, t) = (totals, t)
count_files dedup (st ∷ sts) (totals, t) = count_files dedup sts (count_file dedup st totals t)

unfoldable pub size_of_files : List FileStat → ℕ
size_of_files [] = 0
size_of_files (st ∷ sts) = st.size + size_of_files sts

pub bytes-count_file :
    (dedup : Bool) (st : FileStat) (totals : DirTotals) (t : TargetScan)
    → ((count_file dedup st totals t).0.size + (count_file dedup st totals t).0.dedup_saved)
        % 2 ^ 64
      ≡ (totals.size + totals.dedup_saved + st.size) % 2 ^ 64
unfolding count_file
bytes-count_file dedup st totals t = ground arith

-- The bytes that are counted and the bytes that dedup saves are together the bytes of all the files,
-- modulo 2 ^ 64, whether or not dedup is on and whether or not the tracking is exhausted.
pub dedup_conserves_bytes :
    (dedup : Bool) (sts : List FileStat) (acc : DirTotals × TargetScan)
    → ((count_files dedup sts acc).0.size + (count_files dedup sts acc).0.dedup_saved) % 2 ^ 64
      ≡ (acc.0.size + acc.0.dedup_saved + size_of_files sts) % 2 ^ 64
unfolding count_files size_of_files
dedup_conserves_bytes dedup [] (totals, t) = omega arith
dedup_conserves_bytes dedup (st ∷ sts) (totals, t) = omega (
  arith,
  bytes-count_file dedup st totals t,
  dedup_conserves_bytes dedup sts (count_file dedup st totals t),
)

abbrev pub key_of : FileStat → InodeKey
key_of st = record { dev = st.dev; ino = st.ino }

-- How many of the files have a single link.
unfoldable pub singles : List FileStat → ℕ
singles [] = 0
singles (st ∷ sts) = (if leb st.nlink 1 then 1 else 0) + singles sts

-- Some file with several links has the key.
unfoldable pub is_linked : InodeKey → List FileStat → Bool
is_linked k [] = false
is_linked k (st ∷ sts) = (not (leb st.nlink 1) && key_of st == k) || is_linked k sts

-- What one file does to the set of inodes, with dedup on.
record Tracks (st : FileStat) (acc next : DirTotals × TargetScan) : Type 0 where
  stays : acc.1.inodes_exhausted ≡ true → next.1.inodes_exhausted ≡ true
  distinct : Distinct acc.1.inodes → Distinct next.1.inodes
  limit : next.1.max_tracked ≡ acc.1.max_tracked
  bounded :
      (m : ℕ)
      → acc.1.max_tracked ≡ m
      → is_pos64 m ≡ true
      → length acc.1.inodes ≤ m
      → length next.1.inodes ≤ m
  counted :
      next.1.inodes_exhausted ≡ false
      → (next.0.files + length acc.1.inodes) % 2 ^ 64
        ≡ (acc.0.files + (if leb st.nlink 1 then 1 else 0) + length next.1.inodes) % 2 ^ 64
  members :
      next.1.inodes_exhausted ≡ false
      → (k : InodeKey)
      → contains k next.1.inodes
        ≡ (contains k acc.1.inodes || (not (leb st.nlink 1) && key_of st == k))

count_file-Tracks :
    (st : FileStat) (totals : DirTotals) (t : TargetScan)
    → Tracks st (totals, t) (count_file true st totals t)
unfolding count_file contains
count_file-Tracks st totals t = record {
  stays = ground arith;
  distinct = ground arith;
  limit = ground arith;
  bounded = λ m e pos h. ground arith;
  counted = ground arith;
  members = λ e k. ground (arith, inode_beq_iff (key_of st) k);
}

stays-count_files :
    (sts : List FileStat) (acc : DirTotals × TargetScan)
    → acc.1.inodes_exhausted ≡ true
    → (count_files true sts acc).1.inodes_exhausted ≡ true
unfolding count_files
stays-count_files [] (totals, t) h = h
stays-count_files (st ∷ sts) (totals, t) h =
    stays-count_files sts (count_file true st totals t) ((count_file-Tracks st totals t).stays h)

-- If the tracking was not exhausted at the end, it was not on the way.
not_yet :
    (sts : List FileStat) (acc : DirTotals × TargetScan)
    → (count_files true sts acc).1.inodes_exhausted ≡ false
    → acc.1.inodes_exhausted ≡ false
not_yet sts acc h = elim (Bool-cases acc.1.inodes_exhausted) [
  | inl full ↦ absurd (ground (arith, stays-count_files sts acc full))
  | inr free ↦ free
]

hardlinks_tracked :
    (sts : List FileStat) (acc : DirTotals × TargetScan) (k : InodeKey)
    → (count_files true sts acc).1.inodes_exhausted ≡ false
    → contains k (count_files true sts acc).1.inodes ≡ (contains k acc.1.inodes || is_linked k sts)
unfolding count_files is_linked
hardlinks_tracked [] (totals, t) k free = ground arith
hardlinks_tracked (st ∷ sts) (totals, t) k free =
    let next = count_file true st totals t in
    let one = count_file-Tracks st totals t in
    ground (arith, hardlinks_tracked sts next k free, one.members (not_yet sts next free) k)

-- With dedup on, and the tracking not exhausted at the end, the files that count are those with one
-- link and one for each inode that is newly tracked, modulo 2 ^ 64; an inode is tracked exactly when
-- it was before or is that of a file with several links; and none is tracked twice, if none was
-- before.
pub hardlinks_counted_once :
    (sts : List FileStat) (acc : DirTotals × TargetScan) (k : InodeKey)
    → (count_files true sts acc).1.inodes_exhausted ≡ false
    → Distinct acc.1.inodes
    → (((count_files true sts acc).0.files + length acc.1.inodes) % 2 ^ 64
        ≡ (acc.0.files + singles sts + length (count_files true sts acc).1.inodes) % 2 ^ 64)
      × (contains k (count_files true sts acc).1.inodes
          ≡ (contains k acc.1.inodes || is_linked k sts))
      × Distinct (count_files true sts acc).1.inodes
unfolding count_files singles
hardlinks_counted_once [] (totals, t) k free d =
    (omega arith, hardlinks_tracked [] (totals, t) k free, d)
hardlinks_counted_once (st ∷ sts) (totals, t) k free d =
    let next = count_file true st totals t in
    let one = count_file-Tracks st totals t in
    let (counted, members, distinct) = hardlinks_counted_once sts next k free (one.distinct d) in
    (
      omega (arith, counted, one.counted (not_yet sts next free)),
      hardlinks_tracked (st ∷ sts) (totals, t) k free,
      distinct,
    )

tracked_below :
    (sts : List FileStat) (acc : DirTotals × TargetScan) (m : ℕ)
    → acc.1.max_tracked ≡ m
    → is_pos64 m ≡ true
    → length acc.1.inodes ≤ m
    → length (count_files true sts acc).1.inodes ≤ m
unfolding count_files
tracked_below [] (totals, t) m e pos h = h
tracked_below (st ∷ sts) (totals, t) m e pos h =
    let one = count_file-Tracks st totals t in
    tracked_below sts (count_file true st totals t) m (one.limit ∙ e) pos (one.bounded m e pos h)

-- With dedup on, the number of tracked inodes never passes a positive limit, if it does not at the
-- start.
pub tracked_bounded :
    (sts : List FileStat) (acc : DirTotals × TargetScan)
    → is_pos64 acc.1.max_tracked ≡ true
    → length acc.1.inodes ≤ acc.1.max_tracked
    → length (count_files true sts acc).1.inodes ≤ acc.1.max_tracked
tracked_bounded sts acc pos h = tracked_below sts acc acc.1.max_tracked refl pos h
