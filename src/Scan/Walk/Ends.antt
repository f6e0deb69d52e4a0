-- ===== src/Scan/Walk/Ends.antt =====
-- The reading of one directory comes to an end (internal/scan/walk.go), whatever fails on the way, and
-- keeps what the filesystem's operations keep.
use directory_size_exporter.Base.{
  ℕ, zero, suc, ◌+◌, ◌≤◌, ◌<◌, ◌≡◌, ◌⊎◌, refl, ap, true, false, Option, some, List, [], ◌∷◌, Str,
  length, nat_beq, arith, Bool-cases, Option-cases, inl, inr, if◌then◌else◌,
}
use directory_size_exporter.Scan.ErrClass.{Error}
use directory_size_exporter.Scan.Target.{DirTotals, TargetScan, no_totals, flush, stopping}
use directory_size_exporter.Scan.Walk.{
  Entry, DirRef, Env, WalkConfig, process_entry, process_batch, Round, leave, again, append_child,
  is_eof_error, is_read_fault, is_failed, finish_round, read_round, read_loop, process_dir,
  close_dir, note_failure,
}

-- The operations on an open directory keep `Keeps`, and each read that goes on leaves less to read.
pub record Shrinks {W : Type 0} (env : Env W) (Keeps : W → Type 0) (left : W → ℕ) : Type 0 where
  pub not_late : (w : W) → Keeps w → Keeps (env.ctx_err w).1 × (left (env.ctx_err w).1 ≤ left w)
  pub tokens :
      (n : ℕ) (w : W)
      → Keeps w
      → Keeps (env.wait_for_tokens n w).1 × (left (env.wait_for_tokens n w).1 ≤ left w)
  pub stats :
      (name : Str) (w : W)
      → Keeps w
      → Keeps (env.stat_entry name w).1 × (left (env.stat_entry name w).1 ≤ left w)
  pub reads :
      (n : ℕ) (w : W)
      → 0 < n
      → Keeps w
      → Keeps (env.read_some n w).1
        × (is_read_fault (env.read_some n w).0.1 ≡ false
            → nat_beq (length (env.read_some n w).0.0) 0 ≡ false
            → left (env.read_some n w).1 < left w)

module _ {W : Type 0} (env : Env W) (cfg : WalkConfig) (ref : DirRef) (Keeps : W → Type 0)
    (left : W → ℕ) (shrinks : Shrinks env Keeps left) where
  -- Kept, with no more to read than `n`.
  abbrev Within : ℕ → W → Type 0
  Within n w = Keeps w × (left w ≤ n)

  process_entry-Within :
      (entry : Entry) (totals : DirTotals) (t : TargetScan) (n : ℕ) (w : W)
      → Within n w
      → Within n (process_entry env cfg ref entry ((totals, t), w)).1.1
  unfolding process_entry
  process_entry-Within entry totals t n w (kept, few) =
      let (after, fewer) = shrinks.stats entry.name w kept in
      elim (Bool-cases entry.entry_type.symlink) [
        | inl link ↦ simp link (kept, few)
        | inr other ↦ simp other (after, omega (arith, few, fewer))
      ]

  process_batch-Within :
      (batch : List Entry) (children : List DirRef) (acc : DirTotals × TargetScan) (n : ℕ) (w : W)
      → Within n w
      → Within n (process_batch env cfg ref batch children (acc, w)).1.1
  unfolding process_batch
  process_batch-Within [] children acc n w within = within
  process_batch-Within (e ∷ batch) children (totals, t) n w within =
      let (child, (acc', w')) = process_entry env cfg ref e ((totals, t), w) in
      process_batch-Within batch (append_child child children) acc' n w'
        (process_entry-Within e totals t n w within)

  -- A round that leaves has kept it, and one that goes on has less to read.
  abbrev RoundKeeps : ℕ → Round W → Type 0
  RoundKeeps n (leave cs (a, w)) = Keeps w
  RoundKeeps n (again cs (a, w)) = Keeps w × (left w < n)

  ended-RoundKeeps :
      (n : ℕ) (err : Option Error) (got : List DirRef × ((DirTotals × TargetScan) × W))
      → Keeps got.1.1 × (left got.1.1 < n)
      → RoundKeeps n (if is_eof_error err then leave got.0 got.1 else again got.0 got.1)
  ended-RoundKeeps n err got within = elim (Bool-cases (is_eof_error err)) [
    | inl eof ↦ rw eof within.0
    | inr more ↦ rw more within
  ]

  finish_round-RoundKeeps :
      (batch : List Entry) (err : Option Error) (children : List DirRef)
      (acc : DirTotals × TargetScan) (n : ℕ) (w : W)
      → Keeps w
      → left w < n
      → RoundKeeps n (finish_round env cfg ref batch err children (acc, w))
  unfolding finish_round
  finish_round-RoundKeeps batch err children acc n w kept few = elim (Bool-cases cfg.limited) [
    | inl limited ↦
        let (after, fewer) = shrinks.tokens (length batch + 1) w kept in
        elim (Bool-cases (is_failed (env.wait_for_tokens (length batch + 1) w).0)) [
          | inl refused ↦ simp (limited, refused) after
          | inr granted ↦
              let (all, fewest) =
                process_batch-Within batch children acc (left w)
                  (env.wait_for_tokens (length batch + 1) w).1 (after, fewer) in
              simp (limited, granted) (ended-RoundKeeps n err _ (all, omega (arith, few, fewest)))
        ]
    | inr unlimited ↦
        let (all, fewest) =
          process_batch-Within batch children acc (left w) w (kept, omega arith) in
        simp unlimited (ended-RoundKeeps n err _ (all, omega (arith, few, fewest)))
  ]

  read_round-RoundKeeps :
      (children : List DirRef) (totals : DirTotals) (t : TargetScan) (w : W)
      → 0 < cfg.batch_size
      → Keeps w
      → RoundKeeps (left w) (read_round env cfg ref children ((totals, t), w))
  unfolding read_round
  read_round-RoundKeeps children totals t w pos kept =
      let (kept₁, fewer) = shrinks.not_late w kept in
      let w₁ = (env.ctx_err w).1 in
      let (kept₂, less) = shrinks.reads cfg.batch_size w₁ pos kept₁ in
      let ((batch, err), w₂) = env.read_some cfg.batch_size w₁ in
      elim (Bool-cases (stopping (env.ctx_err w).0 t)) [
        | inl late ↦ simp late kept₁
        | inr soon ↦ elim (Bool-cases (is_read_fault err)) [
          | inl fault ↦ simp (soon, fault) kept₂
          | inr fine ↦ elim (Bool-cases (nat_beq (length batch) 0)) [
            | inl empty ↦ simp (soon, fine, empty) kept₂
            | inr some_read ↦
                simp (soon, fine, some_read)
                  (finish_round-RoundKeeps batch err children (totals, t) (left w) w₂ kept₂
                    (omega (arith, fewer, less fine some_read)))
          ]
        ]
      ]

  read_loop-Keeps :
      (fuel : ℕ) (children : List DirRef) (acc : DirTotals × TargetScan) (w : W)
      → 0 < cfg.batch_size
      → Keeps w
      → left w < fuel
      → (r : List DirRef × ((DirTotals × TargetScan) × W)) × (read_loop env cfg ref fuel children
            (acc, w)
          ≡ some r)
        × Keeps r.1.1
  unfolding read_loop
  read_loop-Keeps zero children acc w pos kept enough = absurd (omega arith)
  read_loop-Keeps (suc fuel) children (totals, t) w pos kept enough =
      go (read_round env cfg ref children ((totals, t), w)) refl
        (read_round-RoundKeeps children totals t w pos kept) (read_loop-Keeps fuel)
    where
      go :
          (r : Round W)
          → read_round env cfg ref children ((totals, t), w) ≡ r
          → RoundKeeps (left w) r
          → ((cs : List DirRef) (a : DirTotals × TargetScan) (w : W)
              → 0 < cfg.batch_size
              → Keeps w
              → left w < fuel
              → (r : List DirRef × ((DirTotals × TargetScan) × W)) × (read_loop env cfg ref fuel cs
                    (a, w)
                  ≡ some r)
                × Keeps r.1.1)
          → (r : List DirRef × ((DirTotals × TargetScan) × W)) × (read_loop env cfg ref
                (suc fuel)
                children
                ((totals, t), w)
              ≡ some r)
            × Keeps r.1.1
      go (leave cs (a, w₁)) e k rounds = ((cs, (a, w₁)), rw (e, read_loop) refl, k)
      go (again cs (a, w₁)) e (k, less) rounds =
          let (r, done, kept') = rounds cs a w₁ pos k (omega arith) in
          (r, rw (e, read_loop) done, kept')

-- The reading of a directory ends, whatever fails: where a failed open keeps `Keeps` and a directory
-- that opens has less than the fuel to read, `processDir` returns, and it ends where the open failed,
-- or with the Close of a directory, before which `Keeps` holds.
pub process_dir-Keeps :
    {W : Type 0} (env : Env W) (cfg : WalkConfig) (ref : DirRef) (Keeps : W → Type 0) (left : W → ℕ)
    → Shrinks env Keeps left
    → (fuel : ℕ) (t : TargetScan) (w : W) → 0 < cfg.batch_size
    → Keeps (env.open_dir ref.path w).1
    → left (env.open_dir ref.path w).1 < fuel
    → (r : List DirRef × (TargetScan × W)) × (process_dir env cfg ref fuel t w ≡ some r)
      × (((is_failed (env.open_dir ref.path w).0 ≡ true) × (r.1.1 ≡ (env.open_dir ref.path w).1))
          ⊎ ((w' : W) × Keeps w' × (r.1.1 ≡ env.close w')))
unfolding process_dir
process_dir-Keeps env cfg ref Keeps left shrinks fuel t w pos kept enough =
    elim (Option-cases (env.open_dir ref.path w).0) [
      | inr (err, failed) ↦ (
        ([], (flush (note_failure err no_totals) t, (env.open_dir ref.path w).1)),
        rw (failed, process_dir) refl,
        inl (ap is_failed failed, refl),
      )
      | inl opened ↦
          let (r, done, kept') =
            read_loop-Keeps env cfg ref Keeps left shrinks fuel [] (no_totals, t)
              (env.open_dir ref.path w).1 pos kept enough in
          (
            close_dir env cfg ref r,
            rw (opened, process_dir) (rw (done, process_dir) refl),
            inr (r.1.1, kept', refl),
          )
    ]
