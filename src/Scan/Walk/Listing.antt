-- ===== src/Scan/Walk/Listing.antt =====
-- The walk of one directory that stays as it is while it is read.
use directory_size_exporter.Base.{
  ℕ, zero, suc, ◌+◌, ◌<◌, ◌≡◌, refl, sym, ap₂, ◌∙◌, true, false, Option, none, some, List, [], ◌∷◌,
  ◌++◌, Str, if◌then◌else◌, add64, length, length-append, arith, Bool-cases, nat_beq, inl, inr,
}
use directory_size_exporter.Scan.ErrClass.{Error}
use directory_size_exporter.Scan.Target.{FileStat, DirTotals, no_totals, TargetScan, flush}
use directory_size_exporter.Scan.Walk.{
  Entry, DirRef, Env, WalkConfig, append_child, process_entry, process_batch, Round, leave, again,
  is_eof_error, finish_round, read_round, read_loop, process_dir,
}
use directory_size_exporter.Scan.Walk.Pass.{
  Listing, walk_entry, walk_entries, walk_entries-append, abandoned-walk_entries,
}

module _ {W : Type 0} (env : Env W) (cfg : WalkConfig) (ref : DirRef)
    (stat : Str → Option Error × FileStat) (At : List Entry → W → Type 0)
    (listing : Listing env stat At) where
  -- A step of the code agrees with the specification, and what is still to be read stays.
  record Agrees {A : Type 0} (es : List Entry) (got : A × ((DirTotals × TargetScan) × W))
      (want : A × (DirTotals × TargetScan)) : Type 0 where
    result : got.0 ≡ want.0
    state : got.1.0 ≡ want.1
    left : At es got.1.1

  process_entry-Agrees :
      (entry : Entry) (es : List Entry) (totals : DirTotals) (t : TargetScan) (w : W)
      → At es w
      → Agrees es
          (process_entry env cfg ref entry ((totals, t), w))
          (walk_entry cfg ref env.join stat entry (totals, t))
  unfolding process_entry walk_entry
  process_entry-Agrees entry es totals t w at =
      let (same, still) = listing.stats entry.name es w at in
      elim (Bool-cases entry.entry_type.symlink) [
        | inl link ↦ rw link (record { result = refl; state = refl; left = at })
        | inr other ↦ rw (other, same) (record { result = refl; state = refl; left = still })
      ]

  process_batch-Agrees :
      (batch es : List Entry) (children : List DirRef) (acc : DirTotals × TargetScan) (w : W)
      → At es w
      → Agrees es
          (process_batch env cfg ref batch children (acc, w))
          (walk_entries cfg ref env.join stat batch children acc)
  unfolding process_batch walk_entries
  process_batch-Agrees [] es children acc w at = record { result = refl; state = refl; left = at }
  process_batch-Agrees (e ∷ batch) es children (totals, t) w at =
      let one = process_entry-Agrees e es totals t w at in
      let (child, (acc', w')) = process_entry env cfg ref e ((totals, t), w) in
      rw (← one.result, ← one.state)
        (process_batch-Agrees batch es (append_child child children) acc' w' one.left)

  abbrev walk :
      List Entry → List DirRef → DirTotals × TargetScan → List DirRef × (DirTotals × TargetScan)
  walk = walk_entries cfg ref env.join stat

  -- A round that leaves has walked all the entries; another round has fewer left.
  abbrev RoundAgrees : List Entry → List DirRef → DirTotals × TargetScan → Round W → Type 0
  RoundAgrees es children acc (leave cs (a, w)) = (cs, a) ≡ walk es children acc
  RoundAgrees es children acc (again cs (a, w)) =
      (rest : List Entry) × At rest w
      × (length rest < length es)
      × (a.1.abandoned ≡ false)
      × (walk rest cs a ≡ walk es children acc)

  walk_entries-nil :
      (es : List Entry) (children : List DirRef) (acc : DirTotals × TargetScan)
      → es ≡ []
      → walk es children acc ≡ (children, acc)
  unfolding walk_entries
  walk_entries-nil es children acc e = rw e refl

  batch-RoundAgrees :
      (batch rest : List Entry) (err : Option Error) (children : List DirRef)
      (acc : DirTotals × TargetScan) (got : List DirRef × ((DirTotals × TargetScan) × W))
      → acc.1.abandoned ≡ false
      → 0 < length batch
      → Agrees rest got (walk batch children acc)
      → (is_eof_error err ≡ true → rest ≡ [])
      → RoundAgrees
          (batch ++ rest)
          children
          acc
          (if is_eof_error err then leave got.0 got.1 else again got.0 got.1)
  batch-RoundAgrees batch rest err children acc got free some_read agrees ends =
      elim (Bool-cases (is_eof_error err)) [
        | inl eof ↦ rw eof (sym (joined ∙ walk_entries-nil rest got.0 got.1.0 (ends eof)))
        | inr more ↦ rw more (
          rest,
          agrees.left,
          omega (arith, length-append batch rest),
          rw agrees.state (abandoned-walk_entries cfg ref env.join stat batch children acc ∙ free),
          sym joined,
        )
      ]
    where
      joined : walk (batch ++ rest) children acc ≡ walk rest got.0 got.1.0
      joined =
          walk_entries-append cfg ref env.join stat batch rest children acc
          ∙ rw (agrees.result, agrees.state) refl

  finish_round-RoundAgrees :
      (batch rest : List Entry) (err : Option Error) (children : List DirRef) (totals : DirTotals)
      (t : TargetScan) (w : W)
      → t.abandoned ≡ false
      → 0 < length batch
      → At rest w
      → (is_eof_error err ≡ true → rest ≡ [])
      → RoundAgrees
          (batch ++ rest)
          children
          (totals, t)
          (finish_round env cfg ref batch err children ((totals, t), w))
  unfolding finish_round
  finish_round-RoundAgrees batch rest err children totals t w free some_read at ends =
      elim (Bool-cases cfg.limited) [
        | inl limited ↦
            let (granted, still) = listing.tokens (length batch + 1) rest w at in
            simp (limited, granted)
              (batch-RoundAgrees batch rest err children (totals, t) _ free some_read
                (process_batch-Agrees batch rest children (totals, t)
                  (env.wait_for_tokens (length batch + 1) w).1 still)
                ends)
        | inr unlimited ↦ simp unlimited (
            batch-RoundAgrees batch rest err children (totals, t) _ free some_read
              (process_batch-Agrees batch rest children (totals, t) w at) ends)
      ]

  length_pos : (batch : List Entry) → nat_beq (length batch) 0 ≡ false → 0 < length batch
  length_pos batch h = ground arith

  length-eq-zero : (batch : List Entry) → nat_beq (length batch) 0 ≡ true → batch ≡ []
  length-eq-zero [] h = refl
  length-eq-zero (e ∷ batch) h = absurd (ground arith)

  read_round-RoundAgrees :
      (es : List Entry) (children : List DirRef) (totals : DirTotals) (t : TargetScan) (w : W)
      → 0 < cfg.batch_size
      → t.abandoned ≡ false
      → At es w
      → RoundAgrees es children (totals, t) (read_round env cfg ref children ((totals, t), w))
  unfolding read_round
  read_round-RoundAgrees es children totals t w pos free at =
      let (soon, at₁) = listing.not_late es w at in
      let (rest, whole, at₂, fine, ends, empty) =
        listing.reads cfg.batch_size es (env.ctx_err w).1 pos at₁ in
      let batch = (env.read_some cfg.batch_size (env.ctx_err w).1).0.0 in
      elim (Bool-cases (nat_beq (length batch) 0)) [
        | inl none_left ↦
            let emptied = length-eq-zero batch none_left in
            simp (free, soon, fine, none_left)
              (sym (
                walk_entries-nil es children (totals, t)
                  (whole ∙ ap₂ ◌++◌ emptied (empty emptied))))
        | inr some_read ↦
            simp (free, soon, fine, some_read)
              (rw whole (
                finish_round-RoundAgrees batch rest _ children totals t _ free
                  (length_pos batch some_read) at₂ ends))
      ]

  read_loop-walk :
      (fuel : ℕ) (es : List Entry) (children : List DirRef) (acc : DirTotals × TargetScan) (w : W)
      → 0 < cfg.batch_size
      → acc.1.abandoned ≡ false
      → At es w
      → length es < fuel
      → (w' : W) × (read_loop env cfg ref fuel children (acc, w)
          ≡ some ((walk es children acc).0, ((walk es children acc).1, w')))
  unfolding read_loop
  read_loop-walk zero es children acc w pos free at enough = absurd (omega arith)
  read_loop-walk (suc fuel) es children (totals, t) w pos free at enough =
      go (read_round env cfg ref children ((totals, t), w)) refl
        (read_round-RoundAgrees es children totals t w pos free at) (read_loop-walk fuel)
    where
      go :
          (r : Round W)
          → read_round env cfg ref children ((totals, t), w) ≡ r
          → RoundAgrees es children (totals, t) r
          → ((rest : List Entry) (cs : List DirRef) (a : DirTotals × TargetScan) (w : W)
              → 0 < cfg.batch_size
              → a.1.abandoned ≡ false
              → At rest w
              → length rest < fuel
              → (w' : W) × (read_loop env cfg ref fuel cs (a, w)
                  ≡ some ((walk rest cs a).0, ((walk rest cs a).1, w'))))
          → (w' : W) × (read_loop env cfg ref (suc fuel) children ((totals, t), w)
              ≡ some ((walk es children (totals, t)).0, ((walk es children (totals, t)).1, w')))
      go (leave cs (a, w₁)) e h rounds = (w₁, rw (e, read_loop) (rw (← h) refl))
      go (again cs (a, w₁)) e (rest, at₁, fewer, free₁, same) rounds =
          let (w', done) = rounds rest cs a w₁ pos free₁ at₁ (omega arith) in
          (w', rw (e, read_loop) (rw (← same) done))

-- A directory that stays as it is while it is read, and whose scan is not stopped, is walked
-- completely: with fuel above the number of entries, `processDir` returns, and whatever the batch
-- size and the limiter, its children and the target's new totals are those of one pass over all the
-- entries, flushed once.
pub process_dir-walk_entries :
    {W : Type 0} (env : Env W) (cfg : WalkConfig) (ref : DirRef)
    (stat : Str → Option Error × FileStat) (At : List Entry → W → Type 0)
    → Listing env stat At
    → (es : List Entry) (fuel : ℕ) (t : TargetScan) (w : W) → 0 < cfg.batch_size
    → t.abandoned ≡ false
    → length es < fuel
    → (env.open_dir ref.path w).0 ≡ none
    → At es (env.open_dir ref.path w).1
    → let (children, (totals, t')) = walk_entries cfg ref env.join stat es [] (no_totals, t) in
      (w' : W) × (process_dir env cfg ref fuel t w
        ≡ some (
          children,
          (flush (record totals { dirs = add64 totals.dirs (length children) }) t', w'),
        ))
unfolding process_dir
process_dir-walk_entries env cfg ref stat At listing es fuel t w pos free enough opened at =
    let (w', done) =
      read_loop-walk env cfg ref stat At listing fuel es [] (no_totals, t)
        (env.open_dir ref.path w).1 pos free at enough in
    (env.close w', rw (opened, process_dir) (rw (done, process_dir) refl))
