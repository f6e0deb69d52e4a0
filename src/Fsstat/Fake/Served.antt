-- ===== src/Fsstat/Fake/Served.antt =====
-- The walk of internal/scan/walk.go on the filesystem of internal/fsstat/fake.go.
use directory_size_exporter.Base.{
  ℕ, zero, suc, ◌+◌, ◌-◌, ◌%◌, ◌^◌, ◌<◌, ◌≡◌, refl, sym, ap, subst, ◌∙◌, ◌⊎◌, inl, inr, Bool-cases,
  true, false, Option, none, some, List, [], ◌∷◌, ◌++◌, Str, ltb, leb, arith,
}
use directory_size_exporter.Fsstat.Fake.{FakeNode, FakeFs, FakeDir}
use directory_size_exporter.Fsstat.Fake.Paths.{path_join}
use directory_size_exporter.Fsstat.Fake.Handles.{
  open_dir, close_handle, read_some, read_batch, stat_entry, status_of, entries_from, entry_at,
  total_of,
}
use directory_size_exporter.Scan.ErrClass.{Error}
use directory_size_exporter.Scan.Target.{FileStat}
use directory_size_exporter.Scan.Walk.{Entry, Env, Pace, IsUnhurried, is_read_fault, is_eof_error}
use directory_size_exporter.Scan.Walk.Pass.{Listing}

-- The handle that the walk holds, once it has opened a directory, and the state of the fake.
abbrev pub World : Type 0
World = FakeDir × FakeFs

abbrev pub hold : FakeDir → (Error ⊎ FakeDir) × FakeFs → Option Error × World
hold d (inl err, f) = (some err, (d, f))
hold d (inr d', f) = (none, (d', f))

-- `FakeFS` as the `FS` of a walk, with the context and the limiter of `pace`.
abbrev pub fake_env : (ℕ → Str → List Str → List Str) → Pace World → Env World
fake_env order pace = record {
  open_dir = λ p (d, f). hold d (open_dir order p f);
  read_some = read_some;
  stat_entry = stat_entry;
  close = λ (d, f). close_handle d f;
  ctx_err = λ w. (pace.late w, w);
  wait_for_tokens = λ n w. (pace.refusal n w, w);
  join = path_join;
}

pub entries_from-append :
    (nodes : List (Str × FakeNode)) (d : FakeDir) (i m n : ℕ)
    → entries_from nodes d i (m + n) ≡ entries_from nodes d i m ++ entries_from nodes d (i + m) n
unfolding entries_from
entries_from-append nodes d i zero n =
    let e : i + zero ≡ i = omega arith in let e' : zero + n ≡ n = omega arith in rw (e, e') refl
entries_from-append nodes d i (suc m) n =
    let e : suc m + n ≡ suc (m + n) = omega arith in
    let e' : i + suc m ≡ i + 1 + m = omega arith in
    rw (e, e') (ap (◌∷◌ (entry_at nodes d i)) (entries_from-append nodes d (i + 1) m n))

-- The cursor is not read.
pub entries_from_moved :
    (nodes : List (Str × FakeNode)) (d : FakeDir) (cursor i n : ℕ)
    → entries_from nodes (record d { cursor = cursor }) i n ≡ entries_from nodes d i n
unfolding entries_from entry_at
entries_from_moved nodes d cursor i zero = refl
entries_from_moved nodes d cursor i (suc n) =
    ap (◌∷◌ (entry_at nodes d i)) (entries_from_moved nodes d cursor (i + 1) n)

-- The entries that are still to be read from an open directory.
abbrev pub unread : FakeDir → List (Str × FakeNode) → List Entry
unread d nodes = entries_from nodes d d.cursor (total_of d - d.cursor)

-- What a read from an open directory does to the entries that are left.
record Reads (nodes : List (Str × FakeNode)) (d : FakeDir)
    (r : (List Entry × Option Error) × FakeDir) : Type 0 where
  whole : unread d nodes ≡ r.0.0 ++ unread r.1 nodes
  fine : is_read_fault r.0.1 ≡ false
  ends : is_eof_error r.0.1 ≡ true → unread r.1 nodes ≡ []
  emptied : r.0.0 ≡ [] → unread r.1 nodes ≡ []
  still_open : r.1.closed ≡ d.closed
  same_path : r.1.path ≡ d.path

advanced-unread :
    (nodes : List (Str × FakeNode)) (d : FakeDir) (m : ℕ)
    → d.cursor + m < total_of d + 1
    → unread d nodes
      ≡ entries_from nodes d d.cursor m ++ unread (record d { cursor = d.cursor + m }) nodes
advanced-unread nodes d m fits =
    let rest = total_of d - (d.cursor + m) in
    let e : total_of d - d.cursor ≡ m + rest = omega arith in
    rw (e, entries_from_moved nodes d (d.cursor + m) (d.cursor + m) rest)
      (entries_from-append nodes d d.cursor m rest)

batch-Reads :
    (nodes : List (Str × FakeNode)) (d : FakeDir) (m : ℕ)
    → 0 < m
    → d.cursor + m < total_of d + 1
    → Reads nodes d ((entries_from nodes d d.cursor m, none), record d { cursor = d.cursor + m })
unfolding entries_from
batch-Reads nodes d zero pos fits = absurd (omega (arith, pos))
batch-Reads nodes d (suc m) pos fits = record {
  whole = advanced-unread nodes d (suc m) fits;
  fine = refl;
  ends = λ h. absurd (ground (arith, h));
  emptied = λ h. absurd (ground (arith, h));
  still_open = refl;
  same_path = refl;
}

read_batch-Reads :
    (n : ℕ) (d : FakeDir) (nodes : List (Str × FakeNode))
    → 0 < n
    → Reads nodes d (read_batch n d nodes)
unfolding read_batch entries_from
read_batch-Reads n d nodes pos = elim (Bool-cases (leb (total_of d) d.cursor)) [
  | inl over ↦
      let e : unread d nodes ≡ [] = nothing_left over in
      rw over (record {
        whole = refl;
        fine = refl;
        ends = λ _. e;
        emptied = λ _. e;
        still_open = refl;
        same_path = refl;
      })
  | inr more ↦ elim (Bool-cases (ltb (total_of d) (d.cursor + n))) [
    | inl last ↦
        let e : total_of d ≡ d.cursor + (total_of d - d.cursor) = ground (arith, more) in
        rw (more, last)
          (subst
            (λ (k : ℕ). Reads nodes d (
              (entries_from nodes d d.cursor (total_of d - d.cursor), none),
              record d { cursor = k },
            ))
            (sym e)
            (batch-Reads nodes d (total_of d - d.cursor) (ground (arith, more))
              (ground (arith, more))))
    | inr within ↦
        let e : d.cursor + n - d.cursor ≡ n = omega arith in
        rw (more, within, e) (batch-Reads nodes d n pos (ground (arith, within)))
  ]
]
  where
    nothing_left : leb (total_of d) d.cursor ≡ true → unread d nodes ≡ []
    nothing_left over =
        let e : total_of d - d.cursor ≡ 0 = ground (arith, over) in rw (e, entries_from) refl

-- The entries `es` are still to be read from an open directory whose reads no hook stops, and whose
-- stats answer as `stat` does.
pub record Serves (stat : Str → Option Error × FileStat) (es : List Entry) (w : World)
    : Type 0 where
  pub opened : w.0.closed ≡ false
  pub unhooked : w.1.before_read ≡ none
  pub left : es ≡ unread w.0 w.1.nodes
  pub answers : (name : Str) → status_of w.0.path w.1 name ≡ stat name

status_of_path :
    (name p p' : Str) (f : FakeFs)
    → p ≡ p'
    → status_of p (record f { read_calls = (f.read_calls + 1) % 2 ^ 64 }) name ≡ status_of p' f name
unfolding status_of
status_of_path name p p' f same = ap (λ q. status_of q f name) same

module _ (order : ℕ → Str → List Str → List Str) (stat : Str → Option Error × FileStat) where
  stat_entry-Serves :
      (name : Str) (es : List Entry) (w : World)
      → Serves stat es w
      → ((stat_entry name w).0 ≡ stat name) × Serves stat es (stat_entry name w).1
  unfolding stat_entry status_of
  stat_entry-Serves name es (d, f) s = simp s.opened (
    s.answers name,
    record { opened = s.opened; unhooked = s.unhooked; left = s.left; answers = s.answers },
  )

  read_some_lem :
      (n : ℕ) (d : FakeDir) (f : FakeFs)
      → d.closed ≡ false
      → f.before_read ≡ none
      → read_some n (d, f) ≡ (
        (read_batch n d f.nodes).0,
        ((read_batch n d f.nodes).1, record f { read_calls = (f.read_calls + 1) % 2 ^ 64 }),
      )
  unfolding read_some
  read_some_lem n d f opened unhooked = simp (opened, unhooked)

  read-Serves :
      (n : ℕ) (es : List Entry) (w : World)
      → 0 < n
      → Serves stat es w
      → (rest : List Entry) × (es ≡ (read_some n w).0.0 ++ rest)
        × Serves stat rest (read_some n w).1
        × (is_read_fault (read_some n w).0.1 ≡ false)
        × (is_eof_error (read_some n w).0.1 ≡ true → rest ≡ [])
        × ((read_some n w).0.0 ≡ [] → rest ≡ [])
  read-Serves n es (d, f) pos s =
      let r = read_batch-Reads n d f.nodes pos in
      rw (read_some_lem n d f s.opened s.unhooked) (
        unread (read_batch n d f.nodes).1 f.nodes,
        s.left ∙ r.whole,
        record {
          opened = r.still_open ∙ s.opened;
          unhooked = s.unhooked;
          left = refl;
          answers = λ name.
              status_of_path name (read_batch n d f.nodes).1.path d.path f r.same_path
              ∙ s.answers name;
        },
        r.fine,
        r.ends,
        r.emptied,
      )

  -- A directory of the fake, once it is open, stays as it is while it is read.
  pub fake-Listing :
      (pace : Pace World) → IsUnhurried pace → Listing (fake_env order pace) stat (Serves stat)
  fake-Listing pace calm = record {
    not_late = λ es w at. (calm.not_late w, at);
    tokens = λ n es w at. (calm.granted n w, at);
    stats = stat_entry-Serves;
    reads = read-Serves;
  }
