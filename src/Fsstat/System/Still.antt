-- ===== src/Fsstat/System/Still.antt =====
-- A directory of the host that stays as it is while it is read, through internal/fsstat/fsstat_linux.go
-- and internal/fsstat/fsstat_windows.go.
use directory_size_exporter.Base.{
  ℕ, ◌<◌, ◌≡◌, ◌≢◌, ◌⊎◌, refl, sym, ap, subst, ◌∙◌, true, false, Option, none, some, List, [], ◌∷◌,
  ◌++◌, Str, length, nat_beq, arith, inl, inr,
}
use directory_size_exporter.Fsstat.System.{
  Os, SystemDir, fill_file_stat, fill_from_file_info, filled, or_eof, linux_open_dir,
  windows_open_dir, read_some_entries, linux_stat_entry, windows_read_some, windows_stat_entry,
  close_dir_file, windows_close, end_of_file,
}
use directory_size_exporter.Scan.ErrClass.{Error}
use directory_size_exporter.Scan.Target.{FileStat}
use directory_size_exporter.Scan.Walk.{Entry, Env, Pace, IsUnhurried, is_read_fault, is_eof_error}
use directory_size_exporter.Scan.Walk.Pass.{Listing}

-- What package os documents of `ReadDir` with a positive number, for a directory that stays as it is,
-- where in the states `At es` the entries `es` are still to be read: it returns some of them and no
-- error, and io.EOF only if none is left.
pub record ReadsStill {H : Type 0} (os : Os H) (At : List Entry → H → Type 0) : Type 0 where
  pub reads :
      (n : ℕ) (es : List Entry) (h : H)
      → 0 < n
      → At es h
      → (rest : List Entry) × (es ≡ (os.read_dir n h).0.0 ++ rest)
        × At rest (os.read_dir n h).1
        × ((os.read_dir n h).0.0 ≢ [] → (os.read_dir n h).0.1 ≡ none)
        × ((os.read_dir n h).0.0 ≡ []
            → (rest ≡ []) × (or_eof (os.read_dir n h).0.1 ≡ some end_of_file))

-- The filesystem of the host, with the context and the limiter of `pace`.
module _ {H : Type 0} (os : Os H) (join : Str → Str → Str) (pace : Pace (SystemDir H)) where
  abbrev pub linux_env : Env (SystemDir H)
  linux_env = record {
    open_dir = linux_open_dir os;
    read_some = read_some_entries os;
    stat_entry = linux_stat_entry os;
    close = λ d. (close_dir_file os d).1;
    ctx_err = λ w. (pace.late w, w);
    wait_for_tokens = λ n w. (pace.refusal n w, w);
    join = join;
  }

  abbrev pub windows_env : Env (SystemDir H)
  windows_env = record {
    open_dir = windows_open_dir os;
    read_some = windows_read_some os;
    stat_entry = windows_stat_entry os join;
    close = λ d. (windows_close os d).1;
    ctx_err = λ w. (pace.late w, w);
    wait_for_tokens = λ n w. (pace.refusal n w, w);
    join = join;
  }

-- The open directory at `path`, with `es` still to be read.
pub record Reading {H : Type 0} (At : List Entry → H → Type 0) (path : Str) (es : List Entry)
    (d : SystemDir H) : Type 0 where
  pub file : d.has_file ≡ true
  pub same_path : d.path ≡ path
  pub left : At es d.host

length-ne-zero : (es : List Entry) → es ≢ [] → nat_beq (length es) 0 ≡ false
length-ne-zero [] h = absurd (h refl)
length-ne-zero (e ∷ es) h = ground arith

List-cases : (es : List Entry) → (es ≡ []) ⊎ (es ≢ [])
List-cases [] = inl refl
List-cases (e ∷ es) = inr (λ h. absurd (ground (arith, h)))

module _ {H : Type 0} (os : Os H) (At : List Entry → H → Type 0) (still : ReadsStill os At)
    (path : Str) where
  abbrev Reads : ℕ → List Entry → SystemDir H → Type 0
  Reads n es d =
      (rest : List Entry) × (es ≡ (read_some_entries os n d).0.0 ++ rest)
      × Reading At path rest (read_some_entries os n d).1
      × (is_read_fault (read_some_entries os n d).0.1 ≡ false)
      × (is_eof_error (read_some_entries os n d).0.1 ≡ true → rest ≡ [])
      × ((read_some_entries os n d).0.0 ≡ [] → rest ≡ [])

  empty_read :
      (n : ℕ) (d : SystemDir H)
      → d.has_file ≡ true
      → (os.read_dir n d.host).0.0 ≡ []
      → read_some_entries os n d
        ≡ (([], or_eof (os.read_dir n d.host).0.1), record d { host = (os.read_dir n d.host).1 })
  unfolding read_some_entries
  empty_read n d file none_left = simp (file, none_left) refl

  some_entries :
      (n : ℕ) (d : SystemDir H)
      → d.has_file ≡ true
      → (os.read_dir n d.host).0.0 ≢ []
      → read_some_entries os n d
        ≡ ((os.read_dir n d.host).0, record d { host = (os.read_dir n d.host).1 })
  unfolding read_some_entries
  some_entries n d file some_read =
      let more : nat_beq (length (os.read_dir n d.host).0.0) 0 ≡ false =
        length-ne-zero (os.read_dir n d.host).0.0 some_read in
      simp (file, more) refl

  read_some_entries-Reading :
      (n : ℕ) (es : List Entry) (d : SystemDir H) → 0 < n → Reading At path es d → Reads n es d
  read_some_entries-Reading n es d pos r =
      let (rest, whole, at, fine, over) = still.reads n es d.host pos r.left in
      let after : Reading At path rest (record d { host = (os.read_dir n d.host).1 }) = record {
        file = r.file;
        same_path = r.same_path;
        left = at;
      } in
      elim (List-cases (os.read_dir n d.host).0.0) [
        | inl none_left ↦
            let (gone, eof) = over none_left in
            rw (empty_read n d r.file none_left) (
              rest,
              whole ∙ ap (λ es. es ++ rest) none_left,
              after,
              rw eof refl,
              λ _. gone,
              λ _. gone,
            )
        | inr some_read ↦
            let calm = fine some_read in
            rw (some_entries n d r.file some_read) (
              rest,
              whole,
              after,
              ap is_read_fault calm,
              λ eof. absurd (ground (arith, calm, eof)),
              λ empty. absurd (some_read empty),
            )
      ]

-- What a stat of a name gives, as long as the directory stays as it is.
abbrev pub StatsStill :
    {H : Type 0}
    → (Str → H → (Option Error × FileStat) × H)
    → (Str → Option Error × FileStat)
    → (List Entry → H → Type 0)
    → Type 0
StatsStill call stat At =
    (name : Str) (es : List Entry) (h : _)
    → At es h
    → ((call name h).0 ≡ stat name) × At es (call name h).1

-- What a stat does to the host, on Linux and, of a name in `path`, on Windows.
abbrev pub linux_status : {H : Type 0} → Os H → Str → H → (Option Error × FileStat) × H
linux_status os name h =
    let ((err, raw), h') = os.fstatat name h in (filled err (fill_file_stat raw), h')

abbrev pub windows_status :
    {H : Type 0} → Os H → (Str → Str → Str) → Str → Str → H → (Option Error × FileStat) × H
windows_status os join path name h =
    let ((err, info), h') = os.lstat_info (join path name) h in
    (filled err (fill_from_file_info info), h')

module _ {H : Type 0} (os : Os H) (join : Str → Str → Str) (At : List Entry → H → Type 0)
    (still : ReadsStill os At) (path : Str) (stat : Str → Option Error × FileStat) where
  linux_stat_lem :
      (name : Str) (d : SystemDir H)
      → d.has_file ≡ true
      → linux_stat_entry os name d
        ≡ ((linux_status os name d.host).0, record d { host = (linux_status os name d.host).1 })
  unfolding linux_stat_entry
  linux_stat_lem name d file = simp file refl

  linux_stat-Reading :
      StatsStill (linux_status os) stat At
      → (name : Str) (es : List Entry) (d : SystemDir H) → Reading At path es d
      → ((linux_stat_entry os name d).0 ≡ stat name)
        × Reading At path es (linux_stat_entry os name d).1
  linux_stat-Reading same name es d r =
      let (answer, at) = same name es d.host r.left in
      rw (linux_stat_lem name d r.file)
        (answer, record { file = r.file; same_path = r.same_path; left = at })

  windows_stat_lem :
      (name : Str) (d : SystemDir H)
      → d.has_file ≡ true
      → windows_stat_entry os join name d ≡ (
        (windows_status os join d.path name d.host).0,
        record d { host = (windows_status os join d.path name d.host).1 },
      )
  unfolding windows_stat_entry
  windows_stat_lem name d file = simp file refl

  windows_stat-Reading :
      StatsStill (windows_status os join path) stat At
      → (name : Str) (es : List Entry) (d : SystemDir H) → Reading At path es d
      → ((windows_stat_entry os join name d).0 ≡ stat name)
        × Reading At path es (windows_stat_entry os join name d).1
  windows_stat-Reading same name es d r =
      let (answer, at) =
        subst (λ p. StatsStill (windows_status os join p) stat At) (sym r.same_path) same name es
          d.host r.left in
      rw (windows_stat_lem name d r.file)
        (answer, record { file = r.file; same_path = r.same_path; left = at })

  pub linux-Listing :
      (pace : Pace (SystemDir H))
      → IsUnhurried pace
      → StatsStill (linux_status os) stat At
      → Listing (linux_env os join pace) stat (Reading At path)
  linux-Listing pace calm same = record {
    not_late = λ es w at. (calm.not_late w, at);
    tokens = λ n es w at. (calm.granted n w, at);
    stats = linux_stat-Reading same;
    reads = read_some_entries-Reading os At still path;
  }

  pub windows-Listing :
      (pace : Pace (SystemDir H))
      → IsUnhurried pace
      → StatsStill (windows_status os join path) stat At
      → Listing (windows_env os join pace) stat (Reading At path)
  windows-Listing pace calm same = record {
    not_late = λ es w at. (calm.not_late w, at);
    tokens = λ n es w at. (calm.granted n w, at);
    stats = windows_stat-Reading same;
    reads = read_some_entries-Reading os At still path;
  }
