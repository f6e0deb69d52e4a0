-- ===== src/Server/Routes.antt =====
-- Which requests reach which handler (internal/server/server.go).
use directory_size_exporter.Base.{
  ◌≡◌, refl, sym, subst, ◌↔◌, inl, inr, Bool, true, false, not, nat_beq, ◌||◌, ◌&&◌, Bool-cases,
  Option, none, some, Option-cases, List, [], ◌∷◌, Str, str, str_eq, str_beq, str_beq_iff, ◌==◌,
  arith, if◌then◌else◌, ltb, length, All,
}
use directory_size_exporter.Base.Dict.{lookup, has, contains}
use directory_size_exporter.Targets.Paths.{separator, ends_in_separator}
use directory_size_exporter.Server.{
  Options, Handler, metrics, healthy, ready, reload, landing, Mux, handle, with_default_path,
  new_mux, covers, longest_subtree, to_handler, route,
}

-- The paths that the server keeps for itself.
abbrev pub reserved : Options → List Str
reserved opts =
    str "/-/healthy"
    ∷ str "/-/ready"
    ∷ str "/"
    ∷ (if opts.enable_lifecycle && opts.has_reload then str "/-/reload" ∷ [] else [])

beq_sym : (s t : Str) → (s == t) ≡ (t == s)
beq_sym s t = ground (arith, str_beq_iff s t, str_beq_iff t s)

-- A pattern that is a path: it starts with a separator, and has no wildcard, no escape and no space.
is_literal : Str → Bool
is_literal [] = true
is_literal (c ∷ s) =
    not (nat_beq c 123 || nat_beq c 37 || nat_beq c 32 || nat_beq c 9) && is_literal s

unfoldable pub is_plain : Str → Bool
unfolding is_literal
is_plain [] = false
is_plain (c ∷ s) = nat_beq c separator && is_literal s

-- What net/http documents of `Handle`: it panics if the pattern is invalid, or conflicts with one that
-- is there. Plain patterns are valid, and conflict only if they are equal.
abbrev pub PanicsOnConflict : (Str → Mux → Bool) → Type 0
PanicsOnConflict panics_on =
    (pattern : Str) (mux : Mux)
    → is_plain pattern ≡ true
    → All (λ e. is_plain e.0 ≡ true) mux
    → panics_on pattern mux ≡ has pattern mux

-- Where `Handle` panics as net/http documents, and the path of the metrics starts with a separator and
-- has no wildcard, escape or space, building the server panics exactly if that path is one of those that
-- the server keeps for itself.
pub new_mux_panics :
    (panics_on : Str → Mux → Bool) (opts : Options)
    → PanicsOnConflict panics_on
    → is_plain (with_default_path opts) ≡ true
    → (new_mux panics_on opts ≡ none) ↔ (contains (with_default_path opts) (reserved opts) ≡ true)
unfolding new_mux handle lookup contains str_beq is_plain
new_mux_panics panics_on opts doc plain =
    let p = with_default_path opts in
    let m₁ : Mux = (p, metrics) ∷ [] in
    let m₂ : Mux = (str "/-/healthy", healthy) ∷ m₁ in
    let m₃ : Mux = (str "/-/ready", ready) ∷ m₂ in
    let m₄ : Mux = (str "/-/reload", reload) ∷ m₃ in
    ground (
      arith,
      Bool-cases (opts.enable_lifecycle && opts.has_reload),
      beq_sym p (str "/-/healthy"),
      beq_sym p (str "/-/ready"),
      beq_sym p (str "/"),
      beq_sym p (str "/-/reload"),
      doc p [] plain tt,
      doc (str "/-/healthy") m₁ refl (plain, tt),
      doc (str "/-/ready") m₂ refl (refl, (plain, tt)),
      doc (str "/-/reload") m₃ refl (refl, (refl, (plain, tt))),
      doc (str "/") m₃ refl (refl, (refl, (plain, tt))),
      doc (str "/") m₄ refl (refl, (refl, (refl, (plain, tt)))),
    )

module _ (panics_on : Str → Mux → Bool) (P : Str × Handler → Type 0) where
  handle-All :
      (pattern : Str) (handler : Handler) (before : Option Mux) (mux : Mux)
      → P (pattern, handler)
      → ((m : Mux) → before ≡ some m → All P m)
      → handle panics_on pattern handler before ≡ some mux
      → All P mux
  unfolding handle
  handle-All pattern handler none mux here h e = absurd (ground (arith, e))
  handle-All pattern handler (some m) mux here h e = elim (Bool-cases (panics_on pattern m)) [
    | inl there ↦ absurd (ground (arith, e, there))
    | inr free ↦
        let same : (pattern, handler) ∷ m ≡ mux = ground (arith, e, free) in
        subst (All P) same (here, h m refl)
  ]

  lookup-All :
      (mux : Mux) (path : Str) (h : Handler) → All P mux → lookup path mux ≡ some h → P (path, h)
  unfolding lookup
  lookup-All [] path h all e = absurd (ground (arith, e))
  lookup-All ((p, g) ∷ mux) path h all e = elim (Bool-cases (p == path)) [
    | inl same ↦
        let it : (p, g) ≡ (path, h) = ground (arith, e, same, str_beq_iff p path) in
        subst P it all.0
    | inr other ↦ lookup-All mux path h all.1 (ground (arith, e, other))
  ]

  longest_subtree-All :
      (mux : Mux) (path : Str) (e : Str × Handler)
      → All P mux
      → longest_subtree path mux ≡ some e
      → P e × (covers path e.0 ≡ true)
  unfolding longest_subtree
  longest_subtree-All [] path e all h = absurd (ground (arith, h))
  longest_subtree-All ((p, g) ∷ mux) path e all h = elim (Bool-cases (covers path p)) [
    | inl here ↦ elim (Option-cases (longest_subtree path mux)) [
      | inl nothing ↦
          let it : (p, g) ≡ e = ground (arith, h, here, nothing) in
          subst (λ x. P x × (covers path x.0 ≡ true)) it (all.0, here)
      | inr (deeper, found) ↦ elim (Bool-cases (ltb (length p) (length deeper.0))) [
        | inl shorter ↦
            longest_subtree-All mux path e all.1 (ground (arith, h, here, found, shorter))
        | inr longer ↦
            let it : (p, g) ≡ e = ground (arith, h, here, found, longer) in
            subst (λ x. P x × (covers path x.0 ≡ true)) it (all.0, here)
      ]
    ]
    | inr beside ↦ longest_subtree-All mux path e all.1 (ground (arith, h, beside))
  ]

abbrev enabled : Options → Bool
enabled opts = opts.enable_lifecycle && opts.has_reload

abbrev IsOwn : Options → Str × Handler → Type 0
IsOwn opts e = e.1 ≡ reload → (e.0 ≡ str "/-/reload") × (enabled opts ≡ true)

optional-All :
    (panics_on : Str → Mux → Bool) (opts : Options) (b : Bool) (before : Option Mux) (mux : Mux)
    → enabled opts ≡ b
    → ((m : Mux) → before ≡ some m → All (IsOwn opts) m)
    → (if b then handle panics_on (str "/-/reload") reload before else before) ≡ some mux
    → All (IsOwn opts) mux
optional-All panics_on opts true before mux on h e =
    handle-All panics_on (IsOwn opts) (str "/-/reload") reload before mux (λ _. (refl, on)) h e
optional-All panics_on opts false before mux on h e = h mux e

new_mux-All :
    (panics_on : Str → Mux → Bool) (opts : Options) (mux : Mux)
    → new_mux panics_on opts ≡ some mux
    → All (IsOwn opts) mux
unfolding new_mux
new_mux-All panics_on opts mux =
    let first = handle panics_on (with_default_path opts) metrics (some []) in
    let second = handle panics_on (str "/-/healthy") healthy first in
    let third = handle panics_on (str "/-/ready") ready second in
    handle-All panics_on (IsOwn opts) (str "/") landing _ mux (λ e. absurd (ground (arith, e)))
      (λ m. optional-All panics_on opts (enabled opts) third m refl (λ m'.
        handle-All panics_on (IsOwn opts) (str "/-/ready") ready second m'
          (λ e. absurd (ground (arith, e)))
          (λ m''.
            handle-All panics_on (IsOwn opts) (str "/-/healthy") healthy first m''
              (λ e. absurd (ground (arith, e)))
              (λ n.
                handle-All panics_on (IsOwn opts) (with_default_path opts) metrics (some []) n
                  (λ e. absurd (ground (arith, e)))
                  (λ l e.
                    let same : [] ≡ l = ground (arith, e) in subst (All (IsOwn opts)) same tt)))))

no_subtree : (path q : Str) → q ≡ str "/-/reload" → covers path q ≡ true → ⊥
unfolding ends_in_separator
no_subtree path q at covered =
    let no : ends_in_separator q ≡ false = rw at refl in absurd (ground (arith, covered, no))

to_reload :
    (panics_on : Str → Mux → Bool) (opts : Options) (mux : Mux) (path : Str)
    → All (IsOwn opts) mux
    → route mux path ≡ to_handler reload
    → (path ≡ str "/-/reload") × (enabled opts ≡ true)
unfolding route
to_reload panics_on opts mux path all h = elim (Option-cases (lookup path mux)) [
  | inr (g, found) ↦
      lookup-All panics_on (IsOwn opts) mux path g all found (ground (arith, h, found))
  | inl missing ↦ elim (Option-cases (longest_subtree path mux)) [
    | inl nothing ↦ absurd (ground (arith, h, missing, nothing))
    | inr ((q, g), found) ↦
        let (own, covered) = longest_subtree-All panics_on (IsOwn opts) mux path (q, g) all found in
        let is_reload : g ≡ reload = ground (arith, h, missing, found) in
        let at : q ≡ str "/-/reload" = (own is_reload).0 in absurd (no_subtree path q at covered)
  ]
]

reached :
    (panics_on : Str → Mux → Bool) (opts : Options) (mux : Mux)
    → enabled opts ≡ true
    → new_mux panics_on opts ≡ some mux
    → route mux (str "/-/reload") ≡ to_handler reload
unfolding new_mux route handle lookup str_beq
reached panics_on opts mux on h = ground (arith, on, h)

-- A request reaches the handler of reloads exactly if its path is `/-/reload` and that endpoint is
-- enabled.
pub route_to_reload :
    (panics_on : Str → Mux → Bool) (opts : Options) (mux : Mux) (path : Str)
    → new_mux panics_on opts ≡ some mux
    → (route mux path ≡ to_handler reload)
      ↔ ((path ≡ str "/-/reload") × (opts.enable_lifecycle && opts.has_reload ≡ true))
route_to_reload panics_on opts mux path h = (
  to_reload panics_on opts mux path (new_mux-All panics_on opts mux h),
  λ (at, on).
      subst (λ p. route mux p ≡ to_handler reload) (sym at) (reached panics_on opts mux on h),
)
