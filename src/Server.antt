-- ===== src/Server.antt =====
-- internal/server/server.go: the routes and the handlers. A request has a clean path; what it is routed
-- to is said of a metrics path that is a pattern without wildcards, method or host.
pub mod Routes
pub mod Answers
use directory_size_exporter.Base.{
  ℕ, Bool, true, false, not, ◌&&◌, ◌||◌, Option, none, some, List, [], ◌∷◌, ◌++◌, Str, str, str_eq,
  ◌==◌, if◌then◌else◌, ltb, length, is_pos64, second, ◌*◌,
}
use mathlib.Core.Option
use directory_size_exporter.Base.Dict.{lookup, has, insert}
use directory_size_exporter.Targets.Paths.{has_prefix, ends_in_separator, is_empty}

-- `Options`; `ready` is what the callback answers, where there is one.
pub record Options : Type 0 where
  pub metrics_path : Str
  pub enable_lifecycle : Bool
  pub ready_requires_scan : Bool
  pub has_reload : Bool
  pub ready : Option Bool
  pub reload_timeout : ℕ

pub data Handler : Type 0 where
  metrics : Handler
  healthy : Handler
  ready : Handler
  reload : Handler
  landing : Handler

-- `http.ServeMux`: the pattern of each handler.
abbrev pub Mux : Type 0
Mux = List (Str × Handler)

abbrev pub with_default_path : Options → Str
with_default_path opts = if is_empty opts.metrics_path then str "/metrics" else opts.metrics_path

-- `panics_on` says whether `Handle` of net/http panics: on a pattern that is invalid, or that conflicts
-- with one that is there.
module _ (panics_on : Str → Mux → Bool) where
  -- `Handle`; `none` is the panic.
  unfoldable pub handle : Str → Handler → Option Mux → Option Mux
  handle pattern handler none = none
  handle pattern handler (some mux) =
      if panics_on pattern mux then none else some ((pattern, handler) ∷ mux)

  -- `New`
  unfoldable pub new_mux : Options → Option Mux
  new_mux opts =
      let first = handle (with_default_path opts) metrics (some []) in
      let second = handle (str "/-/healthy") healthy first in
      let third = handle (str "/-/ready") ready second in
      let fourth =
        if opts.enable_lifecycle && opts.has_reload
        then handle (str "/-/reload") reload third
        else third in
      handle (str "/") landing fourth

-- A pattern that ends in a separator has its whole subtree.
abbrev pub covers : Str → Str → Bool
covers path pattern = ends_in_separator pattern && has_prefix path pattern

-- The longest of the subtrees that have the path.
unfoldable pub longest_subtree : Str → Mux → Option (Str × Handler)
longest_subtree path [] = none
longest_subtree path ((pattern, handler) ∷ mux) =
    let rest = longest_subtree path mux in
    if covers path pattern
    then elim rest [
      | none ↦ some (pattern, handler)
      | some (other, h) ↦
          if ltb (length pattern) (length other) then some (other, h) else some (pattern, handler)
    ]
    else rest

-- What the mux does with a request: a handler, or a redirect to the subtree.
pub data Route : Type 0 where
  to_handler : Handler → Route
  to_subtree : Route
  not_found : Route

unfoldable pub route : Mux → Str → Route
route mux path =
    let under : Route = elim (longest_subtree path mux) [
      | none ↦ not_found
      | some (_, h) ↦ to_handler h
    ] in
    elim (lookup path mux) [
      | some h ↦ to_handler h
      | none ↦
          if not (ends_in_separator path) && has (path ++ str "/") mux then to_subtree else under
    ]

-- What is written to the client; the header `Allow` only where the source sets it.
pub record Response : Type 0 where
  pub status : ℕ
  pub body : Str
  pub allow : Option Str

-- `writePlain`, and `http.Error`, which writes the same.
abbrev pub write_plain : ℕ → Str → Response
write_plain status body = record { status = status; body = body ++ 10 ∷ []; allow = none }

-- `handleHealthy`
unfoldable pub handle_healthy : Bool → Response
handle_healthy is_healthy =
    if not is_healthy then write_plain 503 (str "shutting down") else write_plain 200 (str "OK")

-- `handleReady`
unfoldable pub handle_ready : Options → Response
handle_ready opts =
    if opts.ready_requires_scan && not (Option.get_or opts.ready true)
    then write_plain 503 (str "waiting for the first scan cycle to complete")
    else write_plain 200 (str "READY")

-- `reloadTimeout`
abbrev pub timeout_of : Options → ℕ
timeout_of opts = if is_pos64 opts.reload_timeout then opts.reload_timeout else 20 * second

-- What a request to reload does: its answer, whether it calls `Reload`, and what it logs.
pub record Handled : Type 0 where
  pub response : Response
  pub called : Bool
  pub logged : Option Str

-- `handleReload`: `result` is the error that `Reload` returns in the end, `late` says that the timer
-- won; `show_duration` is `Duration.String`.
unfoldable pub handle_reload : (ℕ → Str) → Options → Str → Option Str → Bool → Handled
handle_reload show_duration opts method result late =
    if not (method == str "POST") && not (method == str "PUT")
    then record {
      response = record (write_plain 405 (str "reload requires POST")) {
        allow = some (str "POST, PUT");
      };
      called = false;
      logged = none;
    }
    else if late
    then record {
      response = write_plain 202 (
          str "reload is taking longer than "
          ++ (show_duration (timeout_of opts)
              ++ str " and is continuing in the background; check the logs for its outcome"));
      called = true;
      logged = result;
    }
    else record {
      response = elim result [
        | none ↦ write_plain 200 (str "reloaded")
        | some err ↦ write_plain 500 (str "reload failed: " ++ err)
      ];
      called = true;
      logged = result;
    }

-- `landingHandler`; `page` is the landing page of exporter-toolkit, `none` where building it failed.
unfoldable pub handle_landing : Option Response → Str → Str → Response
handle_landing page metrics_path path =
    if not (path == str "/") then write_plain 404 (str "404 page not found") else elim page [
      | none ↦ write_plain 200 (str "Directory Size Exporter" ++ (10 ∷ metrics_path))
      | some response ↦ response
    ]
