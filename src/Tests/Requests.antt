-- ===== src/Tests/Requests.antt =====
-- Examples for internal/server/server.go and internal/fsstat/fsstat_linux.go.
use directory_size_exporter.Base.{
  ℕ, ◌≡◌, refl, ◌↔◌, Bool, nat_beq, true, false, not, ◌&&◌, Option, none, some, List, [], ◌∷◌, Str,
  str, str_eq, str_beq, ◌==◌, if◌then◌else◌,
}
use directory_size_exporter.Base.Dict.{has, is_none, lookup, contains}
use directory_size_exporter.Targets.Paths.{is_empty}
use directory_size_exporter.Server.{
  Options, to_handler, with_default_path, reload, metrics, healthy, ready, landing, Mux, handle,
  new_mux, route, handle_ready, handle_reload,
}
use directory_size_exporter.Server.Routes.{is_plain, reserved, new_mux_panics, route_to_reload}
use directory_size_exporter.Server.Answers.{Reloads, reload_answers, ready_after_cycle}
use directory_size_exporter.App
use directory_size_exporter.App.Readiness.{completes_any}
use directory_size_exporter.Fsstat.Linux.{mountpoint_of}
use directory_size_exporter.Fsstat.Fake.Paths.{path_clean}
use directory_size_exporter.Targets.Overlap.{components}
use directory_size_exporter.Fsstat.Linux.Mountpoint.{Ends, mountpoint_found}
use directory_size_exporter.Tests.Resolutions.{flat_host}
use directory_size_exporter.Tests.Scrapes.{cfg, app, starts, events}

abbrev opts : Options
opts = record {
  metrics_path = [];
  enable_lifecycle = true;
  ready_requires_scan = true;
  has_reload = true;
  ready = none;
  reload_timeout = 0;
}

abbrev mux : Mux
mux =
    (str "/", landing)
    ∷ (str "/-/reload", reload)
    ∷ (str "/-/ready", ready)
    ∷ (str "/-/healthy", healthy)
    ∷ (str "/metrics", metrics)
    ∷ []

-- `Handle` for plain patterns.
abbrev on_conflict : Str → Mux → Bool
on_conflict pattern mux = has pattern mux

builds : new_mux on_conflict opts ≡ some mux
unfolding new_mux handle lookup str_beq is_empty
builds = refl

route_to_reload_example :
    (route mux (str "/-/reload") ≡ to_handler reload)
    ↔ ((str "/-/reload" ≡ str "/-/reload") × (opts.enable_lifecycle && opts.has_reload ≡ true))
route_to_reload_example = route_to_reload on_conflict opts mux (str "/-/reload") builds

-- The metrics on the path of the index.
abbrev at_root : Options
at_root = record opts { metrics_path = str "/" }

new_mux_panics_example :
    (new_mux on_conflict at_root ≡ none)
    ↔ (contains (with_default_path at_root) (reserved at_root) ≡ true)
unfolding is_plain is_empty
new_mux_panics_example = new_mux_panics on_conflict at_root (λ pattern mux plain all. refl) refl

panics : new_mux on_conflict at_root ≡ none
unfolding new_mux handle lookup str_beq is_empty
panics = refl

abbrev late_failure : Option Str
late_failure = some (str "invalid pattern")

reload_answers_example :
    let h = handle_reload (λ d. str "20s") opts (str "PUT") late_failure true in
    (((route mux (str "/-/reload") ≡ to_handler reload) × (h.called ≡ true)) ↔ (
      (str "/-/reload" ≡ str "/-/reload")
      × (opts.enable_lifecycle && opts.has_reload ≡ true)
      × Reloads (str "PUT")))
    × ((h.response.status ≡ 405) ↔ (Reloads (str "PUT") → ⊥))
    × (h.response.allow ≡ (if nat_beq h.response.status 405 then some (str "POST, PUT") else none))
    × ((h.response.status ≡ 202) ↔ (Reloads (str "PUT") × (true ≡ true)))
    × ((h.response.status ≡ 200) ↔ (Reloads (str "PUT") × (true ≡ false) × (late_failure ≡ none)))
    × ((h.response.status ≡ 500)
        ↔ (Reloads (str "PUT") × (true ≡ false) × (is_none late_failure ≡ false)))
    × (h.logged ≡ (if h.called then late_failure else none))
reload_answers_example =
    reload_answers on_conflict (λ d. str "20s") opts mux (str "/-/reload") (str "PUT") late_failure
      true builds

-- The options once the events have happened.
abbrev after : List App.Event → Options
after es = record opts { ready = some (App.run flat_host cfg es app).first_cycle_complete }

ready_after_cycle_example : (handle_ready (after events)).status ≡ (
    if opts.ready_requires_scan && not (completes_any flat_host cfg events app) then 503 else 200)
ready_after_cycle_example = ready_after_cycle flat_host true 100 cfg app events opts starts

-- `/data` is a mount point.
abbrev device : Str → Option ℕ
device path = if path == str "/" then some 1 else some 2

mountpoint_found_example :
    (answer : Option Str) × (mountpoint_of device (str "/data//logs/day") ≡ some (answer, 2))
    × Ends device 2 (path_clean (str "/data//logs/day")) answer
unfolding str_beq path_clean components is_empty
mountpoint_found_example = mountpoint_found device (str "/data//logs/day") 2 refl refl
