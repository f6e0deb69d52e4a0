-- ===== src/Server/Answers.antt =====
-- What the handlers answer (internal/server/server.go), and readiness as the running program
-- (cmd/directory-size-exporter/main.go) shows it.
use directory_size_exporter.Base.{
  ℕ, ◌≡◌, ◌↔◌, inl, Bool, true, false, Bool-cases, ◌⊎◌, inr, none, nat_beq, str_beq_iff, not, ◌&&◌,
  Option, some, Option-cases, List, Str, str, str_eq, ◌==◌, arith, if◌then◌else◌, ap,
}
use directory_size_exporter.Base.Dict.{is_none}
use directory_size_exporter.Targets.{Host}
use directory_size_exporter.Server.{
  Options, Mux, new_mux, route, to_handler, reload, handle_reload, handle_ready,
}
use directory_size_exporter.Server.Routes.{route_to_reload}
use directory_size_exporter.App
use directory_size_exporter.App.{Application, StartError, new_app, Event, run}
use directory_size_exporter.App.Readiness.{completes_any, ready-run}
use directory_size_exporter.App.Start.{new_app_lem}

-- The methods that reload.
abbrev pub Reloads : Str → Type 0
Reloads method = (method ≡ str "POST") ⊎ (method ≡ str "PUT")

-- What a request does to `handle_reload`, by its method.
reload_by_method :
    (show_duration : ℕ → Str) (opts : Options) (method : Str) (result : Option Str) (late : Bool)
    → ((handle_reload show_duration opts method result late).called ≡ true) ↔ Reloads method
unfolding handle_reload
reload_by_method show_duration opts method result late = ground (
  arith,
  Option-cases result,
  Bool-cases late,
  str_beq_iff method (str "POST"),
  str_beq_iff method (str "PUT"),
)

-- The answers, by whether a reload is made.
answer_by_call :
    (show_duration : ℕ → Str) (opts : Options) (method : Str) (result : Option Str) (late : Bool)
    → let h = handle_reload show_duration opts method result late in
      ((h.response.status ≡ 405) ↔ (h.called ≡ false))
      × (h.response.allow
          ≡ (if nat_beq h.response.status 405 then some (str "POST, PUT") else none))
      × ((h.response.status ≡ 202) ↔ ((h.called ≡ true) × (late ≡ true)))
      × ((h.response.status ≡ 200) ↔ ((h.called ≡ true) × (late ≡ false) × (result ≡ none)))
      × ((h.response.status ≡ 500)
          ↔ ((h.called ≡ true) × (late ≡ false) × (is_none result ≡ false)))
      × (h.logged ≡ (if h.called then result else none))
unfolding handle_reload
answer_by_call show_duration opts method result late = ground (
  arith,
  Option-cases result,
  Bool-cases late,
  Bool-cases (not (method == str "POST") && not (method == str "PUT")),
)

-- A request makes the server reload exactly if its path is `/-/reload`, that endpoint is enabled, and
-- its method is POST or PUT. The answer of the endpoint is 405 exactly for any other method, and then
-- alone it names the two that are allowed; 202 exactly if a reload was made and the timer came first;
-- 200 and 500 exactly if a reload was made that came before the timer and succeeded or failed. The
-- error of a reload is logged, also where the client was told that it goes on.
pub reload_answers :
    (panics_on : Str → Mux → Bool) (show_duration : ℕ → Str) (opts : Options) (mux : Mux)
    (path method : Str) (result : Option Str) (late : Bool)
    → new_mux panics_on opts ≡ some mux
    → let h = handle_reload show_duration opts method result late in
      (((route mux path ≡ to_handler reload) × (h.called ≡ true)) ↔ (
        (path ≡ str "/-/reload")
        × (opts.enable_lifecycle && opts.has_reload ≡ true)
        × Reloads method))
      × ((h.response.status ≡ 405) ↔ (Reloads method → ⊥))
      × (h.response.allow
          ≡ (if nat_beq h.response.status 405 then some (str "POST, PUT") else none))
      × ((h.response.status ≡ 202) ↔ (Reloads method × (late ≡ true)))
      × ((h.response.status ≡ 200) ↔ (Reloads method × (late ≡ false) × (result ≡ none)))
      × ((h.response.status ≡ 500) ↔ (Reloads method × (late ≡ false) × (is_none result ≡ false)))
      × (h.logged ≡ (if h.called then result else none))
reload_answers panics_on show_duration opts mux path method result late built =
    let (to_route, from_route) = route_to_reload panics_on opts mux path built in
    let (to_method, from_method) = reload_by_method show_duration opts method result late in
    let (refused, allowed, slow, fine, failed, logged) =
      answer_by_call show_duration opts method result late in
    let called = (handle_reload show_duration opts method result late).called in
    (
      (
        λ (routed, called). let (at, on) = to_route routed in (at, on, to_method called),
        λ (at, on, by). (from_route (at, on), from_method by),
      ),
      (
        λ status by. absurd (ground (arith, refused.0 status, from_method by)),
        λ other. refused.1 (elim (Bool-cases called) [
          | inl reloads ↦ absurd (other (to_method reloads))
          | inr unmoved ↦ unmoved
        ]),
      ),
      allowed,
      (λ s. (to_method (slow.0 s).0, (slow.0 s).1), λ (by, l). slow.1 (from_method by, l)),
      (
        λ s. let (by, soon, ended) = fine.0 s in (to_method by, soon, ended),
        λ (by, soon, ended). fine.1 (from_method by, soon, ended),
      ),
      (
        λ s. let (by, soon, ended) = failed.0 s in (to_method by, soon, ended),
        λ (by, soon, ended). failed.1 (from_method by, soon, ended),
      ),
      logged,
    )

-- After a start that succeeds `/-/ready` answers 200 if no scan is required, or if a cycle that was
-- running has come to its end with `ScanAll` true (whatever became of its scans) and no shutdown begun,
-- and 503 otherwise.
pub ready_after_cycle :
    (host : Host) (registered : Bool) (now : ℕ) (cfg : App.Config) (a : Application)
    (es : List Event) (opts : Options)
    → new_app host registered now cfg ≡ inl a
    → (handle_ready (record opts { ready = some (run host cfg es a).first_cycle_complete })).status
      ≡ (if opts.ready_requires_scan && not (completes_any host cfg es a) then 503 else 200)
unfolding handle_ready
ready_after_cycle host registered now cfg a es opts h =
    let (initial, _, same) = new_app_lem host registered now cfg a h in
    let fresh : a.first_cycle_complete ≡ false = ap (λ b. b.first_cycle_complete) same in
    ground (arith, ready-run host cfg es a, fresh)
