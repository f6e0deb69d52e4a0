-- ===== src/App/Serve.antt =====
-- `workerInitFunc` and the end of `serve` (cmd/directory-size-exporter/main.go), less their logs.
use directory_size_exporter.Base.{ℕ, Bool, false, Option, none, some, Str, if◌then◌else◌}
use directory_size_exporter.Schedprio.{parse_io_class}
use directory_size_exporter.Schedprio.Linux.{
  Priority, Calls, PriorityError, apply_to_current_thread,
}

-- What starts a worker: nothing, or the priority that it takes.
pub data WorkerInit : Type 0 where
  no_hook : WorkerInit
  take_priority : Priority → WorkerInit

-- `workerInitFunc`; `none` is its error, and `supported` says that the platform has priorities.
unfoldable pub worker_init_func : Bool → Str → ℕ → Option WorkerInit
worker_init_func supported scan_io_priority nice = elim (parse_io_class scan_io_priority) [
  | none ↦ none
  | some class ↦
      if supported
      then some (take_priority (record { nice = nice; io_class = class }))
      else some no_hook
]

-- The hook that the workers call.
unfoldable pub call_worker_init : {K : Type 0} → Calls K → WorkerInit → K → Option PriorityError × K
call_worker_init calls no_hook k = (none, k)
call_worker_init calls (take_priority p) k = apply_to_current_thread calls p k

-- What ListenAndServe returns: http.ErrServerClosed, or another error.
pub data HttpError : Type 0 where
  server_closed other_http_error : HttpError

-- How the `select` of `serve` ends: the listener ends by itself, or after the signal to stop.
pub data Stopped : Type 0 where
  listener_ended interrupted : Option HttpError → Stopped

abbrev pub fault_of : Option HttpError → Option HttpError
fault_of (some other_http_error) = some other_http_error
fault_of _ = none

-- The end of `serve`: its error, and the health that the server reports.
unfoldable pub end_of_serve : Stopped → Bool → Option HttpError × Bool
end_of_serve (listener_ended err) healthy = (fault_of err, healthy)
end_of_serve (interrupted err) healthy = (fault_of err, false)
