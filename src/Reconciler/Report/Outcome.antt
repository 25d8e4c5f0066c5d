-- ===== src/Reconciler/Report/Outcome.antt =====
-- When the status is written, and what the reported event makes of the run (reconciler.go).
use knative_serving_wasm.Prelude.{◌≡◌, refl, not, ◌&&◌, Option, none, some, arith, if◌then◌else◌}
use knative_serving_wasm.Api.Types.{WasmModule}
use knative_serving_wasm.Platform.Types.{Platform}
use knative_serving_wasm.Platform.GoError.{Errors}
use knative_serving_wasm.Platform.Laws.{ErrorsLaws}
use knative_serving_wasm.Reconciler.Types.{ReconcilerImpl}
use knative_serving_wasm.Reconciler.State.{RunState}
use knative_serving_wasm.Reconciler.Report.{write_status, sync_status, report, finish}

-- The error that a run ends with: none for nil and for an event that nothing wraps.
abbrev pub reported : {Err : Type 0} → Errors Err → Option Err → Option Err
reported e none = none
reported e (some x) = if e.is_event x then none else some x

module _ {Ctx Err S W : Type 0} (p : Platform Ctx Err S W) where
  -- The run ends well for nil and for a bare event; a wrapped event and every other error, the key
  -- errors included, are returned as they are.
  pub report-reported :
      ErrorsLaws p.errors
      → (resource : WasmModule) (event : Option Err) (w : W)
      → (report p resource event w).0 ≡ reported p.errors event
  unfolding report
  report-reported laws resource none w = refl
  report-reported laws resource (some x) w = ground (arith, laws.is_event_as x)

  module _ (r : ReconcilerImpl Ctx Err W) (s : RunState Ctx Err W) (ctx : Ctx)
      (original resource : WasmModule) where
    -- The status is written exactly where it changed, by the leader, and not where the options say
    -- to skip status updates.
    pub sync_status_lem :
        (w : W)
        → sync_status p r s ctx original resource w ≡ (
            if s.is_leader
              && (not r.skip_status_updates && not (p.deep_equal original.status resource.status))
            then write_status p ctx original resource w
            else (none, w))
    unfolding sync_status
    sync_status_lem w = ground arith

    -- A failed write of the status ends the run with its error, and the event is not reported.
    pub finish_failed :
        (event : Option Err) (w w' : W) {x : Err}
        → sync_status p r s ctx original resource w ≡ (some x, w')
        → finish p r s ctx original resource event w ≡ (some x, w')
    unfolding finish
    finish_failed event w w' h = ground arith

    pub finish_synced :
        (event : Option Err) (w w' : W)
        → sync_status p r s ctx original resource w ≡ (none, w')
        → finish p r s ctx original resource event w ≡ report p resource event w'
    unfolding finish
    finish_synced event w w' h = ground arith
