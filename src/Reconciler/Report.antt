-- ===== src/Reconciler/Report.antt =====
-- The end of `Reconcile`: synchronizing the status and reporting the event.
pub mod Outcome
use knative_serving_wasm.Prelude.{not, Option, none, some, [], ◌∷◌, Effect, if◌then◌else◌}
use knative_serving_wasm.Api.Types.{WasmModule}
use knative_serving_wasm.Platform.Types.{Platform, text, error}
use knative_serving_wasm.Reconciler.Types.{ReconcilerImpl}
use knative_serving_wasm.Reconciler.State.{RunState}
use knative_serving_wasm.Reconciler.Finalizers.{event_type_warning}
use knative_serving_wasm.Reconciler.Status.{update_status}

module _ {Ctx Err S W : Type 0} (p : Platform Ctx Err S W) where
  open p use {errors, recorder}

  -- The `default` case of the switch: the write, and a warning if it fails.
  unfoldable pub write_status : Ctx → WasmModule → WasmModule → Effect W (Option Err)
  write_status ctx original resource w =
      let (e, w1) = update_status p ctx resource original w in
      elim e [
        | none ↦ (none, w1)
        | some x ↦ (
          some x,
          recorder.eventf resource event_type_warning "UpdateFailed"
              "Failed to update status for %q: %v" (text resource.name ∷ error x ∷ []) w1,
        )
      ]

  -- "Synchronize the status."
  unfoldable pub sync_status :
      ReconcilerImpl Ctx Err W
      → RunState Ctx Err W
      → Ctx
      → WasmModule
      → WasmModule
      → Effect W (Option Err)
  unfolding write_status
  sync_status r s ctx original resource w =
      if r.skip_status_updates
      then (none, w)
      else if p.deep_equal original.status resource.status
      then (none, w)
      else if not s.is_leader
      then (none, w)
      else write_status ctx original resource w

  -- "Report the reconciler event, if any."
  unfoldable pub report : WasmModule → Option Err → Effect W (Option Err)
  report resource none w = (none, w)
  report resource (some x) w = elim (errors.event_as x) [
    | some event ↦ (
      (if errors.is_event x then none else some x),
      recorder.event resource event.event_type event.reason event.text w,
    )
    | none ↦
        if errors.is_skip_key x
        then (some x, w)
        else if errors.is_requeue_key x
        then (some x, w)
        else (
          some x,
          recorder.event resource event_type_warning "InternalError" (errors.message x) w,
        )
  ]

  -- Both, in order: a failed write of the status ends the run.
  unfoldable pub finish :
      ReconcilerImpl Ctx Err W
      → RunState Ctx Err W
      → Ctx
      → WasmModule
      → WasmModule
      → Option Err
      → Effect W (Option Err)
  finish r s ctx original resource reconcile_event w =
      let (e, w1) = sync_status r s ctx original resource w in
      elim e [ some x ↦ (some x, w1) | none ↦ report resource reconcile_event w1 ]
