-- ===== src/Reconciler/Reconcile.antt =====
-- `Reconcile` (reconciler.go), for one key of the work queue.
pub mod Roles
pub mod Leader
pub mod Unchanged
pub mod Deletion
pub mod Released
use knative_serving_wasm.Prelude.{
  String, Option, none, some, Effect, Result, ok, err, if◌then◌else◌,
}
use knative_serving_wasm.Api.Types.{WasmModule}
use knative_serving_wasm.Platform.Types.{Platform}
use knative_serving_wasm.Lister.{wasm_modules, get_cached}
use knative_serving_wasm.Reconciler.Types.{DoReconcile, ReconcilerImpl}
use knative_serving_wasm.Reconciler.State.{
  RunState, Method, do_reconcile_kind, do_finalize_kind, do_observe_kind, unknown, new_state,
  is_not_leader_nor_observer, reconcile_method_for,
}
use knative_serving_wasm.Reconciler.Finalizers.{set_finalizer_if_finalizer, clear_finalizer}
use knative_serving_wasm.Reconciler.Report.{finish}

module _ {Ctx Err S W : Type 0} (p : Platform Ctx Err S W) (r : ReconcilerImpl Ctx Err W) where
  open p use {errors}

  -- The business logic between its pre- and post-processing, and what follows the switch.
  unfoldable pub reconcile_resource :
      DoReconcile Ctx Err W
      → RunState Ctx Err W
      → Ctx
      → WasmModule
      → WasmModule
      → Effect W (Option Err)
  reconcile_resource do_kind s ctx original resource w =
      let prepared =
        (if r.skip_status_updates then resource else p.pre_process_reconcile ctx resource) in
      let ((event, reconciled), w1) = do_kind ctx prepared w in
      let processed =
        (if r.skip_status_updates
          then reconciled
          else p.post_process_reconcile ctx reconciled original w1) in
      finish p r s ctx original processed event w1

  -- The case `DoReconcileKind`, and what follows the call that sets the finalizer.
  unfoldable pub after_set :
      DoReconcile Ctx Err W
      → RunState Ctx Err W
      → Ctx
      → WasmModule
      → (WasmModule × Option Err) × W
      → Option Err × W
  after_set do_kind s ctx original ((resource, some x), w) =
      (some (errors.wrap "failed to set finalizers" x), w)
  after_set do_kind s ctx original ((resource, none), w) =
      reconcile_resource do_kind s ctx original resource w

  unfoldable pub run_reconcile_kind :
      DoReconcile Ctx Err W → RunState Ctx Err W → Ctx → WasmModule → Effect W (Option Err)
  run_reconcile_kind do_kind s ctx original w =
      after_set do_kind s ctx original (set_finalizer_if_finalizer p r ctx original w)

  -- The case `DoFinalizeKind`, and what follows the call that clears the finalizer.
  unfoldable pub after_clear :
      RunState Ctx Err W
      → Ctx
      → WasmModule
      → Option Err
      → (WasmModule × Option Err) × W
      → Option Err × W
  after_clear s ctx original event ((resource, some x), w) =
      (some (errors.wrap "failed to clear finalizers" x), w)
  after_clear s ctx original event ((resource, none), w) =
      finish p r s ctx original resource event w

  unfoldable pub run_finalize_kind :
      DoReconcile Ctx Err W → RunState Ctx Err W → Ctx → WasmModule → Effect W (Option Err)
  run_finalize_kind do_kind s ctx original w =
      let ((event, finalized), w1) = do_kind ctx original w in
      after_clear s ctx original event (clear_finalizer p r ctx finalized event w1)

  -- The switch on the method, for a resource that the cache holds. `DeepCopy` is the identity on
  -- values, so the copy starts as `original`.
  unfoldable pub run_method :
      Method Ctx Err W → RunState Ctx Err W → Ctx → WasmModule → Effect W (Option Err)
  run_method (do_reconcile_kind do_kind) s ctx original w =
      run_reconcile_kind do_kind s ctx original w
  run_method (do_finalize_kind do_kind) s ctx original w =
      run_finalize_kind do_kind s ctx original w
  run_method (do_observe_kind do_kind) s ctx original w =
      let ((event, resource), w1) = do_kind ctx original w in
      finish p r s ctx original resource event w1
  run_method unknown s ctx original w = finish p r s ctx original original none w

  unfoldable pub reconcile_found : RunState Ctx Err W → Ctx → WasmModule → Effect W (Option Err)
  reconcile_found s ctx original w = run_method (reconcile_method_for p s original) s ctx original w

  -- What `Reconcile` does with the cache's answer.
  unfoldable pub reconcile_cached :
      RunState Ctx Err W → Ctx → Result Err WasmModule → Effect W (Option Err)
  reconcile_cached s ctx (ok original) w = reconcile_found s ctx original w
  reconcile_cached s ctx (err x) w =
      if errors.is_not_found x
      then elim r.reconciler.observe_deletion [
        | some observe_deletion ↦
            observe_deletion ctx (record { namespace = s.namespace; name = s.name }) w
        | none ↦ (none, w)
      ]
      else (some x, w)

  -- The context that the handlers are called with.
  unfoldable pub decorate : Ctx → Ctx
  decorate ctx =
      p.with_event_recorder (elim r.config_store [ some to_context ↦ to_context ctx | none ↦ ctx ])

  -- The run from its initialized state, or the error of a key that is not valid.
  unfoldable pub reconcile_state :
      String → Ctx → Result Err (RunState Ctx Err W) → Effect W (Option Err)
  reconcile_state key ctx (err _) w = (none, w)
  reconcile_state key ctx (ok s) w =
      if is_not_leader_nor_observer s
      then (some (errors.new_skip_key key), w)
      else reconcile_cached s (decorate ctx)
          (get_cached errors (wasm_modules r.lister s.namespace) s.name w) w

  unfoldable pub reconcile : Ctx → String → Effect W (Option Err)
  reconcile ctx key w = reconcile_state key ctx (new_state p key r w) w
