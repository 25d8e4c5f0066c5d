-- ===== src/Reconciler/Reconcile/Unchanged.antt =====
-- A run whose business logic changes nothing.
use knative_serving_wasm.Prelude.{◌≡◌, refl, none, arith, if◌then◌else◌}
use knative_serving_wasm.Api.Types.{WasmModule}
use knative_serving_wasm.Platform.Types.{Platform}
use knative_serving_wasm.Platform.Laws.{IsReflexive}
use knative_serving_wasm.Reconciler.Types.{DoReconcile, ReconcilerImpl}
use knative_serving_wasm.Reconciler.State.{RunState}
use knative_serving_wasm.Reconciler.Report.{sync_status, report, finish}
use knative_serving_wasm.Reconciler.Reconcile.{reconcile_resource}

module _ {Ctx Err S W : Type 0} (p : Platform Ctx Err S W) (same : IsReflexive p.deep_equal)
    (r : ReconcilerImpl Ctx Err W) (s : RunState Ctx Err W) (c : Ctx) (original : WasmModule) where
  -- The end of a run whose object has the status of the cached one.
  pub finish_unchanged :
      (resource : WasmModule) (w : W)
      → resource.status ≡ original.status
      → finish p r s c original resource none w ≡ (none, w)
  unfolding finish sync_status report
  finish_unchanged resource w e = ground (arith, e, same original.status)

  -- Nothing is written, and nothing is reported.
  pub reconcile_resource_unchanged :
      (do_kind : DoReconcile Ctx Err W) (w w₁ : W)
      → p.pre_process_reconcile c original ≡ original
      → do_kind c original w ≡ ((none, original), w₁)
      → p.post_process_reconcile c original original w₁ ≡ original
      → reconcile_resource p r do_kind s c original original w ≡ (none, w₁)
  unfolding reconcile_resource
  reconcile_resource_unchanged do_kind w w₁ prepared ran processed =
      let before : (if r.skip_status_updates then original else p.pre_process_reconcile c original)
          ≡ original =
        ground arith in
      let after : (if r.skip_status_updates
            then original
            else p.post_process_reconcile c original original w₁)
          ≡ original =
        ground arith in
      rw (before, ran, after) (finish_unchanged original w₁ refl)
