-- ===== src/Reconciler/Status.antt =====
-- Writing the status back (reconciler.go: updateStatus). Logging is left out.
pub mod Writes
pub mod Retries
pub mod Outcome
pub mod Convergence
pub mod Stored
use knative_serving_wasm.Prelude.{Option, none, some, Effect, ltb, if◌then◌else◌}
use knative_serving_wasm.Api.Types.{WasmModule}
use knative_serving_wasm.Platform.Types.{Platform, Updater}
use knative_serving_wasm.Client
use knative_serving_wasm.Client.{WasmModules, zero_options}

module _ {Ctx Err S W : Type 0} (p : Platform Ctx Err S W) (ctx : Ctx) (desired : WasmModule) where
  -- `r.Client.WasmV1alpha1().WasmModules(namespace)`.
  abbrev pub modules_of : WasmModule → WasmModules Ctx Err W
  modules_of o = record { client = p.rest; ns = o.namespace }

  -- The closure below the fetch; its second result is the captured `existing`.
  unfoldable pub put_status : WasmModule → Effect W (Option Err × WasmModule)
  put_status existing w =
      if p.deep_equal existing.status desired.status
      then ((none, existing), w)
      else let changed = record existing { status = desired.status } in
        let ((_, e), w1) = Client.update_status (modules_of changed) ctx changed zero_options w in
        ((e, changed), w1)

  -- The closure that `updateStatus` retries.
  unfoldable pub update_attempt : Updater Err W
  unfolding put_status
  update_attempt attempts existing w =
      if ltb 0 attempts
      then (let ((fetched, e), w1) =
            Client.get_module (modules_of desired) ctx desired.name zero_options w in
          elim e [ some x ↦ ((some x, fetched), w1) | none ↦ put_status fetched w1 ])
      else put_status existing w

  unfoldable pub update_status : WasmModule → Effect W (Option Err)
  update_status existing w =
      let ((e, _), w1) = p.retry_update_conflicts update_attempt existing w in (e, w1)
