-- ===== src/Service/Written.antt =====
-- The business logic under the generated reconciler: the status that `ReconcileKind` leaves reaches the
-- stored object.
use knative_serving_wasm.Prelude.{
  ℕ, suc, String, ◌≡◌, ◌≢◌, ap, ◌∙◌, sym, true, false, none, some, ok,
}
use knative_serving_wasm.Api.Types.{WasmModule}
use knative_serving_wasm.Api.Lifecycle.{condition_of, untimed}
use knative_serving_wasm.Platform.Types.{Platform}
use knative_serving_wasm.Platform.Laws.{SetsLaws, RetriesConflicts}
use knative_serving_wasm.Lister.{wasm_modules, get_cached}
use knative_serving_wasm.Server.{ApiServer, StatusSet}
use knative_serving_wasm.Reconciler.Types.{ReconcilerImpl}
use knative_serving_wasm.Reconciler.Status.Stored.{IsSemantic, update_status-Stores}
use knative_serving_wasm.Reconciler.Reconcile.{reconcile}
use knative_serving_wasm.Service.{Services}
use knative_serving_wasm.Service.Steady.{over}
use knative_serving_wasm.Service.Progress.{run_context, prepared, processed, Leaves, reconcile_left}

-- What `PreProcessReconcile` and `PostProcessReconcile` of knative.dev/pkg document: the first
-- initializes conditions, the second sets the observed generation; both change the status alone, not
-- its address, and the second keeps the status and reason of each condition.
pub record ProcessLaws {Ctx Err S W : Type 0} (p : Platform Ctx Err S W) : Type 0 where
  pub pre_meta :
      (c : Ctx) (o : WasmModule) → (p.pre_process_reconcile c o).object_meta ≡ o.object_meta
  pub pre_spec : (c : Ctx) (o : WasmModule) → (p.pre_process_reconcile c o).spec ≡ o.spec
  pub pre_address :
      (c : Ctx) (o : WasmModule) → (p.pre_process_reconcile c o).status.address ≡ o.status.address
  pub post_meta :
      (c : Ctx) (o old : WasmModule) (w : W)
      → (p.post_process_reconcile c o old w).object_meta ≡ o.object_meta
  pub post_address :
      (c : Ctx) (o old : WasmModule) (w : W)
      → (p.post_process_reconcile c o old w).status.address ≡ o.status.address
  pub post_condition :
      (c : Ctx) (o old : WasmModule) (w : W) (t : String)
      → condition_of t (p.post_process_reconcile c o old w).status.status
        ≡ condition_of t o.status.status
  pub post_observed :
      (c : Ctx) (o old : WasmModule) (w : W)
      → (p.post_process_reconcile c o old w).status.status.observed_generation
        ≡ o.object_meta.generation

module _ {Ctx Err S W : Type 0} (p : Platform Ctx Err S W) (process : ProcessLaws p)
    (r : ReconcilerImpl Ctx Err W) (services : Services Err W) (ctx : Ctx)
    (original left : WasmModule) (w₁ : W)
    (kept_meta : left.object_meta ≡ (prepared p r services ctx original).object_meta) where
  abbrev desired : WasmModule
  desired = processed p r services ctx original left w₁

  same_meta : desired.object_meta ≡ original.object_meta
  same_meta =
      process.post_meta (run_context p r services ctx) left original w₁
      ∙ (kept_meta ∙ process.pre_meta (run_context p r services ctx) original)

  pub processed-observed :
      desired.status.status.observed_generation ≡ original.object_meta.generation
  processed-observed =
      process.post_observed (run_context p r services ctx) left original w₁
      ∙ ap (λ m. m.generation)
          (kept_meta ∙ process.pre_meta (run_context p r services ctx) original)

  -- The leader, on a live object of the cache that has a version and on which `ReconcileKind` returns
  -- nil, with status updates not skipped: if the object that it leaves, after the post-processing, has
  -- another status and a retry is allowed, the run ends well, and the stored object has that
  -- status, but for the times of conditions; else only the version changes in it.
  pub reconcile_left-StatusSet :
      (server : ApiServer p.errors p.rest p.marshal p.is_zero) (semantic : IsSemantic p.deep_equal)
      (sets : SetsLaws S p.sets) (law : RetriesConflicts p) {k : ℕ} (w : W)
      (key namespace name : String) {m : WasmModule}
      → law.retries ≡ suc k
      → Leaves p r services ctx original w left w₁
      → r.skip_status_updates ≡ false
      → p.split_meta_namespace_key key ≡ ok (namespace, name)
      → r.is_leader_for (record { namespace = namespace; name = name }) w ≡ true
      → get_cached p.errors (wasm_modules r.lister namespace) name w ≡ ok original
      → p.is_zero original.deletion_timestamp ≡ true
      → p.deep_equal original.status desired.status ≡ false
      → original.object_meta.resource_version ≢ ""
      → server.stored original.namespace original.name w₁ ≡ some m
      → (m' : WasmModule) × (w₂ : W) × (reconcile p (over r services) ctx key w ≡ (none, w₂))
        × (server.stored original.namespace original.name w₂ ≡ some m')
        × (untimed m'.status ≡ untimed desired.status)
        × StatusSet m'.status m m'
  reconcile_left-StatusSet server semantic sets law w key namespace name retries leaves syncs split
        leads held live changed versioned stored =
      let same_namespace : desired.namespace ≡ original.namespace =
        ap (λ o. o.namespace) same_meta in
      let same_name : desired.name ≡ original.name = ap (λ o. o.name) same_meta in
      let there = λ (v : W).
        ap (λ a. server.stored a desired.name v) same_namespace
        ∙ ap (λ b. server.stored original.namespace b v) same_name in
      let (w₂, written, (m', stored', same, set)) =
        update_status-Stores p server semantic (run_context p r services ctx) desired law original
          w₁ retries (sym same_namespace) (sym same_name) versioned changed (there w₁ ∙ stored) in
      (
        m',
        w₂,
        reconcile_left p r services ctx original left w w₁ leaves syncs sets key namespace name w₂
            split leads held live changed written,
        sym (there w₂) ∙ stored',
        same,
        set,
      )
