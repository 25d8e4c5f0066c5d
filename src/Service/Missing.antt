-- ===== src/Service/Missing.antt =====
-- The business logic under the generated reconciler: what the API server stores after a run on a
-- WasmModule whose Service is missing.
use knative_serving_wasm.Prelude.{
  ℕ, suc, String, ◌≡◌, ◌≢◌, ap, ◌∙◌, refl, true, false, none, some, ok,
}
use knative_serving_wasm.Api.Types.{WasmModule}
use knative_serving_wasm.Api.Lifecycle.{
  condition_ready, condition_of, untimed, condition_of-untimed, mark_service_unavailable,
  ConditionLaws,
}
use knative_serving_wasm.Platform.Types.{Platform}
use knative_serving_wasm.Platform.Laws.{SetsLaws, RetriesConflicts}
use knative_serving_wasm.Lister.{wasm_modules, get_cached}
use knative_serving_wasm.Server.{ApiServer, StatusSet}
use knative_serving_wasm.Reconciler.Types.{ReconcilerImpl}
use knative_serving_wasm.Reconciler.Status.Stored.{IsSemantic}
use knative_serving_wasm.Reconciler.Reconcile.{reconcile}
use knative_serving_wasm.Service.{Services, reference_to, unavailable}
use knative_serving_wasm.Service.Steady.{over}
use knative_serving_wasm.Service.Progress.{
  run_context, prepared, marked_unready, unavailable-Leaves,
}
use knative_serving_wasm.Service.Written.{ProcessLaws, processed-observed, reconcile_left-StatusSet}

module _ {Ctx Err S W : Type 0} (p : Platform Ctx Err S W) (process : ProcessLaws p)
    (r : ReconcilerImpl Ctx Err W) (services : Services Err W)
    (conditions : ConditionLaws W services.cond_set) (ctx : Ctx) (original : WasmModule)
    (w₁ : W) where
  abbrev before : WasmModule
  before = prepared p r services ctx original

  abbrev desired : WasmModule
  desired = marked_unready p r services ctx original w₁

  kept_meta : (unavailable services before w₁).object_meta ≡ before.object_meta
  unfolding unavailable
  kept_meta = refl

  pub not_ready :
      condition_of condition_ready desired.status.status ≡ some ("False", "ServiceUnavailable")
  unfolding unavailable mark_service_unavailable
  not_ready =
      process.post_condition (run_context p r services ctx) (unavailable services before w₁)
        original w₁ condition_ready
      ∙ conditions.condition_of-mark_false _ _ _ _ _ _

  kept_address : desired.status.address ≡ original.status.address
  unfolding unavailable mark_service_unavailable
  kept_address =
      process.post_address (run_context p r services ctx) (unavailable services before w₁) original
        w₁
      ∙ process.pre_address (run_context p r services ctx) original

  -- The stored object is not ready for want of its Service, has the address of the given one and its
  -- generation observed, and is otherwise the one stored before, but for its version.
  pub record IsUnserved (m m' : WasmModule) : Type 0 where
    pub is_not_ready :
        condition_of condition_ready m'.status.status ≡ some ("False", "ServiceUnavailable")
    pub keeps_address : m'.status.address ≡ original.status.address
    pub is_observed : m'.status.status.observed_generation ≡ original.object_meta.generation
    pub has_status : untimed m'.status ≡ untimed desired.status
    pub same_object : StatusSet m'.status m m'

  StatusSet-IsUnserved :
      (m m' : WasmModule)
      → untimed m'.status ≡ untimed desired.status
      → StatusSet m'.status m m'
      → IsUnserved m m'
  StatusSet-IsUnserved m m' e set = record {
    is_not_ready = condition_of-untimed condition_ready m'.status desired.status e ∙ not_ready;
    keeps_address = ap (λ s. s.address) e ∙ kept_address;
    is_observed =
        ap (λ s. s.status.observed_generation) e
        ∙ processed-observed p process r services ctx original (unavailable services before w₁) w₁
            kept_meta;
    has_status = e;
    same_object = set;
  }

  -- The leader, on a live object of the cache that has a version and whose Service is tracked without
  -- an error and not found, with status updates not skipped: if marking the object not ready changes
  -- its status and a retry is allowed, the run ends well, whatever version and spec the server stores
  -- under the object's name. The stored object is then not ready, with the reason
  -- "ServiceUnavailable", has the address that the given object had and its generation observed, and
  -- is in its type, spec and metadata what was stored before, but for the version.
  pub reconcile_missing_service-IsUnserved :
      (server : ApiServer p.errors p.rest p.marshal p.is_zero) (semantic : IsSemantic p.deep_equal)
      (sets : SetsLaws S p.sets) (law : RetriesConflicts p) {k : ℕ} (w : W)
      (key namespace name : String) {m : WasmModule} {x : Err}
      → law.retries ≡ suc k
      → services.track_reference (reference_to services before) before w ≡ (none, w₁)
      → services.get_service before.namespace before.spec.service_name w₁ ≡ some x
      → services.errors.is_not_found x ≡ true
      → r.skip_status_updates ≡ false
      → p.split_meta_namespace_key key ≡ ok (namespace, name)
      → r.is_leader_for (record { namespace = namespace; name = name }) w ≡ true
      → get_cached p.errors (wasm_modules r.lister namespace) name w ≡ ok original
      → p.is_zero original.deletion_timestamp ≡ true
      → p.deep_equal original.status desired.status ≡ false
      → original.object_meta.resource_version ≢ ""
      → server.stored original.namespace original.name w₁ ≡ some m
      → (m' : WasmModule) × (w₂ : W) × (reconcile p (over r services) ctx key w ≡ (none, w₂))
        × (server.stored original.namespace original.name w₂ ≡ some m')
        × IsUnserved m m'
  reconcile_missing_service-IsUnserved server semantic sets law w key namespace name retries tracked
        unfound not_found syncs split leads held live changed versioned stored =
      let leaves = unavailable-Leaves p r services ctx original w w₁ tracked unfound not_found in
      let (m', w₂, ends, stored', same, set) =
        reconcile_left-StatusSet p process r services ctx original (unavailable services before w₁)
          w₁ kept_meta server semantic sets law w key namespace name retries leaves syncs split
          leads held live changed versioned stored in
      (m', w₂, ends, stored', StatusSet-IsUnserved _ m' same set)
