-- ===== src/Service/Recovery.antt =====
-- The business logic under the generated reconciler: a WasmModule whose Service comes or goes.
use knative_serving_wasm.Prelude.{
  ℕ, suc, String, ◌≡◌, ◌≢◌, ◌∙◌, inl, inr, true, false, Bool-cases, Option, none, some, ok,
}
use knative_serving_wasm.Api.Types.{WasmModule, WasmModuleStatus}
use knative_serving_wasm.Api.Lifecycle.{
  condition_ready, condition_of, condition_of-untimed, ConditionLaws,
}
use knative_serving_wasm.Platform.Types.{Platform}
use knative_serving_wasm.Platform.Laws.{SetsLaws, RetriesConflicts}
use knative_serving_wasm.Lister.{wasm_modules, get_cached}
use knative_serving_wasm.Server.{ApiServer}
use knative_serving_wasm.Reconciler.Types.{ReconcilerImpl}
use knative_serving_wasm.Reconciler.Status.Stored.{IsSemantic}
use knative_serving_wasm.Reconciler.Reconcile.{reconcile}
use knative_serving_wasm.Service.{Services, reference_to}
use knative_serving_wasm.Service.Steady.{over}
use knative_serving_wasm.Service.Progress.{prepared}
use knative_serving_wasm.Service.Written.{ProcessLaws}
use knative_serving_wasm.Service.Stored.{IsServed, ready, reconcile_found_service-IsServed}
use knative_serving_wasm.Service.Missing.{
  IsUnserved, not_ready, reconcile_missing_service-IsUnserved,
}

-- Statuses with other ready conditions are not equal, also semantically.
status_differs :
    {Ctx Err S W : Type 0} (p : Platform Ctx Err S W)
    → IsSemantic p.deep_equal
    → (o d : WasmModuleStatus) {x : String × String}
    → condition_of condition_ready d.status ≡ some x
    → condition_of condition_ready o.status ≢ some x
    → p.deep_equal o d ≡ false
status_differs p semantic o d is other = elim (Bool-cases (p.deep_equal o d)) [
  | inr e ↦ e
  | inl e ↦ absurd (other (condition_of-untimed condition_ready o d (semantic o d e) ∙ is))
]

module _ {Ctx Err S W : Type 0} (p : Platform Ctx Err S W) (process : ProcessLaws p)
    (r : ReconcilerImpl Ctx Err W) (services : Services Err W)
    (conditions : ConditionLaws W services.cond_set) (ctx : Ctx)
    (server : ApiServer p.errors p.rest p.marshal p.is_zero) (semantic : IsSemantic p.deep_equal)
    (sets : SetsLaws S p.sets) (law : RetriesConflicts p) {k : ℕ} (retries : law.retries ≡ suc k)
    (syncs : r.skip_status_updates ≡ false) (original : WasmModule) (w w₁ : W)
    (key namespace name : String) (split : p.split_meta_namespace_key key ≡ ok (namespace, name))
    (leads : r.is_leader_for (record { namespace = namespace; name = name }) w ≡ true)
    (held : get_cached p.errors (wasm_modules r.lister namespace) name w ≡ ok original)
    (live : p.is_zero original.deletion_timestamp ≡ true)
    (versioned : original.object_meta.resource_version ≢ "")
    (tracked : services.track_reference
        (reference_to services (prepared p r services ctx original))
        (prepared p r services ctx original)
        w
      ≡ (none, w₁))
    {m : WasmModule} (stored : server.stored original.namespace original.name w₁ ≡ some m) where
  -- The answer to the lookup of the Service that a run ends well on, the ready condition that is due
  -- then, and the stored object.
  abbrev pub IsClear : Option Err → Type 0
  IsClear none = Unit
  IsClear (some x) = services.errors.is_not_found x ≡ true

  abbrev pub due : Option Err → Option (String × String)
  due none = some ("True", "")
  due (some _) = some ("False", "ServiceUnavailable")

  abbrev pub Follows : Option Err → WasmModule → Type 0
  Follows none m' = IsServed p process r services conditions ctx original w₁ m m'
  Follows (some _) m' = IsUnserved p process r services conditions ctx original w₁ m m'

  -- The leader, with a retry on conflicts allowed and with status updates not skipped, on a live object
  -- of the cache that has a version, and whose Service is tracked without an error and exists, or is
  -- not found: if the object's ready condition is not the one that is due, the run ends well, whatever
  -- version and spec the server stores under the object's name. The stored object follows the Service
  -- then (`Follows`): where that exists it is ready, with the Service's address; else it is not ready,
  -- for the reason "ServiceUnavailable", and keeps the given object's address. In both cases it has
  -- the given object's generation observed, and is in its type, spec and metadata what was stored
  -- before, but for the version.
  pub reconcile-Follows :
      (lookup : Option Err)
      → services.get_service
          (prepared p r services ctx original).namespace
          (prepared p r services ctx original).spec.service_name
          w₁
        ≡ lookup
      → IsClear lookup
      → condition_of condition_ready original.status.status ≢ due lookup
      → (m' : WasmModule) × (w₂ : W) × (reconcile p (over r services) ctx key w ≡ (none, w₂))
        × (server.stored original.namespace original.name w₂ ≡ some m')
        × Follows lookup m'
  reconcile-Follows none found clear overdue =
      reconcile_found_service-IsServed p process r services conditions ctx original w₁ server
        semantic sets law w key namespace name retries tracked found syncs split leads held live
        (status_differs p semantic original.status _
          (ready p process r services conditions ctx original w₁) overdue)
        versioned stored
  reconcile-Follows (some x) unfound clear overdue =
      reconcile_missing_service-IsUnserved p process r services conditions ctx original w₁ server
        semantic sets law w key namespace name retries tracked unfound clear syncs split leads held
        live
        (status_differs p semantic original.status _
          (not_ready p process r services conditions ctx original w₁) overdue)
        versioned stored
