-- ===== src/Service/Steady.antt =====
-- The business logic under the generated reconciler: a settled WasmModule is left alone.
use knative_serving_wasm.Prelude.{String, ◌≡◌, ap, ◌∙◌, refl, true, none, some, ok, arith}
use knative_serving_wasm.Api.Types.{WasmModule}
use knative_serving_wasm.Api.Lifecycle.{condition_ready, mark_service_available}
use knative_serving_wasm.Platform.Types.{Platform}
use knative_serving_wasm.Platform.Laws.{SetsLaws, IsReflexive}
use knative_serving_wasm.Lister.{wasm_modules, get_cached}
use knative_serving_wasm.Reconciler.Types.{ReconcilerImpl}
use knative_serving_wasm.Reconciler.Reconcile.{decorate, reconcile}
use knative_serving_wasm.Reconciler.Reconcile.Unchanged.{reconcile_resource_unchanged}
use knative_serving_wasm.Reconciler.Reconcile.Roles.{state_for}
use knative_serving_wasm.Reconciler.Reconcile.Leader.{reconcile_leader}
use knative_serving_wasm.Service.{
  Services, reference_to, address_of, available, after_lookup, after_track, reconcile_kind,
  interface,
}

-- The generated reconciler over the business logic of a WasmModule.
abbrev pub over :
    {Ctx Err W : Type 0} → ReconcilerImpl Ctx Err W → Services Err W → ReconcilerImpl Ctx Err W
over r services = record r { reconciler = interface services }

module _ {Ctx Err S W : Type 0} (p : Platform Ctx Err S W) (r : ReconcilerImpl Ctx Err W)
    (services : Services Err W) (ctx : Ctx) (original : WasmModule) (w w₁ : W) where
  -- An object that a run has nothing to change in: its conditions are initialized, its generation is
  -- observed, its Service is tracked without an error and exists, its ready condition is true, and
  -- its address is that of the Service.
  pub record IsSettled : Type 0 where
    pub prepared : p.pre_process_reconcile (decorate p (over r services) ctx) original ≡ original
    pub tracked : services.track_reference (reference_to services original) original w ≡ (none, w₁)
    pub found : services.get_service original.namespace original.spec.service_name w₁ ≡ none
    pub ready :
        services.cond_set.mark_true condition_ready original.status.status w₁
        ≡ original.status.status
    pub addressed : original.status.address ≡ some (address_of services original)
    pub observed :
        p.post_process_reconcile (decorate p (over r services) ctx) original original w₁ ≡ original

  -- The leader, on a live object of the cache that the pre-processing, `ReconcileKind` and the
  -- post-processing leave as it is.
  pub reconcile_still :
      p.pre_process_reconcile (decorate p (over r services) ctx) original ≡ original
      → ((c : Ctx) → reconcile_kind services c original w ≡ ((none, original), w₁))
      → p.post_process_reconcile (decorate p (over r services) ctx) original original w₁ ≡ original
      → SetsLaws S p.sets
      → IsReflexive p.deep_equal
      → (key namespace name : String) → p.split_meta_namespace_key key ≡ ok (namespace, name)
      → r.is_leader_for (record { namespace = namespace; name = name }) w ≡ true
      → get_cached p.errors (wasm_modules r.lister namespace) name w ≡ ok original
      → p.is_zero original.deletion_timestamp ≡ true
      → reconcile p (over r services) ctx key w ≡ (none, w₁)
  unfolding interface
  reconcile_still prepared leaves observed laws same key namespace name split leads held live =
      let c = decorate p (over r services) ctx in
      reconcile_leader p (over r services) laws ctx key namespace name w split leads held live
      ∙ reconcile_resource_unchanged p same (over r services)
          (state_for p (over r services) key namespace name true) c original
          (reconcile_kind services) w w₁ prepared (leaves c) observed

  module _ (settled : IsSettled) where
    available-settled : available services original w₁ ≡ original
    unfolding available mark_service_available
    available-settled = ground (arith, settled.ready, settled.addressed)

    reconcile_kind-settled :
        (c : Ctx) → reconcile_kind services c original w ≡ ((none, original), w₁)
    unfolding reconcile_kind after_track after_lookup
    reconcile_kind-settled c =
        ap (after_track services original) settled.tracked
        ∙ rw (settled.found, available-settled) refl

    -- The leader, on a settled and live object of the cache, makes no request and records no event:
    -- the run ends well, and its only effect is that the Service is tracked.
    pub reconcile_settled :
        SetsLaws S p.sets
        → IsReflexive p.deep_equal
        → (key namespace name : String) → p.split_meta_namespace_key key ≡ ok (namespace, name)
        → r.is_leader_for (record { namespace = namespace; name = name }) w ≡ true
        → get_cached p.errors (wasm_modules r.lister namespace) name w ≡ ok original
        → p.is_zero original.deletion_timestamp ≡ true
        → reconcile p (over r services) ctx key w ≡ (none, w₁)
    reconcile_settled = reconcile_still settled.prepared reconcile_kind-settled settled.observed
