-- ===== src/Service/Converged.antt =====
-- The business logic under the generated reconciler: one run is enough.
use knative_serving_wasm.Prelude.{String, ◌≡◌, ◌∙◌, sym, ap, refl, true, none, some, ok}
use mathlib.Core.Option
use knative_serving_wasm.Api.Types.{Condition, DuckStatus, WasmModule}
use knative_serving_wasm.Api.Lifecycle.{
  condition_ready, find_condition, find_condition-untimed, mark_service_available, ConditionSet,
  ConditionLaws,
}
use knative_serving_wasm.Platform.Types.{Platform}
use knative_serving_wasm.Platform.Laws.{SetsLaws, IsReflexive}
use knative_serving_wasm.Lister.{wasm_modules, get_cached}
use knative_serving_wasm.Reconciler.Types.{ReconcilerImpl}
use knative_serving_wasm.Reconciler.Reconcile.{reconcile}
use knative_serving_wasm.Service.{Services, reference_to, address_of, available}
use knative_serving_wasm.Service.Steady.{over, IsSettled, reconcile_settled}
use knative_serving_wasm.Service.Progress.{run_context, prepared}
use knative_serving_wasm.Service.Stored.{IsServed}
use knative_serving_wasm.Service.Written.{ProcessLaws}

-- The ready condition is true, with no severity, reason and message.
abbrev fields_of : Condition → String × String × String × String
fields_of c = (c.status, c.severity, c.reason, c.message)

abbrev pub IsTrue : DuckStatus → Type 0
IsTrue s =
    Option.map fields_of (find_condition condition_ready s.conditions) ≡ some ("True", "", "", "")

-- What knative.dev/pkg documents of runs that have nothing to change, for a condition set without
-- dependents: `MarkTrue` on a ready condition that is true changes nothing, `PreProcessReconcile`
-- changes nothing where the ready condition is true and the generation observed, and so does
-- `PostProcessReconcile` on an object that the run left unchanged. `MarkTrue` makes the ready condition
-- true, and `PostProcessReconcile` keeps it so.
pub record SteadyLaws {Ctx Err S W : Type 0} (p : Platform Ctx Err S W) (cond_set : ConditionSet W)
    : Type 0 where
  pub mark_true_marks : (s : DuckStatus) (w : W) → IsTrue (cond_set.mark_true condition_ready s w)
  pub mark_true_idle :
      (s : DuckStatus) (w : W) → IsTrue s → cond_set.mark_true condition_ready s w ≡ s
  pub post_keeps :
      (c : Ctx) (o old : WasmModule) (w : W)
      → IsTrue o.status.status
      → IsTrue (p.post_process_reconcile c o old w).status.status
  pub pre_idle :
      (c : Ctx) (o : WasmModule)
      → IsTrue o.status.status
      → o.status.status.observed_generation ≡ o.object_meta.generation
      → p.pre_process_reconcile c o ≡ o
  pub post_idle :
      (c : Ctx) (o : WasmModule) (w : W)
      → o.status.status.observed_generation ≡ o.object_meta.generation
      → p.post_process_reconcile c o o w ≡ o

module _ {Ctx Err S W : Type 0} (p : Platform Ctx Err S W) (process : ProcessLaws p)
    (r : ReconcilerImpl Ctx Err W) (services : Services Err W)
    (conditions : ConditionLaws W services.cond_set) (steady : SteadyLaws p services.cond_set)
    (ctx : Ctx) (original : WasmModule) (w₁ : W) {m m' : WasmModule}
    (served : IsServed p process r services conditions ctx original w₁ m m')
    (same_spec : m.spec ≡ original.spec) (same_namespace : m.namespace ≡ original.namespace)
    (same_generation : m.object_meta.generation ≡ original.object_meta.generation) where
  stored_spec : m'.spec ≡ original.spec
  stored_spec = served.same_object.same_spec ∙ same_spec

  stored_namespace : m'.namespace ≡ original.namespace
  stored_namespace = ap (λ o. o.namespace) served.same_object.same_meta ∙ same_namespace

  stored_observed : m'.status.status.observed_generation ≡ m'.object_meta.generation
  stored_observed =
      served.is_observed
      ∙ sym (ap (λ o. o.generation) served.same_object.same_meta ∙ same_generation)

  stored-IsTrue : IsTrue m'.status.status
  unfolding available mark_service_available
  stored-IsTrue =
      find_condition-untimed fields_of (λ c. refl) condition_ready _ _ served.has_status
      ∙ steady.post_keeps (run_context p r services ctx)
          (available services (prepared p r services ctx original) w₁) original w₁
          (steady.mark_true_marks (prepared p r services ctx original).status.status w₁)

  stored_addressed : m'.status.address ≡ some (address_of services m')
  stored_addressed = served.has_address ∙ sym (simp (stored_spec, stored_namespace) refl)

  module _ (w₃ w₄ : W)
      (tracked : services.track_reference (reference_to services m') m' w₃ ≡ (none, w₄))
      (found : services.get_service m'.namespace m'.spec.service_name w₄ ≡ none) where
    stored-IsSettled : IsSettled p r services ctx m' w₃ w₄
    stored-IsSettled = record {
      prepared = steady.pre_idle (run_context p r services ctx) m' stored-IsTrue stored_observed;
      tracked = tracked;
      found = found;
      ready = steady.mark_true_idle m'.status.status w₄ stored-IsTrue;
      addressed = stored_addressed;
      observed = steady.post_idle (run_context p r services ctx) m' w₄ stored_observed;
    }

    -- Take the object that the server stores after a run on a WasmModule whose Service exists
    -- (`IsServed`), where the run saw the stored spec and generation. Once it is in the cache, live and
    -- with its Service there, the leader's next run makes no request and records no event: it ends well,
    -- and its only effect is that the Service is tracked.
    pub reconcile_served :
        SetsLaws S p.sets
        → IsReflexive p.deep_equal
        → (key namespace name : String) → p.split_meta_namespace_key key ≡ ok (namespace, name)
        → r.is_leader_for (record { namespace = namespace; name = name }) w₃ ≡ true
        → get_cached p.errors (wasm_modules r.lister namespace) name w₃ ≡ ok m'
        → p.is_zero m'.deletion_timestamp ≡ true
        → reconcile p (over r services) ctx key w₃ ≡ (none, w₄)
    reconcile_served sets same key namespace name split leads held live =
        reconcile_settled p r services ctx m' w₃ w₄ stored-IsSettled sets same key namespace name
          split leads held live
