-- ===== src/Service/Waiting.antt =====
-- The business logic under the generated reconciler: a WasmModule whose Service stays away is left
-- alone after one run.
use knative_serving_wasm.Prelude.{
  String, ◌≡◌, ◌∙◌, sym, ap, refl, true, none, some, Option, List, [], ◌∷◌, ok,
}
use mathlib.Core.Option
use knative_serving_wasm.Api.Types.{Condition, DuckStatus, WasmModule}
use knative_serving_wasm.Api.Lifecycle.{
  condition_ready, condition_of, find_condition, find_condition-untimed, mark_service_unavailable,
  ConditionSet, ConditionLaws,
}
use knative_serving_wasm.Platform.Types.{Platform}
use knative_serving_wasm.Platform.Laws.{SetsLaws, IsReflexive}
use knative_serving_wasm.Lister.{wasm_modules, get_cached}
use knative_serving_wasm.Reconciler.Types.{ReconcilerImpl}
use knative_serving_wasm.Reconciler.Reconcile.{reconcile}
use knative_serving_wasm.Service.{
  Services, reference_to, unavailable, after_lookup, after_track, reconcile_kind,
}
use knative_serving_wasm.Service.Steady.{over, reconcile_still}
use knative_serving_wasm.Service.Progress.{run_context, prepared}
use knative_serving_wasm.Service.Written.{ProcessLaws}
use knative_serving_wasm.Service.Missing.{IsUnserved}

-- What a condition shows: its status, severity, reason and message.
abbrev fields_of : Condition → String × String × String × String
fields_of c = (c.status, c.severity, c.reason, c.message)

abbrev pub shown : String → DuckStatus → Option (String × String × String × String)
shown t s = Option.map fields_of (find_condition t s.conditions)

-- What knative.dev/pkg documents of runs that have nothing to change: `MarkFalse` changes nothing where
-- the condition already shows what it would show, `PreProcessReconcile` changes nothing where the ready
-- condition is there and the generation observed, and `PostProcessReconcile` keeps what conditions show,
-- and changes nothing on an object that the run left unchanged.
pub record WaitingLaws {Ctx Err S W : Type 0} (p : Platform Ctx Err S W) (cond_set : ConditionSet W)
    : Type 0 where
  pub mark_false_idle :
      (t reason format : String) (args : List String) (s s' : DuckStatus) (w w' : W)
      → shown t s' ≡ shown t (cond_set.mark_false t reason format args s w)
      → cond_set.mark_false t reason format args s' w' ≡ s'
  pub pre_idle :
      (c : Ctx) (o : WasmModule) {x : String × String}
      → condition_of condition_ready o.status.status ≡ some x
      → o.status.status.observed_generation ≡ o.object_meta.generation
      → p.pre_process_reconcile c o ≡ o
  pub post_shown :
      (c : Ctx) (o old : WasmModule) (w : W) (t : String)
      → shown t (p.post_process_reconcile c o old w).status.status ≡ shown t o.status.status
  pub post_idle :
      (c : Ctx) (o : WasmModule) (w : W)
      → o.status.status.observed_generation ≡ o.object_meta.generation
      → p.post_process_reconcile c o o w ≡ o

module _ {Ctx Err S W : Type 0} (p : Platform Ctx Err S W) (process : ProcessLaws p)
    (r : ReconcilerImpl Ctx Err W) (services : Services Err W)
    (conditions : ConditionLaws W services.cond_set) (waiting : WaitingLaws p services.cond_set)
    (ctx : Ctx) (original : WasmModule) (w₁ : W) {m m' : WasmModule}
    (unserved : IsUnserved p process r services conditions ctx original w₁ m m')
    (same_spec : m.spec ≡ original.spec)
    (same_generation : m.object_meta.generation ≡ original.object_meta.generation) where
  abbrev before : WasmModule
  before = prepared p r services ctx original

  stored_name : m'.spec.service_name ≡ before.spec.service_name
  stored_name =
      ap (λ s. s.service_name)
        (unserved.same_object.same_spec
          ∙ (same_spec ∙ sym (process.pre_spec (run_context p r services ctx) original)))

  stored_observed : m'.status.status.observed_generation ≡ m'.object_meta.generation
  stored_observed =
      unserved.is_observed
      ∙ sym (ap (λ o. o.generation) unserved.same_object.same_meta ∙ same_generation)

  stored_shown :
      shown condition_ready m'.status.status
      ≡ shown condition_ready (unavailable services before w₁).status.status
  stored_shown =
      find_condition-untimed fields_of (λ c. refl) condition_ready _ _ unserved.has_status
      ∙ waiting.post_shown (run_context p r services ctx) (unavailable services before w₁) original
          w₁ condition_ready

  unavailable-stored : (w : W) → unavailable services m' w ≡ m'
  unfolding unavailable mark_service_unavailable
  unavailable-stored w =
      ap (λ s. record m' { status = record m'.status { status = s } })
        (ap
            (λ (n : String).
              services.cond_set.mark_false condition_ready "ServiceUnavailable"
                "Service %q wasn't found." (n ∷ []) m'.status.status w)
            stored_name
          ∙ waiting.mark_false_idle condition_ready "ServiceUnavailable" "Service %q wasn't found."
              (before.spec.service_name ∷ []) before.status.status m'.status.status w₁ w
              stored_shown)

  module _ (w₃ w₄ : W) {x : Err}
      (tracked : services.track_reference (reference_to services m') m' w₃ ≡ (none, w₄))
      (unfound : services.get_service m'.namespace m'.spec.service_name w₄ ≡ some x)
      (not_found : services.errors.is_not_found x ≡ true) where
    reconcile_kind-stored : (c : Ctx) → reconcile_kind services c m' w₃ ≡ ((none, m'), w₄)
    unfolding reconcile_kind after_track after_lookup
    reconcile_kind-stored c =
        ap (after_track services m') tracked
        ∙ rw unfound (rw not_found (ap (λ o. ((none, o), w₄)) (unavailable-stored w₄)))

    -- Take the object that the server stores after a run on a WasmModule whose Service was not found
    -- (`IsUnserved`), where the run saw the stored spec and generation. Once it is in the cache, live
    -- and still without its Service, the leader's next run makes no request and records no event: it
    -- ends well, and its only effect is that the Service is tracked.
    pub reconcile_unserved :
        SetsLaws S p.sets
        → IsReflexive p.deep_equal
        → (key namespace name : String) → p.split_meta_namespace_key key ≡ ok (namespace, name)
        → r.is_leader_for (record { namespace = namespace; name = name }) w₃ ≡ true
        → get_cached p.errors (wasm_modules r.lister namespace) name w₃ ≡ ok m'
        → p.is_zero m'.deletion_timestamp ≡ true
        → reconcile p (over r services) ctx key w₃ ≡ (none, w₄)
    reconcile_unserved =
        reconcile_still p r services ctx m' w₃ w₄
          (waiting.pre_idle (run_context p r services ctx) m' unserved.is_not_ready stored_observed)
          reconcile_kind-stored
          (waiting.post_idle (run_context p r services ctx) m' w₄ stored_observed)
