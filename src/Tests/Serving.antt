-- ===== src/Tests/Serving.antt =====
-- The theorems on the business logic, the listers, promotions and the API types, at concrete data.
use knative_serving_wasm.Prelude.{
  ℕ, String, ◌==◌, ◌≡◌, refl, true, false, none, some, List, [], ◌∷◌, arith,
}
use knative_serving_wasm.Api.Lifecycle.{condition_ready, condition_of}
use knative_serving_wasm.Api.Validation.{FieldErrors}
use knative_serving_wasm.Api.Types.{WasmModule}
use knative_serving_wasm.Lister.Contents.{kept}
use knative_serving_wasm.Controller.Options.{ControllerOptions}
use knative_serving_wasm.Controller.Promotion.{promote}
use knative_serving_wasm.Controller.Promotion.Keys.{enqueue_keys, promote-keys}
use knative_serving_wasm.Controller.Construction.{new_reconciler}
use knative_serving_wasm.Controller.Construction.Defaults.{
  impl_reconciler, new_impl-eq-new_reconciler,
}
use knative_serving_wasm.Service.{interface}
use knative_serving_wasm.Service.Outcome.{result, reconcile_kind_lem}
use knative_serving_wasm.Tests.World.{World, logged}
use knative_serving_wasm.Tests.Cluster.{
  cache_lister, cache_laws, conditions_laws, services, module_with, world_with,
}

abbrev greeter : WasmModule
greeter = module_with 3 3 [] none

abbrev homeless : World
homeless = record (world_with greeter 0) { services = [] }

-- The Service is missing.
reconcile_kind_lem_example :
    ((result services tt greeter homeless).0.0 ≡ none)
    × (condition_of condition_ready (result services tt greeter homeless).0.1.status.status
        ≡ some ("False", "ServiceUnavailable"))
    × ((result services tt greeter homeless).0.1.status.address ≡ none)
reconcile_kind_lem_example = reconcile_kind_lem services tt greeter homeless conditions_laws

-- Two modules in two namespaces.
abbrev stranger : WasmModule
stranger = record greeter {
  object_meta = record greeter.object_meta { namespace = "tools"; name = "stranger" };
}

abbrev both : World
both = record (world_with greeter 0) { cache = stranger ∷ greeter ∷ [] }

promote-keys_example :
    promote cache_lister
      (some (λ m. m.namespace == "tools"))
      (λ bkt w. logged bkt w)
      "b"
      (λ bkt key w. logged key.name w)
      both
    ≡ (none, logged "stranger" (logged "b" both))
unfolding kept enqueue_keys
promote-keys_example =
    promote-keys "b" (λ bkt key w. logged key.name w) cache_lister (λ w. w.cache) cache_laws
      (some (λ m. m.namespace == "tools")) (λ bkt w. logged bkt w) both

abbrev options : List (ControllerOptions Unit World)
options =
    record {
      config_store = none;
      finalizer_name = "mine";
      agent_name = "";
      skip_status_updates = true;
      demote_func = none;
      promote_filter_func = none;
      promote_func = none;
    }
    ∷ []

new_impl-eq-new_reconciler_example :
    impl_reconciler {C = ℕ} {R = String}
      (λ _ _. true)
      5
      "recorder"
      cache_lister
      (interface services)
      options
    ≡ new_reconciler {C = ℕ}
        (λ _ _. true)
        5
        cache_lister
        (interface services)
        "recorder"
        false
        options
new_impl-eq-new_reconciler_example =
    new_impl-eq-new_reconciler {C = ℕ} {R = String} (λ _ _. true) 5 "recorder" cache_lister
      (interface services) options (omega arith) (refl, refl, tt)

abbrev field_errors : FieldErrors (List String)
field_errors = record { missing_field = λ f. f ∷ []; via_field = λ f e. f ∷ e }
