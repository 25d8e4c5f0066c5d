-- ===== src/Tests/Cluster.antt =====
-- What stands around the tests' API server: the cache, the condition manager and the Services, with
-- objects to put into them.
use knative_serving_wasm.Prelude.{
  ℕ, String, ◌<>◌, ◌==◌, eq_iff, refl, ◌&&◌, ◌||◌, Option, none, some, List, [], ◌∷◌, ok, arith,
  contains, if◌then◌else◌,
}
use knative_serving_wasm.Api.Types.{DuckStatus, WasmModule}
use knative_serving_wasm.Api.Lifecycle.{ConditionSet, find_condition, condition_of, ConditionLaws}
use knative_serving_wasm.Lister.{WasmModuleLister}
use knative_serving_wasm.Lister.Contents.{kept, append_all, ListsCache}
use knative_serving_wasm.Service.{Services}
use knative_serving_wasm.Tests.World.{Problem, problems, World, logged, missing}

unfoldable pub find_cached : String → List WasmModule → Option WasmModule
find_cached key [] = none
find_cached key (m ∷ ms) =
    if m.namespace <> "/" <> m.name == key then some m else find_cached key ms

abbrev pub cache_lister : WasmModuleLister Problem World
cache_lister = record {
  indexer = record {
    get_by_key = λ key w. ok (find_cached key w.cache);
    list_all = λ sel f ret w. (append_all f (kept (λ m. sel m.labels) w.cache) ret, none);
    list_all_by_namespace = λ ns sel f ret w. (
      append_all f (kept (λ m. (ns == "" || m.namespace == ns) && sel m.labels) w.cache) ret,
      none,
    );
  };
}

-- The ready condition, put in front of the others.
abbrev pub marked : String → String → String → DuckStatus → DuckStatus
marked t value reason s = record s {
  conditions =
      record {
        kind = t;
        status = value;
        severity = "";
        reason = reason;
        message = "";
        last_transition_time = 0;
      }
      ∷ [];
}

abbrev pub conditions : ConditionSet World
conditions = record {
  initialize = λ s _. s;
  mark_true = λ t s _. marked t "True" "" s;
  mark_false = λ t reason _ _ s _. marked t "False" reason s;
}

abbrev pub services : Services Problem World
services = record {
  errors = problems;
  cond_set = conditions;
  track_reference = λ ref _ w. (none, logged ("track " <> ref.name) w);
  get_service = λ _ name w. if contains w.services name then none else some missing;
  get_service_hostname = λ name namespace. name <> "." <> namespace <> ".svc.cluster.local";
}

pub cache_laws : ListsCache cache_lister.indexer (λ w. w.cache)
cache_laws = record { list_all_lem = λ sel f ret w. refl }

pub conditions_laws : ConditionLaws World conditions
unfolding condition_of find_condition
conditions_laws = record {
  condition_of-mark_true = λ t s w. ground (arith, eq_iff t t);
  condition_of-mark_false = λ t reason format args s w. ground (arith, eq_iff t t);
}

-- A WasmModule by the fields that the tests vary.
abbrev pub module_with : ℕ → ℕ → List String → Option ℕ → WasmModule
module_with generation observed finalizers deleted = record {
  type_meta = record { kind = "WasmModule"; api_version = "wasm.serving.knative.dev/v1alpha1" };
  object_meta = record {
    name = "greeter";
    namespace = "default";
    resource_version = "7";
    generation = generation;
    deletion_timestamp = deleted;
    finalizers = finalizers;
    labels = ("app", "greeter") ∷ [];
  };
  spec = record { service_name = "hello" };
  status = record {
    status = record { observed_generation = observed; conditions = [] };
    address = none;
  };
}

abbrev pub world_with : WasmModule → ℕ → World
world_with m refusals = record {
  server = m;
  refusals = refusals;
  cache = m ∷ [];
  services = "hello" ∷ [];
  log = [];
}
