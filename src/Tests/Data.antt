-- ===== src/Tests/Data.antt =====
-- Reconcilers and objects for the tests.
use knative_serving_wasm.Prelude.{
  ℕ, String, ◌≡◌, refl, Bool, true, false, Option, none, some, List, [], ◌∷◌, ok,
}
use knative_serving_wasm.Api.Types.{WasmModule}
use knative_serving_wasm.Lister.{wasm_modules, get_cached}
use knative_serving_wasm.Reconciler.Types.{ReconcilerImpl, DoReconcile}
use knative_serving_wasm.Tests.World.{Problem, failure, problems, World, logged}
use knative_serving_wasm.Tests.Cluster.{find_cached, cache_lister, module_with, world_with}

-- Business logic that logs the run and observes a new generation.
abbrev pub handler : String → Option Problem → DoReconcile Unit Problem World
handler line e _ o w = (
  (
    e,
    record o {
      status = record o.status { status = record o.status.status { observed_generation = 3 } };
    },
  ),
  logged line w,
)

abbrev pub impl : Bool → ReconcilerImpl Unit Problem World
impl leads = record {
  is_leader_for = λ _ _. leads;
  promote_func = λ _ _ w. (none, w);
  demote_func = none;
  lister = cache_lister;
  config_store = none;
  reconciler = record {
    reconcile_kind = handler "reconcile" none;
    finalize_kind = some (handler "finalize" none);
    observe_kind = some (handler "observe" none);
    observe_deletion = none;
  };
  finalizer_name = "fin";
  skip_status_updates = false;
}

abbrev pub live : WasmModule
live = module_with 3 2 ("other" ∷ []) none

abbrev pub deleted : WasmModule
deleted = module_with 3 2 ("other" ∷ "fin" ∷ []) (some 9)

abbrev pub wanted : WasmModule
wanted = module_with 3 3 ("other" ∷ []) none

pub held_live :
    get_cached problems (wasm_modules cache_lister "default") "greeter" (world_with live 0)
    ≡ ok live
unfolding get_cached wasm_modules find_cached
held_live = refl

pub held_deleted :
    get_cached problems (wasm_modules cache_lister "default") "greeter" (world_with deleted 0)
    ≡ ok deleted
unfolding get_cached wasm_modules find_cached
held_deleted = refl

abbrev pub failing : ReconcilerImpl Unit Problem World
failing = record (impl true) {
  reconciler = record (impl true).reconciler {
    finalize_kind = some (handler "finalize" (some (failure "busy")));
  };
}

abbrev pub plain : ReconcilerImpl Unit Problem World
plain = record (impl true) { reconciler = record (impl true).reconciler { finalize_kind = none } }

-- The object that the failing `FinalizeKind` leaves.
abbrev pub finalized : WasmModule
finalized = module_with 3 3 ("other" ∷ "fin" ∷ []) (some 9)

-- Writes of the wanted status, with no refusal and with one.
abbrev pub server_after : WasmModule → WasmModule → ℕ → List String → World
server_after m cached refusals log = record (world_with m refusals) {
  cache = cached ∷ [];
  log = log;
}
