-- ===== src/Tests/Persisting.antt =====
-- The theorems on what the API server stores, at concrete data: the cached object is stale.
use knative_serving_wasm.Prelude.{
  String, eq_iff, ◌==◌, if◌then◌else◌, ◌≡◌, ◌≢◌, refl, true, false, none, some, List, [], ◌∷◌,
  arith, ap, sym, ◌∙◌, contains,
}
use knative_serving_wasm.Api.Types.{WasmModule, WasmModuleStatus}
use knative_serving_wasm.Api.Lifecycle.{
  condition_ready, condition_of, find_condition, mark_service_available, mark_service_unavailable,
}
use knative_serving_wasm.Lister.{wasm_modules, get_cached}
use knative_serving_wasm.Reconciler.Types.{ReconcilerImpl}
use knative_serving_wasm.Reconciler.Status.{update_status}
use knative_serving_wasm.Reconciler.Status.Stored.{Stores, update_status-Stores}
use knative_serving_wasm.Reconciler.Finalizers.{set_finalizer_if_finalizer, clear_finalizer}
use knative_serving_wasm.Reconciler.Finalizers.Sets.{set_of, delete}
use knative_serving_wasm.Reconciler.Finalizers.Refinement.{
  set_spec, clear_spec, Ends, finalizers-refine,
}
use knative_serving_wasm.Reconciler.Finalizers.Stored.{
  Patched, set_finalizer_if_finalizer-Patched, finalizers_roundtrip,
}
use knative_serving_wasm.Reconciler.Reconcile.{reconcile}
use knative_serving_wasm.Service.{available, unavailable}
use knative_serving_wasm.Service.Recovery.{reconcile-Follows}
use knative_serving_wasm.Service.Missing.{IsUnserved, reconcile_missing_service-IsUnserved}
use knative_serving_wasm.Service.Steady.{over}
use knative_serving_wasm.Service.Stored.{IsServed, reconcile_found_service-IsServed}
use knative_serving_wasm.Tests.World.{Problem, World, logged, text_sets_laws}
use knative_serving_wasm.Tests.Cluster.{
  services, conditions_laws, cache_lister, find_cached, world_with,
}
use knative_serving_wasm.Server.{FinalizersSet, remains}
use knative_serving_wasm.Reconciler.Reconcile.Released.{reconcile_deleted-FinalizersSet}
use knative_serving_wasm.Tests.Data.{deleted, impl, live, wanted}
use knative_serving_wasm.Tests.Versioned.{
  same_status-differs, versioned, versioned_retries, versioned_process, versioned_IsSemantic,
  versioned_IsReflexive, with_finalizers, next_version,
}
use knative_serving_wasm.Tests.Held.{is_stored, held}
use knative_serving_wasm.Tests.Stored.{versioned_server, versioned_recorder}

-- What the server stores is newer than the cached object.
abbrev newer : WasmModule
newer = record live {
  object_meta = record live.object_meta { resource_version = "8"; generation = 4 };
}

abbrev stale_world : World
stale_world = record (world_with live 0) { server = newer }

versioned_text : ◌≢◌ {A = String} "7" ""
versioned_text h = ground (arith, eq_iff "7" "")

-- Statuses with other observed generations are not deeply equal.
other_generation :
    (s t : WasmModuleStatus)
    → s.status.observed_generation ≢ t.status.observed_generation
    → versioned.deep_equal s t ≡ false
other_generation s t h = same_status-differs s t (λ e. h (ap (λ a. a.status.observed_generation) e))

update_status-Stores_example :
    (w' : World) × (update_status versioned tt wanted live stale_world ≡ (none, w'))
    × Stores versioned versioned_server versioned_IsSemantic tt wanted newer w'
unfolding held is_stored
update_status-Stores_example =
    update_status-Stores versioned versioned_server versioned_IsSemantic tt wanted versioned_retries
      live stale_world refl refl refl versioned_text
      (other_generation live.status wanted.status (omega arith)) refl

-- The object after its finalizer is set, and it, deleted.
abbrev finalized : WasmModule
finalized = record (with_finalizers ("other" ∷ "fin" ∷ []) newer) {
  object_meta = record (with_finalizers ("other" ∷ "fin" ∷ []) newer).object_meta {
    deletion_timestamp = some 9;
  };
}

set :
    finalized.finalizers
    ≡ (set_finalizer_if_finalizer versioned
        (impl true)
        tt
        newer
        (world_with newer 0)).0.0.finalizers
unfolding held is_stored with_finalizers next_version
set =
    let (m', w', eq, _, changed) =
      set_finalizer_if_finalizer-Patched versioned versioned_server versioned_recorder (impl true)
        tt text_sets_laws newer (world_with newer 0) refl refl refl refl refl in
    sym (ap (λ a. a.0.0.finalizers) eq ∙ ap (λ o. o.finalizers) changed.set_meta)

finalizers_roundtrip_example :
    (kept : List String) × ((x : String) → contains kept x ≡ contains ("other" ∷ []) x)
    × Patched versioned versioned_server versioned_recorder
        (impl true)
        tt
        finalized
        kept
        (clear_finalizer versioned (impl true) tt finalized none (world_with finalized 0))
unfolding held is_stored with_finalizers next_version
finalizers_roundtrip_example =
    finalizers_roundtrip versioned versioned_server versioned_recorder (impl true) tt text_sets_laws
      newer finalized none (world_with newer 0) (world_with finalized 0) refl refl refl refl refl
      set refl refl refl

abbrev reconciler : ReconcilerImpl Unit Problem World
reconciler = record (impl true) { lister = cache_lister }

reconcile_found_service-IsServed_example :
    (m' : WasmModule) × (w₂ : World) × (reconcile versioned
        (over reconciler services)
        tt
        "default/greeter"
        stale_world
      ≡ (none, w₂))
    × (held "default" "greeter" w₂ ≡ some m')
    × IsServed versioned versioned_process reconciler services conditions_laws tt live
        (logged "track hello" stale_world)
        newer
        m'
unfolding held is_stored find_cached get_cached wasm_modules available mark_service_available
reconcile_found_service-IsServed_example =
    reconcile_found_service-IsServed versioned versioned_process reconciler services conditions_laws
      tt live (logged "track hello" stale_world) versioned_server versioned_IsSemantic
      text_sets_laws versioned_retries stale_world "default/greeter" "default" "greeter" refl refl
      refl refl refl refl refl refl (other_generation _ _ (omega arith)) versioned_text refl

unready : condition_of condition_ready live.status.status ≢ some ("True", "")
unfolding condition_of find_condition
unready h = cc

reconcile-Follows_example :
    (m' : WasmModule) × (w₂ : World) × (reconcile versioned
        (over reconciler services)
        tt
        "default/greeter"
        stale_world
      ≡ (none, w₂))
    × (held "default" "greeter" w₂ ≡ some m')
    × IsServed versioned versioned_process reconciler services conditions_laws tt live
        (logged "track hello" stale_world)
        newer
        m'
unfolding held is_stored find_cached get_cached wasm_modules
reconcile-Follows_example =
    reconcile-Follows versioned versioned_process reconciler services conditions_laws tt
      versioned_server versioned_IsSemantic text_sets_laws versioned_retries refl refl live
      stale_world (logged "track hello" stale_world) "default/greeter" "default" "greeter" refl refl
      refl refl versioned_text refl refl none refl tt unready

-- The same with no Service in the cluster.
abbrev homeless : World
homeless = record stale_world { services = [] }

reconcile_missing_service-IsUnserved_example :
    (m' : WasmModule) × (w₂ : World) × (reconcile versioned
        (over reconciler services)
        tt
        "default/greeter"
        homeless
      ≡ (none, w₂))
    × (held "default" "greeter" w₂ ≡ some m')
    × IsUnserved versioned versioned_process reconciler services conditions_laws tt live
        (logged "track hello" homeless)
        newer
        m'
unfolding held is_stored find_cached get_cached wasm_modules unavailable mark_service_unavailable
reconcile_missing_service-IsUnserved_example =
    reconcile_missing_service-IsUnserved versioned versioned_process reconciler services
      conditions_laws tt live (logged "track hello" homeless) versioned_server versioned_IsSemantic
      text_sets_laws versioned_retries homeless "default/greeter" "default" "greeter" refl refl refl
      refl refl refl refl refl refl (other_generation _ _ (omega arith)) versioned_text refl

-- A `FinalizeKind` that leaves the object as it is.
abbrev releasing : ReconcilerImpl Unit Problem World
releasing = record (impl true) {
  reconciler = record (impl true).reconciler {
    finalize_kind = some (λ _ o w. ((none, o), logged "finalize" w));
  };
}

reconcile_deleted-FinalizersSet_example :
    (kept : List String) × ((x : String)
      → contains kept x ≡ (if "fin" == x then false else contains ("other" ∷ "fin" ∷ []) x))
    × (m' : WasmModule) × (w₂ : World) × (reconcile versioned releasing tt "default/greeter"
          (world_with deleted 0)
        ≡ (none, w₂))
    × (held "default" "greeter" w₂ ≡ remains m')
    × FinalizersSet kept deleted m'
unfolding held is_stored find_cached get_cached wasm_modules
reconcile_deleted-FinalizersSet_example =
    reconcile_deleted-FinalizersSet versioned versioned_server versioned_recorder releasing tt
      text_sets_laws versioned_IsReflexive "default/greeter" "default" "greeter" deleted
      (world_with deleted 0) refl refl refl refl refl refl refl refl

-- On a deleted object with the finalizer, whose finalization ended well.
finalizers-refine_example :
    Ends versioned versioned_server versioned_recorder
      (impl true)
      tt
      text_sets_laws
      deleted
      (set_of deleted)
      (set_finalizer_if_finalizer versioned (impl true) tt deleted (world_with deleted 0))
    × Ends versioned versioned_server versioned_recorder
        (impl true)
        tt
        text_sets_laws
        deleted
        (delete "fin" (set_of deleted))
        (clear_finalizer versioned (impl true) tt deleted none (world_with deleted 0))
unfolding held is_stored set_spec clear_spec
finalizers-refine_example =
    finalizers-refine versioned versioned_server versioned_recorder (impl true) tt text_sets_laws
      deleted refl refl refl none (world_with deleted 0) refl
