-- ===== src/Tests/Writing.antt =====
-- The theorems on status updates, finalizers, methods and reports, at concrete data.
use knative_serving_wasm.Prelude.{
  arith, ℕ, ◌+◌, ◌*◌, ◌≤◌, String, ◌==◌, ◌≡◌, refl, true, false, none, List, [], ◌∷◌, contains,
  if◌then◌else◌,
}
use knative_serving_wasm.Api.Types.{WasmModule}
use knative_serving_wasm.Reconciler.State.{reconcile_method_for}
use knative_serving_wasm.Reconciler.State.Selection.{Selected, reconcile_method_for-Selected}
use knative_serving_wasm.Reconciler.Finalizers.{patch_finalizers, clear_finalizer}
use knative_serving_wasm.Reconciler.Finalizers.Changes.{clear_finalizer_lem}
use knative_serving_wasm.Reconciler.Status.{put_status, update_attempt, update_status}
use knative_serving_wasm.Reconciler.Status.Writes.{Steps, update_status-Steps}
use knative_serving_wasm.Reconciler.Status.Outcome.{AtHand, Landed, update_status-none}
use knative_serving_wasm.Reconciler.Status.Convergence.{RefusingServer, update_status_converges}
use knative_serving_wasm.Reconciler.Reconcile.Roles.{state_for}
use knative_serving_wasm.Client
use knative_serving_wasm.Platform.Laws.{retry_loop}
use knative_serving_wasm.Tests.World.{
  conflict, text_sets_laws, World, same_number, platform, platform_retries,
}
use knative_serving_wasm.Tests.Cluster.{world_with}
use knative_serving_wasm.Tests.Data.{impl, live, deleted, wanted}

update_status-Steps_example :
    (n : ℕ) × (last : WasmModule) × (n ≤ 2 * (4 + 1))
    × Steps platform tt wanted n live
        (world_with live 2)
        last
        (update_status platform tt wanted live (world_with live 2)).1
update_status-Steps_example =
    update_status-Steps platform tt wanted platform_retries live (world_with live 2)

refused_once : (update_status platform tt wanted live (world_with live 1)).0 ≡ none
unfolding update_status same_number retry_loop update_attempt put_status Client.update_status
    Client.update_status_request Client.base Client.get_module Client.get_request
refused_once = refl

update_status-none_example :
    (m : WasmModule) × (w' : World) × AtHand platform tt wanted live (world_with live 1) m w'
    × Landed platform tt wanted m w' (update_status platform tt wanted live (world_with live 1)).1
update_status-none_example =
    update_status-none platform tt wanted platform_retries live (world_with live 1) refused_once

clear_finalizer_lem_example :
    (kept : List String) × ((x : String)
      → contains kept x ≡ (if "fin" == x then false else contains ("other" ∷ "fin" ∷ []) x))
    × (clear_finalizer platform (impl true) tt deleted none (world_with deleted 0)
        ≡ patch_finalizers platform (impl true) tt deleted kept (world_with deleted 0))
clear_finalizer_lem_example =
    clear_finalizer_lem platform text_sets_laws (impl true) tt deleted none (world_with deleted 0)

reconcile_method_for-Selected_example :
    Selected platform
      (state_for platform (impl true) "default/greeter" "default" "greeter" true)
      live
      (reconcile_method_for platform
        (state_for platform (impl true) "default/greeter" "default" "greeter" true)
        live)
reconcile_method_for-Selected_example =
    reconcile_method_for-Selected platform
      (state_for platform (impl true) "default/greeter" "default" "greeter" true) live

-- The server of the world, which refuses writes.
server : RefusingServer platform tt wanted
unfolding Client.update_status Client.update_status_request Client.base Client.get_module
    Client.get_request
server = record {
  refusals = λ w. w.refusals;
  reads = λ w. refl;
  reads_keep = λ w. refl;
  accepts = λ m w free. rw free refl;
  refuses = λ m w k busy. (conflict, rw busy refl, refl, rw busy refl);
}

few_refusals : server.refusals (world_with live 4) ≤ 4
unfolding server
few_refusals = omega arith

update_status_converges_example :
    (update_status platform tt wanted live (world_with live 4)).0 ≡ none
update_status_converges_example =
    update_status_converges platform tt wanted server platform_retries live (world_with live 4)
      few_refusals
