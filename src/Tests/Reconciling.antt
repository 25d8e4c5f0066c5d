-- ===== src/Tests/Reconciling.antt =====
-- The theorems on `Reconcile`, at concrete data.
use knative_serving_wasm.Prelude.{
  String, ◌==◌, ◌≡◌, refl, true, false, none, some, List, [], ◌∷◌, contains, if◌then◌else◌,
}
use knative_serving_wasm.Reconciler.Finalizers.{patch_finalizers}
use knative_serving_wasm.Reconciler.Status.{put_status, update_attempt, update_status}
use knative_serving_wasm.Reconciler.Report.{report}
use knative_serving_wasm.Reconciler.Reconcile.{reconcile, decorate}
use knative_serving_wasm.Reconciler.Reconcile.Roles.{state_for, reconcile_follower}
use knative_serving_wasm.Reconciler.Reconcile.Leader.{set_or_fail, reconcile_leader}
use knative_serving_wasm.Reconciler.Reconcile.Deletion.{
  clear_or_fail, reconcile_deleted, reconcile_finalize_failed,
}
use knative_serving_wasm.Client
use knative_serving_wasm.Platform.Laws.{retry_loop}
use knative_serving_wasm.Tests.World.{
  failure, text_sets_laws, logged, same_number, platform, event_in,
}
use knative_serving_wasm.Tests.Cluster.{world_with}
use knative_serving_wasm.Tests.Data.{
  impl, live, deleted, held_live, held_deleted, failing, finalized, server_after,
}

reconcile_follower_example :
    reconcile platform (impl false) tt "default/greeter" (world_with live 0)
    ≡ (none, logged "observe" (world_with live 0))
unfolding report decorate
reconcile_follower_example =
    reconcile_follower platform (impl false) tt "default/greeter" "default" "greeter"
      (world_with live 0) refl refl refl held_live

reconcile_leader_example :
    reconcile platform (impl true) tt "default/greeter" (world_with live 0)
    ≡ set_or_fail platform
        (impl true)
        (state_for platform (impl true) "default/greeter" "default" "greeter" true)
        tt
        live
        (patch_finalizers platform (impl true) tt live ("other" ∷ "fin" ∷ []) (world_with live 0))
unfolding decorate
reconcile_leader_example =
    reconcile_leader platform (impl true) text_sets_laws tt "default/greeter" "default" "greeter"
      (world_with live 0) refl refl held_live refl

reconcile_deleted_example :
    (kept : List String) × ((x : String)
      → contains kept x ≡ (if "fin" == x then false else contains ("other" ∷ "fin" ∷ []) x))
    × (reconcile platform (impl true) tt "default/greeter" (world_with deleted 0)
        ≡ clear_or_fail platform
            (impl true)
            (state_for platform (impl true) "default/greeter" "default" "greeter" true)
            tt
            deleted
            none
            (patch_finalizers platform
              (impl true)
              tt
              finalized
              kept
              (logged "finalize" (world_with deleted 0))))
unfolding decorate
reconcile_deleted_example =
    reconcile_deleted platform (impl true) tt "default/greeter" "default" "greeter"
      (world_with deleted 0) refl refl deleted held_deleted refl text_sets_laws refl refl refl

written_at_once :
    update_status platform tt finalized deleted (logged "finalize" (world_with deleted 0))
    ≡ (none, server_after finalized deleted 0 ("write" ∷ "finalize" ∷ []))
unfolding update_status same_number retry_loop update_attempt put_status Client.update_status
    Client.update_status_request Client.base
written_at_once = refl

reconcile_finalize_failed_example :
    reconcile platform failing tt "default/greeter" (world_with deleted 0)
    ≡ report platform finalized
        (some (failure "busy"))
        (server_after finalized deleted 0 ("write" ∷ "finalize" ∷ []))
unfolding decorate event_in same_number
reconcile_finalize_failed_example =
    reconcile_finalize_failed platform failing tt "default/greeter" "default" "greeter"
      (world_with deleted 0) refl refl deleted held_deleted refl text_sets_laws refl refl refl refl
      refl refl written_at_once
