-- ===== src/Tests/Histories.antt =====
-- The effects of runs, and histories of two replicas and a user, at concrete data.
use knative_serving_wasm.Prelude.{
  String, ◌==◌, refl, Bool, true, false, none, some, inl, subst, Option,
}
use knative_serving_wasm.Api.Types.{WasmModule}
use knative_serving_wasm.Client
use knative_serving_wasm.Reconciler.Reconcile.{reconcile}
use knative_serving_wasm.Reconciler.Types.{DoReconcile, ReconcilerImpl}
use knative_serving_wasm.Reconciler.Effects.{Acts}
use knative_serving_wasm.Reconciler.Effects.Run.{CachedFor, reconcile-Acts}
use knative_serving_wasm.Reconciler.Effects.History.{
  StatusOnly, CallsKeep, RunsKeep, Throughout, Reach,
}
use knative_serving_wasm.Reconciler.Effects.Evolution.{StatusOnly-Evolves, Reach-Evolves}
use knative_serving_wasm.Service.Steady.{over}
use knative_serving_wasm.Service.History.{ServiceKeeps, Reach-StatusOnly}
use knative_serving_wasm.Tests.World.{Problem, World, text_sets_laws}
use knative_serving_wasm.Tests.Encoding.{decode}
use knative_serving_wasm.Tests.Cluster.{services, world_with}
use knative_serving_wasm.Tests.Data.{impl, live, deleted}
use knative_serving_wasm.Tests.Versioned.{answer, versioned, versioned_retries}
use knative_serving_wasm.Tests.Persistence.{
  stored_under, StatusOnly-guarded, edited, Edit, edit, Persists, Persists-refl, Persists-trans,
  Evolves-Persists, same_object, patched-Persists, Edit-Persists,
}

-- The leader's run on a deleted object: its effects are a finalization, a patch and events.
reconcile-Acts_example :
    Acts versioned
      (impl true)
      (CachedFor versioned (impl true) "default/greeter" (world_with deleted 0))
      true
      (world_with deleted 0)
      (reconcile versioned (impl true) tt "default/greeter" (world_with deleted 0)).1
reconcile-Acts_example =
    reconcile-Acts versioned (impl true) versioned_retries text_sets_laws tt "default/greeter"
      (world_with deleted 0)

calls : CallsKeep versioned stored_under Persists
unfolding stored_under answer Client.get_request Client.update_status_request Client.base
calls = record {
  reads = λ ctx ns name a b w. same_object w a b;
  updates_status = λ ctx o a b w. (
    _,
    _,
    same_object w a b,
    StatusOnly-guarded (o.object_meta.resource_version == w.server.object_meta.resource_version)
        o.status a b w,
    Persists-refl _,
  );
  records_event = λ o kind reason message a b w. same_object w a b;
  records_eventf = λ o kind reason format args a b w. same_object w a b;
}

-- A method of the user leaves the objects as they are.
abbrev MethodKeeps : Option (DoReconcile Unit Problem World) → Type 0
MethodKeeps none = Unit
MethodKeeps (some f) =
    (ctx : Unit) (o : WasmModule) (a b : String) (w : World)
    → Persists (stored_under a b w) (stored_under a b (f ctx o w).1)

keeps : (leads : Bool) → RunsKeep versioned (impl leads) stored_under Persists
unfolding stored_under answer Client.patch_request Client.base
keeps leads = record {
  calls = calls;
  patches = λ ctx o l bytes a b w _ _.
      (_, _, same_object w a b, inl refl, patched-Persists (decode bytes) w a b);
  reconciles = λ ctx o a b w. same_object w a b;
  finalizes = λ f ctx o a b w is. subst MethodKeeps is (λ _ _ a b w. same_object w a b) ctx o a b w;
  observes = λ f ctx o a b w is. subst MethodKeeps is (λ _ _ a b w. same_object w a b) ctx o a b w;
  observes_deletion = λ f ctx key a b w is. absurd (cc);
}

serves : (leads : Bool) → ServiceKeeps versioned services stored_under Persists
unfolding stored_under
serves leads = record { calls = calls; tracks = λ ref o a b w. same_object w a b }

allowed : (a b : Option WasmModule) → StatusOnly a b → Persists a b
allowed a b h = Evolves-Persists a b (StatusOnly-Evolves a b h)

abbrev between : World → (Bool → ReconcilerImpl Unit Problem World) → World
between w replica = (reconcile versioned (replica true) tt "default/greeter" w).1

abbrev after : World → (Bool → ReconcilerImpl Unit Problem World) → World
after w replica =
    (reconcile versioned (replica false) tt "default/greeter" (edited "bye" (between w replica))).1

-- The leader runs, a user edits the object, and the other replica runs.
history :
    (replica : Bool → ReconcilerImpl Unit Problem World) (w : World)
    → Reach versioned replica Edit w (after w replica)
history replica w =
    Reach.run false tt "default/greeter" (
      Reach.other (Reach.run true tt "default/greeter" Reach.start)
        (edit "bye" (between w replica)))

Reach-StatusOnly_example :
    Throughout stored_under Persists
      (world_with live 0)
      (after (world_with live 0) (λ i. over (impl i) services))
Reach-StatusOnly_example =
    Reach-StatusOnly versioned stored_under versioned_retries text_sets_laws impl (λ _. services)
      Persists serves Edit Persists-refl Persists-trans allowed Edit-Persists
      (history (λ i. over (impl i) services) (world_with live 0))

Reach-Evolves_example :
    Throughout stored_under Persists (world_with live 0) (after (world_with live 0) impl)
Reach-Evolves_example =
    Reach-Evolves versioned stored_under versioned_retries text_sets_laws impl Persists keeps Edit
      Persists-refl Persists-trans Evolves-Persists Edit-Persists (history impl (world_with live 0))
