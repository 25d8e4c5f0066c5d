-- ===== src/Service/Assembly/Cache.antt =====
-- The controller reads the cache of the injected informer, and hears its events.
use knative_serving_wasm.Prelude.{ℕ, ◌≡◌, refl, ap, ◌∙◌, Option, none, some, List, [], ok, false}
use knative_serving_wasm.Cells.{Memory}
use knative_serving_wasm.Lister.{new_lister}
use knative_serving_wasm.Informers.Factory.{Factory}
use knative_serving_wasm.Informers.Listing.{Scope}
use knative_serving_wasm.Injection.Heap.{Context, ModuleInformer}
use knative_serving_wasm.Injection.Sharing.{with_informer-shared}
use knative_serving_wasm.Injection.{
  get_client, get_informer, informer_of, with_informer_factory, with_informer,
}
use knative_serving_wasm.Controller.Options.{
  default_controller_agent_name, default_finalizer_name, apply_impl_options,
}
use knative_serving_wasm.Controller.Construction.{Unrecorded, new_impl}
use knative_serving_wasm.Controller.Recorder.{
  Broadcasting, Surroundings, create_recorder, CanRecord, create_recorder-Created,
}
use knative_serving_wasm.Controller.Promotion.{promote}
use knative_serving_wasm.Reconciler.Types.{ReconcilerImpl}
use knative_serving_wasm.Service.{interface}
use knative_serving_wasm.Service.Wiring.{on_module_event, on_service_event}
use knative_serving_wasm.Service.Assembly.{
  Parts, Built, lister_of, new_unrecorded, recorded, with_recorder, new_impl_in, wired,
  services_with, new_controller,
}

module _ {Ctx Err W I V : Type 0} (parts : Parts Err W I V) (svc : V) where
  -- The reconciler that `NewController` builds over an informer, and what it adds to the informers.
  abbrev pub rec_over : I → ReconcilerImpl Ctx Err W
  rec_over i = record {
    is_leader_for = parts.is_leader_for;
    promote_func = promote (new_lister (parts.get_indexer i)) none (λ _ w. w);
    demote_func = none;
    lister = new_lister (parts.get_indexer i);
    config_store = none;
    reconciler = interface (services_with parts svc);
    finalizer_name = default_finalizer_name;
    skip_status_updates = false;
  }

  abbrev pub built_over : {C R H : Type 0} → C → R → List H → I → Built Ctx Err W C R H I V
  built_over c recorder watches i = record {
    made = record {
      constructed = record { rec = rec_over i; client = c; recorder = recorder };
      watches = watches;
    };
    module_informer = i;
    module_handler = on_module_event parts.impl;
    service_informer = svc;
    service_handler = on_service_event parts.impl;
  }

module _ {Ctx Err W C I T V R K H : Type 0} (set_transform : Option T → I → I)
    (default_informer : Scope → C → ℕ → I) (parts : Parts Err W I V) (svc : V)
    (lib : Broadcasting R K H W) (outer : Surroundings R K) (w : W) where
  module _ (c : C) (ctx : Context C) (heap : Memory (Factory C I T)) (m : ModuleInformer) (i : I)
      {recorder : R} {watches : List H} {w' : W} (client : get_client ctx ≡ some c)
      (at : get_informer ctx ≡ some m)
      (shared : informer_of set_transform default_informer m heap ≡ some (i, heap))
      (records : create_recorder lib outer default_controller_agent_name w
        ≡ some ((recorder, watches), w')) where
    abbrev unrecorded : Unrecorded Ctx Err W C
    unrecorded = record {
      rec = rec_over parts svc i;
      client = c;
      agent_name = default_controller_agent_name;
    }

    new_unrecorded-found :
        new_unrecorded set_transform default_informer parts ctx
          (interface (services_with parts svc))
          []
          heap
        ≡ some (ok unrecorded, heap)
    unfolding new_unrecorded lister_of new_impl apply_impl_options
    new_unrecorded-found = rw (at, shared, client) refl

    new_impl_in-found :
        new_impl_in set_transform default_informer parts lib ctx outer
          (interface (services_with parts svc))
          []
          heap
          w
        ≡ some (ok (built_over {Ctx = Ctx} parts svc c recorder watches i).made, heap, w')
    unfolding new_impl_in
    new_impl_in-found =
        ap (recorded set_transform default_informer parts lib outer w) new_unrecorded-found
        ∙ ap (with_recorder set_transform default_informer parts lib unrecorded heap) records

    new_controller-found :
        new_controller {Ctx = Ctx} set_transform default_informer parts lib ctx outer
          (some svc)
          heap
          w
        ≡ some (ok (built_over parts svc c recorder watches i), heap, w')
    unfolding new_controller
    new_controller-found =
        ap
          (λ o. elim o [
            | none ↦ none
            | some n ↦ wired set_transform default_informer parts lib n svc (
                new_impl_in set_transform default_informer parts lib ctx outer
                  (interface (services_with parts svc)) [] heap w)
          ])
          at
        ∙ (ap (wired set_transform default_informer parts lib m svc) new_impl_in-found
            ∙ rw (wired, shared) refl)

  -- Where the context holds a client, an informer of Services, and a recorder or a Kubernetes client,
  -- the injection of the factory and of the WasmModule informer, and then `NewController`, neither panic
  -- nor end the process. `NewController` opens no other informer: the reconciler's lister, also the one
  -- that a promotion lists, reads the indexer of the very informer that the injection returned, and the
  -- handler that puts WasmModules on the queue is added to it. The reconciler runs the business logic
  -- over the lister of Services, with the default finalizer, the context's client and the recorder that
  -- `createRecorder` returns for the default agent, and the tracker's handler is added to the informer
  -- of Services.
  pub new_controller-shared :
      (c : C) (ctx : Context C) (heap : Memory (Factory C I T))
      → CanRecord lib outer.event_recorder outer.kube_client
      → get_client ctx ≡ some c
      → (ctx₁ : Context C) × (heap₁ : Memory (Factory C I T)) × (ctx₂ : Context C) × (i : I)
        × (heap₂ : Memory (Factory C I T)) × (recorder : R) × (watches : List H) × (w' : W)
        × (with_informer_factory ctx heap ≡ some (ctx₁, heap₁))
        × (with_informer set_transform default_informer ctx₁ heap₁ ≡ some ((ctx₂, i), heap₂))
        × (create_recorder lib outer default_controller_agent_name w
            ≡ some ((recorder, watches), w'))
        × (new_controller {Ctx = Ctx} set_transform default_informer parts lib ctx₂ outer
              (some svc)
              heap₂
              w
            ≡ some (ok (built_over parts svc c recorder watches i), heap₂, w'))
  new_controller-shared c ctx heap can client =
      let (ctx₁, heap₁, ctx₂, i, heap₂, m, made, opened, client₂, at, _, _, shared, _, _, _) =
        with_informer-shared set_transform default_informer c ctx heap client in
      let (recorder, watches, w', records) =
        create_recorder-Created lib outer default_controller_agent_name w can in
      (
        ctx₁,
        heap₁,
        ctx₂,
        i,
        heap₂,
        recorder,
        watches,
        w',
        made,
        opened,
        records,
        new_controller-found c ctx₂ heap₂ m i client₂ at shared records,
      )
