-- ===== src/Service/Assembly/Startup.antt =====
-- What `sharedmain.Main` of cmd/controller/main.go does with the injection and `NewController`.
use knative_serving_wasm.Prelude.{ℕ, ◌≡◌, refl, Option, some, ok, List, [], ◌∷◌, ◌++◌}
use knative_serving_wasm.Cells.{Memory}
use knative_serving_wasm.Informers.Factory.{Factory}
use knative_serving_wasm.Informers.Listing.{Scope}
use knative_serving_wasm.Injection.Heap.{Context}
use knative_serving_wasm.Injection.{
  with_client_from_config, get_client, with_informer_factory, with_informer,
}
use knative_serving_wasm.Injection.Registration.{
  Registrar, RegistrarLaws, init_client, init_informer_factory, init_informer, init_controller,
}
use knative_serving_wasm.Injection.Setup.{Apart, with_own, run_in_order-own}
use knative_serving_wasm.Controller.Options.{default_controller_agent_name}
use knative_serving_wasm.Controller.Recorder.{
  Broadcasting, Surroundings, create_recorder, CanRecord,
}
use knative_serving_wasm.Service.Assembly.{Parts, new_controller}
use knative_serving_wasm.Service.Assembly.Cache.{built_over, new_controller-shared}

module _ {R C I T Conf : Type 0} (lib : Registrar R C I T Conf) (laws : RegistrarLaws lib)
    (set_transform : Option T → I → I) (default_informer : Scope → C → ℕ → I)
    (new_for_config_or_die : Conf → Option C) (r : R) (apart : Apart (laws.registered r)) where
  init_controller_lem :
      laws.registered (init_controller lib set_transform default_informer new_for_config_or_die r)
      ≡ with_own
          (with_client_from_config new_for_config_or_die)
          with_informer_factory
          (with_informer set_transform default_informer)
          (laws.registered r)
          apart
  unfolding init_controller init_client init_informer_factory init_informer
  init_controller_lem =
      rw (laws.informer_law, laws.factory_law, laws.fetcher_law, laws.client_law) refl

  module _ {Ctx Err W V E K H : Type 0} (parts : Parts Err W I V) (svc : V)
      (broadcasting : Broadcasting E K H W) (outer : Surroundings E K) where
    -- Take a registry that does what is documented of it (`RegistrarLaws`) and holds injectors of other
    -- packages (`Apart`). Where the packages that the controller imports have registered with it
    -- (`init`), and a client is made of the configuration, `SetupInformers` and then `NewController`,
    -- with an informer of Services and a recorder or a Kubernetes client in the context, neither panic
    -- nor end the process. The controller is built over a WasmModule informer, with the client of the
    -- configuration and the recorder that `createRecorder` returns, and that informer is among those
    -- that `SetupInformers` returns for the program to start.
    pub setup_informers-new_controller :
        (cfg : Conf) (c : C) (ctx : Context C) (heap : Memory (Factory C I T)) (w : W)
        → CanRecord broadcasting outer.event_recorder outer.kube_client
        → new_for_config_or_die cfg ≡ some c
        → (ctx' : Context C) × (before : List I) × (i : I) × (after : List I) × (heap' : Memory
            (Factory C I T))
          × (recorder : E) × (watches : List H) × (w' : W) × (lib.setup_informers
                (init_controller lib set_transform default_informer new_for_config_or_die r)
                ctx
                cfg
                heap
              ≡ some ((ctx', (before ++ (i ∷ [])) ++ after), heap'))
          × (create_recorder broadcasting outer default_controller_agent_name w
              ≡ some ((recorder, watches), w'))
          × (new_controller {Ctx = Ctx} set_transform default_informer parts broadcasting ctx' outer
                (some svc)
                heap'
                w
              ≡ some (ok (built_over parts svc c recorder watches i), heap', w'))
    unfolding with_client_from_config get_client
    setup_informers-new_controller cfg c ctx heap w can made =
        let (
          ctx₁, heap₁, ctx₂, i, heap₂, recorder, watches, w', factory, informer, records, built,
        ) =
          new_controller-shared {Ctx = Ctx} set_transform default_informer parts svc broadcasting
            outer w c (record ctx { client = some c }) heap can refl in
        let (before, after, run) =
          run_in_order-own (with_client_from_config new_for_config_or_die) with_informer_factory
            (with_informer set_transform default_informer) (laws.registered r) apart cfg ctx
            (record ctx { client = some c }) ctx₁ ctx₂ heap heap₁ heap₂ i
            (rw (with_client_from_config, made) refl) factory informer in
        (
          ctx₂,
          before,
          i,
          after,
          heap₂,
          recorder,
          watches,
          w',
          rw (laws.setup_law, init_controller_lem) run,
          records,
          built,
        )
