-- ===== src/Injection/Fakes/Setup.antt =====
-- The `init` functions of the fakes, and what `SetupInformers` of the registry `injection.Fake` leaves
-- in the context of a test.
use knative_serving_wasm.Prelude.{ℕ, ◌≡◌, refl, Option, none, some, List, [], ◌∷◌, ◌++◌}
use knative_serving_wasm.Cells.{Memory}
use knative_serving_wasm.Informers.Factory.{Factory}
use knative_serving_wasm.Informers.Listing.{Scope}
use knative_serving_wasm.FakeClient.Tracker.{Testing, FakeClientset, new_simple_clientset}
use knative_serving_wasm.Injection.Heap.{Context, ModuleInformer}
use knative_serving_wasm.Injection.{
  get_client, get_informer, informer_of, with_informer_factory, with_informer,
}
use knative_serving_wasm.Injection.Sharing.{with_informer-shared}
use knative_serving_wasm.Injection.Fakes.{
  with_fake, with_fake_client, get_fake_client, with_fake_factory, with_fake_selector_factories,
  with_fake_informer, with_fake_selector_informers,
}
use knative_serving_wasm.Injection.Registration.{Registrar, RegistrarLaws}
use knative_serving_wasm.Injection.Setup.{Apart, with_own, run_in_order-own}

module _ {R Err W I T Conf : Type 0} (testing : Testing Err W)
    (lib : Registrar R (FakeClientset Err W) I T Conf) where
  -- `withClient` as an injector: the tracker that it makes, without objects, is the world of the test.
  abbrev pub client_injector :
      Context (FakeClientset Err W) → Conf → Option (Context (FakeClientset Err W))
  client_injector ctx cfg = elim (with_fake_client testing ctx) [ none ↦ none | some r ↦ some r.0 ]

  unfoldable pub init_fake_client : R → R
  init_fake_client r =
      lib.register_client_fetcher get_fake_client (lib.register_client client_injector r)

  unfoldable pub init_fake_factory : R → R
  init_fake_factory r = lib.register_informer_factory with_fake_factory r

  unfoldable pub init_fake_selector_factories : R → R
  init_fake_selector_factories r = lib.register_informer_factory with_fake_selector_factories r

  module _ (set_transform : Option T → I → I)
      (default_informer : Scope → FakeClientset Err W → ℕ → I) where
    unfoldable pub init_fake_informer : R → R
    init_fake_informer r =
        lib.register_informer (with_fake_informer set_transform default_informer) r

    unfoldable pub init_fake_selector_informers : R → R
    init_fake_selector_informers r =
        lib.register_filtered_informers
          (with_fake_selector_informers set_transform default_informer) r

    -- The packages that a test of the controller imports.
    unfoldable pub init_fakes : R → R
    unfolding init_fake_client init_fake_factory init_fake_informer
    init_fakes r = init_fake_informer (init_fake_factory (init_fake_client r))

    module _ (laws : RegistrarLaws lib) (r : R) (apart : Apart (laws.registered r)) where
      init_fakes_lem :
          laws.registered (init_fakes r)
          ≡ with_own client_injector with_fake_factory
              (with_fake_informer set_transform default_informer)
              (laws.registered r)
              apart
      unfolding init_fakes init_fake_client init_fake_factory init_fake_informer
      init_fakes_lem =
          rw (laws.informer_law, laws.factory_law, laws.fetcher_law, laws.client_law) refl

      -- Where the fakes have registered with the registry, beside the injectors of other packages, and
      -- a clientset without objects is made, `SetupInformers` does not panic. Afterwards `Get` finds that
      -- clientset and a WasmModule informer, whose `Informer` is among the returned ones.
      pub setup_informers-init_fakes :
          (cfg : Conf) (cs : FakeClientset Err W) (w : W) (ctx : Context (FakeClientset Err W))
          → (heap : Memory (Factory (FakeClientset Err W) I T))
          → new_simple_clientset testing [] ≡ some (cs, w)
          → (ctx' : Context (FakeClientset Err W)) × (before : List I) × (i : I) × (after : List I)
            × (heap' : Memory (Factory (FakeClientset Err W) I T)) × (m : ModuleInformer)
            × (lib.setup_informers (init_fakes r) ctx cfg heap
                ≡ some ((ctx', (before ++ (i ∷ [])) ++ after), heap'))
            × (get_fake_client ctx' ≡ some cs)
            × (get_informer ctx' ≡ some m)
            × (informer_of set_transform default_informer m heap' ≡ some (i, heap'))
      unfolding with_fake_client with_fake get_fake_client get_client with_fake_factory
          with_fake_informer with_informer_factory with_informer
      setup_informers-init_fakes cfg cs w ctx heap made =
          let ctx₀ = record ctx { client = some cs } in
          let (
            ctx₁, heap₁, ctx₂, i, heap₂, m, factory, informer, client, at, _, _, shared, _, _, _,
          ) =
            with_informer-shared set_transform default_informer cs ctx₀ heap refl in
          let (before, after, run) =
            run_in_order-own client_injector with_fake_factory
              (with_fake_informer set_transform default_informer) (laws.registered r) apart cfg ctx
              ctx₀ ctx₁ ctx₂ heap heap₁ heap₂ i
              (rw (client_injector, with_fake_client, with_fake, made) refl) factory informer in
          (
            ctx₂,
            before,
            i,
            after,
            heap₂,
            m,
            rw (laws.setup_law, init_fakes_lem) run,
            client,
            at,
            shared,
          )
