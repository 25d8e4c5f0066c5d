-- ===== src/Injection/Registration.antt =====
-- The `init` functions of the injection's packages (client/client.go, informers/factory and its package
-- filtered, wasmmodule and its package filtered), which register the functions of `Injection` with
-- knative.dev/pkg/injection. Its registry is a parameter.
use knative_serving_wasm.Prelude.{ℕ, ◌≡◌, Option, none, some, List, [], ◌∷◌, ◌++◌}
use knative_serving_wasm.Informers.Listing.{Scope}
use knative_serving_wasm.Injection.Heap.{Context, Call, and_then}
use knative_serving_wasm.Injection.{
  with_client_from_config, get_client, with_informer_factory, with_selector_factories,
  with_informer, with_selector_informers,
}

-- `ClientInjector`, `InformerFactoryInjector`, `InformerInjector` and `FilteredInformersInjector`.
abbrev pub ClientInjector : Type 0 → Type 0 → Type 0
ClientInjector C Conf = Context C → Conf → Option (Context C)

abbrev pub FactoryInjector : Type 0 → Type 0 → Type 0 → Type 0
FactoryInjector C I T = Context C → Call C I T (Context C)

abbrev pub InformerInjector : Type 0 → Type 0 → Type 0 → Type 0
InformerInjector C I T = Context C → Call C I T (Context C × I)

abbrev pub FilteredInjector : Type 0 → Type 0 → Type 0 → Type 0
FilteredInjector C I T = Context C → Call C I T (Context C × List I)

-- The methods of `injection.Interface` that the code calls, and `SetupInformers`, which the program's
-- main function calls.
pub record Registrar (R C I T Conf : Type 0) : Type 0 where
  pub register_client : ClientInjector C Conf → R → R
  pub register_client_fetcher : (Context C → Option C) → R → R
  pub register_informer_factory : FactoryInjector C I T → R → R
  pub register_informer : InformerInjector C I T → R → R
  pub register_filtered_informers : FilteredInjector C I T → R → R
  pub setup_informers : R → Context C → Conf → Call C I T (Context C × List I)

module _ {R C I T Conf : Type 0} (lib : Registrar R C I T Conf) where
  unfoldable pub init_client : (Conf → Option C) → R → R
  init_client new_for_config_or_die r =
      lib.register_client_fetcher get_client
        (lib.register_client (with_client_from_config new_for_config_or_die) r)

  unfoldable pub init_informer_factory : R → R
  init_informer_factory r = lib.register_informer_factory with_informer_factory r

  unfoldable pub init_selector_factories : R → R
  init_selector_factories r = lib.register_informer_factory with_selector_factories r

  module _ (set_transform : Option T → I → I) (default_informer : Scope → C → ℕ → I) where
    unfoldable pub init_informer : R → R
    init_informer r = lib.register_informer (with_informer set_transform default_informer) r

    unfoldable pub init_selector_informers : R → R
    init_selector_informers r =
        lib.register_filtered_informers (with_selector_informers set_transform default_informer) r

    -- The packages that the controller imports, in the order in which Go initializes them.
    unfoldable pub init_controller : (Conf → Option C) → R → R
    unfolding init_client init_informer_factory init_informer
    init_controller new_for_config_or_die r =
        init_informer (init_informer_factory (init_client new_for_config_or_die r))

-- What is registered, by kind.
pub record Injectors (C I T Conf : Type 0) : Type 0 where
  pub clients : List (ClientInjector C Conf)
  pub factories : List (FactoryInjector C I T)
  pub informers : List (InformerInjector C I T)
  pub filtered : List (FilteredInjector C I T)

-- Each injector gets the context that the one before returned.
unfoldable pub run_clients :
    {C Conf : Type 0} → List (ClientInjector C Conf) → Conf → Context C → Option (Context C)
run_clients [] cfg ctx = some ctx
run_clients (f ∷ rest) cfg ctx = elim (f ctx cfg) [
  | none ↦ none
  | some ctx' ↦ run_clients rest cfg ctx'
]

module _ {C I T : Type 0} where
  unfoldable pub run_factories : List (FactoryInjector C I T) → Context C → Call C I T (Context C)
  run_factories [] ctx heap = some (ctx, heap)
  run_factories (f ∷ rest) ctx heap = and_then (f ctx heap) (run_factories rest)

  unfoldable pub run_informers :
      List (InformerInjector C I T) → Context C → Call C I T (Context C × List I)
  run_informers [] ctx heap = some ((ctx, []), heap)
  run_informers (f ∷ rest) ctx heap = and_then (f ctx heap) (λ (ctx', i) heap'.
      and_then (run_informers rest ctx' heap')
        (λ (ctx'', infs) heap''. some ((ctx'', i ∷ infs), heap'')))

  unfoldable pub run_filtered :
      List (FilteredInjector C I T) → Context C → Call C I T (Context C × List I)
  run_filtered [] ctx heap = some ((ctx, []), heap)
  run_filtered (f ∷ rest) ctx heap = and_then (f ctx heap) (λ (ctx', is) heap'.
      and_then (run_filtered rest ctx' heap')
        (λ (ctx'', infs) heap''. some ((ctx'', is ++ infs), heap'')))

  -- The clients, the factories, the informers and then the filtered informers; no package of the
  -- controller registers duck informer factories.
  unfoldable pub run_in_order :
      {Conf : Type 0} → Injectors C I T Conf → Context C → Conf → Call C I T (Context C × List I)
  run_in_order l ctx cfg heap = elim (run_clients l.clients cfg ctx) [
    | none ↦ none
    | some ctx₁ ↦ and_then (run_factories l.factories ctx₁ heap) (λ ctx₂ heap₂.
        and_then (run_informers l.informers ctx₂ heap₂) (λ (ctx₃, infs) heap₃.
          and_then (run_filtered l.filtered ctx₃ heap₃)
            (λ (ctx₄, more) heap₄. some ((ctx₄, infs ++ more), heap₄))))
  ]

-- What is documented of the registry: a method adds its injector to those of its kind, and
-- `SetupInformers` runs them, first those for clients, then those for factories and for informers.
pub record RegistrarLaws {R C I T Conf : Type 0} (lib : Registrar R C I T Conf) : Type 0 where
  pub registered : R → Injectors C I T Conf
  pub client_law :
      (f : ClientInjector C Conf) (r : R)
      → registered (lib.register_client f r)
        ≡ record (registered r) { clients = (registered r).clients ++ (f ∷ []) }
  pub fetcher_law :
      (f : Context C → Option C) (r : R)
      → registered (lib.register_client_fetcher f r) ≡ registered r
  pub factory_law :
      (f : FactoryInjector C I T) (r : R)
      → registered (lib.register_informer_factory f r)
        ≡ record (registered r) { factories = (registered r).factories ++ (f ∷ []) }
  pub informer_law :
      (f : InformerInjector C I T) (r : R)
      → registered (lib.register_informer f r)
        ≡ record (registered r) { informers = (registered r).informers ++ (f ∷ []) }
  pub setup_law :
      (r : R) (ctx : Context C) (cfg : Conf)
      → lib.setup_informers r ctx cfg ≡ run_in_order (registered r) ctx cfg
