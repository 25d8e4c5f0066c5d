-- ===== src/Injection/Setup.antt =====
-- What the injection leaves in the context of a program, beside the injectors of other packages.
use knative_serving_wasm.Prelude.{◌≡◌, refl, some, List, [], ◌∷◌, ◌++◌}
use knative_serving_wasm.Cells.{Memory}
use knative_serving_wasm.Informers.Factory.{Factory}
use knative_serving_wasm.Injection.Heap.{Context}
use knative_serving_wasm.Injection.Registration.{
  ClientInjector, FactoryInjector, InformerInjector, FilteredInjector, Injectors, run_clients,
  run_factories, run_informers, run_filtered, run_in_order,
}

-- Injectors of other packages: they return, and leave the keys of these packages and their factories
-- as they are.
abbrev pub ClientsApart : {C Conf : Type 0} → List (ClientInjector C Conf) → Type 0
ClientsApart [] = Unit
ClientsApart {C} {Conf} (f ∷ l) =
    ((ctx : Context C) (cfg : Conf) → f ctx cfg ≡ some ctx) × ClientsApart l

module _ {C I T : Type 0} where
  abbrev pub FactoriesApart : List (FactoryInjector C I T) → Type 0
  FactoriesApart [] = Unit
  FactoriesApart (f ∷ l) =
      ((ctx : Context C) (heap : Memory (Factory C I T)) → f ctx heap ≡ some (ctx, heap))
      × FactoriesApart l

  abbrev pub InformersApart : List (InformerInjector C I T) → Type 0
  InformersApart [] = Unit
  InformersApart (f ∷ l) =
      ((ctx : Context C) (heap : Memory (Factory C I T))
        → (i : I) × (f ctx heap ≡ some ((ctx, i), heap)))
      × InformersApart l

  abbrev pub FilteredApart : List (FilteredInjector C I T) → Type 0
  FilteredApart [] = Unit
  FilteredApart (f ∷ l) =
      ((ctx : Context C) (heap : Memory (Factory C I T))
        → (is : List I) × (f ctx heap ≡ some ((ctx, is), heap)))
      × FilteredApart l

  pub record Apart {Conf : Type 0} (l : Injectors C I T Conf) : Type 0 where
    pub clients : ClientsApart l.clients
    pub factories : FactoriesApart l.factories
    pub informers : InformersApart l.informers
    pub filtered : FilteredApart l.filtered

module _ {C Conf : Type 0} (own : ClientInjector C Conf) (cfg : Conf) (ctx ctx' : Context C)
    (is : own ctx cfg ≡ some ctx') where
  run_clients-own :
      (l : List (ClientInjector C Conf))
      → ClientsApart l
      → run_clients (l ++ (own ∷ [])) cfg ctx ≡ some ctx'
  unfolding run_clients
  run_clients-own [] apart = rw is refl
  run_clients-own (f ∷ l) (kept, apart) = rw (kept ctx cfg) (run_clients-own l apart)

module _ {C I T : Type 0} (ctx ctx' : Context C) (heap heap' : Memory (Factory C I T)) where
  run_factories-own :
      (own : FactoryInjector C I T) (l : List (FactoryInjector C I T))
      → own ctx heap ≡ some (ctx', heap')
      → FactoriesApart l
      → run_factories (l ++ (own ∷ [])) ctx heap ≡ some (ctx', heap')
  unfolding run_factories
  run_factories-own own [] is apart = rw is refl
  run_factories-own own (f ∷ l) is (kept, apart) =
      rw (kept ctx heap) (run_factories-own own l is apart)

  run_informers-own :
      (own : InformerInjector C I T) (i : I) (l : List (InformerInjector C I T))
      → own ctx heap ≡ some ((ctx', i), heap')
      → InformersApart l
      → (infs : List I) × (run_informers (l ++ (own ∷ [])) ctx heap
          ≡ some ((ctx', infs ++ (i ∷ [])), heap'))
  unfolding run_informers
  run_informers-own own i [] is apart = ([], rw is refl)
  run_informers-own own i (f ∷ l) is (kept, apart) =
      let (x, e) = kept ctx heap in
      let (infs, h) = run_informers-own own i l is apart in (x ∷ infs, rw (e, h) refl)

run_filtered-apart :
    {C I T : Type 0} (l : List (FilteredInjector C I T)) (ctx : Context C)
    → (heap : Memory (Factory C I T)) → FilteredApart l
    → (more : List I) × (run_filtered l ctx heap ≡ some ((ctx, more), heap))
unfolding run_filtered
run_filtered-apart [] ctx heap apart = ([], refl)
run_filtered-apart (f ∷ l) ctx heap (kept, apart) =
    let (is, e) = kept ctx heap in
    let (more, h) = run_filtered-apart l ctx heap apart in (is ++ more, rw (e, h) refl)

module _ {C I T Conf : Type 0} (own_client : ClientInjector C Conf)
    (own_factory : FactoryInjector C I T) (own_informer : InformerInjector C I T)
    (l : Injectors C I T Conf) (apart : Apart l) where
  -- The injectors of other packages, and then one of each kind.
  abbrev pub with_own : Injectors C I T Conf
  with_own = record l {
    clients = l.clients ++ (own_client ∷ []);
    factories = l.factories ++ (own_factory ∷ []);
    informers = l.informers ++ (own_informer ∷ []);
  }

  pub run_in_order-own :
      (cfg : Conf) (ctx ctx₁ ctx₂ ctx₃ : Context C) (heap heap₂ heap₃ : Memory (Factory C I T))
      → (i : I) → own_client ctx cfg ≡ some ctx₁
      → own_factory ctx₁ heap ≡ some (ctx₂, heap₂)
      → own_informer ctx₂ heap₂ ≡ some ((ctx₃, i), heap₃)
      → (before after : List I) × (run_in_order with_own ctx cfg heap
          ≡ some ((ctx₃, (before ++ (i ∷ [])) ++ after), heap₃))
  unfolding run_in_order
  run_in_order-own cfg ctx ctx₁ ctx₂ ctx₃ heap heap₂ heap₃ i client factory informer =
      let (before, opened) =
        run_informers-own ctx₂ ctx₃ heap₂ heap₃ own_informer i l.informers informer
          apart.informers in
      let (after, filtered) = run_filtered-apart l.filtered ctx₃ heap₃ apart.filtered in
      (
        before,
        after,
        rw
            (
              run_in_order,
              run_clients-own own_client cfg ctx ctx₁ client l.clients apart.clients,
              run_factories-own ctx₁ ctx₂ heap heap₂ own_factory l.factories factory
                  apart.factories,
              opened,
              filtered,
            )
            refl,
      )
