-- ===== src/Informers/Contract.antt =====
-- What the interface of the shared informer factory promises (the comments on it in factory.go), and
-- that the factory keeps it.
use knative_serving_wasm.Prelude.{
  ℕ, String, Bool, true, false, none, some, ◌≡◌, ◌≢◌, refl, ap, ◌∙◌, Option, List, [], ◌∷◌, arith,
  eq_iff, inl, inr, Bool-cases, ok, err,
}
use knative_serving_wasm.Api.Register.{GroupVersionResource}
use knative_serving_wasm.Informers.Factory.{
  Factory, NewInformer, new_factory, apply_options, lookup, is_started, launch, start_loop, start,
  begin_shutdown, resync_period, informer_from, informer_for,
}
use knative_serving_wasm.Informers.Registry.{informer_for_shared}
use knative_serving_wasm.Informers.Start.{start_twice}
use knative_serving_wasm.Informers.Listing.{ListWatch}
use knative_serving_wasm.Informers.Generic.{
  GenericInformer, wasmmodules, generic_from, wasm_module_informer, for_resource_known,
  for_resource-wasm_module_informer,
}
use knative_serving_wasm.Platform.Types.{Rest}
use knative_serving_wasm.Informers.Synced.{
  wait_for_cache_sync-unstarted, informer_for-down, informer_for-started, start-requested,
  wait_for_cache_sync-requested,
}
use knative_serving_wasm.Informers.Interface.{
  SharedInformerFactory, new_shared_factory, shared_factory,
}

-- A new factory has started nothing. `Start` starts all requested informers, unless the factory shuts
-- down, and asking for an informer or `Shutdown` start none. `WaitForCacheSync` reports of each requested
-- type after `Start` whether its informer has synced, and never of a type that is not started; that it
-- waits for them is the library's. That `Shutdown` waits for the goroutines is in Informers/Shutdown.
-- `Start` and `Shutdown` may be called again, and after `Shutdown` nothing is started. The informer of a
-- type is the same for all that ask for it, whatever is asked for other types, and whether it is asked
-- for before `Start` or `Shutdown` or after it. `ForResource` of the WasmModules gives theirs, whether it
-- is asked for before or after; a resource that is not known is an error and registers nothing.
pub record Contract {F C I : Type 0} (i : SharedInformerFactory F C I) (new : F) : Type 0 where
  pub down : F → Bool
  pub started : F → String → Bool
  pub new_up : down new ≡ false
  pub new_idle : (t : String) → started new t ≡ false
  pub shutdown_down : (f : F) → down (i.shutdown f) ≡ true
  pub shutdown_starts : (f : F) (t : String) → started (i.shutdown f) t ≡ started f t
  pub request_down :
      (t : String) (g : NewInformer C I) (f : F) → down (i.informer_for t g f).1 ≡ down f
  pub request_starts :
      (t u : String) (g : NewInformer C I) (f : F)
      → started (i.informer_for t g f).1 u ≡ started f u
  pub start_starts :
      (t : String) (g : NewInformer C I) (f : F)
      → down f ≡ false
      → started (i.start (i.informer_for t g f).1) t ≡ true
  pub start_syncs :
      (ready : I → Bool) (t : String) (g : NewInformer C I) (f : F)
      → down f ≡ false
      → let (x, f₁) = i.informer_for t g f in
        lookup t (i.wait_for_cache_sync ready (i.start f₁)) ≡ some (ready x)
  pub unstarted_unsynced :
      (ready : I → Bool) (t : String) (f : F)
      → started f t ≡ false
      → lookup t (i.wait_for_cache_sync ready f) ≡ none
  pub start_again : (f : F) → i.start (i.start f) ≡ i.start f
  pub shutdown_again : (f : F) → i.shutdown (i.shutdown f) ≡ i.shutdown f
  pub start_down : (f : F) → i.start (i.shutdown f) ≡ i.shutdown f
  pub shared :
      (t : String) (first later : NewInformer C I) (f : F)
      → i.informer_for t later (i.informer_for t first f).1 ≡ i.informer_for t first f
  pub separate :
      (t u : String) (g h : NewInformer C I) (f : F)
      → t ≢ u
      → (i.informer_for u h (i.informer_for t g f).1).0 ≡ (i.informer_for u h f).0
  pub kept_by_start :
      (t : String) (g : NewInformer C I) (f : F)
      → (i.informer_for t g (i.start f)).0 ≡ (i.informer_for t g f).0
  pub kept_by_shutdown :
      (t : String) (g : NewInformer C I) (f : F)
      → (i.informer_for t g (i.shutdown f)).0 ≡ (i.informer_for t g f).0
  pub unknown :
      (resource : GroupVersionResource) (f : F)
      → resource ≢ wasmmodules
      → (e : String) × (i.for_resource resource f ≡ (err e, f))
  pub generic_first :
      (g : NewInformer C I) (f : F)
      → let f₁ = (i.for_resource wasmmodules f).1 in
        (r : GenericInformer I) × ((i.for_resource wasmmodules f).0 ≡ ok r)
        × (i.informer_for "WasmModule" g f₁ ≡ (r.informer, f₁))
  pub generic_later :
      (g : NewInformer C I) (f : F)
      → let (x, f₁) = i.informer_for "WasmModule" g f in
        (r : GenericInformer I) × (i.for_resource wasmmodules f₁ ≡ (ok r, f₁)) × (r.informer ≡ x)

module _ {C I T : Type 0} (set_transform : Option T → I → I) where
  informer_for_separate :
      (t u : String) (g h : NewInformer C I) (f : Factory C I T)
      → t ≢ u
      → (informer_for set_transform u h (informer_for set_transform t g f).1).0
        ≡ (informer_for set_transform u h f).0
  unfolding informer_for informer_from lookup resync_period
  informer_for_separate t u g h f other = ground (arith, eq_iff t u)

  module _ (t : String) (g : NewInformer C I) where
    informer_for-launch :
        (u : String) (f : Factory C I T)
        → (informer_for set_transform t g (launch u f)).0 ≡ (informer_for set_transform t g f).0
    unfolding informer_for informer_from launch resync_period
    informer_for-launch u f = ground arith

    informer_for-start_loop :
        (rest : List (String × I)) (f : Factory C I T)
        → (informer_for set_transform t g (start_loop rest f)).0
          ≡ (informer_for set_transform t g f).0
    unfolding start_loop
    informer_for-start_loop [] f = refl
    informer_for-start_loop ((u, _) ∷ rest) f = elim (Bool-cases (is_started f u)) [
      | inl old ↦ rw old (informer_for-start_loop rest f)
      | inr new ↦ rw new (informer_for-start_loop rest (launch u f) ∙ informer_for-launch u f)
    ]

    informer_for-start :
        (f : Factory C I T)
        → (informer_for set_transform t g (start f)).0 ≡ (informer_for set_transform t g f).0
    unfolding start
    informer_for-start f = elim (Bool-cases f.shutting_down) [
      | inl down ↦ simp down refl
      | inr up ↦ simp up (informer_for-start_loop f.informers f)
    ]

    informer_for-begin_shutdown :
        (f : Factory C I T)
        → (informer_for set_transform t g (begin_shutdown f)).0
          ≡ (informer_for set_transform t g f).0
    unfolding informer_for informer_from begin_shutdown resync_period
    informer_for-begin_shutdown f = ground arith

module _ {C : Type 0} (I T : Type 0) where
  new_shared_factory_up :
      (client : C) (resync : ℕ)
      → (new_shared_factory {I = I} {T = T} client resync).shutting_down ≡ false
  unfolding new_shared_factory new_factory apply_options
  new_shared_factory_up client resync = refl

  new_shared_factory_idle :
      (client : C) (resync : ℕ) (t : String)
      → is_started (new_shared_factory {I = I} {T = T} client resync) t ≡ false
  unfolding new_shared_factory new_factory apply_options is_started lookup
  new_shared_factory_idle client resync t = refl

module _ {C I T : Type 0} where
  begin_shutdown_keeps :
      (f : Factory C I T) (t : String) → is_started (begin_shutdown f) t ≡ is_started f t
  unfolding begin_shutdown is_started
  begin_shutdown_keeps f t = refl

module _ {Ctx Err W I T : Type 0} (set_transform : Option T → I → I)
    (new_shared : ListWatch Ctx Err W → ℕ → I) (todo : Ctx) where
  pub shared_factory-Contract :
      (client : Rest Ctx Err W) (resync : ℕ)
      → Contract
          (shared_factory {T = T} set_transform new_shared todo)
          (new_shared_factory client resync)
  unfolding shared_factory begin_shutdown start generic_from wasm_module_informer
  shared_factory-Contract client resync = record {
    down = λ f. f.shutting_down;
    started = is_started;
    new_up = new_shared_factory_up I T client resync;
    new_idle = new_shared_factory_idle I T client resync;
    shutdown_down = λ f. refl;
    shutdown_starts = begin_shutdown_keeps;
    request_down = informer_for-down set_transform;
    request_starts = λ t u g f. informer_for-started set_transform t g f u;
    start_starts = start-requested set_transform;
    start_syncs = λ ready t g f up. wait_for_cache_sync-requested set_transform t g f up ready;
    unstarted_unsynced = λ ready t f h. wait_for_cache_sync-unstarted ready f t h;
    start_again = λ f. start_twice f;
    shutdown_again = λ f. refl;
    start_down = λ f. refl;
    shared = λ t first later f. informer_for_shared set_transform t first f later;
    separate = informer_for_separate set_transform;
    kept_by_start = informer_for-start set_transform;
    kept_by_shutdown = informer_for-begin_shutdown set_transform;
    unknown = λ resource f other.
        let (failed, kept) =
          (for_resource-wasm_module_informer set_transform new_shared todo resource f).1 other in
        ("no informer found for", cc);
    generic_first = λ g f.
        rw (for_resource_known set_transform new_shared todo wasmmodules f refl)
          (_, refl, informer_for_shared set_transform "WasmModule" _ f g);
    generic_later = λ g f. (
      _,
      for_resource_known set_transform new_shared todo wasmmodules _ refl
          ∙ ap (generic_from set_transform new_shared todo wasmmodules)
              (informer_for_shared set_transform "WasmModule" g f _),
      refl,
    );
  }
