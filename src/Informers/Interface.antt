-- ===== src/Informers/Interface.antt =====
-- `SharedInformerFactory` (factory.go), by its methods, and the factory as one. The factory that a
-- method changes is a result.
use knative_serving_wasm.Prelude.{ℕ, String, Bool, Option, List, [], Result}
use knative_serving_wasm.Api.Register.{GroupVersionResource}
use knative_serving_wasm.Platform.Types.{Rest}
use knative_serving_wasm.Platform.GoError.{GroupResource}
use knative_serving_wasm.Informers.Factory.{
  Factory, NewInformer, new_factory, start, begin_shutdown, wait_for_cache_sync, informer_for,
}
use knative_serving_wasm.Informers.Listing.{ListWatch, Scope, wasm}
use knative_serving_wasm.Informers.Generic.{GenericInformer, for_resource}

-- `F` is the factory's state; `shutdown` is the part of `Shutdown` before it waits.
pub record SharedInformerFactory (F C I : Type 0) : Type 0 where
  pub start : F → F
  pub shutdown : F → F
  pub wait_for_cache_sync : (I → Bool) → F → List (String × Bool)
  pub for_resource : GroupVersionResource → F → Result String (GenericInformer I) × F
  pub informer_for : String → NewInformer C I → F → I × F
  pub wasm : F → Scope

-- `NewSharedInformerFactory`.
unfoldable pub new_shared_factory : {C I T : Type 0} → C → ℕ → Factory C I T
new_shared_factory client default_resync = new_factory client default_resync []

-- `Lister` of a generic informer, over `cache.NewGenericLister` and the informer's `GetIndexer`.
unfoldable pub generic_lister :
    {I X L : Type 0} → (I → X) → (X → GroupResource → L) → GenericInformer I → L
generic_lister get_indexer new_generic_lister f =
    new_generic_lister (get_indexer f.informer) f.resource

module _ {Ctx Err W I T : Type 0} (set_transform : Option T → I → I)
    (new_shared : ListWatch Ctx Err W → ℕ → I) (todo : Ctx) where
  unfoldable pub shared_factory :
      SharedInformerFactory (Factory (Rest Ctx Err W) I T) (Rest Ctx Err W) I
  shared_factory = record {
    start = start;
    shutdown = begin_shutdown;
    wait_for_cache_sync = wait_for_cache_sync;
    for_resource = for_resource set_transform new_shared todo;
    informer_for = informer_for set_transform;
    wasm = wasm;
  }
