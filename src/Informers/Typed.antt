-- ===== src/Informers/Typed.antt =====
-- The interfaces between the factory and the packages of the group: internalinterfaces, `Interface` and
-- `New` of wasm/interface.go and wasm/v1alpha1/interface.go, and `WasmModuleInformer` with its methods.
use knative_serving_wasm.Prelude.{ℕ, String, ◌≡◌, ◌≢◌, ap, refl, ◌∙◌, Effect, ok, Option}
use knative_serving_wasm.Platform.Types.{Rest}
use knative_serving_wasm.Informers.Factory.{
  Factory, NewInformer, start, begin_shutdown, informer_for,
}
use knative_serving_wasm.Informers.Listing
use knative_serving_wasm.Informers.Listing.{ListWatch, Scope, scope_of, wasm}
use knative_serving_wasm.Informers.Generic.{
  GenericInformer, wasmmodules, default_for, wasm_module_informer, for_resource,
}
use knative_serving_wasm.Informers.Interface.{
  SharedInformerFactory, new_shared_factory, shared_factory,
}
use knative_serving_wasm.Informers.Contract.{Contract, shared_factory-Contract}

-- `internalinterfaces.SharedInformerFactory`: what these packages call of a factory.
pub record InternalFactory (F C I : Type 0) : Type 0 where
  pub start : F → F
  pub informer_for : String → NewInformer C I → F → I × F

-- The shared informer factory as that interface, which it embeds.
abbrev pub internal : {F C I : Type 0} → SharedInformerFactory F C I → InternalFactory F C I
internal i = record { start = i.start; informer_for = i.informer_for }

-- `WasmModuleInformer`.
pub record WasmModuleInformer (F I L : Type 0) : Type 0 where
  pub informer : Effect F I
  pub lister : Effect F L

-- `Interface` of package v1alpha1, and of package wasm.
pub record VersionInterface (F I L : Type 0) : Type 0 where
  pub wasm_modules : WasmModuleInformer F I L

pub record GroupInterface (F I L : Type 0) : Type 0 where
  pub v1alpha1 : VersionInterface F I L

-- `new_lister` is `NewWasmModuleLister` on the informer's `GetIndexer`.
module _ {F C I L : Type 0} (i : InternalFactory F C I) (default_informer : Scope → NewInformer C I)
    (new_lister : I → L) where
  -- `Informer` and `Lister` of `wasmModuleInformer`.
  unfoldable pub shared_informer : Scope → Effect F I
  shared_informer s = i.informer_for "WasmModule" (default_informer s)

  unfoldable pub shared_lister : Scope → Effect F L
  unfolding shared_informer
  shared_lister s f = let (x, f') = shared_informer s f in (new_lister x, f')

  unfoldable pub typed_informer : Scope → WasmModuleInformer F I L
  unfolding shared_informer shared_lister
  typed_informer s = record { informer = shared_informer s; lister = shared_lister s }

  -- `version` and `group` as the interfaces.
  unfoldable pub version_interface : Scope → VersionInterface F I L
  unfolding typed_informer
  version_interface v = record { wasm_modules = typed_informer (Listing.wasm_modules v) }

  unfoldable pub group_interface : Scope → GroupInterface F I L
  unfolding version_interface
  group_interface g = record { v1alpha1 = version_interface (Listing.v1alpha1 g) }

-- `f.Wasm().V1alpha1().WasmModules()`, by the interfaces alone.
unfoldable pub wasm_modules_of :
    {F C I L : Type 0}
    → SharedInformerFactory F C I
    → (Scope → NewInformer C I)
    → (I → L)
    → F
    → WasmModuleInformer F I L
unfolding group_interface
wasm_modules_of i default_informer new_lister f =
    (group_interface (internal i) default_informer new_lister (i.wasm f)).v1alpha1.wasm_modules

module _ {F C I L : Type 0} (i : SharedInformerFactory F C I) (new : F) (contract : Contract i new)
    (default_informer : Scope → NewInformer C I) (new_lister : I → L) where
  -- The WasmModules of a factory as `Wasm` gives them in a state.
  abbrev pub modules_at : F → WasmModuleInformer F I L
  modules_at f = wasm_modules_of i default_informer new_lister f

  -- Of a factory that keeps the contract, all ways to its WasmModules are of one informer.
  wasm_modules_of_contract :
      (made again f : F)
      → let (x, f₁) = (modules_at made).informer f in
        ((modules_at again).informer f₁ ≡ (x, f₁))
        × ((modules_at made).lister f ≡ (new_lister x, f₁))
        × ((modules_at again).lister f₁ ≡ (new_lister x, f₁))
        × ((r : GenericInformer I) × (i.for_resource wasmmodules f₁ ≡ (ok r, f₁))
            × (r.informer ≡ x))
        × (((modules_at again).informer (i.start f₁)).0 ≡ x)
        × (((modules_at again).informer (i.shutdown f₁)).0 ≡ x)
        × ((u : String) (h : NewInformer C I)
            → u ≢ "WasmModule"
            → ((modules_at again).informer (i.informer_for u h f₁).1).0 ≡ x)
  unfolding wasm_modules_of group_interface version_interface typed_informer shared_informer
      shared_lister
  wasm_modules_of_contract made again f =
      let new = i.informer_for "WasmModule" (scope made) f in
      let same = contract.shared "WasmModule" (scope made) (scope again) f in
      (
        same,
        refl,
        ap (λ (x, g). (new_lister x, g)) same,
        contract.generic_later (scope made) f,
        contract.kept_by_start "WasmModule" (scope again) new.1 ∙ ap (λ y. y.0) same,
        contract.kept_by_shutdown "WasmModule" (scope again) new.1 ∙ ap (λ y. y.0) same,
        λ u h other.
            contract.separate u "WasmModule" h (scope again) new.1 other ∙ ap (λ y. y.0) same,
      )
    where
      scope : F → NewInformer C I
      scope g = default_informer (Listing.wasm_modules (Listing.v1alpha1 (i.wasm g)))

module _ {Ctx Err W I T L : Type 0} (set_transform : Option T → I → I)
    (new_shared : ListWatch Ctx Err W → ℕ → I) (todo : Ctx) (new_lister : I → L) where
  -- The WasmModules of the shared informer factory as `Wasm` gives them in a state.
  abbrev pub modules_of :
      Factory (Rest Ctx Err W) I T → WasmModuleInformer (Factory (Rest Ctx Err W) I T) I L
  modules_of =
      wasm_modules_of (shared_factory set_transform new_shared todo)
        (default_for set_transform new_shared todo) new_lister

  -- Of the shared informer factory, all ways to its WasmModules are of one informer: after `Informer` of
  -- `Wasm().V1alpha1().WasmModules()` has returned one, `Informer` of those that `Wasm` gives in any
  -- other state returns the same and changes nothing, `Lister` of both is made of its indexer,
  -- `ForResource` of the WasmModules returns it, and it stays the informer over `Start`, `Shutdown` and
  -- informers for other types.
  pub wasm_modules_of-shared_factory :
      (made again f : Factory (Rest Ctx Err W) I T)
      → let (x, f₁) = (modules_of made).informer f in
        ((modules_of again).informer f₁ ≡ (x, f₁))
        × ((modules_of made).lister f ≡ (new_lister x, f₁))
        × ((modules_of again).lister f₁ ≡ (new_lister x, f₁))
        × ((r : GenericInformer I) × (for_resource set_transform new_shared todo wasmmodules f₁
              ≡ (ok r, f₁))
            × (r.informer ≡ x))
        × (((modules_of again).informer (start f₁)).0 ≡ x)
        × (((modules_of again).informer (begin_shutdown f₁)).0 ≡ x)
        × ((u : String) (h : NewInformer (Rest Ctx Err W) I)
            → u ≢ "WasmModule"
            → ((modules_of again).informer (informer_for set_transform u h f₁).1).0 ≡ x)
  unfolding shared_factory
  wasm_modules_of-shared_factory made again f =
      wasm_modules_of_contract (shared_factory set_transform new_shared todo)
        (new_shared_factory f.client f.default_resync)
        (shared_factory-Contract set_transform new_shared todo f.client f.default_resync)
        (default_for set_transform new_shared todo) new_lister made again f

  -- Of the shared informer factory, these calls are `wasm_module_informer`.
  wasm_modules_of-wasm_module_informer :
      (f : Factory (Rest Ctx Err W) I T)
      → (wasm_modules_of
            (shared_factory set_transform new_shared todo)
            (default_for set_transform new_shared todo)
            new_lister
            f).informer
          f
        ≡ wasm_module_informer set_transform new_shared todo f
  unfolding wasm_modules_of group_interface version_interface typed_informer shared_informer
      shared_factory wasm_module_informer scope_of wasm
  wasm_modules_of-wasm_module_informer f = refl
