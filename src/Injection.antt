-- ===== src/Injection.antt =====
-- The injection of the client, the informer factories and the WasmModule informers into a context
-- (pkg/client/injection: client/client.go, informers/factory, informers/factory/filtered,
-- informers/wasm/v1alpha1/wasmmodule and its package filtered). A `Get` that panics is `none`.
pub mod Heap
pub mod Selection
pub mod Sharing
pub mod Filtered
pub mod Fakes
pub mod Registration
pub mod Setup
use knative_serving_wasm.Prelude.{ℕ, String, Option, none, some, List, [], ◌∷◌, ◌++◌}
use knative_serving_wasm.Platform.Http.{ListOptions}
use knative_serving_wasm.Cells.{Memory, alloc}
use knative_serving_wasm.Informers.Factory.{
  Factory, FactoryOption, lookup, insert, with_namespace, with_tweak_list_options, new_factory,
  informer_for,
}
use knative_serving_wasm.Informers.Listing.{Scope, scope_of}
use knative_serving_wasm.Injection.Heap.{
  Context, ModuleInformer, Call, and_then, required, on_factory,
}

module _ {C I T : Type 0} where
  -- `injection.HasNamespaceScope` and `GetNamespaceScope` are one `Option`.
  unfoldable pub scope_options : Option String → List (FactoryOption C I T)
  scope_options none = []
  scope_options (some namespace) = with_namespace namespace ∷ []

  -- The factory that `withInformerFactory` of package factory makes.
  unfoldable pub informer_factory : C → ℕ → Option String → Factory C I T
  informer_factory client resync scope = new_factory client resync (scope_options scope)

  -- The factory of one selector.
  unfoldable pub selector_factory : C → ℕ → Option String → String → Factory C I T
  selector_factory client resync scope selector = new_factory client resync (
      scope_options scope
      ++ (with_tweak_list_options (some (λ l. record l { label_selector = selector })) ∷ []))

module _ {C : Type 0} where
  -- `withClientFromConfig`, over `versioned.NewForConfigOrDie`, and `Get` of package client.
  unfoldable pub with_client_from_config :
      {Config : Type 0} → (Config → Option C) → Context C → Config → Option (Context C)
  with_client_from_config new_for_config_or_die ctx cfg = elim (new_for_config_or_die cfg) [
    | none ↦ none
    | some c ↦ some (record ctx { client = some c })
  ]

  unfoldable pub get_client : Context C → Option C
  get_client ctx = ctx.client

  -- `Get` of package factory.
  unfoldable pub get_factory : Context C → Option ℕ
  get_factory ctx = ctx.factory

  -- `WithSelectors` and `Get` of package filtered.
  unfoldable pub with_selectors : Context C → List String → Context C
  with_selectors ctx selectors = record ctx { selectors = some selectors }

  unfoldable pub get_selector_factory : Context C → String → Option ℕ
  get_selector_factory ctx selector = lookup selector ctx.factories

  -- `Get` of package wasmmodule, and of its package filtered.
  unfoldable pub get_informer : Context C → Option ModuleInformer
  get_informer ctx = ctx.informer

  unfoldable pub get_selector_informer : Context C → String → Option ModuleInformer
  get_selector_informer ctx selector = lookup selector ctx.informers

module _ {C I T : Type 0} where
  -- `withInformerFactory` of package factory.
  unfoldable pub with_informer_factory : Context C → Call C I T (Context C)
  unfolding get_client
  with_informer_factory ctx = required (get_client ctx) (λ c heap.
      let (p, heap') = alloc (informer_factory c ctx.resync ctx.namespace_scope) heap in
      some (record ctx { factory = some p }, heap'))

  -- The loop of `withInformerFactory` of package filtered.
  unfoldable pub add_factories :
      C → List String → Context C → Memory (Factory C I T) → Context C × Memory (Factory C I T)
  add_factories c [] ctx heap = (ctx, heap)
  add_factories c (selector ∷ rest) ctx heap =
      let (p, heap') = alloc (selector_factory c ctx.resync ctx.namespace_scope selector) heap in
      add_factories c rest (record ctx { factories = insert selector p ctx.factories }) heap'

  -- `withInformerFactory` of package filtered: the selectors are a value of the context, too.
  unfoldable pub with_selector_factories : Context C → Call C I T (Context C)
  unfolding get_client
  with_selector_factories ctx =
      required (get_client ctx)
        (λ c. required ctx.selectors (λ selectors heap. some (add_factories c selectors ctx heap)))

  -- `f.Wasm().V1alpha1().WasmModules()`.
  unfoldable pub module_informer : ℕ → Factory C I T → ModuleInformer
  module_informer p f = record { factory = p; scope = scope_of f }

-- `default_informer` is the informer's `defaultInformer`, by its namespace and tweak.
module _ {C I T : Type 0} (set_transform : Option T → I → I)
    (default_informer : Scope → C → ℕ → I) where
  -- `Informer` of a WasmModule informer.
  unfoldable pub informer_of : ModuleInformer → Call C I T I
  informer_of m =
      on_factory m.factory (informer_for set_transform "WasmModule" (default_informer m.scope))

  -- The WasmModule informer of a factory, with its shared informer.
  unfoldable pub open_informer : ℕ → Call C I T (ModuleInformer × I)
  unfolding module_informer informer_of
  open_informer p heap =
      and_then (on_factory p (λ f. (module_informer p f, f)) heap)
        (λ m heap₁. and_then (informer_of m heap₁) (λ i heap₂. some ((m, i), heap₂)))

  -- `withInformer` of package wasmmodule.
  unfoldable pub with_informer : Context C → Call C I T (Context C × I)
  unfolding get_factory
  with_informer ctx = required (get_factory ctx) (λ p heap.
      and_then (open_informer p heap)
        (λ (m, i) heap'. some ((record ctx { informer = some m }, i), heap')))

  -- The loop of `withInformer` of package filtered, and `withInformer`: the informers stand in the
  -- order of the selectors.
  unfoldable pub add_informers : List String → Context C → Call C I T (Context C × List I)
  unfolding get_selector_factory
  add_informers [] ctx heap = some ((ctx, []), heap)
  add_informers (selector ∷ rest) ctx heap =
      required (get_selector_factory ctx selector)
        (λ p heap. and_then (open_informer p heap) (λ (m, i) heap'.
          and_then
            (add_informers rest (record ctx { informers = insert selector m ctx.informers }) heap')
            (λ (ctx', infs) heap''. some ((ctx', i ∷ infs), heap''))))
        heap

  unfoldable pub with_selector_informers : Context C → Call C I T (Context C × List I)
  with_selector_informers ctx = required ctx.selectors (λ selectors. add_informers selectors ctx)
