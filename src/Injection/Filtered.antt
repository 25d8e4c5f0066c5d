-- ===== src/Injection/Filtered.antt =====
-- The factories and informers that are injected for each selector.
pub mod Factories
pub mod Opened
use knative_serving_wasm.Prelude.{
  ℕ, suc, String, ◌==◌, eq_iff, ◌≡◌, ◌∙◌, sym, refl, ap, Bool-cases, ◌⊎◌, inl, inr, true, false,
  Option, none, some, List, [], ◌∷◌, arith, contains, length,
}
use knative_serving_wasm.Cells.{
  Memory, alloc, load, write, load-alloc, load-alloc-some, load-write_any,
}
use knative_serving_wasm.Informers.Factory.{Factory, lookup, insert, informer_from, informer_for}
use knative_serving_wasm.Informers.Listing.{Scope, tweaked, wasm, scope_of}
use knative_serving_wasm.Platform.Http.{ListOptions}
use knative_serving_wasm.Injection.Selection.{scope_namespace, selector_factory-scope}
use knative_serving_wasm.Injection.Heap.{Context, ModuleInformer, Call, and_then, required}
use knative_serving_wasm.Injection.Sharing.{opened, open_informer-opened}
use knative_serving_wasm.Injection.{
  selector_factory, get_client, get_selector_factory, get_selector_informer, with_selectors,
  add_factories, with_selector_factories, module_informer, open_informer, add_informers,
  with_selector_informers,
}
use knative_serving_wasm.Injection.Filtered.Factories.{add_factories-IsReady, add_factories-frame}
use knative_serving_wasm.Injection.Filtered.Opened.{add_informers-Added}

module _ {C I T : Type 0} (c : C) (set_transform : Option T → I → I)
    (default_informer : Scope → C → ℕ → I) where
  -- Where the context holds a client, the injection of the factories of some selectors and then of
  -- their WasmModule informers does not panic. It returns as many informers as there are
  -- selectors. For each of the selectors, `Get` finds afterwards an informer that sets the label
  -- selector of its list options to the given one, and has the scope's namespace, or all if there
  -- is none, on the factory that `Get` of the factories finds.
  pub with_selector_informers-Serves :
      (ctx : Context C) (heap : Memory (Factory C I T)) (selectors : List String) (s : String)
      → get_client ctx ≡ some c
      → contains selectors s ≡ true
      → (ctx₁ : Context C) × (heap₁ : Memory (Factory C I T)) × (ctx₂ : Context C) × (infs : List I)
        × (heap₂ : Memory (Factory C I T)) × (m : ModuleInformer) × (with_selector_factories
              (with_selectors ctx selectors)
              heap
            ≡ some (ctx₁, heap₁))
        × (with_selector_informers set_transform default_informer ctx₁ heap₁
            ≡ some ((ctx₂, infs), heap₂))
        × (length infs ≡ length selectors)
        × (get_selector_informer ctx₂ s ≡ some m)
        × (get_selector_factory ctx₁ s ≡ some m.factory)
        × (m.scope.namespace ≡ scope_namespace ctx.namespace_scope)
        × ((options : ListOptions)
            → tweaked m.scope.tweak_list_options options ≡ record options { label_selector = s })
  unfolding with_selector_factories with_selector_informers with_selectors get_client
  with_selector_informers-Serves ctx heap selectors s client found =
      let ctx₀ = with_selectors ctx selectors in
      let (ctx₁, heap₁) = add_factories c selectors ctx₀ heap in
      let (same_selectors, same_resync, same_scope) =
        add_factories-frame {I = I} {T = T} c selectors ctx₀ heap in
      let (ctx₂, infs, heap₂, eq, count, serves, _) =
        add_informers-Added c set_transform default_informer selectors ctx₁ heap₁
          (λ t h. add_factories-IsReady c selectors ctx₀ heap t (inl h)) in
      let (m, at, on, scope) = serves s found in
      let same =
        scope
        ∙ (ap (λ n. scope_of (selector_factory {I = I} {T = T} c n ctx₁.namespace_scope s))
              same_resync
            ∙ ap (λ n. scope_of (selector_factory {I = I} {T = T} c ctx.resync n s)) same_scope) in
      let (namespace, selects) = selector_factory-scope I T c ctx.resync ctx.namespace_scope s in
      (
        ctx₁,
        heap₁,
        ctx₂,
        infs,
        heap₂,
        m,
        ap
            (λ o.
              required o (λ k. required ctx₀.selectors (λ l h. some (add_factories k l ctx₀ h)))
                heap)
            client,
        ap (λ o. required o (λ l. add_informers set_transform default_informer l ctx₁) heap₁)
              same_selectors
            ∙ eq,
        count,
        at,
        on,
        ap (λ o. o.namespace) same ∙ namespace,
        λ options. ap (λ o. tweaked o.tweak_list_options options) same ∙ selects options,
      )
