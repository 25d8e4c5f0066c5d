-- ===== src/Injection/Sharing.antt =====
-- The injected informer is the factory's shared one.
use knative_serving_wasm.Prelude.{ℕ, String, ◌≡◌, ◌∙◌, refl, ap, Option, none, some}
use knative_serving_wasm.Cells.{
  Memory, alloc, load, write, load-alloc, load-write, write-write, write-load,
}
use knative_serving_wasm.Informers.Factory.{
  Factory, lookup, with_namespace, apply_options, new_factory, informer_from, informer_for,
}
use knative_serving_wasm.Informers.Listing.{Scope, scope_of}
use knative_serving_wasm.Informers.Registry.{informer_for_shared}
use knative_serving_wasm.Injection.Selection.{scope_namespace, informer_factory-scope}
use knative_serving_wasm.Injection.Heap.{
  Context, ModuleInformer, Call, and_then, required, on_loaded,
}
use knative_serving_wasm.Injection.{
  scope_options, informer_factory, get_client, get_factory, get_informer, with_informer_factory,
  module_informer, informer_of, open_informer, with_informer,
}

module _ {C I T : Type 0} (set_transform : Option T → I → I)
    (default_informer : Scope → C → ℕ → I) where
  -- The WasmModule informer of a factory, and the factory that it is registered in.
  abbrev pub opened : Factory C I T → I × Factory C I T
  opened f = informer_for set_transform "WasmModule" (default_informer (scope_of f)) f

  informer_from-client :
      (t : String) (new_func : C → ℕ → I) (f : Factory C I T) (known : Option I)
      → (informer_from set_transform t new_func f known).1.client ≡ f.client
  unfolding informer_from
  informer_from-client t new_func f none = refl
  informer_from-client t new_func f (some i) = refl

  opened-client : (f : Factory C I T) → (opened f).1.client ≡ f.client
  unfolding informer_for
  opened-client f =
      informer_from-client "WasmModule" (default_informer (scope_of f)) f
        (lookup "WasmModule" f.informers)

  informer_factory-client :
      (c : C) (resync : ℕ) (scope : Option String)
      → (informer_factory {I = I} {T = T} c resync scope).client ≡ c
  unfolding informer_factory scope_options with_namespace new_factory apply_options
  informer_factory-client c resync none = refl
  informer_factory-client c resync (some namespace) = refl

  module _ (p : ℕ) (f : Factory C I T) (heap : Memory (Factory C I T))
      (held : load heap p ≡ some f) where
    informer_of-held :
        informer_of set_transform default_informer (module_informer p f) heap
        ≡ some ((opened f).0, write heap p (opened f).1)
    unfolding informer_of module_informer
    informer_of-held =
        ap
          (on_loaded p (informer_for set_transform "WasmModule" (default_informer (scope_of f)))
            heap)
          held

    pub open_informer-opened :
        open_informer set_transform default_informer p heap
        ≡ some ((module_informer p f, (opened f).0), write heap p (opened f).1)
    unfolding open_informer
    open_informer-opened =
        ap (λ r. and_then (on_loaded p (λ g. (module_informer p g, g)) heap r) then_informer) held
        ∙ (ap (then_informer (module_informer p f)) (write-load heap p held)
            ∙ ap (λ r. and_then r (λ i heap'. some ((module_informer p f, i), heap')))
                informer_of-held)
      where
        then_informer : ModuleInformer → Call C I T (ModuleInformer × I)
        then_informer = λ m heap₁.
            and_then (informer_of set_transform default_informer m heap₁)
              (λ i heap₂. some ((m, i), heap₂))

    -- Once the informer is open, a call of `Informer` gives it again and changes nothing.
    pub informer_of-opened :
        informer_of set_transform default_informer (module_informer p f) (write heap p (opened f).1)
        ≡ some ((opened f).0, write heap p (opened f).1)
    unfolding informer_of module_informer
    informer_of-opened =
        let get = informer_for set_transform "WasmModule" (default_informer (scope_of f)) in
        let heap' = write heap p (opened f).1 in
        ap (on_loaded p get heap') (load-write heap p (opened f).1 held)
        ∙ (ap (λ r. some (r.0, write heap' p r.1))
              (informer_for_shared set_transform "WasmModule" (default_informer (scope_of f)) f
                (default_informer (scope_of f)))
            ∙ ap (λ h. some ((opened f).0, h)) (write-write heap p (opened f).1 (opened f).1))

  -- Where the context holds a client, the injection of the factory and then of the WasmModule
  -- informer does not panic. Afterwards `Get` finds a WasmModule informer on the factory that
  -- `Get` of package factory finds, with the namespace of the context's scope, or all if it has
  -- none, and with no tweak, and its `Informer` is the one that the injection returned: the call
  -- changes nothing. The client is the context's, and so is that of the factory.
  pub with_informer-shared :
      (c : C) (ctx : Context C) (heap : Memory (Factory C I T))
      → get_client ctx ≡ some c
      → (ctx₁ : Context C) × (heap₁ : Memory (Factory C I T)) × (ctx₂ : Context C) × (i : I)
        × (heap₂ : Memory (Factory C I T)) × (m : ModuleInformer) × (with_informer_factory ctx heap
            ≡ some (ctx₁, heap₁))
        × (with_informer set_transform default_informer ctx₁ heap₁ ≡ some ((ctx₂, i), heap₂))
        × (get_client ctx₂ ≡ some c)
        × (get_informer ctx₂ ≡ some m)
        × (get_factory ctx₂ ≡ some m.factory)
        × (m.scope
            ≡ record { namespace = scope_namespace ctx.namespace_scope; tweak_list_options = none })
        × (informer_of set_transform default_informer m heap₂ ≡ some (i, heap₂))
        × (f : Factory C I T) × (load heap₂ m.factory ≡ some f)
        × (f.client ≡ c)
  unfolding with_informer_factory with_informer get_client get_factory get_informer module_informer
  with_informer-shared c ctx heap client =
      let f : Factory C I T = informer_factory c ctx.resync ctx.namespace_scope in
      let (p, heap₁) = alloc f heap in
      let ctx₁ = record ctx { factory = some p } in
      let held = load-alloc heap f in
      (
        ctx₁,
        heap₁,
        record ctx₁ { informer = some (module_informer p f) },
        (opened f).0,
        write heap₁ p (opened f).1,
        module_informer p f,
        ap
            (λ o.
              required o
                (λ k h.
                  let (q, h') = alloc (informer_factory k ctx.resync ctx.namespace_scope) h in
                  some (record ctx { factory = some q }, h'))
                heap)
            client,
        ap (λ r. and_then r (λ (m, i) h. some ((record ctx₁ { informer = some m }, i), h)))
            (open_informer-opened p f heap₁ held),
        client,
        refl,
        refl,
        informer_factory-scope I T c ctx.resync ctx.namespace_scope,
        informer_of-opened p f heap₁ held,
        (opened f).1,
        load-write heap₁ p (opened f).1 held,
        opened-client f ∙ informer_factory-client c ctx.resync ctx.namespace_scope,
      )
