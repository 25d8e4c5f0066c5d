-- ===== src/Injection/Fakes.antt =====
-- The fakes of the injection, for tests (client/fake/fake.go, informers/factory/fake/fake.go,
-- informers/factory/filtered/fake/fake_filtered_factory.go, wasmmodule/fake/fake.go and
-- wasmmodule/filtered/fake/fake.go): they put the fake clientset into the context, and factories and
-- informers on it.
pub mod Setup
use knative_serving_wasm.Prelude.{ℕ, String, ◌≡◌, refl, ap, true, Option, none, some, List, [], ◌∷◌}
use std.Path.{fun_ext}
use knative_serving_wasm.Cells.{Memory, alloc, load}
use knative_serving_wasm.Api.Types.{WasmModule}
use knative_serving_wasm.Platform.GoError.{Errors}
use knative_serving_wasm.Platform.Http.{Options}
use knative_serving_wasm.Informers.Factory.{Factory, insert}
use knative_serving_wasm.Informers.Listing.{Scope}
use knative_serving_wasm.FakeClient.{fake_get}
use knative_serving_wasm.FakeClient.Tracker.{
  Testing, FakeClientset, wasm_v1alpha1, fake_wasm_modules, new_simple_clientset,
}
use knative_serving_wasm.FakeClient.Contents.{
  find_object, distinct_keys, TestingLaws, Answers, new_simple_clientset-Answers,
}
use knative_serving_wasm.Injection.Heap.{Context, ModuleInformer, Call, and_then, required}
use knative_serving_wasm.Injection.Sharing.{with_informer-shared}
use knative_serving_wasm.Injection.{
  informer_factory, get_client, get_factory, get_informer, get_selector_factory,
  with_informer_factory, add_factories, add_informers, open_informer, informer_of, with_informer,
}

module _ {Err W : Type 0} (lib : Testing Err W) where
  -- `With`: the context, the clientset, and the contents of its tracker.
  unfoldable pub with_fake :
      Context (FakeClientset Err W)
      → List WasmModule
      → Option ((Context (FakeClientset Err W) × FakeClientset Err W) × W)
  with_fake ctx objects = elim (new_simple_clientset lib objects) [
    | none ↦ none
    | some r ↦ some ((record ctx { client = some r.0 }, r.0), r.1)
  ]

  -- `withClient`, which reads no configuration.
  unfoldable pub with_fake_client :
      Context (FakeClientset Err W) → Option (Context (FakeClientset Err W) × W)
  with_fake_client ctx = elim (with_fake ctx []) [ none ↦ none | some r ↦ some (r.0.0, r.1) ]

-- `Get` of the fake client.
unfoldable pub get_fake_client :
    {Err W : Type 0} → Context (FakeClientset Err W) → Option (FakeClientset Err W)
get_fake_client ctx = ctx.client

module _ {Err W I T : Type 0} where
  -- `withInformerFactory` of the fake factory.
  unfoldable pub with_fake_factory :
      Context (FakeClientset Err W) → Call (FakeClientset Err W) I T (Context (FakeClientset Err W))
  unfolding get_fake_client
  with_fake_factory ctx = required (get_fake_client ctx) (λ c heap.
      let (p, heap') = alloc (informer_factory c ctx.resync ctx.namespace_scope) heap in
      some (record ctx { factory = some p }, heap'))

  -- `withInformerFactory` of the fake filtered factory; its loop is that of the real one.
  unfoldable pub with_fake_selector_factories :
      Context (FakeClientset Err W) → Call (FakeClientset Err W) I T (Context (FakeClientset Err W))
  unfolding get_fake_client
  with_fake_selector_factories ctx =
      required (get_fake_client ctx)
        (λ c. required ctx.selectors (λ selectors heap. some (add_factories c selectors ctx heap)))

  module _ (set_transform : Option T → I → I)
      (default_informer : Scope → FakeClientset Err W → ℕ → I) where
    -- `withInformer` of the fake informer.
    unfoldable pub with_fake_informer :
        Context (FakeClientset Err W)
        → Call (FakeClientset Err W) I T (Context (FakeClientset Err W) × I)
    with_fake_informer ctx = required (get_factory ctx) (λ p heap.
        and_then (open_informer set_transform default_informer p heap)
          (λ (m, i) heap'. some ((record ctx { informer = some m }, i), heap')))

    -- The loop of `withInformer` of the fake filtered informer, and `withInformer`.
    unfoldable pub add_fake_informers :
        List String
        → Context (FakeClientset Err W)
        → Call (FakeClientset Err W) I T (Context (FakeClientset Err W) × List I)
    add_fake_informers [] ctx heap = some ((ctx, []), heap)
    add_fake_informers (selector ∷ rest) ctx heap =
        required (get_selector_factory ctx selector)
          (λ p heap'.
            and_then (open_informer set_transform default_informer p heap') (λ (m, i) heap''.
              and_then
                (add_fake_informers rest
                  (record ctx { informers = insert selector m ctx.informers }) heap'')
                (λ (ctx', infs) heap₃. some ((ctx', i ∷ infs), heap₃))))
          heap

    unfoldable pub with_fake_selector_informers :
        Context (FakeClientset Err W)
        → Call (FakeClientset Err W) I T (Context (FakeClientset Err W) × List I)
    with_fake_selector_informers ctx =
        required ctx.selectors (λ selectors. add_fake_informers selectors ctx)

    add_fake_informers-eq :
        (selectors : List String) (ctx : Context (FakeClientset Err W))
        → add_fake_informers selectors ctx
          ≡ add_informers set_transform default_informer selectors ctx
    unfolding add_fake_informers add_informers
    add_fake_informers-eq [] ctx = refl
    add_fake_informers-eq (selector ∷ rest) ctx = fun_ext (λ heap.
        ap
          (λ k.
            required (get_selector_factory ctx selector)
              (λ p heap'.
                and_then (open_informer set_transform default_informer p heap') (λ (m, i) heap''.
                  and_then (k (record ctx { informers = insert selector m ctx.informers }) heap'')
                    (λ (ctx', infs) heap₃. some ((ctx', i ∷ infs), heap₃))))
              heap)
          (fun_ext (λ ctx'. add_fake_informers-eq rest ctx')))

    -- `With` on objects with distinct keys, and then the injection of the fake factory and the fake
    -- informer, do not panic. Afterwards `Get` finds the clientset that `With` returned, which answers
    -- a `Get` with the object of that namespace and name, or with a not-found error. The informer that
    -- `Get` finds stands on a factory with that clientset, and its `Informer` is the injected one.
    pub with_fake-Answers :
        (errors : Errors Err) (lib : Testing Err W) (laws : TestingLaws errors lib)
        (ctx : Context (FakeClientset Err W)) (heap : Memory (Factory (FakeClientset Err W) I T))
        (objects : List WasmModule) (ns name : String) (opts : Options)
        → distinct_keys objects ≡ true
        → (cs : FakeClientset Err W) × (w : W) × (ctx₀ : Context (FakeClientset Err W))
          × (ctx₁ : Context (FakeClientset Err W)) × (heap₁ : Memory
              (Factory (FakeClientset Err W) I T))
          × (ctx₂ : Context (FakeClientset Err W)) × (i : I) × (heap₂ : Memory
              (Factory (FakeClientset Err W) I T))
          × (m : ModuleInformer) × (f : Factory (FakeClientset Err W) I T) × (with_fake lib ctx
                objects
              ≡ some ((ctx₀, cs), w))
          × (with_fake_factory ctx₀ heap ≡ some (ctx₁, heap₁))
          × (with_fake_informer ctx₁ heap₁ ≡ some ((ctx₂, i), heap₂))
          × (get_fake_client ctx₂ ≡ some cs)
          × (get_informer ctx₂ ≡ some m)
          × (load heap₂ m.factory ≡ some f)
          × (f.client ≡ cs)
          × (informer_of set_transform default_informer m heap₂ ≡ some (i, heap₂))
          × Answers errors lib laws
              (find_object ns name objects)
              w
              (fake_get (fake_wasm_modules (wasm_v1alpha1 cs) ns) name opts w)
    unfolding with_fake with_fake_factory with_fake_informer get_fake_client get_client
        with_informer_factory with_informer
    with_fake-Answers errors lib laws ctx heap objects ns name opts distinct =
        let (cs, w, made, answers) =
          new_simple_clientset-Answers errors lib laws objects ns name opts distinct in
        let ctx₀ = record ctx { client = some cs } in
        let (
          ctx₁, heap₁, ctx₂, i, heap₂, m, made_factory, opened, client, at, _, _, shared, f, held,
          on,
        ) =
          with_informer-shared set_transform default_informer cs ctx₀ heap refl in
        (
          cs,
          w,
          ctx₀,
          ctx₁,
          heap₁,
          ctx₂,
          i,
          heap₂,
          m,
          f,
          ap
              (λ r. elim r [
                | none ↦ none
                | some v ↦ some ((record ctx { client = some v.0 }, v.0), v.1)
              ])
              made,
          made_factory,
          opened,
          client,
          at,
          held,
          on,
          shared,
          answers,
        )
