-- ===== src/Tests/Injecting.antt =====
-- The theorems on the injection, at concrete data: informers are numbers, and the object tracker is a
-- list.
use knative_serving_wasm.Prelude.{ℕ, ◌≡◌, refl, ap, Option, none, some, List, [], ◌∷◌, ok, length}
use knative_serving_wasm.Cells.{Memory, load}
use knative_serving_wasm.Api.Types.{WasmModule}
use knative_serving_wasm.Informers.Factory.{Factory}
use knative_serving_wasm.Informers.Listing.{Scope}
use knative_serving_wasm.FakeClient.{Action, get_action, fake_get}
use knative_serving_wasm.FakeClient.Tracker.{
  Testing, FakeClientset, wasm_v1alpha1, fake_wasm_modules,
}
use knative_serving_wasm.FakeClient.Contents.{find_object, TestingLaws}
use knative_serving_wasm.Platform.Http.{ListOptions}
use knative_serving_wasm.Informers.Listing.{tweaked}
use knative_serving_wasm.Injection.Heap.{Context, ModuleInformer}
use knative_serving_wasm.Injection.Sharing.{with_informer-shared}
use knative_serving_wasm.Injection.Filtered.{with_selector_informers-Serves}
use knative_serving_wasm.Injection.Fakes.{
  with_fake, get_fake_client, with_fake_factory, with_fake_informer, with_fake-Answers,
}
use knative_serving_wasm.Injection.{
  get_client, get_factory, get_selector_factory, get_informer, get_selector_informer,
  with_selectors, with_informer_factory, with_selector_factories, informer_of, with_informer,
  with_selector_informers,
}
use knative_serving_wasm.Client.{zero_options}
use knative_serving_wasm.Tests.World.{Problem, problems, missing}
use knative_serving_wasm.Tests.Cluster.{module_with}

abbrev pub set_transform : Option ℕ → ℕ → ℕ
set_transform t i = i

abbrev pub by_resync : {C : Type 0} → Scope → C → ℕ → ℕ
by_resync scope client resync = resync

abbrev pub context : {C : Type 0} → Option C → Context C
context client = record {
  client = client;
  selectors = none;
  factory = none;
  factories = [];
  informer = none;
  informers = [];
  namespace_scope = some "default";
  resync = 30;
}

abbrev pub nothing : {C : Type 0} → Memory (Factory C ℕ ℕ)
nothing = []

with_informer-shared_example :
    (ctx₁ : Context ℕ) × (heap₁ : Memory (Factory ℕ ℕ ℕ)) × (ctx₂ : Context ℕ) × (i : ℕ)
    × (heap₂ : Memory (Factory ℕ ℕ ℕ)) × (m : ModuleInformer) × (with_informer_factory
          (context (some 5))
          nothing
        ≡ some (ctx₁, heap₁))
    × (with_informer set_transform by_resync ctx₁ heap₁ ≡ some ((ctx₂, i), heap₂))
    × (get_client ctx₂ ≡ some 5)
    × (get_informer ctx₂ ≡ some m)
    × (get_factory ctx₂ ≡ some m.factory)
    × (m.scope ≡ record { namespace = "default"; tweak_list_options = none })
    × (informer_of set_transform by_resync m heap₂ ≡ some (i, heap₂))
    × (f : Factory ℕ ℕ ℕ) × (load heap₂ m.factory ≡ some f)
    × (f.client ≡ 5)
unfolding get_client
with_informer-shared_example =
    with_informer-shared set_transform by_resync 5 (context (some 5)) nothing refl

with_selector_informers-Serves_example :
    (ctx₁ : Context ℕ) × (heap₁ : Memory (Factory ℕ ℕ ℕ)) × (ctx₂ : Context ℕ) × (infs : List ℕ)
    × (heap₂ : Memory (Factory ℕ ℕ ℕ)) × (m : ModuleInformer) × (with_selector_factories
          (with_selectors (context (some 5)) ("app=a" ∷ "app=b" ∷ []))
          nothing
        ≡ some (ctx₁, heap₁))
    × (with_selector_informers set_transform by_resync ctx₁ heap₁ ≡ some ((ctx₂, infs), heap₂))
    × (length infs ≡ 2)
    × (get_selector_informer ctx₂ "app=b" ≡ some m)
    × (get_selector_factory ctx₁ "app=b" ≡ some m.factory)
    × (m.scope.namespace ≡ "default")
    × ((options : ListOptions)
        → tweaked m.scope.tweak_list_options options ≡ record options { label_selector = "app=b" })
unfolding get_client
with_selector_informers-Serves_example =
    with_selector_informers-Serves 5 set_transform by_resync (context (some 5)) nothing
      ("app=a" ∷ "app=b" ∷ []) "app=b" refl refl

-- A tracker that holds a list.
abbrev found :
    Option WasmModule → List WasmModule → (Option WasmModule × Option Problem) × List WasmModule
found none w = ((none, some missing), w)
found (some m) w = ((some m, none), w)

abbrev react : Action → List WasmModule → (Option WasmModule × Option Problem) × List WasmModule
react action w = elim action [
  | get_action ns name ↦ found (find_object ns name w) w
  | _ ↦ ((none, none), w)
]

abbrev tracker : Testing Problem (List WasmModule)
tracker = record {
  empty = [];
  add = λ m w. ok (m ∷ w);
  watch = λ ns w. none;
  object_reaction = react;
  list_reaction = λ action w. ((none, none), w);
  with_reactors = λ objects lists watching. record {
    invokes = objects;
    invokes_list = lists;
    invokes_watch = λ action w. ((watching "" w).1, w);
    extract_label = λ options. none;
  };
}

tracker_laws : TestingLaws problems tracker
tracker_laws = record {
  held = find_object;
  held_empty = λ ns name. refl;
  add_new = λ m w h. (m ∷ w, refl, λ ns name. refl);
  get_held = λ ns name w h. ap (λ o. found o w) h;
  get_missing = λ ns name w h. (missing, ap (λ o. found o w) h, refl);
  reacts = λ watching. refl;
}

abbrev greeter : WasmModule
greeter = module_with 1 0 [] none

with_fake-Answers_example :
    (cs : FakeClientset Problem (List WasmModule)) × (w : List WasmModule) × (ctx₀ : Context
      (FakeClientset Problem (List WasmModule)))
    × (ctx₁ : Context (FakeClientset Problem (List WasmModule))) × (heap₁ : Memory
        (Factory (FakeClientset Problem (List WasmModule)) ℕ ℕ))
    × (ctx₂ : Context (FakeClientset Problem (List WasmModule))) × (i : ℕ) × (heap₂ : Memory
        (Factory (FakeClientset Problem (List WasmModule)) ℕ ℕ))
    × (m : ModuleInformer) × (f : Factory (FakeClientset Problem (List WasmModule)) ℕ ℕ)
    × (with_fake tracker (context none) (greeter ∷ []) ≡ some ((ctx₀, cs), w))
    × (with_fake_factory ctx₀ nothing ≡ some (ctx₁, heap₁))
    × (with_fake_informer set_transform by_resync ctx₁ heap₁ ≡ some ((ctx₂, i), heap₂))
    × (get_fake_client ctx₂ ≡ some cs)
    × (get_informer ctx₂ ≡ some m)
    × (load heap₂ m.factory ≡ some f)
    × (f.client ≡ cs)
    × (informer_of set_transform by_resync m heap₂ ≡ some (i, heap₂))
    × (fake_get (fake_wasm_modules (wasm_v1alpha1 cs) "default") "greeter" zero_options w
        ≡ ((some greeter, none), w))
with_fake-Answers_example =
    with_fake-Answers set_transform by_resync problems tracker tracker_laws (context none) nothing
      (greeter ∷ []) "default" "greeter" zero_options refl
