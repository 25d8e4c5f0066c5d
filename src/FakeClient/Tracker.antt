-- ===== src/FakeClient/Tracker.antt =====
-- The fake clientset (pkg/client/clientset/versioned/fake/clientset_generated.go) and its client of the
-- group (typed/wasm/v1alpha1/fake/fake_wasm_client.go), over client-go's object tracker.
use knative_serving_wasm.Prelude.{
  String, Bool, true, false, Option, none, some, List, [], ◌∷◌, Effect, Result, ok, err,
}
use knative_serving_wasm.Api.Types.{WasmModule, WasmModuleList}
use knative_serving_wasm.FakeClient.{Action, Fake, FakeWasmModules}

-- An answer to a watch action: whether it is handled, and the error.
abbrev pub WatchReaction : Type 0 → Type 0 → Type 0
WatchReaction Err W = String → W → Bool × Option Err

-- client-go's package testing. The world is what the tracker holds. `add` is the tracker's `Add`,
-- `watch` its `Watch` on the WasmModules of a namespace, `object_reaction` and `list_reaction` are
-- `ObjectReaction` on the two kinds of actions, and `with_reactors` is a `Fake` with that reactor and a
-- watch reactor added, both for all resources; a watch action is given by its namespace.
pub record Testing (Err W : Type 0) : Type 0 where
  pub empty : W
  pub add : WasmModule → W → Result Err W
  pub watch : String → W → Option Err
  pub object_reaction : Action → Effect W (Option WasmModule × Option Err)
  pub list_reaction : Action → Effect W (Option WasmModuleList × Option Err)
  pub with_reactors :
      (Action → Effect W (Option WasmModule × Option Err))
      → (Action → Effect W (Option WasmModuleList × Option Err))
      → WatchReaction Err W
      → Fake Err W

-- `Clientset`: the tracker is the world. `discovery` is a `FakeDiscovery` by the `Fake` in it.
pub record FakeClientset (Err W : Type 0) : Type 0 where
  pub fake : Fake Err W
  pub discovery : Fake Err W

-- `FakeWasmV1alpha1`.
pub record FakeWasmV1alpha1 (Err W : Type 0) : Type 0 where
  pub fake : Fake Err W

module _ {Err W : Type 0} where
  -- `WasmV1alpha1`, and `WasmModules` of its result.
  unfoldable pub wasm_v1alpha1 : FakeClientset Err W → FakeWasmV1alpha1 Err W
  wasm_v1alpha1 c = record { fake = c.fake }

  unfoldable pub fake_wasm_modules : FakeWasmV1alpha1 Err W → String → FakeWasmModules Err W
  fake_wasm_modules c namespace = record { fake = c.fake; ns = namespace }

  module _ (lib : Testing Err W) where
    -- The loop of `NewSimpleClientset`: a failing `Add` is a panic.
    unfoldable pub add_objects : List WasmModule → W → Option W
    add_objects [] w = some w
    add_objects (obj ∷ rest) w = elim (lib.add obj w) [ err _ ↦ none | ok w' ↦ add_objects rest w' ]

    unfoldable pub watch_reactor : WatchReaction Err W
    watch_reactor ns w = elim (lib.watch ns w) [ some x ↦ (false, some x) | none ↦ (true, none) ]

    -- The clientset that `NewSimpleClientset` returns.
    unfoldable pub tracked_clientset : FakeClientset Err W
    tracked_clientset =
        let fake = lib.with_reactors lib.object_reaction lib.list_reaction watch_reactor in
        record { fake = fake; discovery = fake }

    -- `NewSimpleClientset`, with the contents of its tracker.
    unfoldable pub new_simple_clientset : List WasmModule → Option (FakeClientset Err W × W)
    new_simple_clientset objects = elim (add_objects objects lib.empty) [
      | none ↦ none
      | some w ↦ some (tracked_clientset, w)
    ]
