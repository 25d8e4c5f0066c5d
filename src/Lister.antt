-- ===== src/Lister.antt =====
-- The lister (pkg/client/listers/wasm/v1alpha1/wasmmodule.go): reads of the informer's cache.
pub mod Contents
use knative_serving_wasm.Prelude.{
  String, ◌<>◌, Bool, Option, none, some, List, [], ◌∷◌, ◌++◌, Result, ok, err,
}
use knative_serving_wasm.Api.Types.{WasmModule}
use knative_serving_wasm.Api.Register.{resource_for}
use knative_serving_wasm.Platform.GoError.{Errors}

-- `labels.Selector`, by its `Matches` on the labels of an object.
abbrev pub Selector : Type 0
Selector = List (String × String) → Bool

-- A function that `cache.ListAll` calls on an object, with the captured slice as a value.
abbrev pub AppendFunc : Type 0
AppendFunc = WasmModule → List WasmModule → List WasmModule

-- `cache.Indexer` with the functions `ListAll` and `ListAllByNamespace` of k8s.io/client-go over
-- it. The pair of an object and whether it exists is an `Option`.
pub record Indexer (Err W : Type 0) : Type 0 where
  pub get_by_key : String → W → Result Err (Option WasmModule)
  pub list_all : Selector → AppendFunc → List WasmModule → W → List WasmModule × Option Err
  pub list_all_by_namespace :
      String → Selector → AppendFunc → List WasmModule → W → List WasmModule × Option Err

pub record WasmModuleLister (Err W : Type 0) : Type 0 where
  pub indexer : Indexer Err W

pub record WasmModuleNamespaceLister (Err W : Type 0) : Type 0 where
  pub indexer : Indexer Err W
  pub namespace : String

-- `NewWasmModuleLister`.
unfoldable pub new_lister : {Err W : Type 0} → Indexer Err W → WasmModuleLister Err W
new_lister indexer = record { indexer = indexer }

-- `ret = append(ret, m)`.
abbrev pub append : AppendFunc
append m ret = ret ++ (m ∷ [])

module _ {Err W : Type 0} (s : WasmModuleLister Err W) where
  unfoldable pub list_modules : Selector → W → List WasmModule × Option Err
  list_modules selector w = s.indexer.list_all selector append [] w

  unfoldable pub wasm_modules : String → WasmModuleNamespaceLister Err W
  wasm_modules ns = record { indexer = s.indexer; namespace = ns }

module _ {Err W : Type 0} (e : Errors Err) (s : WasmModuleNamespaceLister Err W) where
  unfoldable pub list_in_namespace : Selector → W → List WasmModule × Option Err
  list_in_namespace selector w = s.indexer.list_all_by_namespace s.namespace selector append [] w

  unfoldable pub get_cached : String → W → Result Err WasmModule
  get_cached name w = elim (s.indexer.get_by_key (s.namespace <> "/" <> name) w) [
    | err x ↦ err x
    | ok none ↦ err (e.new_not_found (resource_for "wasmmodule") name)
    | ok (some obj) ↦ ok obj
  ]
