-- ===== src/FakeClient.antt =====
-- The fake client (pkg/client/clientset/versioned/typed/wasm/v1alpha1/fake/fake_wasmmodule.go): each
-- method hands an action to client-go's `testing.Fake`, which is a parameter.
pub mod Agreement
pub mod Interface
pub mod Tracker
pub mod Contents
use knative_serving_wasm.Prelude.{
  String, Bool, true, Option, none, some, List, [], ◌∷◌, ◌++◌, Effect, if◌then◌else◌,
}
use knative_serving_wasm.Api.Types.{WasmModule, WasmModuleList, ListMeta, TypeMeta}
use knative_serving_wasm.Platform.Http.{ListOptions, Options, PatchType}
use knative_serving_wasm.Lister.{Selector}

-- The actions of client-go's package testing that the methods make, on the resource `wasmmodules`,
-- each with its namespace.
pub data Action : Type 0 where
  get_action : String → String → Action
  list_action : String → ListOptions → Action
  watch_action : String → ListOptions → Action
  create_action : String → WasmModule → Action
  update_action : String → WasmModule → Action
  update_subresource_action : String → String → WasmModule → Action
  delete_action : String → String → Options → Action
  delete_collection_action : String → ListOptions → Action
  patch_subresource_action : String → String → PatchType → String → List String → Action

-- `testing.Fake`, by the type of the object that an action answers with; a nil object is `none`.
-- `extract_label` is the first result of `testing.ExtractFromListOptions`.
pub record Fake (Err W : Type 0) : Type 0 where
  pub invokes : Action → Effect W (Option WasmModule × Option Err)
  pub invokes_list : Action → Effect W (Option WasmModuleList × Option Err)
  pub invokes_watch : Action → Effect W (Option Err)
  pub extract_label : ListOptions → Option Selector

pub record FakeWasmModules (Err W : Type 0) : Type 0 where
  pub fake : Fake Err W
  pub ns : String

-- `labels.Everything()` for a nil selector.
abbrev pub label_or_everything : Option Selector → Selector
label_or_everything none = λ _. true
label_or_everything (some label) = label

-- The loop of `List`.
unfoldable pub matching : Selector → List WasmModule → List WasmModule → List WasmModule
matching label [] items = items
matching label (item ∷ rest) items =
    matching label rest (if label item.labels then items ++ (item ∷ []) else items)

-- A list with the metadata of another, as a composite literal leaves it.
abbrev pub list_with : ListMeta → List WasmModule → WasmModuleList
list_with meta items = record {
  type_meta = record { kind = ""; api_version = "" };
  list_meta = meta;
  items = items;
}

module _ {Err W : Type 0} (c : FakeWasmModules Err W) where
  open c use {fake, ns}

  unfoldable pub fake_get : String → Options → Effect W (Option WasmModule × Option Err)
  fake_get name options = fake.invokes (get_action ns name)

  -- What `List` makes of the answer.
  unfoldable pub filtered : ListOptions → Option WasmModuleList → Option WasmModuleList
  filtered opts none = none
  filtered opts (some obj) = some (
      list_with obj.list_meta
        (matching (label_or_everything (fake.extract_label opts)) obj.items []))

  unfoldable pub fake_list : ListOptions → Effect W (Option WasmModuleList × Option Err)
  fake_list opts w =
      let ((obj, e), w1) = fake.invokes_list (list_action ns opts) w in ((filtered opts obj, e), w1)

  unfoldable pub fake_watch : ListOptions → Effect W (Option Err)
  fake_watch opts = fake.invokes_watch (watch_action ns opts)

  unfoldable pub fake_create : WasmModule → Options → Effect W (Option WasmModule × Option Err)
  fake_create wasm_module opts = fake.invokes (create_action ns wasm_module)

  unfoldable pub fake_update : WasmModule → Options → Effect W (Option WasmModule × Option Err)
  fake_update wasm_module opts = fake.invokes (update_action ns wasm_module)

  unfoldable pub fake_update_status :
      WasmModule → Options → Effect W (Option WasmModule × Option Err)
  fake_update_status wasm_module opts =
      fake.invokes (update_subresource_action ns "status" wasm_module)

  unfoldable pub fake_delete : String → Options → Effect W (Option Err)
  fake_delete name opts w =
      let ((_, e), w1) = fake.invokes (delete_action ns name opts) w in (e, w1)

  unfoldable pub fake_delete_collection : Options → ListOptions → Effect W (Option Err)
  fake_delete_collection opts list_opts w =
      let ((_, e), w1) = fake.invokes_list (delete_collection_action ns list_opts) w in (e, w1)

  unfoldable pub fake_patch :
      String
      → PatchType
      → String
      → Options
      → List String
      → Effect W (Option WasmModule × Option Err)
  fake_patch name pt bytes opts subresources =
      fake.invokes (patch_subresource_action ns name pt bytes subresources)
