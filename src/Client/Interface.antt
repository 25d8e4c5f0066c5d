-- ===== src/Client/Interface.antt =====
-- `WasmModuleInterface` (typed/wasm/v1alpha1/wasmmodule.go), by its methods, and the typed client as
-- one. An object that a method returns is an `Option`, since the fake client may return nil.
use knative_serving_wasm.Prelude.{String, Option, none, some, List, Effect}
use knative_serving_wasm.Api.Types.{WasmModule, WasmModuleList}
use knative_serving_wasm.Platform.Types.{Rest}
use knative_serving_wasm.Platform.Http.{PatchType, ListOptions, Options}
use knative_serving_wasm.Client.{
  WasmModules, get_module, list_modules, watch_modules, create, update, update_status,
  delete_module, delete_collection, patch_module,
}
use knative_serving_wasm.Clientset.{WasmClient}

pub record WasmModuleInterface (Ctx Err W : Type 0) : Type 0 where
  pub create : Ctx → WasmModule → Options → Effect W (Option WasmModule × Option Err)
  pub update : Ctx → WasmModule → Options → Effect W (Option WasmModule × Option Err)
  pub update_status : Ctx → WasmModule → Options → Effect W (Option WasmModule × Option Err)
  pub delete : Ctx → String → Options → Effect W (Option Err)
  pub delete_collection : Ctx → Options → ListOptions → Effect W (Option Err)
  pub get : Ctx → String → Options → Effect W (Option WasmModule × Option Err)
  pub list : Ctx → ListOptions → Effect W (Option WasmModuleList × Option Err)
  pub watch : Ctx → ListOptions → Effect W (Option Err)
  pub patch :
      Ctx
      → String
      → PatchType
      → String
      → Options
      → List String
      → Effect W (Option WasmModule × Option Err)

-- A pointer that is not nil.
abbrev pub not_nil : {A Err W : Type 0} → (A × Option Err) × W → (Option A × Option Err) × W
not_nil ((a, e), w) = ((some a, e), w)

-- `wasmModules` as a `WasmModuleInterface`.
unfoldable pub typed_interface :
    {Ctx Err W : Type 0} → WasmModules Ctx Err W → WasmModuleInterface Ctx Err W
typed_interface c = record {
  create = λ ctx o opts w. not_nil (create c ctx o opts w);
  update = λ ctx o opts w. not_nil (update c ctx o opts w);
  update_status = λ ctx o opts w. not_nil (update_status c ctx o opts w);
  delete = delete_module c;
  delete_collection = delete_collection c;
  get = λ ctx name opts w. not_nil (get_module c ctx name opts w);
  list = λ ctx opts w. not_nil (list_modules c ctx opts w);
  watch = watch_modules c;
  patch = λ ctx name pt bs opts subresources w.
      not_nil (patch_module c ctx name pt bs opts subresources w);
}

module _ {Ctx Err W : Type 0} where
  -- `New` and `RESTClient` of the group's client. A nil client has a nil REST client.
  unfoldable pub new_wasm_client : Rest Ctx Err W → WasmClient (Rest Ctx Err W)
  new_wasm_client c = record { rest_client = c }

  unfoldable pub rest_client_of : Option (WasmClient (Rest Ctx Err W)) → Option (Rest Ctx Err W)
  rest_client_of none = none
  rest_client_of (some c) = some c.rest_client

  -- `newWasmModules` and `WasmModules` of the group's client.
  unfoldable pub new_wasm_modules : WasmClient (Rest Ctx Err W) → String → WasmModules Ctx Err W
  new_wasm_modules c namespace = record { client = c.rest_client; ns = namespace }

  unfoldable pub wasm_modules : WasmClient (Rest Ctx Err W) → String → WasmModuleInterface Ctx Err W
  wasm_modules c namespace = typed_interface (new_wasm_modules c namespace)
