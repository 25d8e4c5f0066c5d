-- ===== src/Client.antt =====
-- The typed client (pkg/client/clientset/versioned/typed/wasm/v1alpha1/wasmmodule.go): each method
-- builds one request and sends it.
pub mod Interface
use knative_serving_wasm.Prelude.{
  ℕ, ◌*◌, ◌%◌, ◌^◌, String, true, Option, none, some, List, [], ◌∷◌, Effect,
}
use knative_serving_wasm.Api.Types.{WasmModule, WasmModuleList}
use knative_serving_wasm.Platform.Types.{Rest}
use knative_serving_wasm.Platform.Http.{
  Request, Verb, get, post, put, delete, patch, PatchType, ListOptions, Options, no_params, options,
  list_options, no_body, object, bytes, delete_options,
}

-- One second, as a `time.Duration` in nanoseconds.
abbrev second : ℕ
second = 1000000000

-- `wasmModules`: the REST client and the namespace.
pub record WasmModules (Ctx Err W : Type 0) : Type 0 where
  pub client : Rest Ctx Err W
  pub ns : String

-- The zero value of an options struct.
abbrev pub zero_options : Options
zero_options = record { resource_version = ""; dry_run = []; field_manager = "" }

-- The part that all requests share.
unfoldable pub base : String → Verb → Request
base ns verb = record {
  verb = verb;
  namespace = ns;
  resource = "wasmmodules";
  name = none;
  sub_resource = [];
  params = no_params;
  timeout = 0;
  body = no_body;
}

-- The timeout that `List`, `Watch` and `DeleteCollection` set from their options: a product of two
-- int64, as its bit pattern.
unfoldable pub list_timeout : ListOptions → ℕ
list_timeout opts = elim opts.timeout_seconds [
  | none ↦ 0
  | some seconds ↦ (seconds * second) % 2 ^ 64
]

unfoldable pub get_request : String → String → Options → Request
unfolding base
get_request ns name opts = record (base ns get) { name = some name; params = options opts }

unfoldable pub list_request : String → ListOptions → Request
unfolding base list_timeout
list_request ns opts = record (base ns get) {
  params = list_options opts;
  timeout = list_timeout opts;
}

unfoldable pub watch_request : String → ListOptions → Request
unfolding base list_timeout
watch_request ns opts = record (base ns get) {
  params = list_options (record opts { watch = true });
  timeout = list_timeout opts;
}

unfoldable pub create_request : String → WasmModule → Options → Request
unfolding base
create_request ns wasm_module opts = record (base ns post) {
  params = options opts;
  body = object wasm_module;
}

unfoldable pub update_request : String → WasmModule → Options → Request
unfolding base
update_request ns wasm_module opts = record (base ns put) {
  name = some wasm_module.name;
  params = options opts;
  body = object wasm_module;
}

unfoldable pub update_status_request : String → WasmModule → Options → Request
unfolding base
update_status_request ns wasm_module opts = record (base ns put) {
  name = some wasm_module.name;
  sub_resource = "status" ∷ [];
  params = options opts;
  body = object wasm_module;
}

unfoldable pub delete_request : String → String → Options → Request
unfolding base
delete_request ns name opts = record (base ns delete) {
  name = some name;
  body = delete_options opts;
}

unfoldable pub delete_collection_request : String → Options → ListOptions → Request
unfolding base list_timeout
delete_collection_request ns opts list_opts = record (base ns delete) {
  params = list_options list_opts;
  timeout = list_timeout list_opts;
  body = delete_options opts;
}

unfoldable pub patch_request :
    String → String → PatchType → String → Options → List String → Request
unfolding base
patch_request ns name pt bs opts subresources = record (base ns (patch pt)) {
  name = some name;
  sub_resource = subresources;
  params = options opts;
  body = bytes bs;
}

module _ {Ctx Err W : Type 0} (c : WasmModules Ctx Err W) where
  open c use {client, ns}

  unfoldable pub get_module : Ctx → String → Options → Effect W (WasmModule × Option Err)
  get_module ctx name opts = client.do_into ctx (get_request ns name opts)

  unfoldable pub list_modules : Ctx → ListOptions → Effect W (WasmModuleList × Option Err)
  list_modules ctx opts = client.do_into_list ctx (list_request ns opts)

  unfoldable pub watch_modules : Ctx → ListOptions → Effect W (Option Err)
  watch_modules ctx opts = client.do_watch ctx (watch_request ns opts)

  unfoldable pub create : Ctx → WasmModule → Options → Effect W (WasmModule × Option Err)
  create ctx wasm_module opts = client.do_into ctx (create_request ns wasm_module opts)

  unfoldable pub update : Ctx → WasmModule → Options → Effect W (WasmModule × Option Err)
  update ctx wasm_module opts = client.do_into ctx (update_request ns wasm_module opts)

  unfoldable pub update_status : Ctx → WasmModule → Options → Effect W (WasmModule × Option Err)
  update_status ctx wasm_module opts =
      client.do_into ctx (update_status_request ns wasm_module opts)

  unfoldable pub delete_module : Ctx → String → Options → Effect W (Option Err)
  delete_module ctx name opts = client.do_error ctx (delete_request ns name opts)

  unfoldable pub delete_collection : Ctx → Options → ListOptions → Effect W (Option Err)
  delete_collection ctx opts list_opts =
      client.do_error ctx (delete_collection_request ns opts list_opts)

  unfoldable pub patch_module :
      Ctx → String → PatchType → String → Options → List String → Effect W (WasmModule × Option Err)
  patch_module ctx name pt bs opts subresources =
      client.do_into ctx (patch_request ns name pt bs opts subresources)
