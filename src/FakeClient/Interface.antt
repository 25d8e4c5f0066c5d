-- ===== src/FakeClient/Interface.antt =====
-- The fake client as a `WasmModuleInterface`, against the typed client.
use knative_serving_wasm.Prelude.{String, ◌≡◌, List}
use knative_serving_wasm.Api.Types.{WasmModule}
use knative_serving_wasm.Platform.Types.{Rest}
use knative_serving_wasm.Platform.Http.{PatchType, ListOptions}
use knative_serving_wasm.Client.{
  zero_options, get_request, watch_request, create_request, update_request, update_status_request,
  patch_request, get_module, watch_modules, create, update, update_status, patch_module,
}
use knative_serving_wasm.Client.Interface.{WasmModuleInterface, not_nil, typed_interface}
use knative_serving_wasm.FakeClient.{
  get_action, watch_action, create_action, update_action, update_subresource_action,
  patch_subresource_action, Fake, FakeWasmModules, fake_get, fake_list, fake_watch, fake_create,
  fake_update, fake_update_status, fake_delete, fake_delete_collection, fake_patch,
}

-- `FakeWasmModules` as a `WasmModuleInterface`: the contexts are not read.
unfoldable pub fake_interface :
    {Ctx Err W : Type 0} → FakeWasmModules Err W → WasmModuleInterface Ctx Err W
fake_interface c = record {
  create = λ ctx. fake_create c;
  update = λ ctx. fake_update c;
  update_status = λ ctx. fake_update_status c;
  delete = λ ctx. fake_delete c;
  delete_collection = λ ctx. fake_delete_collection c;
  get = λ ctx. fake_get c;
  list = λ ctx. fake_list c;
  watch = λ ctx. fake_watch c;
  patch = λ ctx. fake_patch c;
}

-- A fake that answers actions the way a server answers requests: on each action it has the server's
-- answer to the request of the same verb, namespace, name, subresources and object, with no options.
pub record Mirrors {Ctx Err W : Type 0} (rest : Rest Ctx Err W) (ctx : Ctx) (fake : Fake Err W)
    : Type 0 where
  pub gets :
      (ns name : String) (w : W)
      → fake.invokes (get_action ns name) w
        ≡ not_nil (rest.do_into ctx (get_request ns name zero_options) w)
  pub creates :
      (ns : String) (o : WasmModule) (w : W)
      → fake.invokes (create_action ns o) w
        ≡ not_nil (rest.do_into ctx (create_request ns o zero_options) w)
  pub updates :
      (ns : String) (o : WasmModule) (w : W)
      → fake.invokes (update_action ns o) w
        ≡ not_nil (rest.do_into ctx (update_request ns o zero_options) w)
  pub updates_status :
      (ns : String) (o : WasmModule) (w : W)
      → fake.invokes (update_subresource_action ns "status" o) w
        ≡ not_nil (rest.do_into ctx (update_status_request ns o zero_options) w)
  pub patches :
      (ns name : String) (pt : PatchType) (bs : String) (subresources : List String) (w : W)
      → fake.invokes (patch_subresource_action ns name pt bs subresources) w
        ≡ not_nil (rest.do_into ctx (patch_request ns name pt bs zero_options subresources) w)
  pub watches :
      (ns : String) (opts : ListOptions) (w : W)
      → fake.invokes_watch (watch_action ns opts) w ≡ rest.do_watch ctx (watch_request ns opts) w

module _ {Ctx Err W : Type 0} (rest : Rest Ctx Err W) (ctx : Ctx) (fake : Fake Err W)
    (mirrors : Mirrors rest ctx fake) (ns : String) where
  abbrev pub typed : WasmModuleInterface Ctx Err W
  typed = typed_interface (record { client = rest; ns = ns })

  abbrev pub faked : WasmModuleInterface Ctx Err W
  faked = fake_interface (record { fake = fake; ns = ns })

  -- Over a fake that answers actions the way a server answers the requests of the same content with no
  -- options, the methods of the fake client give, for zero options, the answers of the typed client:
  -- `Get`, `Create`, `Update`, `UpdateStatus`, `Patch` and `Watch`.
  pub faked-typed :
      (name bs : String) (o : WasmModule) (pt : PatchType) (subresources : List String)
      (opts : ListOptions) (w : W)
      → (faked.get ctx name zero_options w ≡ typed.get ctx name zero_options w)
        × (faked.create ctx o zero_options w ≡ typed.create ctx o zero_options w)
        × (faked.update ctx o zero_options w ≡ typed.update ctx o zero_options w)
        × (faked.update_status ctx o zero_options w ≡ typed.update_status ctx o zero_options w)
        × (faked.patch ctx name pt bs zero_options subresources w
            ≡ typed.patch ctx name pt bs zero_options subresources w)
        × (faked.watch ctx opts w ≡ typed.watch ctx opts w)
  unfolding fake_interface typed_interface fake_get fake_create fake_update fake_update_status
      fake_patch fake_watch get_module create update update_status patch_module watch_modules
  faked-typed name bs o pt subresources opts w = (
    mirrors.gets ns name w,
    mirrors.creates ns o w,
    mirrors.updates ns o w,
    mirrors.updates_status ns o w,
    mirrors.patches ns name pt bs subresources w,
    mirrors.watches ns opts w,
  )
