-- ===== src/Server.antt =====
-- The API server behind the REST client, by what Kubernetes documents of the requests that the
-- reconciler sends: reads, updates of the status subresource, and merge patches of the metadata.
-- Writes are guarded by the resource version.
use knative_serving_wasm.Prelude.{
  ℕ, String, ◌≡◌, ◌≢◌, ◌⊎◌, Bool, contains, true, Option, none, some, List, [], ◌∷◌, Result, ok,
}
use knative_serving_wasm.Api.Types.{WasmModule, WasmModuleStatus}
use knative_serving_wasm.Platform.Types.{MergePatch, Rest}
use knative_serving_wasm.Platform.GoError.{Errors}
use knative_serving_wasm.Platform.Http.{merge_patch}
use knative_serving_wasm.Client.{get_request, update_status_request, patch_request, zero_options}

-- An object before and after an update of its status: nothing else is changed but the version.
pub record StatusSet (status : WasmModuleStatus) (m m' : WasmModule) : Type 0 where
  pub status_is : m'.status ≡ status
  pub same_type : m'.type_meta ≡ m.type_meta
  pub same_spec : m'.spec ≡ m.spec
  pub same_meta :
      m'.object_meta ≡ record m.object_meta { resource_version = m'.object_meta.resource_version }

-- An object before and after a patch of its finalizers.
pub record FinalizersSet (finalizers : List String) (m m' : WasmModule) : Type 0 where
  pub same_status : m'.status ≡ m.status
  pub same_type : m'.type_meta ≡ m.type_meta
  pub same_spec : m'.spec ≡ m.spec
  pub set_meta : m'.object_meta ≡ record m.object_meta {
    finalizers = finalizers;
    resource_version = m'.object_meta.resource_version;
  }

-- What the server stores of a written object: a deleted object with no finalizer is removed.
abbrev pub left_of : Option ℕ → List String → WasmModule → Option WasmModule
left_of none finalizers m = some m
left_of (some _) [] m = none
left_of (some _) (_ ∷ _) m = some m

abbrev pub remains : WasmModule → Option WasmModule
remains m = left_of m.deletion_timestamp m.finalizers m

-- The server, by the object that each world stores under a namespace and a name. An update with the
-- stored version is accepted; one with another version is a conflict and changes nothing. An empty
-- version, which asks for no guard, is left out. A patch of the finalizers with the stored version is
-- accepted if it adds only names that the server `accepts`, and none to a deleted object; stored
-- deletion timestamps are not zero times. The answer to a patch is the patched object, also where the
-- patch takes the last finalizer of a deleted object, which is then removed.
pub record ApiServer {Ctx Err W : Type 0} (errors : Errors Err) (rest : Rest Ctx Err W)
    (marshal : MergePatch → Result Err String) (is_zero : Option ℕ → Bool) : Type 0 where
  pub stored : String → String → W → Option WasmModule
  pub accepts : String → Bool
  pub named :
      (ns name : String) (w : W) {m : WasmModule}
      → stored ns name w ≡ some m
      → (m.namespace ≡ ns) × (m.name ≡ name) × (m.object_meta.resource_version ≢ "")
  pub get_answers :
      (ctx : Ctx) (ns name : String) (w : W) {m : WasmModule}
      → stored ns name w ≡ some m
      → (w' : W) × (rest.do_into ctx (get_request ns name zero_options) w ≡ ((m, none), w'))
        × (stored ns name w' ≡ some m)
  pub put_accepted :
      (ctx : Ctx) (o : WasmModule) (w : W) {m : WasmModule}
      → stored o.namespace o.name w ≡ some m
      → o.object_meta.resource_version ≡ m.object_meta.resource_version
      → (m' : WasmModule) × (w' : W) × (rest.do_into ctx
            (update_status_request o.namespace o zero_options)
            w
          ≡ ((m', none), w'))
        × (stored o.namespace o.name w' ≡ some m')
        × StatusSet o.status m m'
  pub put_refused :
      (ctx : Ctx) (o : WasmModule) (w : W) {m : WasmModule}
      → stored o.namespace o.name w ≡ some m
      → o.object_meta.resource_version ≢ m.object_meta.resource_version
      → o.object_meta.resource_version ≢ ""
      → (answer : WasmModule) × (x : Err) × (w' : W) × (rest.do_into ctx
            (update_status_request o.namespace o zero_options)
            w
          ≡ ((answer, some x), w'))
        × (errors.is_conflict x ≡ true)
        × (stored o.namespace o.name w' ≡ some m)
  pub patch_accepted :
      (ctx : Ctx) (ns name : String) (patch : MergePatch) (w : W) {m : WasmModule}
      → stored ns name w ≡ some m
      → patch.resource_version ≡ m.object_meta.resource_version
      → ((x : String)
          → contains patch.finalizers x ≡ true
          → (contains m.finalizers x ≡ true)
            ⊎ ((is_zero m.deletion_timestamp ≡ true) × (accepts x ≡ true)))
      → (bytes : String) × (m' : WasmModule) × (w' : W) × (marshal patch ≡ ok bytes)
        × (rest.do_into ctx (patch_request ns name merge_patch bytes zero_options []) w
            ≡ ((m', none), w'))
        × (stored ns name w' ≡ remains m')
        × FinalizersSet patch.finalizers m m'
