-- ===== src/Informers/Listing.antt =====
-- The informer of WasmModules: what it lists and watches (wasm/v1alpha1/wasmmodule.go), and the
-- group and version through which a factory hands its namespace and tweak on (wasm/interface.go,
-- wasm/v1alpha1/interface.go, `Wasm` of factory.go).
use knative_serving_wasm.Prelude.{String, Option, none, some, Effect}
use knative_serving_wasm.Api.Types.{WasmModuleList}
use knative_serving_wasm.Platform.Types.{Rest}
use knative_serving_wasm.Platform.Http.{ListOptions}
use knative_serving_wasm.Client.{list_modules, watch_modules}
use knative_serving_wasm.Informers.Factory.{Factory, Tweak}

-- `if tweakListOptions != nil { tweakListOptions(&options) }`.
abbrev pub tweaked : Tweak → ListOptions → ListOptions
tweaked none options = options
tweaked (some tweak) options = tweak options

-- `cache.ListWatch` of k8s.io/client-go.
pub record ListWatch (Ctx Err W : Type 0) : Type 0 where
  pub list_func : ListOptions → Effect W (WasmModuleList × Option Err)
  pub watch_func : ListOptions → Effect W (Option Err)

-- `NewFilteredWasmModuleInformer`, by its list and watch functions; `todo` is `context.TODO()`.
unfoldable pub new_filtered_informer :
    {Ctx Err W : Type 0} → Rest Ctx Err W → Ctx → String → Tweak → ListWatch Ctx Err W
new_filtered_informer client todo namespace tweak = record {
  list_func = λ options.
      list_modules (record { client = client; ns = namespace }) todo (tweaked tweak options);
  watch_func = λ options.
      watch_modules (record { client = client; ns = namespace }) todo (tweaked tweak options);
}

-- `NewWasmModuleInformer`: no tweak.
unfoldable pub new_informer :
    {Ctx Err W : Type 0} → Rest Ctx Err W → Ctx → String → ListWatch Ctx Err W
new_informer client todo namespace = new_filtered_informer client todo namespace none

-- `group`, `version` and `wasmModuleInformer` have the same fields beside the factory.
pub record Scope : Type 0 where
  pub namespace : String
  pub tweak_list_options : Tweak

-- `wasm.New`, `v1alpha1.New`, `V1alpha1` and `WasmModules`.
unfoldable pub new_group : String → Tweak → Scope
new_group namespace tweak = record { namespace = namespace; tweak_list_options = tweak }

unfoldable pub new_version : String → Tweak → Scope
new_version namespace tweak = record { namespace = namespace; tweak_list_options = tweak }

unfoldable pub v1alpha1 : Scope → Scope
unfolding new_version
v1alpha1 g = new_version g.namespace g.tweak_list_options

unfoldable pub wasm_modules : Scope → Scope
wasm_modules v = record { namespace = v.namespace; tweak_list_options = v.tweak_list_options }

-- `Wasm` of a factory.
unfoldable pub wasm : {C I T : Type 0} → Factory C I T → Scope
wasm f = new_group f.namespace f.tweak_list_options

-- `f.Wasm().V1alpha1().WasmModules()`, beside the factory that it points to.
unfoldable pub scope_of : {C I T : Type 0} → Factory C I T → Scope
unfolding wasm v1alpha1 wasm_modules
scope_of f = wasm_modules (v1alpha1 (wasm f))

module _ {Ctx Err W I T : Type 0} (f : Factory (Rest Ctx Err W) I T) (todo : Ctx) where
  -- `defaultInformer` of the informer that `f.Wasm().V1alpha1().WasmModules()` gives.
  unfoldable pub default_informer : ListWatch Ctx Err W
  default_informer =
      let s = scope_of f in new_filtered_informer f.client todo s.namespace s.tweak_list_options
