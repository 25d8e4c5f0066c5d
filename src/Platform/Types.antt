-- ===== src/Platform/Types.antt =====
-- The types and records of the library calls: sets, REST transport, event recorder and platform.
use knative_serving_wasm.Prelude.{ℕ, String, Bool, Option, List, Result, Effect}
use knative_serving_wasm.Api.Types.{WasmModule, WasmModuleStatus, WasmModuleList}
use knative_serving_wasm.Platform.GoError.{Errors}
use knative_serving_wasm.Platform.Http.{Request}

-- `types.NamespacedName`.
pub record NamespacedName : Type 0 where
  pub namespace : String
  pub name : String

-- `sets.Set[string]` of k8s.io/apimachinery.
pub record Sets (S : Type 0) : Type 0 where
  pub new : List String → S
  pub has : S → String → Bool
  pub insert : S → String → S
  pub delete : S → String → S
  pub to_list : S → List String  -- `sets.List`

-- `rest.Interface` of k8s.io/client-go, with a request sent by `Do(ctx)` and read by `Into`,
-- `Error` or `Watch`. `Into` fills its target also where it returns an error.
pub record Rest (Ctx Err W : Type 0) : Type 0 where
  pub do_into : Ctx → Request → Effect W (WasmModule × Option Err)
  pub do_into_list : Ctx → Request → Effect W (WasmModuleList × Option Err)
  pub do_error : Ctx → Request → Effect W (Option Err)
  pub do_watch : Ctx → Request → Effect W (Option Err)

-- An argument of a format string.
pub data Argument (Err : Type 0) : Type 0 where
  text : String → Argument Err
  error : Err → Argument Err

-- `record.EventRecorder` of k8s.io/client-go: object, event type, reason, and message or format.
pub record EventRecorder (Err W : Type 0) : Type 0 where
  pub event : WasmModule → String → String → String → W → W
  pub eventf : WasmModule → String → String → String → List (Argument Err) → W → W

-- A closure that `RetryUpdateConflicts` calls: it is given the number of calls before it, and it
-- keeps and changes the captured `existing`.
abbrev pub Updater : Type 0 → Type 0 → Type 0
Updater Err W = ℕ → WasmModule → Effect W (Option Err × WasmModule)

-- The body of a merge patch before it is marshalled to JSON.
pub record MergePatch : Type 0 where
  pub finalizers : List String
  pub resource_version : String

-- The packages reconciler, controller, equality, cache and json that the reconciler calls.
pub record Platform (Ctx Err S W : Type 0) : Type 0 where
  pub errors : Errors Err
  pub sets : Sets S
  pub rest : Rest Ctx Err W
  pub recorder : EventRecorder Err W
  pub with_event_recorder : Ctx → Ctx  -- `controller.WithEventRecorder`
  pub split_meta_namespace_key : String → Result Err (String × String)
  -- `IsZero` of a pointer to a `metav1.Time`.
  pub is_zero : Option ℕ → Bool
  -- `equality.Semantic.DeepEqual` on statuses.
  pub deep_equal : WasmModuleStatus → WasmModuleStatus → Bool
  pub pre_process_reconcile : Ctx → WasmModule → WasmModule
  -- The third argument is the old resource; the clock is read from the world.
  pub post_process_reconcile : Ctx → WasmModule → WasmModule → W → WasmModule
  pub retry_update_conflicts : Updater Err W → WasmModule → Effect W (Option Err × WasmModule)
  pub marshal : MergePatch → Result Err String
