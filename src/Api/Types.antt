-- ===== src/Api/Types.antt =====
-- The structs of pkg/apis/wasm/v1alpha1/wasm_module_types.go, and of the Kubernetes and Knative
-- structs that they embed the fields that the code reads or writes.
use knative_serving_wasm.Prelude.{ℕ, String, Option, List}

-- `apis.Condition` of knative.dev/pkg.
pub record Condition : Type 0 where
  pub kind : String  -- Go's `Type`
  pub status : String
  pub severity : String
  pub reason : String
  pub message : String
  pub last_transition_time : ℕ

-- `duckv1.Status`.
pub record DuckStatus : Type 0 where
  pub observed_generation : ℕ
  pub conditions : List Condition

-- `apis.URL`: the other fields of a `url.URL` are left at their zero values by the code.
pub record Url : Type 0 where
  pub scheme : String
  pub host : String

-- `duckv1.Addressable`.
pub record Addressable : Type 0 where
  pub address_name : Option String
  pub url : Option Url
  pub ca_certs : Option String
  pub audience : Option String

-- `metav1.TypeMeta`.
pub record TypeMeta : Type 0 where
  pub kind : String
  pub api_version : String

-- `metav1.ObjectMeta`.
pub record ObjectMeta : Type 0 where
  pub name : String
  pub namespace : String
  pub resource_version : String
  pub generation : ℕ
  pub deletion_timestamp : Option ℕ
  pub finalizers : List String
  pub labels : List (String × String)

-- `metav1.ListMeta`.
pub record ListMeta : Type 0 where
  pub resource_version : String
  pub continue_token : String

pub record WasmModuleSpec : Type 0 where
  pub service_name : String

pub record WasmModuleStatus : Type 0 where
  pub status : DuckStatus
  pub address : Option Addressable

pub record WasmModule : Type 0 where
  pub type_meta : TypeMeta
  pub object_meta : ObjectMeta
  pub open object_meta use *
  pub spec : WasmModuleSpec
  pub status : WasmModuleStatus

pub record WasmModuleList : Type 0 where
  pub type_meta : TypeMeta
  pub list_meta : ListMeta
  pub items : List WasmModule
