-- ===== src/Platform/Http.antt =====
-- The HTTP request that the chain of calls on a `rest.Request` builds.
use knative_serving_wasm.Prelude.{ℕ, String, Bool, Option, List}
use knative_serving_wasm.Api.Types.{WasmModule}

-- `types.PatchType`; the code uses the merge patch.
pub data PatchType : Type 0 where
  json_patch merge_patch strategic_merge_patch apply_patch : PatchType

pub data Verb : Type 0 where
  get post put delete : Verb
  patch : PatchType → Verb

-- `metav1.ListOptions`, the fields that the code sets or reads.
pub record ListOptions : Type 0 where
  pub label_selector : String
  pub timeout_seconds : Option ℕ
  pub watch : Bool

-- The fields that the structs `metav1.GetOptions`, `CreateOptions`, `UpdateOptions`,
-- `DeleteOptions` and `PatchOptions` carry for a caller; the code passes such a struct on unread.
pub record Options : Type 0 where
  pub resource_version : String
  pub dry_run : List String
  pub field_manager : String

pub data Params : Type 0 where
  no_params : Params
  options : Options → Params
  list_options : ListOptions → Params

pub data Body : Type 0 where
  no_body : Body
  object : WasmModule → Body
  bytes : String → Body
  delete_options : Options → Body

pub record Request : Type 0 where
  pub verb : Verb
  pub namespace : String
  pub resource : String
  pub name : Option String
  pub sub_resource : List String
  pub params : Params
  pub timeout : ℕ
  pub body : Body
