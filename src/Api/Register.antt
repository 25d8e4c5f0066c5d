-- ===== src/Api/Register.antt =====
-- Group, version and kind (pkg/apis/wasm/register.go, pkg/apis/wasm/v1alpha1/register.go, and the
-- kind of wasm_module_lifecycle.go).
use knative_serving_wasm.Prelude.{String}
use knative_serving_wasm.Platform.GoError.{GroupResource}

abbrev pub group_name : String
group_name = "wasm.serving.knative.dev"

-- `schema.GroupVersion`.
pub record GroupVersion : Type 0 where
  pub group : String
  pub version : String

-- `schema.GroupVersionKind`.
pub record GroupVersionKind : Type 0 where
  pub group : String
  pub version : String
  pub kind : String

-- `schema.GroupVersionResource`.
pub record GroupVersionResource : Type 0 where
  pub group : String
  pub version : String
  pub resource : String

-- `schema.GroupKind`.
pub record GroupKind : Type 0 where
  pub group : String
  pub kind : String

abbrev pub scheme_group_version : GroupVersion
scheme_group_version = record { group = group_name; version = "v1alpha1" }

-- `WithKind` and `WithResource` of a `schema.GroupVersion`.
abbrev pub with_kind : GroupVersion → String → GroupVersionKind
with_kind gv k = record { group = gv.group; version = gv.version; kind = k }

abbrev pub with_resource : GroupVersion → String → GroupVersionResource
with_resource gv r = record { group = gv.group; version = gv.version; resource = r }

-- `Kind`.
unfoldable pub kind_for : String → GroupKind
kind_for k =
    let gvk = with_kind scheme_group_version k in record { group = gvk.group; kind = gvk.kind }

-- `Resource`.
unfoldable pub resource_for : String → GroupResource
resource_for r =
    let gvr = with_resource scheme_group_version r in
    record { group = gvr.group; resource = gvr.resource }

-- `GetGroupVersionKind` of a WasmModule.
abbrev pub group_version_kind : GroupVersionKind
group_version_kind = with_kind scheme_group_version "WasmModule"
