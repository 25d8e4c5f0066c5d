-- ===== src/Api/Validation.antt =====
-- Validation and defaulting (wasm_module_validation.go, wasm_module_defaults.go).
use knative_serving_wasm.Prelude.{
  String, ◌==◌, ◌≡◌, ◌↔◌, Option, none, some, arith, eq_iff, if◌then◌else◌,
}
use knative_serving_wasm.Api.Types.{WasmModule, WasmModuleSpec}

-- `apis.FieldError` of knative.dev/pkg, made by `ErrMissingField` and prefixed by `ViaField`.
pub record FieldErrors (F : Type 0) : Type 0 where
  pub missing_field : String → F
  pub via_field : String → F → F

module _ {F : Type 0} (e : FieldErrors F) where
  -- `Validate` of a spec. A nil `*FieldError` is `none`.
  unfoldable pub validate_spec : WasmModuleSpec → Option F
  validate_spec spec =
      if spec.service_name == "" then some (e.missing_field "serviceName") else none

  -- `ViaField` of a nil error is nil.
  abbrev via : String → Option F → Option F
  via field none = none
  via field (some x) = some (e.via_field field x)

  unfoldable pub validate : WasmModule → Option F
  unfolding validate_spec
  validate o = via "spec" (validate_spec o.spec)

  -- A WasmModule is valid exactly if it names a service; otherwise the missing field is reported
  -- under `spec`.
  pub validate_lem :
      (o : WasmModule)
      → ((validate o ≡ none) ↔ (o.spec.service_name ≡ "" → ⊥))
        × (o.spec.service_name ≡ ""
            → validate o ≡ some (e.via_field "spec" (e.missing_field "serviceName")))
  unfolding validate
  validate_lem o =
      let same = eq_iff o.spec.service_name "" in
      ((ground (arith, same), ground (arith, same)), ground (arith, same))

-- `SetDefaults` has nothing to default.
unfoldable pub set_defaults : WasmModule → WasmModule
set_defaults o = o
