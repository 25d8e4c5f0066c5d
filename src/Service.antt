-- ===== src/Service.antt =====
-- The business logic (pkg/reconciler/wasmmodule/wasmmodule.go): a WasmModule is ready, and has an
-- address, where its Kubernetes Service exists.
pub mod Outcome
pub mod Steady
pub mod Wiring
pub mod Assembly
pub mod Progress
pub mod Written
pub mod Missing
pub mod Waiting
pub mod Recovery
pub mod Stored
pub mod Converged
pub mod History
use knative_serving_wasm.Prelude.{String, Option, none, some, Effect, if◌then◌else◌}
use knative_serving_wasm.Api.Types.{WasmModule, Addressable}
use knative_serving_wasm.Api.Lifecycle.{
  ConditionSet, mark_service_unavailable, mark_service_available,
}
use knative_serving_wasm.Platform.GoError.{Errors}
use knative_serving_wasm.Reconciler.Types.{Interface}

-- `tracker.Reference` of knative.dev/pkg.
pub record Reference : Type 0 where
  pub api_version : String
  pub kind : String
  pub namespace : String
  pub name : String

-- `Reconciler`: its tracker and its lister of Services, and the other calls of `ReconcileKind`. The
-- Service that `Get` returns is not read, so the model keeps its error alone.
pub record Services (Err W : Type 0) : Type 0 where
  pub errors : Errors Err
  pub cond_set : ConditionSet W
  pub track_reference : Reference → WasmModule → Effect W (Option Err)
  pub get_service : String → String → W → Option Err
  pub get_service_hostname : String → String → String

module _ {Err W : Type 0} (r : Services Err W) where
  abbrev pub reference_to : WasmModule → Reference
  reference_to o = record {
    api_version = "v1";
    kind = "Service";
    namespace = o.namespace;
    name = o.spec.service_name;
  }

  abbrev pub address_of : WasmModule → Addressable
  address_of o = record {
    address_name = none;
    url =
        some (record {
          scheme = "http";
          host = r.get_service_hostname o.spec.service_name o.namespace;
        });
    ca_certs = none;
    audience = none;
  }

  -- The object where its Service is missing, and where it exists.
  unfoldable pub unavailable : WasmModule → W → WasmModule
  unavailable o w = record o {
    status = mark_service_unavailable r.cond_set o.spec.service_name o.status w;
  }

  unfoldable pub available : WasmModule → W → WasmModule
  available o w = record o {
    status = record (mark_service_available r.cond_set o.status w) {
      address = some (address_of o);
    };
  }

  -- The part of `ReconcileKind` below the lookup of the Service.
  unfoldable pub after_lookup : WasmModule → Option Err → Effect W (Option Err × WasmModule)
  after_lookup o none w = ((none, available o w), w)
  after_lookup o (some x) w =
      if r.errors.is_not_found x then ((none, unavailable o w), w) else ((some x, o), w)

  unfoldable pub after_track : WasmModule → Option Err × W → (Option Err × WasmModule) × W
  after_track o (some x, w) = ((some x, o), w)
  after_track o (none, w) = after_lookup o (r.get_service o.namespace o.spec.service_name w) w

  unfoldable pub reconcile_kind :
      {Ctx : Type 0} → Ctx → WasmModule → Effect W (Option Err × WasmModule)
  reconcile_kind ctx o w = after_track o (r.track_reference (reference_to o) o w)

  -- The reconciler implements `Interface` and none of the optional interfaces.
  unfoldable pub interface : {Ctx : Type 0} → Interface Ctx Err W
  interface = record {
    reconcile_kind = reconcile_kind;
    finalize_kind = none;
    observe_kind = none;
    observe_deletion = none;
  }
