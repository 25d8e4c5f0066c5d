-- ===== src/Controller/Options.antt =====
-- `controller.Options` of knative.dev/pkg, and what the constructors make of them.
use knative_serving_wasm.Prelude.{
  String, ◌==◌, Bool, true, Option, none, some, List, [], ◌∷◌, if◌then◌else◌,
}
use knative_serving_wasm.Api.Types.{WasmModule}
use knative_serving_wasm.Reconciler.Types.{Bucket, ReconcilerImpl}

pub record ControllerOptions (Ctx W : Type 0) : Type 0 where
  pub config_store : Option (Ctx → Ctx)
  pub finalizer_name : String
  pub agent_name : String
  pub skip_status_updates : Bool
  pub demote_func : Option (Bucket → W → W)
  pub promote_filter_func : Option (WasmModule → Bool)
  pub promote_func : Option (Bucket → W → W)

abbrev pub default_controller_agent_name : String
default_controller_agent_name = "wasmmodule-controller"

abbrev pub default_finalizer_name : String
default_finalizer_name = "wasmmodules.wasm.serving.knative.dev"

-- `if new != nil { old = new }`, and the same for a text that is not empty.
abbrev pub or_keep : {A : Type 0} → Option A → Option A → Option A
or_keep none old = old
or_keep (some new) old = some new

abbrev pub or_keep_text : String → String → String
or_keep_text new old = if new == "" then old else new

module _ {Ctx Err W : Type 0} where
  -- The body of the loop of `NewReconciler`.
  unfoldable pub apply_option :
      ControllerOptions Ctx W → ReconcilerImpl Ctx Err W → ReconcilerImpl Ctx Err W
  apply_option opts rec = record rec {
    config_store = or_keep opts.config_store rec.config_store;
    finalizer_name = or_keep_text opts.finalizer_name rec.finalizer_name;
    skip_status_updates = (if opts.skip_status_updates then true else rec.skip_status_updates);
    demote_func = or_keep opts.demote_func rec.demote_func;
  }

  -- The loop of `NewReconciler`.
  unfoldable pub apply_options :
      List (ControllerOptions Ctx W) → ReconcilerImpl Ctx Err W → ReconcilerImpl Ctx Err W
  apply_options [] rec = rec
  apply_options (opts ∷ rest) rec = apply_options rest (apply_option opts rec)

-- The variables that the loop of `NewImpl` changes beside the reconciler.
pub record ImplVariables (W : Type 0) : Type 0 where
  pub agent_name : String
  pub promote_filter_func : Option (WasmModule → Bool)
  pub promote_func : Bucket → W → W

-- What the loop of `NewImpl` changes: the reconciler and those variables.
pub record ImplState (Ctx Err W : Type 0) : Type 0 where
  pub rec : ReconcilerImpl Ctx Err W
  pub variables : ImplVariables W

module _ {Ctx Err W : Type 0} where
  -- The body of the loop of `NewImpl`, and the loop.
  unfoldable pub apply_impl_option :
      ControllerOptions Ctx W → ImplState Ctx Err W → ImplState Ctx Err W
  apply_impl_option opts s = record {
    rec = record s.rec {
      config_store = or_keep opts.config_store s.rec.config_store;
      finalizer_name = or_keep_text opts.finalizer_name s.rec.finalizer_name;
      skip_status_updates = (if opts.skip_status_updates then true else s.rec.skip_status_updates);
      demote_func = or_keep opts.demote_func s.rec.demote_func;
    };
    variables = record {
      agent_name = or_keep_text opts.agent_name s.variables.agent_name;
      promote_filter_func = or_keep opts.promote_filter_func s.variables.promote_filter_func;
      promote_func = elim opts.promote_func [ some f ↦ f | none ↦ s.variables.promote_func ];
    };
  }

  unfoldable pub apply_impl_options :
      List (ControllerOptions Ctx W) → ImplState Ctx Err W → ImplState Ctx Err W
  apply_impl_options [] s = s
  apply_impl_options (opts ∷ rest) s = apply_impl_options rest (apply_impl_option opts s)
