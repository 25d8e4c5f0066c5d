-- ===== src/Controller/Construction.antt =====
-- `NewReconciler` (reconciler.go) and `NewImpl` (controller.go). A call of
-- `logger.Fatal` ends the process: it is the result `err` with what the message says.
pub mod Defaults
use knative_serving_wasm.Prelude.{
  ℕ, String, Bool, true, false, Option, none, some, List, [], ◌∷◌, Result, ok, err, length, ltb,
  if◌then◌else◌,
}
use knative_serving_wasm.Platform.Types.{NamespacedName}
use knative_serving_wasm.Lister.{WasmModuleLister}
use knative_serving_wasm.Reconciler.Types.{Interface, ReconcilerImpl}
use knative_serving_wasm.Controller.Options.{
  ControllerOptions, ImplVariables, default_controller_agent_name, default_finalizer_name,
  apply_options, apply_impl_options,
}
use knative_serving_wasm.Controller.Promotion.{promote, promote_plain}

-- The fatal messages, with the number of options that two of them print.
pub data Fatal : Type 0 where
  too_many_structs too_many_functions : ℕ → Fatal
  incorrect_leader_aware : Fatal

-- `reconcilerImpl` with its fields `Client` and `Recorder`, which a run reaches through the
-- platform.
pub record Constructed (Ctx Err W C R : Type 0) : Type 0 where
  pub rec : ReconcilerImpl Ctx Err W
  pub client : C
  pub recorder : R

-- What `NewImpl` has before it creates the recorder for the agent.
pub record Unrecorded (Ctx Err W C : Type 0) : Type 0 where
  pub rec : ReconcilerImpl Ctx Err W
  pub client : C
  pub agent_name : String

module _ {Ctx Err W C : Type 0} (is_leader_for : NamespacedName → W → Bool) (client : C)
    (lister : WasmModuleLister Err W) (r : Interface Ctx Err W) where
  -- `implements_leader_aware` is the type assertion `r.(reconciler.LeaderAware)`.
  unfoldable pub new_reconciler :
      {R : Type 0}
      → R
      → Bool
      → List (ControllerOptions Ctx W)
      → Result Fatal (Constructed Ctx Err W C R)
  new_reconciler recorder implements_leader_aware options =
      if ltb 1 (length options)
      then err (too_many_structs (length options))
      else if implements_leader_aware
      then err incorrect_leader_aware
      else ok (record {
        rec = apply_options options (record {
          is_leader_for = is_leader_for;
          promote_func = promote_plain lister;
          demote_func = none;
          lister = lister;
          config_store = none;
          reconciler = r;
          finalizer_name = default_finalizer_name;
          skip_status_updates = false;
        });
        client = client;
        recorder = recorder;
      })

  -- `NewImpl`, up to the creation of the recorder. The closure `PromoteFunc` reads the two variables
  -- when it is called, after the loop.
  unfoldable pub new_impl : List (ControllerOptions Ctx W) → Result Fatal (Unrecorded Ctx Err W C)
  new_impl options =
      if ltb 1 (length options)
      then err (too_many_functions (length options))
      else let s = apply_impl_options options (record {
        rec = record {
          is_leader_for = is_leader_for;
          promote_func = promote lister none (λ _ w. w);
          demote_func = none;
          lister = lister;
          config_store = none;
          reconciler = r;
          finalizer_name = default_finalizer_name;
          skip_status_updates = false;
        };
        variables = record {
          agent_name = default_controller_agent_name;
          promote_filter_func = none;
          promote_func = λ _ w. w;
        };
      }) in
        ok (record {
          rec = record s.rec {
            promote_func = promote lister s.variables.promote_filter_func s.variables.promote_func;
          };
          client = client;
          agent_name = s.variables.agent_name;
        })
