-- ===== src/Reconciler/State.antt =====
-- The state of one run (state.go).
pub mod Selection
use knative_serving_wasm.Prelude.{
  String, Bool, true, false, not, ◌&&◌, Option, none, some, Result, ok, err, is_some, if◌then◌else◌,
}
use knative_serving_wasm.Api.Types.{WasmModule}
use knative_serving_wasm.Platform.Types.{Platform}
use knative_serving_wasm.Reconciler.Types.{Interface, DoReconcile, ReconcilerImpl}

-- `state`; `roi` and `isROI` are one `Option`.
pub record RunState (Ctx Err W : Type 0) : Type 0 where
  pub key : String
  pub namespace : String
  pub name : String
  pub reconciler : Interface Ctx Err W
  pub roi : Option (DoReconcile Ctx Err W)
  pub is_leader : Bool

-- The pair of a method's name and the method that `reconcileMethodFor` returns.
pub data Method (Ctx Err W : Type 0) : Type 0 where
  do_reconcile_kind do_finalize_kind do_observe_kind : DoReconcile Ctx Err W → Method Ctx Err W
  unknown : Method Ctx Err W

unfoldable pub is_not_leader_nor_observer : {Ctx Err W : Type 0} → RunState Ctx Err W → Bool
is_not_leader_nor_observer s = if not s.is_leader && not (is_some s.roi) then true else false

module _ {Ctx Err S W : Type 0} (p : Platform Ctx Err S W) where
  unfoldable pub new_state : String → ReconcilerImpl Ctx Err W → W → Result Err (RunState Ctx Err W)
  new_state key r w = elim (p.split_meta_namespace_key key) [
    | err _ ↦ err (p.errors.errorf "invalid resource key: %s" key)
    | ok (namespace, name) ↦ ok (record {
      key = key;
      namespace = namespace;
      name = name;
      reconciler = r.reconciler;
      roi = r.reconciler.observe_kind;
      is_leader = r.is_leader_for (record { namespace = namespace; name = name }) w;
    })
  ]

  unfoldable pub reconcile_method_for : RunState Ctx Err W → WasmModule → Method Ctx Err W
  reconcile_method_for s o =
      if p.is_zero o.deletion_timestamp
      then (if s.is_leader
          then do_reconcile_kind s.reconciler.reconcile_kind
          else elim s.roi [ some observe_kind ↦ do_observe_kind observe_kind | none ↦ unknown ])
      else elim s.reconciler.finalize_kind [
        | some finalize_kind ↦ if s.is_leader then do_finalize_kind finalize_kind else unknown
        | none ↦ unknown
      ]
