-- ===== src/Controller/Construction/Defaults.antt =====
-- What the constructors make of their options.
use knative_serving_wasm.Prelude.{
  ◌≤◌, ◌<◌, ◌≡◌, refl, Bool, false, none, List, [], ◌∷◌, Result, ok, err, length, arith,
}
use knative_serving_wasm.Platform.Types.{NamespacedName}
use knative_serving_wasm.Lister.{WasmModuleLister}
use knative_serving_wasm.Reconciler.Types.{Interface}
use knative_serving_wasm.Controller.Options.{
  ControllerOptions, apply_option, apply_options, apply_impl_option, apply_impl_options,
}
use knative_serving_wasm.Controller.Promotion.{promote, promote_plain}
use knative_serving_wasm.Controller.Construction.{
  Constructed, Fatal, too_many_structs, too_many_functions, new_reconciler, new_impl,
}

-- Options that set neither promotion function, which `NewReconciler` does not read.
abbrev pub ArePlain : {Ctx W : Type 0} → List (ControllerOptions Ctx W) → Type 0
ArePlain [] = Unit
ArePlain (o ∷ os) = (o.promote_filter_func ≡ none) × (o.promote_func ≡ none) × ArePlain os

module _ {Ctx Err W C R : Type 0} (is_leader_for : NamespacedName → W → Bool) (client : C)
    (recorder : R) (lister : WasmModuleLister Err W) (r : Interface Ctx Err W) where
  -- The reconciler of `NewImpl`, with the recorder that `createRecorder` returns.
  abbrev pub impl_reconciler :
      List (ControllerOptions Ctx W) → Result Fatal (Constructed Ctx Err W C R)
  impl_reconciler options = elim (new_impl is_leader_for client lister r options) [
    | ok impl ↦ ok (record { rec = impl.rec; client = impl.client; recorder = recorder })
    | err message ↦ err message
  ]

  -- For at most one options struct, which sets neither promotion function, and a reconciler that
  -- does not implement `LeaderAware`, `NewImpl` and `NewReconciler` build the same reconciler, where
  -- `NewReconciler` is given the client of the context and the recorder that `createRecorder` returns
  -- in `NewImpl`: the two loops over the options do the same to it.
  pub new_impl-eq-new_reconciler :
      (options : List (ControllerOptions Ctx W))
      → length options ≤ 1
      → ArePlain options
      → impl_reconciler options
        ≡ new_reconciler is_leader_for client lister r recorder false options
  unfolding new_impl new_reconciler apply_options apply_option apply_impl_options apply_impl_option
      promote promote_plain
  new_impl-eq-new_reconciler [] fits plain = refl
  new_impl-eq-new_reconciler (o ∷ []) fits (filter, signal, _) = rw (filter, signal) refl
  new_impl-eq-new_reconciler (o ∷ o' ∷ os) fits plain = absurd (omega arith)

  -- Two options or more end the process, in both constructors; with fewer `NewImpl` succeeds.
  pub new_impl_fatal :
      (implements_leader_aware : Bool) (options : List (ControllerOptions Ctx W))
      → 1 < length options
      → (impl_reconciler options ≡ err (too_many_functions (length options)))
        × (new_reconciler is_leader_for client lister r recorder implements_leader_aware options
            ≡ err (too_many_structs (length options)))
  unfolding new_impl new_reconciler
  new_impl_fatal implements_leader_aware options many = (ground arith, ground arith)
