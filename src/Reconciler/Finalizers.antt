-- ===== src/Reconciler/Finalizers.antt =====
-- The finalizer of the reconciler (reconciler.go: updateFinalizersFiltered,
-- setFinalizerIfFinalizer, clearFinalizer).
pub mod Changes
pub mod Stored
pub mod Sets
pub mod Refinement
use knative_serving_wasm.Prelude.{
  String, ◌==◌, not, Option, none, some, List, [], ◌∷◌, ◌++◌, Effect, Result, ok, err, is_some,
  if◌then◌else◌,
}
use knative_serving_wasm.Api.Types.{WasmModule}
use knative_serving_wasm.Platform.Types.{Platform, MergePatch, text, error}
use knative_serving_wasm.Platform.Http.{merge_patch}
use knative_serving_wasm.Client.{WasmModules, patch_module, zero_options}
use knative_serving_wasm.Reconciler.Types.{ReconcilerImpl}

-- `v1.EventTypeNormal` and `v1.EventTypeWarning` of k8s.io/api/core/v1.
abbrev pub event_type_normal : String
event_type_normal = "Normal"

abbrev pub event_type_warning : String
event_type_warning = "Warning"

module _ {Ctx Err S W : Type 0} (p : Platform Ctx Err S W) (r : ReconcilerImpl Ctx Err W) where
  open p use {errors, sets, rest, recorder, marshal, is_zero}

  -- The event of the patch's answer.
  unfoldable pub report_patch :
      WasmModule → (WasmModule × Option Err) × W → (WasmModule × Option Err) × W
  report_patch resource ((updated, some x), w) = (
    (updated, some x),
    recorder.eventf resource event_type_warning "FinalizerUpdateFailed"
        "Failed to update finalizers for %q: %v" (text resource.name ∷ error x ∷ []) w,
  )
  report_patch resource ((updated, none), w) = (
    (updated, none),
    recorder.eventf updated event_type_normal "FinalizerUpdate" "Updated %q finalizers"
        (text resource.name ∷ []) w,
  )

  -- The marshalled patch, sent and reported.
  unfoldable pub send_patch :
      Ctx → WasmModule → Result Err String → Effect W (WasmModule × Option Err)
  unfolding report_patch
  send_patch ctx resource (err x) w = ((resource, some x), w)
  send_patch ctx resource (ok patch) w = report_patch resource (
      patch_module (record { client = rest; ns = resource.namespace }) ctx resource.name merge_patch
        patch zero_options [] w)

  -- The part of `updateFinalizersFiltered` below the computation of the new finalizers.
  unfoldable pub patch_finalizers :
      Ctx → WasmModule → List String → Effect W (WasmModule × Option Err)
  unfolding send_patch
  patch_finalizers ctx resource finalizers w =
      send_patch ctx resource
        (marshal (record {
          finalizers = finalizers;
          resource_version = resource.object_meta.resource_version;
        }))
        w

  unfoldable pub update_finalizers_filtered :
      Ctx → WasmModule → S → Effect W (WasmModule × Option Err)
  unfolding patch_finalizers
  update_finalizers_filtered ctx resource desired_finalizers w =
      let existing_finalizers = sets.new resource.finalizers in
      if sets.has desired_finalizers r.finalizer_name
      then (if sets.has existing_finalizers r.finalizer_name
          then ((resource, none), w)
          else patch_finalizers ctx resource (resource.finalizers ++ (r.finalizer_name ∷ [])) w)
      else (if not (sets.has existing_finalizers r.finalizer_name)
          then ((resource, none), w)
          else patch_finalizers ctx resource
              (sets.to_list (sets.delete existing_finalizers r.finalizer_name)) w)

  unfoldable pub set_finalizer_if_finalizer : Ctx → WasmModule → Effect W (WasmModule × Option Err)
  set_finalizer_if_finalizer ctx resource w =
      if not (is_some r.reconciler.finalize_kind)
      then ((resource, none), w)
      else let finalizers = sets.new resource.finalizers in
        update_finalizers_filtered ctx resource
          (if is_zero resource.deletion_timestamp
            then sets.insert finalizers r.finalizer_name
            else finalizers)
          w

  -- The finalizers that `clearFinalizer` asks for, by the event of `FinalizeKind`.
  unfoldable pub finalizers_after : List String → Option Err → S
  finalizers_after existing reconcile_event =
      let finalizers = sets.new existing in
      elim reconcile_event [
        | none ↦ sets.delete finalizers r.finalizer_name
        | some x ↦ elim (errors.event_as x) [
          | none ↦ finalizers
          | some event ↦
              if event.event_type == event_type_normal
              then sets.delete finalizers r.finalizer_name
              else finalizers
        ]
      ]

  unfoldable pub clear_finalizer :
      Ctx → WasmModule → Option Err → Effect W (WasmModule × Option Err)
  clear_finalizer ctx resource reconcile_event w =
      if not (is_some r.reconciler.finalize_kind)
      then ((resource, none), w)
      else if is_zero resource.deletion_timestamp
      then ((resource, none), w)
      else update_finalizers_filtered ctx resource
          (finalizers_after resource.finalizers reconcile_event) w
