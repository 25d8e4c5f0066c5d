-- ===== src/Reconciler/Reconcile/Deletion.antt =====
-- `Reconcile` on the leader, for a deleted object: finalization.
use knative_serving_wasm.Prelude.{
  String, ◌==◌, ◌≡◌, ap, ◌∙◌, refl, true, false, ◌&&◌, Option, none, some, List, ok, arith,
  contains, if◌then◌else◌,
}
use knative_serving_wasm.Api.Types.{WasmModule}
use knative_serving_wasm.Platform.Types.{Platform}
use knative_serving_wasm.Platform.Laws.{SetsLaws, IsReflexive}
use knative_serving_wasm.Lister.{wasm_modules, get_cached}
use knative_serving_wasm.Reconciler.Types.{DoReconcile, ReconcilerImpl}
use knative_serving_wasm.Reconciler.State.{
  RunState, do_finalize_kind, unknown, is_not_leader_nor_observer, reconcile_method_for,
}
use knative_serving_wasm.Reconciler.Finalizers.{patch_finalizers}
use knative_serving_wasm.Reconciler.Finalizers.Changes.{is_clean, clear_finalizer_lem}
use knative_serving_wasm.Reconciler.Status.{update_status}
use knative_serving_wasm.Reconciler.Report.{write_status, sync_status, report, finish}
use knative_serving_wasm.Reconciler.Report.Outcome.{sync_status_lem, finish_synced}
use knative_serving_wasm.Reconciler.Reconcile.{
  after_clear, run_finalize_kind, run_method, reconcile_found, decorate, reconcile,
}
use knative_serving_wasm.Reconciler.Reconcile.Roles.{or_fail, state_for, reconcile_proceeds}

module _ {Ctx Err S W : Type 0} (p : Platform Ctx Err S W) (r : ReconcilerImpl Ctx Err W) where
  method_plain :
      (s : RunState Ctx Err W) (original : WasmModule)
      → p.is_zero original.deletion_timestamp ≡ false
      → s.reconciler.finalize_kind ≡ none
      → reconcile_method_for p s original ≡ unknown
  unfolding reconcile_method_for
  method_plain s original gone plain = simp (gone, plain)

  method_finalizer :
      (s : RunState Ctx Err W) (original : WasmModule) {f : DoReconcile Ctx Err W}
      → p.is_zero original.deletion_timestamp ≡ false
      → s.is_leader ≡ true
      → s.reconciler.finalize_kind ≡ some f
      → reconcile_method_for p s original ≡ do_finalize_kind f
  unfolding reconcile_method_for
  method_finalizer s original gone leads finalizes = simp (gone, leads, finalizes)

  -- The answer to the patch that clears the finalizer: its error, wrapped, or the end of the run on
  -- the patched object.
  abbrev pub clear_or_fail :
      RunState Ctx Err W
      → Ctx
      → WasmModule
      → Option Err
      → (WasmModule × Option Err) × W
      → Option Err × W
  clear_or_fail s c original event =
      or_fail p r "failed to clear finalizers" (λ resource. finish p r s c original resource event)

  after_clear-or_fail :
      (s : RunState Ctx Err W) (c : Ctx) (original : WasmModule) (event : Option Err)
      → (answer : (WasmModule × Option Err) × W)
      → after_clear p r s c original event answer ≡ clear_or_fail s c original event answer
  unfolding after_clear
  after_clear-or_fail s c original event ((_, some x), w) = refl
  after_clear-or_fail s c original event ((resource, none), w) = refl

  written_lem :
      (c : Ctx) (original finalized : WasmModule) (w w' : W)
      → update_status p c finalized original w ≡ (none, w')
      → write_status p c original finalized w ≡ (none, w')
  unfolding write_status
  written_lem c original finalized w w' h = ground arith

  module _ (ctx : Ctx) (key namespace name : String) (w : W)
      (split : p.split_meta_namespace_key key ≡ ok (namespace, name))
      (leads : r.is_leader_for (record { namespace = namespace; name = name }) w ≡ true)
      (original : WasmModule)
      (held : get_cached p.errors (wasm_modules r.lister namespace) name w ≡ ok original)
      (gone : p.is_zero original.deletion_timestamp ≡ false) where
    -- The leader leaves a deleted object alone where its reconciler does not implement `Finalizer`:
    -- the run ends well with no effect.
    pub reconcile_deleted_plain :
        IsReflexive p.deep_equal
        → r.reconciler.finalize_kind ≡ none
        → reconcile p r ctx key w ≡ (none, w)
    unfolding is_not_leader_nor_observer reconcile_found run_method finish report sync_status
    reconcile_deleted_plain same plain =
        reconcile_proceeds p r ctx key namespace name w split leads refl held
        ∙ rw (method_plain (state_for p r key namespace name true) original gone plain)
            (ground (arith, same original.status))

    -- The leader, on a deleted object of the cache, where the reconciler implements `Finalizer` and
    -- `FinalizeKind` leaves the object deleted: `FinalizeKind` runs first. If it returned nil or a
    -- normal event and the object that it left holds the finalizer, the finalizers are patched to
    -- all others of that object, and a failure of the patch ends the run with the wrapped error. In
    -- all other cases nothing is patched. Then the status is synchronized and the event reported.
    pub reconcile_deleted :
        SetsLaws S p.sets
        → {f : DoReconcile Ctx Err W} {event : Option Err} {finalized : WasmModule} {w₁ : W}
        → r.reconciler.finalize_kind ≡ some f
        → f (decorate p r ctx) original w ≡ ((event, finalized), w₁)
        → p.is_zero finalized.deletion_timestamp ≡ false
        → let s = state_for p r key namespace name true in
          let c = decorate p r ctx in
          (kept : List String) × ((x : String)
            → contains kept x
              ≡ (if r.finalizer_name == x then false else contains finalized.finalizers x))
          × (reconcile p r ctx key w ≡ (
              if is_clean p.errors event && contains finalized.finalizers r.finalizer_name
              then clear_or_fail s c original event (patch_finalizers p r c finalized kept w₁)
              else finish p r s c original finalized event w₁))
    unfolding is_not_leader_nor_observer reconcile_found run_method run_finalize_kind
    reconcile_deleted laws {f} {event} {finalized} {w₁} finalizes ran still =
        let s = state_for p r key namespace name true in
        let c = decorate p r ctx in
        let (kept, others, cleared) = clear_finalizer_lem p laws r c finalized event w₁ in
        (
          kept,
          others,
          reconcile_proceeds p r ctx key namespace name w split leads refl held
              ∙ rw (method_finalizer s original gone refl finalizes) (
                  rw ran (
                    ap (after_clear p r s c original event) cleared
                    ∙ (after_clear-or_fail s c original event _
                        ∙ rw (still, finalizes) (ground arith)))),
        )

    -- The leader, on a deleted object of the cache, where `FinalizeKind` fails and leaves the object
    -- deleted and with another status: unless status updates are skipped, the status is written all
    -- the same, by `updateStatus` with the object that `FinalizeKind` left as the desired one, and
    -- where that succeeds the run ends with the report of the failure.
    pub reconcile_finalize_failed :
        SetsLaws S p.sets
        → {f : DoReconcile Ctx Err W} {event : Option Err} {finalized : WasmModule} {w₁ w₂ : W}
        → r.reconciler.finalize_kind ≡ some f
        → f (decorate p r ctx) original w ≡ ((event, finalized), w₁)
        → p.is_zero finalized.deletion_timestamp ≡ false
        → is_clean p.errors event ≡ false
        → r.skip_status_updates ≡ false
        → p.deep_equal original.status finalized.status ≡ false
        → update_status p (decorate p r ctx) finalized original w₁ ≡ (none, w₂)
        → reconcile p r ctx key w ≡ report p finalized event w₂
    unfolding finish
    reconcile_finalize_failed laws {event} {finalized} {w₁} {w₂} finalizes ran still failed syncs
          changed written =
        let s = state_for p r key namespace name true in
        let c = decorate p r ctx in
        (reconcile_deleted laws finalizes ran still).2
        ∙ rw failed (
            finish_synced p r s c original finalized event w₁ w₂ (
              sync_status_lem p r s c original finalized w₁
              ∙ simp (syncs, changed) (written_lem c original finalized w₁ w₂ written)))
