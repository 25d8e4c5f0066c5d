-- ===== src/Reconciler/Effects/Parts.antt =====
-- The effects of the parts of `Reconcile`: the update of the status, the events, the finalizer.
use knative_serving_wasm.Prelude.{
  ℕ, ◌≡◌, ap, refl, inl, inr, Bool, true, not, ◌&&◌, Option, none, some, List, [], ◌∷◌, ◌++◌,
  Result, ok, err, Bool-cases, Option-cases, is_some, contains, contains-append, arith, String,
}
use knative_serving_wasm.Api.Types.{WasmModule}
use knative_serving_wasm.Platform.Types.{Platform}
use knative_serving_wasm.Platform.Laws.{SetsLaws, RetriesConflicts}
use knative_serving_wasm.Client
use knative_serving_wasm.Reconciler.Types.{ReconcilerImpl}
use knative_serving_wasm.Reconciler.State.{RunState}
use knative_serving_wasm.Reconciler.Finalizers.{
  report_patch, send_patch, patch_finalizers, set_finalizer_if_finalizer, clear_finalizer,
}
use knative_serving_wasm.Reconciler.Finalizers.Changes.{
  is_clean, set_finalizer_if_finalizer_lem, clear_finalizer_lem,
}
use knative_serving_wasm.Reconciler.Status.{update_status}
use knative_serving_wasm.Reconciler.Status.Writes
use knative_serving_wasm.Reconciler.Status.Writes.{Steps, update_status-Steps}
use knative_serving_wasm.Reconciler.Report.{write_status, sync_status, report, finish}
use knative_serving_wasm.Reconciler.Report.Outcome.{sync_status_lem, finish_failed, finish_synced}
use knative_serving_wasm.Reconciler.Effects.{
  SameBut, AtHand, answered, with_status, Act, Acts, here, next, read, put_status, patch_finalizer,
  record_event, record_eventf, Acts-append, Act-Acts, Acts-if,
}

and_left : (a b : Bool) → (a && b) ≡ true → a ≡ true
and_left a b h = ground arith

module _ {Ctx Err S W : Type 0} (p : Platform Ctx Err S W) (r : ReconcilerImpl Ctx Err W)
    (cached : WasmModule → Type 0) where
  module _ (law : RetriesConflicts p) (ctx : Ctx) (desired : WasmModule) where
    Step-Act :
        {m : WasmModule} {w w' : W} {m' : WasmModule}
        → Writes.Step p ctx desired m w m' w'
        → AtHand p r cached m
        → Act p r cached true w w' × AtHand p r cached m'
    unfolding Client.get_module Client.update_status
    Step-Act (Writes.fetch m w) at = (
      read ctx desired.namespace desired.name w refl,
      answered ctx desired.namespace desired.name w,
    )
    Step-Act (Writes.put m w) at =
        let changed = with_status m desired.status at in
        (put_status ctx (Writes.with_status m desired) w refl changed, changed)

    Steps-Acts :
        {n : ℕ} {m m' : WasmModule} {w w' : W}
        → Steps p ctx desired n m w m' w'
        → AtHand p r cached m
        → Acts p r cached true w w' × AtHand p r cached m'
    Steps-Acts Writes.here at = (here, at)
    Steps-Acts (Writes.next s a) at =
        let (acts, between) = Steps-Acts s at in
        let (act, after) = Step-Act a between in (next acts act, after)

    update_status-Acts :
        (existing : WasmModule) (w : W)
        → AtHand p r cached existing
        → Acts p r cached true w (update_status p ctx desired existing w).1
    update_status-Acts existing w at =
        (Steps-Acts (update_status-Steps p ctx desired law existing w).3 at).0

    write_status-Acts :
        (original : WasmModule) (w : W)
        → AtHand p r cached original
        → Acts p r cached true w (write_status p ctx original desired w).1
    unfolding write_status
    write_status-Acts original w at =
        elim (Option-cases (update_status p ctx desired original w).0) [
          | inl e ↦ rw (e, write_status) (update_status-Acts original w at)
          | inr (x, e) ↦
              rw (e, write_status)
                (next (update_status-Acts original w at) (record_eventf desired _ _ _ _ _))
        ]

  report-Acts :
      (leads : Bool) (resource : WasmModule) (event : Option Err) (w : W)
      → Acts p r cached leads w (report p resource event w).1
  unfolding report
  report-Acts leads resource none w = here
  report-Acts leads resource (some x) w = elim (Option-cases (p.errors.event_as x)) [
    | inr (event, e) ↦ rw (e, report) (Act-Acts p r cached leads (record_event resource _ _ _ w))
    | inl e ↦ elim (Bool-cases (p.errors.is_skip_key x)) [
      | inl skips ↦ rw (e, skips, report) here
      | inr other ↦ elim (Bool-cases (p.errors.is_requeue_key x)) [
        | inl requeues ↦ rw (e, other, requeues, report) here
        | inr plain ↦
            rw (e, other, plain, report) (Act-Acts p r cached leads (record_event resource _ _ _ w))
      ]
    ]
  ]

  module _ (law : RetriesConflicts p) (ctx : Ctx) (original resource : WasmModule)
      (at : AtHand p r cached original) (s : RunState Ctx Err W) where
    sync_status-Acts :
        (w : W) → Acts p r cached s.is_leader w (sync_status p r s ctx original resource w).1
    sync_status-Acts w = elim (Bool-cases s.is_leader) [
      | inl leads ↦
          rw (sync_status_lem p r s ctx original resource w, leads)
            (Acts-if p r cached true
              (not r.skip_status_updates && not (p.deep_equal original.status resource.status)) _ _
              (λ _. write_status-Acts law ctx resource original w at) here)
      | inr follows ↦ rw (sync_status_lem p r s ctx original resource w, follows) here
    ]

    pub finish-Acts :
        (event : Option Err) (w : W)
        → Acts p r cached s.is_leader w (finish p r s ctx original resource event w).1
    finish-Acts event w =
        let synced = sync_status p r s ctx original resource w in
        elim (Option-cases synced.0) [
          | inl e ↦
              rw
                (finish_synced p r s ctx original resource event w synced.1
                  (ap (λ o. (o, synced.1)) e))
                (Acts-append p r cached s.is_leader (sync_status-Acts w)
                  (report-Acts s.is_leader resource event synced.1))
          | inr (x, e) ↦
              rw
                (finish_failed p r s ctx original resource event w synced.1
                  (ap (λ o. (o, synced.1)) e))
                (sync_status-Acts w)
        ]

  module _ (ctx : Ctx) (resource : WasmModule) (at : AtHand p r cached resource) where
    report_patch-Acts :
        (w : W) (a : (WasmModule × Option Err) × W)
        → Acts p r cached true w a.1
        → Acts p r cached true w (report_patch p r resource a).1
    unfolding report_patch
    report_patch-Acts w ((updated, some x), w') h = next h (record_eventf resource _ _ _ _ w')
    report_patch-Acts w ((updated, none), w') h = next h (record_eventf updated _ _ _ _ w')

    module _ (finalizers : List String)
        (own : SameBut r.finalizer_name resource.finalizers finalizers)
        (finalizes : is_some r.reconciler.finalize_kind ≡ true) where
      send_patch-Acts :
          (a : Result Err String) (w : W)
          → p.marshal (record {
            finalizers = finalizers;
            resource_version = resource.object_meta.resource_version;
          })
            ≡ a
          → Acts p r cached true w (send_patch p r ctx resource a w).1
      unfolding send_patch Client.patch_module
      send_patch-Acts (err x) w e = here
      send_patch-Acts (ok bytes) w e = report_patch-Acts w _ (
          Act-Acts p r cached true
            (patch_finalizer ctx resource finalizers bytes w refl finalizes at own e))

      patch_finalizers-Acts :
          (w : W) → Acts p r cached true w (patch_finalizers p r ctx resource finalizers w).1
      unfolding patch_finalizers
      patch_finalizers-Acts w = send_patch-Acts _ w refl

    SameBut-append :
        SameBut r.finalizer_name resource.finalizers
          (resource.finalizers ++ (r.finalizer_name ∷ []))
    SameBut-append x other =
        ground (arith, other, contains-append resource.finalizers (r.finalizer_name ∷ []) x)

    pub set_finalizer-Acts :
        (laws : SetsLaws S p.sets) (w : W)
        → Acts p r cached true w (set_finalizer_if_finalizer p r ctx resource w).1
    set_finalizer-Acts laws w = rw (set_finalizer_if_finalizer_lem p laws r ctx resource w) (
        Acts-if p r cached true
          (is_some r.reconciler.finalize_kind
            && (p.is_zero resource.deletion_timestamp
                && not (contains resource.finalizers r.finalizer_name)))
          _ _ (λ h. patch_finalizers-Acts _ SameBut-append (and_left _ _ h) w) here)

    pub clear_finalizer-Acts :
        (laws : SetsLaws S p.sets) (event : Option Err) (w : W)
        → Acts p r cached true w (clear_finalizer p r ctx resource event w).1
    clear_finalizer-Acts laws event w =
        let (kept, contains-kept, cleared) = clear_finalizer_lem p laws r ctx resource event w in
        rw cleared (
          Acts-if p r cached true
            (is_some r.reconciler.finalize_kind
              && (not (p.is_zero resource.deletion_timestamp)
                  && (is_clean p.errors event && contains resource.finalizers r.finalizer_name)))
            _ _
            (λ h.
              patch_finalizers-Acts kept (λ x other. rw other at (contains-kept x)) (and_left _ _ h)
                w)
            here)
