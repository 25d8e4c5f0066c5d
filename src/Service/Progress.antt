-- ===== src/Service/Progress.antt =====
-- The business logic under the generated reconciler: a run that ends in an update of the status.
use knative_serving_wasm.Prelude.{
  String, ◌≡◌, ap, ◌∙◌, refl, true, false, none, some, ok, arith, if◌then◌else◌,
}
use knative_serving_wasm.Api.Types.{WasmModule}
use knative_serving_wasm.Platform.Types.{Platform}
use knative_serving_wasm.Platform.Laws.{SetsLaws}
use knative_serving_wasm.Lister.{wasm_modules, get_cached}
use knative_serving_wasm.Reconciler.Types.{ReconcilerImpl}
use knative_serving_wasm.Reconciler.State.{RunState}
use knative_serving_wasm.Reconciler.Status.{update_status}
use knative_serving_wasm.Reconciler.Report.{write_status, report, finish}
use knative_serving_wasm.Reconciler.Report.Outcome.{sync_status_lem, finish_synced}
use knative_serving_wasm.Reconciler.Reconcile.{reconcile_resource, decorate, reconcile}
use knative_serving_wasm.Reconciler.Reconcile.Roles.{state_for}
use knative_serving_wasm.Reconciler.Reconcile.Leader.{reconcile_leader}
use knative_serving_wasm.Service.{
  Services, reference_to, unavailable, available, after_lookup, after_track, reconcile_kind,
  interface,
}
use knative_serving_wasm.Service.Steady.{over}

module _ {Ctx Err S W : Type 0} (p : Platform Ctx Err S W) (r : ReconcilerImpl Ctx Err W)
    (services : Services Err W) (ctx : Ctx) where
  -- The context of a run, the object that `ReconcileKind` is given, and the object that it leaves
  -- where the Service exists, after the post-processing.
  abbrev pub run_context : Ctx
  run_context = decorate p (over r services) ctx

  abbrev pub prepared : WasmModule → WasmModule
  prepared original = p.pre_process_reconcile run_context original

  -- What the post-processing makes of the object that `ReconcileKind` leaves.
  abbrev pub processed : WasmModule → WasmModule → W → WasmModule
  processed original left w₁ = p.post_process_reconcile run_context left original w₁

  abbrev pub marked_ready : WasmModule → W → WasmModule
  marked_ready original w₁ = processed original (available services (prepared original) w₁) w₁

  abbrev pub marked_unready : WasmModule → W → WasmModule
  marked_unready original w₁ = processed original (unavailable services (prepared original) w₁) w₁

  -- A run of `ReconcileKind` that returns nil.
  abbrev pub Leaves : WasmModule → W → WasmModule → W → Type 0
  Leaves original w left w₁ =
      (c : Ctx) → reconcile_kind services c (prepared original) w ≡ ((none, left), w₁)

  module _ (original left : WasmModule) (w w₁ : W) (leaves : Leaves original w left w₁)
      (syncs : r.skip_status_updates ≡ false) where
    abbrev result : WasmModule
    result = processed original left w₁

    reconcile_resource_left :
        (s : RunState Ctx Err W)
        → reconcile_resource p
            (over r services)
            (reconcile_kind services)
            s
            run_context
            original
            original
            w
          ≡ finish p (over r services) s run_context original result none w₁
    unfolding reconcile_resource
    reconcile_resource_left s =
        let c = run_context in
        let before : (if r.skip_status_updates
              then original
              else p.pre_process_reconcile c original)
            ≡ (prepared original) =
          ground arith in
        let after : (if r.skip_status_updates
              then left
              else p.post_process_reconcile c left original w₁)
            ≡ result =
          ground arith in
        rw (before, leaves c, after) refl

    written_status :
        (w₂ : W)
        → update_status p run_context result original w₁ ≡ (none, w₂)
        → write_status p run_context original result w₁ ≡ (none, w₂)
    unfolding write_status
    written_status w₂ h = ground arith

    finish_left :
        (s : RunState Ctx Err W) (w₂ : W)
        → s.is_leader ≡ true
        → p.deep_equal original.status result.status ≡ false
        → update_status p run_context result original w₁ ≡ (none, w₂)
        → finish p (over r services) s run_context original result none w₁ ≡ (none, w₂)
    unfolding report decorate
    finish_left s w₂ leads changed written =
        finish_synced p (over r services) s run_context original result none w₁ w₂ (
          sync_status_lem p (over r services) s run_context original result w₁
          ∙ simp (leads, syncs, changed) (written_status w₂ written))

    -- The leader, on a live object of the cache on which `ReconcileKind` returns nil, with status
    -- updates not skipped: if the object that it leaves, after the post-processing, differs in its
    -- status from the cached one, and the update to that status succeeds, the run ends well with that
    -- update as its last effect. No finalizer is set, and no event is recorded.
    pub reconcile_left :
        SetsLaws S p.sets
        → (key namespace name : String) (w₂ : W)
        → p.split_meta_namespace_key key ≡ ok (namespace, name)
        → r.is_leader_for (record { namespace = namespace; name = name }) w ≡ true
        → get_cached p.errors (wasm_modules r.lister namespace) name w ≡ ok original
        → p.is_zero original.deletion_timestamp ≡ true
        → p.deep_equal original.status result.status ≡ false
        → update_status p run_context result original w₁ ≡ (none, w₂)
        → reconcile p (over r services) ctx key w ≡ (none, w₂)
    unfolding interface
    reconcile_left laws key namespace name w₂ split leads held live changed written =
        let s = state_for p (over r services) key namespace name true in
        reconcile_leader p (over r services) laws ctx key namespace name w split leads held live
        ∙ (reconcile_resource_left s ∙ finish_left s w₂ refl changed written)

  module _ (original : WasmModule) (w w₁ : W)
      (tracked : services.track_reference
          (reference_to services (prepared original))
          (prepared original)
          w
        ≡ (none, w₁)) where
    -- Where the Service exists.
    pub available-Leaves :
        services.get_service (prepared original).namespace (prepared original).spec.service_name w₁
          ≡ none
        → Leaves original w (available services (prepared original) w₁) w₁
    unfolding reconcile_kind after_track after_lookup
    available-Leaves found c = ap (after_track services (prepared original)) tracked ∙ rw found refl

    -- Where the lister does not find it.
    pub unavailable-Leaves :
        {x : Err}
        → services.get_service
            (prepared original).namespace
            (prepared original).spec.service_name
            w₁
          ≡ some x
        → services.errors.is_not_found x ≡ true
        → Leaves original w (unavailable services (prepared original) w₁) w₁
    unfolding reconcile_kind after_track after_lookup
    unavailable-Leaves unfound not_found c =
        ap (after_track services (prepared original)) tracked ∙ rw unfound (rw not_found refl)
