-- ===== src/Reconciler/Reconcile/Released.antt =====
-- `Reconcile` on the leader, for a deleted object: what the API server stores after it.
use knative_serving_wasm.Prelude.{
  String, ◌==◌, ◌≡◌, ap, ◌∙◌, inl, true, false, none, some, List, ok, contains, if◌then◌else◌,
}
use knative_serving_wasm.Api.Types.{WasmModule}
use knative_serving_wasm.Platform.Types.{Platform}
use knative_serving_wasm.Platform.Laws.{SetsLaws, IsReflexive}
use knative_serving_wasm.Lister.{wasm_modules, get_cached}
use knative_serving_wasm.Server.{ApiServer, FinalizersSet, remains}
use knative_serving_wasm.Reconciler.Types.{DoReconcile, ReconcilerImpl}
use knative_serving_wasm.Reconciler.Finalizers.Stored.{
  RecorderKeeps, kept_held, patch_finalizers-Patched,
}
use knative_serving_wasm.Reconciler.Reconcile.{decorate, reconcile}
use knative_serving_wasm.Reconciler.Reconcile.Roles.{state_for}
use knative_serving_wasm.Reconciler.Reconcile.Deletion.{clear_or_fail, reconcile_deleted}
use knative_serving_wasm.Reconciler.Reconcile.Unchanged.{finish_unchanged}

module _ {Ctx Err S W : Type 0} (p : Platform Ctx Err S W)
    (server : ApiServer p.errors p.rest p.marshal p.is_zero) (keeps : RecorderKeeps p server)
    (r : ReconcilerImpl Ctx Err W) (ctx : Ctx) where
  -- The leader, on a deleted object of the cache that is what the server stores and holds the
  -- finalizer: if `FinalizeKind` returns nil and leaves the object as it is, the run ends well. Its
  -- patch takes the finalizer, keeps every other one, and changes nothing else but the version. The
  -- patched object is what the server stores then, or nothing is, where no finalizer is left.
  pub reconcile_deleted-FinalizersSet :
      (sets : SetsLaws S p.sets) (same : IsReflexive p.deep_equal) (key namespace name : String)
      (original : WasmModule) (w : W) {f : DoReconcile Ctx Err W} {w₁ : W}
      → p.split_meta_namespace_key key ≡ ok (namespace, name)
      → r.is_leader_for (record { namespace = namespace; name = name }) w ≡ true
      → get_cached p.errors (wasm_modules r.lister namespace) name w ≡ ok original
      → p.is_zero original.deletion_timestamp ≡ false
      → r.reconciler.finalize_kind ≡ some f
      → f (decorate p r ctx) original w ≡ ((none, original), w₁)
      → contains original.finalizers r.finalizer_name ≡ true
      → server.stored original.namespace original.name w₁ ≡ some original
      → (kept : List String) × ((x : String)
          → contains kept x
            ≡ (if r.finalizer_name == x then false else contains original.finalizers x))
        × (m' : WasmModule) × (w₂ : W) × (reconcile p r ctx key w ≡ (none, w₂))
        × (server.stored original.namespace original.name w₂ ≡ remains m')
        × FinalizersSet kept original m'
  reconcile_deleted-FinalizersSet sets same key namespace name original w {f} {w₁} split leads
        cached gone finalizes ran holds stored =
      let s = state_for p r key namespace name true in
      let c = decorate p r ctx in
      let (kept, others, run) =
        reconcile_deleted p r ctx key namespace name w split leads original cached gone sets
          finalizes ran gone in
      let (m', w₂, patched, stored', set) =
        patch_finalizers-Patched p server keeps r c original kept w₁ stored (λ x there.
          inl (kept_held r.finalizer_name original.finalizers kept x (others x) there)) in
      (
        kept,
        others,
        m',
        w₂,
        run
            ∙ rw holds (
                ap (clear_or_fail p r s c original none) patched
                ∙ finish_unchanged p same r s c original m' w₂ set.same_status),
        stored',
        set,
      )
