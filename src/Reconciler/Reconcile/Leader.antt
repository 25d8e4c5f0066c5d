-- ===== src/Reconciler/Reconcile/Leader.antt =====
-- `Reconcile` on the leader, for a live object: the finalizer, then the business logic.
use knative_serving_wasm.Prelude.{
  Option, some, none, String, ◌≡◌, ap, ◌∙◌, refl, Bool, true, not, ◌&&◌, [], ◌∷◌, ◌++◌, ok, arith,
  is_some, contains, if◌then◌else◌,
}
use knative_serving_wasm.Api.Types.{WasmModule}
use knative_serving_wasm.Platform.Types.{Platform}
use knative_serving_wasm.Platform.Laws.{SetsLaws}
use knative_serving_wasm.Lister.{wasm_modules, get_cached}
use knative_serving_wasm.Reconciler.Types.{ReconcilerImpl}
use knative_serving_wasm.Reconciler.State.{
  RunState, do_reconcile_kind, is_not_leader_nor_observer, reconcile_method_for,
}
use knative_serving_wasm.Reconciler.Finalizers.{patch_finalizers}
use knative_serving_wasm.Reconciler.Finalizers.Changes.{set_finalizer_if_finalizer_lem}
use knative_serving_wasm.Reconciler.Reconcile.{
  reconcile_resource, after_set, run_reconcile_kind, run_method, reconcile_found, decorate,
  reconcile,
}
use knative_serving_wasm.Reconciler.Reconcile.Roles.{or_fail, state_for, reconcile_proceeds}

module _ {Ctx Err S W : Type 0} (p : Platform Ctx Err S W) (r : ReconcilerImpl Ctx Err W) where
  -- A live object lacks the finalizer that this reconciler sets.
  abbrev pub lacks_finalizer : WasmModule → Bool
  lacks_finalizer o =
      is_some r.reconciler.finalize_kind && not (contains o.finalizers r.finalizer_name)

  -- The answer to the patch that sets the finalizer: its error, wrapped, or the business logic on the
  -- patched object.
  abbrev pub set_or_fail :
      RunState Ctx Err W → Ctx → WasmModule → (WasmModule × Option Err) × W → Option Err × W
  set_or_fail s c original =
      or_fail p r "failed to set finalizers"
        (reconcile_resource p r r.reconciler.reconcile_kind s c original)

  after_set-or_fail :
      (s : RunState Ctx Err W) (c : Ctx) (original : WasmModule)
      → (answer : (WasmModule × Option Err) × W)
      → after_set p r r.reconciler.reconcile_kind s c original answer
        ≡ set_or_fail s c original answer
  unfolding after_set
  after_set-or_fail s c original ((_, some x), w) = refl
  after_set-or_fail s c original ((resource, none), w) = refl

  method_leader :
      (s : RunState Ctx Err W) (original : WasmModule)
      → s.is_leader ≡ true
      → p.is_zero original.deletion_timestamp ≡ true
      → reconcile_method_for p s original ≡ do_reconcile_kind s.reconciler.reconcile_kind
  unfolding reconcile_method_for
  method_leader s original leads live = simp (live, leads)

  run_reconcile_kind-live :
      SetsLaws S p.sets
      → (s : RunState Ctx Err W) (c : Ctx) (original : WasmModule) (w : W)
      → p.is_zero original.deletion_timestamp ≡ true
      → run_reconcile_kind p r r.reconciler.reconcile_kind s c original w ≡ (
          if lacks_finalizer original
          then set_or_fail s c original
              (patch_finalizers p r c original (original.finalizers ++ (r.finalizer_name ∷ [])) w)
          else reconcile_resource p r r.reconciler.reconcile_kind s c original original w)
  unfolding run_reconcile_kind
  run_reconcile_kind-live laws s c original w live =
      ap (after_set p r r.reconciler.reconcile_kind s c original)
        (set_finalizer_if_finalizer_lem p laws r c original w)
      ∙ (after_set-or_fail s c original _ ∙ rw live (ground arith))

  module _ (laws : SetsLaws S p.sets) (ctx : Ctx) (key namespace name : String) (w : W)
      (split : p.split_meta_namespace_key key ≡ ok (namespace, name)) where
    -- The leader, on a live object of the cache: where the reconciler implements `Finalizer` and the
    -- object lacks its finalizer, that is patched first, and a failure of the patch ends the run with
    -- the wrapped error, before `ReconcileKind`; then, or at once where there is nothing to patch,
    -- the business logic runs, on the patched object if there is one.
    pub reconcile_leader :
        {original : WasmModule}
        → r.is_leader_for (record { namespace = namespace; name = name }) w ≡ true
        → get_cached p.errors (wasm_modules r.lister namespace) name w ≡ ok original
        → p.is_zero original.deletion_timestamp ≡ true
        → let s = state_for p r key namespace name true in
          let c = decorate p r ctx in
          reconcile p r ctx key w ≡ (
            if lacks_finalizer original
            then set_or_fail s c original
                (patch_finalizers p r c original (original.finalizers ++ (r.finalizer_name ∷ [])) w)
            else reconcile_resource p r r.reconciler.reconcile_kind s c original original w)
    unfolding is_not_leader_nor_observer reconcile_found run_method
    reconcile_leader {original} leads held live =
        reconcile_proceeds p r ctx key namespace name w split leads refl held
        ∙ rw (method_leader (state_for p r key namespace name true) original refl live)
            (run_reconcile_kind-live laws _ _ original w live)
