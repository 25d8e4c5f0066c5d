-- ===== src/Reconciler/Effects/Run.antt =====
-- The effects of a whole run: what a replica sends and calls, by its role.
use knative_serving_wasm.Prelude.{
  String, ◌≡◌, refl, inl, inr, Bool, true, false, Option, none, some, Result, ok, err, Bool-cases,
  Option-cases, Result-cases,
}
use knative_serving_wasm.Api.Types.{WasmModule}
use knative_serving_wasm.Platform.Types.{Platform}
use knative_serving_wasm.Platform.Laws.{SetsLaws, RetriesConflicts}
use knative_serving_wasm.Lister.{wasm_modules, get_cached}
use knative_serving_wasm.Reconciler.Types.{DoReconcile, ReconcilerImpl}
use knative_serving_wasm.Reconciler.State.{
  RunState, Method, do_reconcile_kind, do_finalize_kind, do_observe_kind, unknown, new_state,
  is_not_leader_nor_observer,
}
use knative_serving_wasm.Reconciler.State.Selection.{Selected, reconcile_method_for-Selected}
use knative_serving_wasm.Reconciler.Reconcile.{
  reconcile_resource, after_set, run_reconcile_kind, after_clear, run_finalize_kind, run_method,
  reconcile_found, reconcile_cached, decorate, reconcile_state, reconcile,
}
use knative_serving_wasm.Reconciler.Reconcile.Roles.{state_for}
use knative_serving_wasm.Reconciler.Effects.{
  AtHand, in_cache, finalized, Acts, here, reconcile_kind, finalize_kind, observe_kind,
  observe_deletion, Acts-append, Act-Acts,
}
use knative_serving_wasm.Reconciler.Effects.Parts.{
  finish-Acts, set_finalizer-Acts, clear_finalizer-Acts,
}

module _ {Ctx Err S W : Type 0} (p : Platform Ctx Err S W) (r : ReconcilerImpl Ctx Err W) where
  -- Whether the replica leads for a key.
  abbrev pub leads_for : String → W → Bool
  leads_for key w = elim (p.split_meta_namespace_key key) [
    | ok (namespace, name) ↦ r.is_leader_for (record { namespace = namespace; name = name }) w
    | err _ ↦ false
  ]

  -- What the cache holds under a name, and for a key.
  abbrev pub Cached : String → String → W → WasmModule → Type 0
  Cached namespace name w o = get_cached p.errors (wasm_modules r.lister namespace) name w ≡ ok o

  abbrev pub CachedFor : String → W → WasmModule → Type 0
  CachedFor key w o = elim (p.split_meta_namespace_key key) [
    | ok (namespace, name) ↦ Cached namespace name w o
    | err _ ↦ ⊥
  ]

  module _ (law : RetriesConflicts p) (laws : SetsLaws S p.sets) (key namespace name : String) where
    abbrev state : Bool → RunState Ctx Err W
    state = state_for p r key namespace name

    module _ (cached : WasmModule → Type 0) (ctx : Ctx) (original : WasmModule)
        (held : cached original) where
      abbrev at : AtHand p r cached original
      at = in_cache original held

      reconcile_resource-Acts :
          (resource : WasmModule) (w : W)
          → Acts p r cached true w
              (reconcile_resource p r r.reconciler.reconcile_kind
                (state true)
                ctx
                original
                resource
                w).1
      unfolding reconcile_resource
      reconcile_resource-Acts resource w =
          Acts-append p r cached true (Act-Acts p r cached true (reconcile_kind ctx _ w refl))
            (finish-Acts p r cached law ctx original _ at (state true) _ _)

      after_set-Acts :
          (w : W) (a : (WasmModule × Option Err) × W)
          → Acts p r cached true w a.1
          → Acts p r cached true w
              (after_set p r r.reconciler.reconcile_kind (state true) ctx original a).1
      unfolding after_set
      after_set-Acts w ((resource, some x), w₁) h = h
      after_set-Acts w ((resource, none), w₁) h =
          Acts-append p r cached true h (reconcile_resource-Acts resource w₁)

      after_clear-Acts :
          (w : W) (event : Option Err) (a : (WasmModule × Option Err) × W)
          → Acts p r cached true w a.1
          → Acts p r cached true w (after_clear p r (state true) ctx original event a).1
      unfolding after_clear
      after_clear-Acts w event ((resource, some x), w₁) h = h
      after_clear-Acts w event ((resource, none), w₁) h =
          Acts-append p r cached true h
            (finish-Acts p r cached law ctx original resource at (state true) event w₁)

      run_finalize_kind-Acts :
          (f : DoReconcile Ctx Err W) (w : W)
          → r.reconciler.finalize_kind ≡ some f
          → Acts p r cached true w (run_finalize_kind p r f (state true) ctx original w).1
      unfolding run_finalize_kind
      run_finalize_kind-Acts f w finalizes = after_clear-Acts w _ _ (
          Acts-append p r cached true
            (Act-Acts p r cached true (finalize_kind f ctx original w finalizes refl at))
            (clear_finalizer-Acts p r cached ctx _ (finalized f ctx original w finalizes at) laws _
              _))

      run_method-Acts :
          (leads : Bool) (m : Method Ctx Err W) (w : W)
          → Selected p (state leads) original m
          → Acts p r cached leads w (run_method p r m (state leads) ctx original w).1
      unfolding run_method run_reconcile_kind
      run_method-Acts true (do_reconcile_kind f) w (same, _, _) =
          rw same (after_set-Acts w _ (set_finalizer-Acts p r cached ctx original at laws w))
      run_method-Acts true (do_finalize_kind f) w (finalizes, _, _) =
          run_finalize_kind-Acts f w finalizes
      run_method-Acts false (do_observe_kind f) w (observes, _, _) =
          Acts-append p r cached false
            (Act-Acts p r cached false (observe_kind f ctx original w observes refl at))
            (finish-Acts p r cached law ctx original _ at (state false) _ _)
      run_method-Acts leads unknown w _ =
          finish-Acts p r cached law ctx original original at (state leads) none w
      run_method-Acts false (do_reconcile_kind f) w (_, leads, _) = absurd (cc)
      run_method-Acts false (do_finalize_kind f) w (_, leads, _) = absurd (cc)
      run_method-Acts true (do_observe_kind f) w (_, follows, _) = absurd (cc)

    module _ (cached : WasmModule → Type 0) (ctx : Ctx) (leads : Bool) (w : W) where
      reconcile_cached-Acts :
          (a : Result Err WasmModule)
          → ((o : WasmModule) → a ≡ ok o → cached o)
          → Acts p r cached leads w (reconcile_cached p r (state leads) ctx a w).1
      unfolding reconcile_cached reconcile_found
      reconcile_cached-Acts (ok original) found =
          run_method-Acts cached ctx original (found original refl) leads _ w
            (reconcile_method_for-Selected p (state leads) original)
      reconcile_cached-Acts (err x) _ = elim (Bool-cases (p.errors.is_not_found x)) [
        | inr other ↦ rw (other, reconcile_cached) here
        | inl gone ↦ elim (Option-cases r.reconciler.observe_deletion) [
          | inl blind ↦ rw (gone, blind, reconcile_cached) here
          | inr (f, observes) ↦
              simp (gone, observes)
                (Act-Acts p r cached leads (observe_deletion f ctx _ w observes))
        ]
      ]

    reconcile_works-Acts :
        (ctx : Ctx) (leads : Bool) (w : W)
        → Acts p r
            (Cached namespace name w)
            leads
            w
            (reconcile_state p r key ctx (ok (state leads)) w).1
    unfolding reconcile_state
    reconcile_works-Acts ctx leads w =
        elim (Bool-cases (is_not_leader_nor_observer (state leads))) [
          | inl idle ↦ rw (idle, reconcile_state) here
          | inr works ↦
              rw (works, reconcile_state)
                (reconcile_cached-Acts (Cached namespace name w) (decorate p r ctx) leads w
                  (get_cached p.errors (wasm_modules r.lister namespace) name w) (λ _ e. e))
        ]

  -- A run, whatever the key, the cache, the answers of the server and the user's methods do, is a
  -- chain of these effects (`Acts`) and no others: events; on a replica that leads for the key, reads
  -- of single objects, updates of the status of an object at hand, merge patches of finalizers that
  -- differ from those of an object at hand at most in the reconciler's own, calls of `FinalizeKind` on
  -- one, and calls of `ReconcileKind`; on another replica, calls of `ObserveKind` on an object at hand;
  -- on both, calls of `ObserveDeletion`. At hand (`AtHand`) is the object that the cache holds for the
  -- key at the start, an answer to a read, one of these with another status, and what `FinalizeKind`
  -- makes of one.
  pub reconcile-Acts :
      (law : RetriesConflicts p) (laws : SetsLaws S p.sets) (ctx : Ctx) (key : String) (w : W)
      → Acts p r (CachedFor key w) (leads_for key w) w (reconcile p r ctx key w).1
  unfolding reconcile new_state reconcile_state
  reconcile-Acts law laws ctx key w = elim (Result-cases (p.split_meta_namespace_key key)) [
    | inr (x, e) ↦ rw (e, new_state) here
    | inl ((namespace, name), e) ↦
        rw (e, new_state, leads_for, CachedFor)
          (reconcile_works-Acts law laws key namespace name ctx
            (r.is_leader_for (record { namespace = namespace; name = name }) w) w)
  ]
