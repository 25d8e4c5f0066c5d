-- ===== src/Reconciler/State/Selection.antt =====
-- Which of the user's methods a run calls (state.go: reconcileMethodFor).
use knative_serving_wasm.Prelude.{
  ◌≡◌, refl, ◌⊎◌, inl, inr, true, false, none, some, Bool-cases, Option-cases,
}
use knative_serving_wasm.Api.Types.{WasmModule}
use knative_serving_wasm.Platform.Types.{Platform}
use knative_serving_wasm.Reconciler.State.{
  RunState, Method, do_reconcile_kind, do_finalize_kind, do_observe_kind, unknown,
  is_not_leader_nor_observer, reconcile_method_for,
}

module _ {Ctx Err S W : Type 0} (p : Platform Ctx Err S W) (s : RunState Ctx Err W)
    (o : WasmModule) where
  -- What a method that was selected says of the state and the object.
  abbrev pub Selected : Method Ctx Err W → Type 0
  Selected (do_reconcile_kind f) =
      (f ≡ s.reconciler.reconcile_kind)
      × (s.is_leader ≡ true)
      × (p.is_zero o.deletion_timestamp ≡ true)
  Selected (do_finalize_kind f) =
      (s.reconciler.finalize_kind ≡ some f)
      × (s.is_leader ≡ true)
      × (p.is_zero o.deletion_timestamp ≡ false)
  Selected (do_observe_kind f) =
      (s.roi ≡ some f) × (s.is_leader ≡ false) × (p.is_zero o.deletion_timestamp ≡ true)
  Selected unknown =
      ((p.is_zero o.deletion_timestamp ≡ true) × (is_not_leader_nor_observer s ≡ true))
      ⊎ ((p.is_zero o.deletion_timestamp ≡ false)
          × ((s.is_leader ≡ false) ⊎ (s.reconciler.finalize_kind ≡ none)))

  -- `ReconcileKind` is called only by the leader on a live object, `FinalizeKind` only by the leader
  -- on a deleted one, `ObserveKind` only by a replica that does not lead, on a live one. No method
  -- is called only for a live object on a replica that neither leads nor observes, and for a deleted
  -- one where the replica does not lead or has no finalizer.
  pub reconcile_method_for-Selected : Selected (reconcile_method_for p s o)
  unfolding reconcile_method_for is_not_leader_nor_observer
  reconcile_method_for-Selected = elim (Bool-cases (p.is_zero o.deletion_timestamp)) [
    | inl live ↦ elim (Bool-cases s.is_leader) [
      | inl leads ↦ simp (live, leads) (refl, refl, refl)
      | inr follows ↦ elim (Option-cases s.roi) [
        | inl blind ↦ simp (live, follows, blind) (inl (refl, refl))
        | inr (f, observes) ↦ simp (live, follows, observes) (refl, refl, refl)
      ]
    ]
    | inr gone ↦ elim (Option-cases s.reconciler.finalize_kind) [
      | inl plain ↦ simp (gone, plain) (inr (refl, inr refl))
      | inr (f, finalizes) ↦ elim (Bool-cases s.is_leader) [
        | inl leads ↦ simp (gone, finalizes, leads) (refl, refl, refl)
        | inr follows ↦ simp (gone, finalizes, follows) (inr (refl, inl refl))
      ]
    ]
  ]
