-- ===== src/Reconciler/Reconcile/Roles.antt =====
-- `Reconcile` on a replica that does not lead, and for keys with nothing to reconcile.
use knative_serving_wasm.Prelude.{
  String, ◌≡◌, ◌∙◌, refl, inl, inr, Bool, false, Option, none, some, Effect, ok, err, arith,
  Bool-cases, Option-cases, if◌then◌else◌,
}
use knative_serving_wasm.Api.Types.{WasmModule}
use knative_serving_wasm.Platform.Types.{Platform}
use knative_serving_wasm.Lister.{wasm_modules, get_cached}
use knative_serving_wasm.Reconciler.Types.{DoReconcile, ReconcilerImpl}
use knative_serving_wasm.Reconciler.State.{
  RunState, do_observe_kind, unknown, new_state, is_not_leader_nor_observer, reconcile_method_for,
}
use knative_serving_wasm.Reconciler.Report.{sync_status, report, finish}
use knative_serving_wasm.Reconciler.Reconcile.{
  run_method, reconcile_found, reconcile_cached, decorate, reconcile_state, reconcile,
}

module _ {Ctx Err S W : Type 0} (p : Platform Ctx Err S W) (r : ReconcilerImpl Ctx Err W) where
  -- What a run does with the answer to a patch: the error wrapped, or a continuation with the object.
  abbrev pub or_fail :
      String → (WasmModule → Effect W (Option Err)) → (WasmModule × Option Err) × W → Option Err × W
  or_fail message continue ((_, some x), w) = (some (p.errors.wrap message x), w)
  or_fail message continue ((resource, none), w) = continue resource w

  -- An observer's run on an object: its method on a live one, and its event; nothing on a deleted
  -- one.
  abbrev pub observed : DoReconcile Ctx Err W → Ctx → WasmModule → Effect W (Option Err)
  observed observe_kind ctx original w =
      if p.is_zero original.deletion_timestamp
      then (let ((event, resource), w1) = observe_kind ctx original w in report p resource event w1)
      else (none, w)

  -- A key that cannot be split is dropped: the run ends well, with no effect.
  pub reconcile_invalid_key :
      (ctx : Ctx) (key : String) (w : W) {x : Err}
      → p.split_meta_namespace_key key ≡ err x
      → reconcile p r ctx key w ≡ (none, w)
  unfolding reconcile reconcile_state new_state
  reconcile_invalid_key ctx key w h = rw (h, new_state)

  -- The state of a run, on a key that was split.
  abbrev pub state_for : String → String → String → Bool → RunState Ctx Err W
  state_for key namespace name is_leader = record {
    key = key;
    namespace = namespace;
    name = name;
    reconciler = r.reconciler;
    roi = r.reconciler.observe_kind;
    is_leader = is_leader;
  }

  finish_follower :
      (s : RunState Ctx Err W) (ctx : Ctx) (original resource : WasmModule) (event : Option Err)
      → (w : W) → s.is_leader ≡ false
      → finish p r s ctx original resource event w ≡ report p resource event w
  unfolding finish sync_status
  finish_follower s ctx original resource event w follows = ground arith

  method_follower :
      (s : RunState Ctx Err W) (original : WasmModule)
      → s.is_leader ≡ false
      → {observe_kind : DoReconcile Ctx Err W} → s.roi ≡ some observe_kind
      → reconcile_method_for p s original
        ≡ (if p.is_zero original.deletion_timestamp then do_observe_kind observe_kind else unknown)
  unfolding reconcile_method_for
  method_follower s original follows {observe_kind} observes =
      elim (Bool-cases (p.is_zero original.deletion_timestamp)) [
        | inl live ↦ simp (live, follows, observes)
        | inr gone ↦ elim (Option-cases s.reconciler.finalize_kind) [
          | inl plain ↦ simp (gone, plain)
          | inr (f, finalizes) ↦ simp (gone, finalizes, follows)
        ]
      ]

  found_follower :
      (s : RunState Ctx Err W) (ctx : Ctx) (original : WasmModule) (w : W)
      → s.is_leader ≡ false
      → (observe_kind : DoReconcile Ctx Err W) → s.roi ≡ some observe_kind
      → reconcile_found p r s ctx original w ≡ observed observe_kind ctx original w
  unfolding reconcile_found run_method report
  found_follower s ctx original w follows observe_kind observes =
      rw (method_follower s original follows observes)
        (elim (Bool-cases (p.is_zero original.deletion_timestamp)) [
          | inl live ↦ rw live (finish_follower s ctx original _ _ _ follows)
          | inr gone ↦ rw gone (finish_follower s ctx original _ _ _ follows)
        ])

  module _ (ctx : Ctx) (key namespace name : String) (w : W)
      (split : p.split_meta_namespace_key key ≡ ok (namespace, name)) where
    state_of_key :
        {is_leader : Bool}
        → r.is_leader_for (record { namespace = namespace; name = name }) w ≡ is_leader
        → new_state p key r w ≡ ok (state_for key namespace name is_leader)
    unfolding new_state
    state_of_key leads = rw (split, new_state) (rw leads)

    -- A replica that neither leads nor observes skips the key with no effect.
    pub reconcile_skips :
        r.is_leader_for (record { namespace = namespace; name = name }) w ≡ false
        → r.reconciler.observe_kind ≡ none
        → reconcile p r ctx key w ≡ (some (p.errors.new_skip_key key), w)
    unfolding reconcile reconcile_state is_not_leader_nor_observer
    reconcile_skips follows blind = rw (state_of_key follows) (rw blind)

    -- On an object of the cache, a replica that leads or observes goes on to the switch.
    pub reconcile_proceeds :
        {is_leader : Bool} {original : WasmModule}
        → r.is_leader_for (record { namespace = namespace; name = name }) w ≡ is_leader
        → is_not_leader_nor_observer (state_for key namespace name is_leader) ≡ false
        → get_cached p.errors (wasm_modules r.lister namespace) name w ≡ ok original
        → reconcile p r ctx key w
          ≡ reconcile_found p r
              (state_for key namespace name is_leader)
              (decorate p r ctx)
              original
              w
    unfolding reconcile reconcile_state reconcile_cached
    reconcile_proceeds leads works held = rw (state_of_key leads, works, held)

    -- A replica that does not lead and whose reconciler implements `ReadOnlyInterface`, on an object
    -- of the cache: `ObserveKind` runs once on a live object and its event is reported, also where
    -- it changed the status; a deleted object is left alone. The replica itself sends no request: no
    -- finalizer is patched, no status is written.
    pub reconcile_follower :
        {observe_kind : DoReconcile Ctx Err W} {original : WasmModule}
        → r.is_leader_for (record { namespace = namespace; name = name }) w ≡ false
        → r.reconciler.observe_kind ≡ some observe_kind
        → get_cached p.errors (wasm_modules r.lister namespace) name w ≡ ok original
        → reconcile p r ctx key w ≡ observed observe_kind (decorate p r ctx) original w
    unfolding is_not_leader_nor_observer
    reconcile_follower {observe_kind} {original} follows observes held =
        reconcile_proceeds follows (rw observes) held
        ∙ found_follower (state_for key namespace name false) _ original w refl observe_kind
            observes
