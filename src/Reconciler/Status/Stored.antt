-- ===== src/Reconciler/Status/Stored.antt =====
-- `updateStatus` refines "set the status" of the object that the API server stores, however stale
-- the cached object is.
use knative_serving_wasm.Prelude.{
  ℕ, suc, ◌+◌, ◌==◌, eq_iff, ◌≡◌, ◌≢◌, ◌∙◌, refl, sym, ap, inl, inr, Bool, true, false, Option,
  none, some, arith, Bool-cases,
}
use knative_serving_wasm.Api.Types.{WasmModule, WasmModuleStatus}
use knative_serving_wasm.Api.Lifecycle.{untimed}
use knative_serving_wasm.Platform.Types.{Platform}
use knative_serving_wasm.Platform.Laws.{RetriesConflicts, retry_loop}
use knative_serving_wasm.Client
use knative_serving_wasm.Server.{ApiServer, StatusSet}
use knative_serving_wasm.Reconciler.Status.{put_status, update_attempt, update_status}
use knative_serving_wasm.Reconciler.Status.Retries.{retry_loop_conflict, retry_loop_done}
use knative_serving_wasm.Reconciler.Status.Writes.{with_status}
use knative_serving_wasm.Reconciler.Status.Outcome.{
  put_status_writes, update_attempt_first, update_attempt_later,
}

-- `equality.Semantic.DeepEqual` holds of statuses alone that are equal but for the times of their
-- conditions.
abbrev pub IsSemantic : (WasmModuleStatus → WasmModuleStatus → Bool) → Type 0
IsSemantic deep_equal = (s t : WasmModuleStatus) → deep_equal s t ≡ true → untimed s ≡ untimed t

StatusSet-refl : (m : WasmModule) → StatusSet m.status m m
StatusSet-refl m = record { status_is = refl; same_type = refl; same_spec = refl; same_meta = refl }

module _ {Ctx Err S W : Type 0} (p : Platform Ctx Err S W)
    (server : ApiServer p.errors p.rest p.marshal p.is_zero) (semantic : IsSemantic p.deep_equal)
    (ctx : Ctx) (desired : WasmModule) where
  -- The stored object has the desired status, but for the times of conditions, and differs from what
  -- was stored in its status and version alone.
  abbrev pub Stores : WasmModule → W → Type 0
  Stores m w =
      (m' : WasmModule) × (server.stored desired.namespace desired.name w ≡ some m')
      × (untimed m'.status ≡ untimed desired.status)
      × StatusSet m'.status m m'

  -- An attempt that succeeds and leaves the desired status stored.
  abbrev Succeeds : WasmModule → (Option Err × WasmModule) × W → Type 0
  Succeeds m r = (o : WasmModule) × (w' : W) × (r ≡ ((none, o), w')) × Stores m w'

  module _ (o : WasmModule) (same_namespace : o.namespace ≡ desired.namespace)
      (same_name : o.name ≡ desired.name) where
    -- What is stored under the name of an object, and under that of the desired one.
    stored_there :
        (w : W)
        → server.stored o.namespace o.name w ≡ server.stored desired.namespace desired.name w
    stored_there w =
        ap (λ a. server.stored a o.name w) same_namespace
        ∙ ap (λ b. server.stored desired.namespace b w) same_name

    module _ {m : WasmModule} (w : W)
        (held : server.stored desired.namespace desired.name w ≡ some m)
        (differs : p.deep_equal o.status desired.status ≡ false) where
      put_status-accepted :
          o.object_meta.resource_version ≡ m.object_meta.resource_version
          → Succeeds m (put_status p ctx desired o w)
      unfolding Client.update_status
      put_status-accepted same_version =
          let (m', w', answered, stored', set) =
            server.put_accepted ctx (with_status o desired) w (stored_there w ∙ held)
              same_version in
          (
            with_status o desired,
            w',
            put_status_writes p ctx desired o m' none w w' differs answered,
            (
              m',
              sym (stored_there w') ∙ stored',
              ap untimed set.status_is,
              record {
                status_is = refl;
                same_type = set.same_type;
                same_spec = set.same_spec;
                same_meta = set.same_meta;
              },
            ),
          )

      put_status-refused :
          o.object_meta.resource_version ≢ m.object_meta.resource_version
          → o.object_meta.resource_version ≢ ""
          → (x : Err) × (w' : W) × (put_status p ctx desired o w
              ≡ ((some x, with_status o desired), w'))
            × (p.errors.is_conflict x ≡ true)
            × (server.stored desired.namespace desired.name w' ≡ some m)
      unfolding Client.update_status
      put_status-refused other_version versioned =
          let (answer, x, w', answered, conflict, stored') =
            server.put_refused ctx (with_status o desired) w (stored_there w ∙ held) other_version
              versioned in
          (
            x,
            w',
            put_status_writes p ctx desired o answer (some x) w w' differs answered,
            conflict,
            sym (stored_there w') ∙ stored',
          )

  put_status-current :
      (m : WasmModule) (w : W)
      → server.stored desired.namespace desired.name w ≡ some m
      → Succeeds m (put_status p ctx desired m w)
  put_status-current m w held = elim (Bool-cases (p.deep_equal m.status desired.status)) [
    | inl e ↦ (
      m,
      w,
      put_status-same m w e,
      (m, held, semantic m.status desired.status e, StatusSet-refl m),
    )
    | inr e ↦
        let (same_namespace, same_name, _) = server.named desired.namespace desired.name w held in
        put_status-accepted m same_namespace same_name w held e refl
  ]
    where
      put_status-same :
          (m : WasmModule) (w : W)
          → p.deep_equal m.status desired.status ≡ true
          → put_status p ctx desired m w ≡ ((none, m), w)
      put_status-same m w e = unfold put_status in rw e

  -- A later attempt reads the stored object first.
  update_attempt-current :
      (a : ℕ) (o : WasmModule) {m : WasmModule} (w : W)
      → server.stored desired.namespace desired.name w ≡ some m
      → Succeeds m (update_attempt p ctx desired (a + 1) o w)
  unfolding Client.get_module
  update_attempt-current a o {m} w held =
      let (w', read, held') = server.get_answers ctx desired.namespace desired.name w held in
      let (o', w'', put, stores) = put_status-current m w' held' in
      (o', w'', update_attempt_later p ctx desired a o m w w' read ∙ put, stores)

  -- Where a retry is allowed, and an object of the desired one's name that has a version differs
  -- in its status from the desired one: an update succeeds and leaves the stored object with the
  -- desired status, but for the times of its conditions, and the same in its type, spec and
  -- metadata but for the version, whatever version and spec the object at hand has.
  pub update_status-Stores :
      (law : RetriesConflicts p) {k : ℕ} (existing : WasmModule) {m : WasmModule} (w : W)
      → law.retries ≡ suc k
      → existing.namespace ≡ desired.namespace
      → existing.name ≡ desired.name
      → existing.object_meta.resource_version ≢ ""
      → p.deep_equal existing.status desired.status ≡ false
      → server.stored desired.namespace desired.name w ≡ some m
      → (w' : W) × (update_status p ctx desired existing w ≡ (none, w')) × Stores m w'
  unfolding update_status
  update_status-Stores law {k} existing {m} w retries same_namespace same_name versioned differs
        held =
      let f = update_attempt p ctx desired in
      let loop = retry_loop p.errors.is_conflict f in
      let started : p.retry_update_conflicts f existing w ≡ loop (suc k) 0 existing w =
        law.runs f existing w ∙ ap (λ n. loop n 0 existing w) retries in
      elim (Bool-cases (existing.object_meta.resource_version == m.object_meta.resource_version)) [
        | inl e ↦
            let (o, w', put, stores) =
              put_status-accepted existing same_namespace same_name w held differs (
                ground (
                  arith,
                  eq_iff existing.object_meta.resource_version m.object_meta.resource_version,
                )) in
            (
              w',
              ap (λ r. (r.0.0, r.1))
                  (started
                    ∙ retry_loop_done p.errors.is_conflict f (suc k) 0 existing w
                        (update_attempt_first p ctx desired existing w ∙ put)),
              stores,
            )
        | inr e ↦
            let (x, w₁, put, conflict, held₁) =
              put_status-refused existing same_namespace same_name w held differs
                (ground (
                  arith,
                  eq_iff existing.object_meta.resource_version m.object_meta.resource_version,
                ))
                versioned in
            let (o, w', again, stores) =
              update_attempt-current 0 (with_status existing desired) w₁ held₁ in
            (
              w',
              ap (λ r. (r.0.0, r.1))
                  (started
                    ∙ (retry_loop_conflict p.errors.is_conflict f k 0 existing w
                          (update_attempt_first p ctx desired existing w ∙ put) conflict
                        ∙ retry_loop_done p.errors.is_conflict f k 1 (with_status existing desired)
                            w₁ again)),
              stores,
            )
      ]
