-- ===== src/Reconciler/Status/Outcome.antt =====
-- What the result of `updateStatus` says, and how it recovers from a conflict.
use knative_serving_wasm.Prelude.{
  ℕ, suc, ◌+◌, ◌≡◌, ◌∙◌, ap, refl, ◌⊎◌, inl, inr, true, false, Option, none, some, arith,
  Option-cases, Bool-cases, ltb,
}
use knative_serving_wasm.Api.Types.{WasmModule}
use knative_serving_wasm.Platform.Types.{Platform}
use knative_serving_wasm.Platform.Laws.{RetriesConflicts}
use knative_serving_wasm.Reconciler.Status.{put_status, update_attempt, update_status}
use knative_serving_wasm.Reconciler.Status.Retries.{
  retry_loop_last, retry_loop_conflict, retry_loop_done,
}
use knative_serving_wasm.Reconciler.Status.Writes.{
  with_status, fetched, written, Steps, here, update_attempt-Within,
}

module _ {Ctx Err S W : Type 0} (p : Platform Ctx Err S W) (ctx : Ctx) (desired : WasmModule) where
  -- The object has the desired status, or was written with it; `w'` is the world after.
  abbrev pub Landed : WasmModule → W → W → Type 0
  Landed m w w' =
      ((p.deep_equal m.status desired.status ≡ true) × (w' ≡ w))
      ⊎ (((written p ctx desired (with_status m desired) w).0.1 ≡ none)
          × (w' ≡ (written p ctx desired (with_status m desired) w).1))

  put_status-none :
      (m : WasmModule) (w : W)
      → (put_status p ctx desired m w).0.0 ≡ none
      → Landed m w (put_status p ctx desired m w).1
  unfolding put_status
  put_status-none m w h = elim (Bool-cases (p.deep_equal m.status desired.status)) [
    | inl e ↦ inl (e, rw e)
    | inr e ↦ inr (rw e at h, rw e)
  ]

  module _ (existing : WasmModule) (w₀ : W) where
    -- The object at hand is the cached one in the world before the update, or it has just been read,
    -- after requests of the update.
    abbrev pub AtHand : WasmModule → W → Type 0
    AtHand m w =
        ((m ≡ existing) × (w ≡ w₀))
        ⊎ ((n : ℕ) × (m' : WasmModule) × (w' : W) × Steps p ctx desired n existing w₀ m' w'
            × (fetched p ctx desired w' ≡ ((m, none), w)))

    -- Before a call: the requests so far, none before the first one.
    abbrev Reached : ℕ → WasmModule → W → Type 0
    Reached a m w =
        ((n : ℕ) × Steps p ctx desired n existing w₀ m w)
        × (ltb 0 a ≡ false → (m ≡ existing) × (w ≡ w₀))

    update_attempt-Reached :
        (a : ℕ) (m : WasmModule) (w : W)
        → Reached a m w
        → Reached
            (a + 1)
            (update_attempt p ctx desired a m w).0.1
            (update_attempt p ctx desired a m w).1
    update_attempt-Reached a m w ((n, steps), _) =
        let (n', _, steps') = update_attempt-Within p ctx desired existing w₀ a n m w steps in
        ((n', steps'), λ h. absurd (ground arith))

    update_attempt-none :
        (a : ℕ) (m : WasmModule) (w : W)
        → Reached a m w
        → (update_attempt p ctx desired a m w).0.0 ≡ none
        → (m' : WasmModule) × (w' : W) × AtHand m' w'
          × Landed m' w' (update_attempt p ctx desired a m w).1
    unfolding update_attempt
    update_attempt-none a m w ((n, steps), begins) h = elim (Bool-cases (ltb 0 a)) [
      | inr first ↦ (m, w, inl (begins first), rw first (put_status-none m w (rw first at h)))
      | inl later ↦ elim (Option-cases (fetched p ctx desired w).0.1) [
        | inr (x, e) ↦ absurd (ground arith)
        | inl e ↦
            let m' = (fetched p ctx desired w).0.0 in
            let w' = (fetched p ctx desired w).1 in
            (
              m',
              w',
              inr (n, m, w, steps, ap (λ o. ((m', o), w')) e),
              rw (later, e) (put_status-none m' w' (rw (later, e) at h)),
            )
      ]
    ]

  -- With retries on conflicts, an update that returns nil has landed: the last object at hand, the
  -- cached one in the world before the update or one just read after requests of the update, already
  -- had the desired status, and nothing is sent after that, or the API server accepted a write of the
  -- desired status into it, and that is the last request.
  pub update_status-none :
      RetriesConflicts p
      → (existing : WasmModule) (w : W) → (update_status p ctx desired existing w).0 ≡ none
      → (m : WasmModule) × (w' : W) × AtHand existing w m w'
        × Landed m w' (update_status p ctx desired existing w).1
  unfolding update_status
  update_status-none law existing w h =
      let f = update_attempt p ctx desired in
      let ran = law.runs f existing w in
      let (a, m, w', reached, last) =
        retry_loop_last p.errors.is_conflict f (Reached existing w)
          (update_attempt-Reached existing w) law.retries 0 existing w
          ((0, here), λ _. (refl, refl)) in
      let (m', w'', held, landed) =
        update_attempt-none existing w a m w' reached (rw (ran, last) at h) in
      (m', w'', held, rw (ran, last) landed)

  pub put_status_writes :
      (m answer : WasmModule) (e : Option Err) (w w' : W)
      → p.deep_equal m.status desired.status ≡ false
      → written p ctx desired (with_status m desired) w ≡ ((answer, e), w')
      → put_status p ctx desired m w ≡ ((e, with_status m desired), w')
  unfolding put_status
  put_status_writes m answer e w w' differs h = rw (differs, h)

  pub update_attempt_first :
      (m : WasmModule) (w : W) → update_attempt p ctx desired 0 m w ≡ put_status p ctx desired m w
  unfolding update_attempt
  update_attempt_first m w = refl

  pub update_attempt_later :
      (a : ℕ) (m fresh : WasmModule) (w w' : W)
      → fetched p ctx desired w ≡ ((fresh, none), w')
      → update_attempt p ctx desired (a + 1) m w ≡ put_status p ctx desired fresh w'
  unfolding update_attempt
  update_attempt_later a m fresh w w' h = ground arith

  -- Where a retry is allowed and the object at hand differs in its status from the desired one, a
  -- write refused by a conflict is followed by a read of the resource and, if that differs, too, by
  -- a write of the desired status into what was read; if the API server accepts that, the update
  -- succeeds.
  pub update_status_conflict :
      (law : RetriesConflicts p) {k : ℕ} (existing fresh answer answer' : WasmModule) {x : Err}
      → (w w₁ w₂ w₃ : W) → law.retries ≡ suc k
      → p.deep_equal existing.status desired.status ≡ false
      → written p ctx desired (with_status existing desired) w ≡ ((answer, some x), w₁)
      → p.errors.is_conflict x ≡ true
      → fetched p ctx desired w₁ ≡ ((fresh, none), w₂)
      → p.deep_equal fresh.status desired.status ≡ false
      → written p ctx desired (with_status fresh desired) w₂ ≡ ((answer', none), w₃)
      → update_status p ctx desired existing w ≡ (none, w₃)
  unfolding update_status
  update_status_conflict law {k} existing fresh answer answer' {x} w w₁ w₂ w₃ retries stale refused
        conflict read differs accepted =
      rw (
        law.runs (update_attempt p ctx desired) existing w,
        retries,
        retry_loop_conflict p.errors.is_conflict (update_attempt p ctx desired) k 0 existing w
            (update_attempt_first existing w
              ∙ put_status_writes existing answer (some x) w w₁ stale refused)
            conflict,
        retry_loop_done p.errors.is_conflict (update_attempt p ctx desired) k 1 _ w₁ (
            update_attempt_later 0 _ fresh w₁ w₂ read
            ∙ put_status_writes fresh answer' none w₂ w₃ differs accepted),
      )
