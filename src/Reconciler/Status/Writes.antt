-- ===== src/Reconciler/Status/Writes.antt =====
-- What `updateStatus` does to the world: reads of the resource, and writes of its status alone.
use knative_serving_wasm.Prelude.{
  ℕ, zero, suc, ◌+◌, ◌*◌, ◌≤◌, inl, inr, Option, arith, Option-cases, Bool-cases, subst, sym, ltb,
}
use knative_serving_wasm.Api.Types.{WasmModule}
use knative_serving_wasm.Platform.Types.{Platform}
use knative_serving_wasm.Platform.Laws.{retry_loop, RetriesConflicts}
use knative_serving_wasm.Client
use knative_serving_wasm.Client.{zero_options}
use knative_serving_wasm.Reconciler.Status.{modules_of, put_status, update_attempt, update_status}
use knative_serving_wasm.Reconciler.Status.Retries.{retry_loop-suc}

-- The object with the status, and nothing else, of another.
abbrev pub with_status : WasmModule → WasmModule → WasmModule
with_status m d = record m { status = d.status }

module _ {Ctx Err S W : Type 0} (p : Platform Ctx Err S W) (ctx : Ctx) (desired : WasmModule) where
  -- The read of the resource, and the write of an object's status.
  abbrev pub fetched : W → (WasmModule × Option Err) × W
  fetched = Client.get_module (modules_of p ctx desired desired) ctx desired.name zero_options

  abbrev pub written : WasmModule → W → (WasmModule × Option Err) × W
  written m = Client.update_status (modules_of p ctx desired m) ctx m zero_options

  -- One request. A read replaces the object at hand by the server's; a write sends the object at
  -- hand with its status, and nothing else, replaced by the desired one.
  pub data Step : WasmModule → W → WasmModule → W → Type 0 where
    fetch : (m : WasmModule) (w : W) → Step m w (fetched w).0.0 (fetched w).1
    put :
        (m : WasmModule) (w : W)
        → Step m w (with_status m desired) (written (with_status m desired) w).1

  pub data Steps : ℕ → WasmModule → W → WasmModule → W → Type 0 where
    here : {m : WasmModule} {w : W} → Steps zero m w m w
    next :
        {n : ℕ} {m₀ m m' : WasmModule} {w₀ w w' : W}
        → Steps n m₀ w₀ m w
        → Step m w m' w'
        → Steps (suc n) m₀ w₀ m' w'

  -- From a start, with at most `n` requests.
  abbrev pub Within : ℕ → WasmModule → W → (Option Err × WasmModule) × W → Type 0
  Within n m₀ w₀ r = (k : ℕ) × (k ≤ n) × Steps k m₀ w₀ r.0.1 r.1

  module _ (m₀ : WasmModule) (w₀ : W) where
    put_status-Within :
        (n : ℕ) (m : WasmModule) (w : W)
        → Steps n m₀ w₀ m w
        → Within (n + 1) m₀ w₀ (put_status p ctx desired m w)
    unfolding put_status
    put_status-Within n m w s = elim (Bool-cases (p.deep_equal m.status desired.status)) [
      | inl e ↦ rw e (n, omega arith, s)
      | inr e ↦ rw e (suc n, omega arith, next s (put m w))
    ]

    pub update_attempt-Within :
        (a n : ℕ) (m : WasmModule) (w : W)
        → Steps n m₀ w₀ m w
        → Within (n + 2) m₀ w₀ (update_attempt p ctx desired a m w)
    unfolding update_attempt
    update_attempt-Within a n m w s = elim (Bool-cases (ltb 0 a)) [
      | inr first ↦
          rw first (let (k, fits, steps) = put_status-Within n m w s in (k, omega arith, steps))
      | inl later ↦ elim (Option-cases (fetched w).0.1) [
        | inr (x, e) ↦ rw (later, e) (suc n, omega arith, next s (fetch m w))
        | inl e ↦
            rw (later, e)
              (let (k, fits, steps) =
                  put_status-Within (suc n) (fetched w).0.0 (fetched w).1 (next s (fetch m w)) in
                (k, omega arith, steps))
      ]
    ]

    -- The retries of an updater that stays within two requests a call.
    retry_loop-Within :
        (k a n : ℕ) (m : WasmModule) (w : W)
        → Steps n m₀ w₀ m w
        → Within
            (n + 2 * (k + 1))
            m₀
            w₀
            (retry_loop p.errors.is_conflict (update_attempt p ctx desired) k a m w)
    unfolding retry_loop
    retry_loop-Within zero a n m w s =
        let (j, fits, steps) = update_attempt-Within a n m w s in (j, omega arith, steps)
    retry_loop-Within (suc k) a n m w s =
        let (j, fits, steps) = update_attempt-Within a n m w s in
        let r = update_attempt p ctx desired a m w in
        let (j', fits', steps') = retry_loop-Within k (a + 1) j r.0.1 r.1 steps in
        elim (retry_loop-suc p.errors.is_conflict (update_attempt p ctx desired) k a m w) [
          | inl e ↦ subst (Within (n + 2 * (suc k + 1)) m₀ w₀) (sym e) (j, omega arith, steps)
          | inr (_, _, _, e) ↦
              subst (Within (n + 2 * (suc k + 1)) m₀ w₀) (sym e) (j', omega arith, steps')
        ]

  -- With retries on conflicts, at most `retries` after the first call, the status is written back
  -- by reads of the resource and writes of its status alone, two requests a call at most: every
  -- object that is sent is the cached one or one just read, with the desired status in it.
  pub update_status-Steps :
      (law : RetriesConflicts p) (existing : WasmModule) (w : W)
      → (n : ℕ) × (last : WasmModule) × (n ≤ 2 * (law.retries + 1))
        × Steps n existing w last (update_status p ctx desired existing w).1
  unfolding update_status
  update_status-Steps law existing w =
      let (n, fits, steps) = retry_loop-Within existing w law.retries 0 0 existing w here in
      rw (law.runs (update_attempt p ctx desired) existing w) (n, _, omega arith, steps)
