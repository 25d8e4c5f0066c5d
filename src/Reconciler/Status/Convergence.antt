-- ===== src/Reconciler/Status/Convergence.antt =====
-- `updateStatus` against an API server that refuses a number of writes with conflicts.
use knative_serving_wasm.Prelude.{
  ℕ, zero, suc, ◌+◌, ◌≤◌, ◌≡◌, ◌∙◌, ap, refl, inl, inr, true, Option, none, some, arith, Bool-cases,
  ltb,
}
use knative_serving_wasm.Api.Types.{WasmModule}
use knative_serving_wasm.Platform.Types.{Platform}
use knative_serving_wasm.Platform.Laws.{retry_loop, RetriesConflicts}
use knative_serving_wasm.Reconciler.Status.{put_status, update_attempt, update_status}
use knative_serving_wasm.Reconciler.Status.Retries.{retry_loop_done, retry_loop_conflict}
use knative_serving_wasm.Reconciler.Status.Writes.{with_status, fetched, written}

module _ {Ctx Err S W : Type 0} (p : Platform Ctx Err S W) (ctx : Ctx) (desired : WasmModule) where
  -- A server that answers every read, and refuses as many writes as its world says, each with a
  -- conflict, before it accepts one.
  pub record RefusingServer : Type 0 where
    pub refusals : W → ℕ
    pub reads : (w : W) → (fetched p ctx desired w).0.1 ≡ none
    pub reads_keep : (w : W) → refusals (fetched p ctx desired w).1 ≡ refusals w
    pub accepts : (m : WasmModule) (w : W) → refusals w ≡ 0 → (written p ctx desired m w).0.1 ≡ none
    pub refuses :
        (m : WasmModule) (w : W) (k : ℕ)
        → refusals w ≡ suc k
        → (x : Err) × ((written p ctx desired m w).0.1 ≡ some x)
          × (p.errors.is_conflict x ≡ true)
          × (refusals (written p ctx desired m w).1 ≡ k)

  module _ (server : RefusingServer) where
    -- The result of an attempt in a world with `n` refusals.
    data Attempted (n : ℕ) (r : (Option Err × WasmModule) × W) : Type 0 where
      landed : r.0.0 ≡ none → Attempted n r
      refused :
          {x : Err} {k : ℕ}
          → r.0.0 ≡ some x
          → p.errors.is_conflict x ≡ true
          → n ≡ suc k
          → server.refusals r.1 ≡ k
          → Attempted n r

    put_status-Attempted :
        (m : WasmModule) (w : W) (n : ℕ)
        → server.refusals w ≡ n
        → Attempted n (put_status p ctx desired m w)
    unfolding put_status
    put_status-Attempted m w n count = elim (Bool-cases (p.deep_equal m.status desired.status)) [
      | inl e ↦ rw e (landed refl)
      | inr e ↦ rw e (write n count)
    ]
      where
        write :
            (n : ℕ)
            → server.refusals w ≡ n
            → Attempted n (
              ((written p ctx desired (with_status m desired) w).0.1, with_status m desired),
              (written p ctx desired (with_status m desired) w).1,
            )
        write zero free = landed (server.accepts (with_status m desired) w free)
        write (suc k) busy =
            let (x, e, conflict, left) = server.refuses (with_status m desired) w k busy in
            refused e conflict refl left

    update_attempt-Attempted :
        (a : ℕ) (m : WasmModule) (w : W) (n : ℕ)
        → server.refusals w ≡ n
        → Attempted n (update_attempt p ctx desired a m w)
    unfolding update_attempt
    update_attempt-Attempted a m w n count = elim (Bool-cases (ltb 0 a)) [
      | inr first ↦ rw first (put_status-Attempted m w n count)
      | inl later ↦
          rw (later, server.reads w)
            (put_status-Attempted (fetched p ctx desired w).0.0 (fetched p ctx desired w).1 n
              (server.reads_keep w ∙ count))
    ]

    retry_loop-none :
        (k a : ℕ) (m : WasmModule) (w : W)
        → server.refusals w ≤ k
        → (retry_loop p.errors.is_conflict (update_attempt p ctx desired) k a m w).0.0 ≡ none
    unfolding retry_loop
    retry_loop-none zero a m w fits =
        elim (update_attempt-Attempted a m w (server.refusals w) refl) [
          | landed h ↦ h
          | refused e conflict count left ↦ absurd (omega arith)
        ]
    retry_loop-none (suc k) a m w fits =
        let r = update_attempt p ctx desired a m w in
        elim (update_attempt-Attempted a m w (server.refusals w) refl) [
          | landed h ↦
              rw
                (retry_loop_done p.errors.is_conflict (update_attempt p ctx desired) (suc k) a m w
                  (ap (λ e. ((e, r.0.1), r.1)) h))
                refl
          | refused e conflict count left ↦
              rw
                (retry_loop_conflict p.errors.is_conflict (update_attempt p ctx desired) k a m w
                  (ap (λ x. ((x, r.0.1), r.1)) e) conflict)
                (retry_loop-none k (a + 1) r.0.1 r.1 (omega arith))
        ]

    -- Against a server that answers every read and refuses at most as many writes as there are
    -- retries, each with a conflict, the update of the status succeeds, from whatever object it
    -- starts.
    pub update_status_converges :
        (law : RetriesConflicts p) (existing : WasmModule) (w : W)
        → server.refusals w ≤ law.retries
        → (update_status p ctx desired existing w).0 ≡ none
    unfolding update_status
    update_status_converges law existing w fits =
        rw (law.runs (update_attempt p ctx desired) existing w)
          (retry_loop-none law.retries 0 existing w fits)
