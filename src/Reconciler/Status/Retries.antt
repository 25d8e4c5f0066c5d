-- ===== src/Reconciler/Status/Retries.antt =====
-- The loop of `retry_loop`: it ends with a call, or goes on after a call that failed retriably.
use knative_serving_wasm.Prelude.{
  ℕ, zero, suc, ◌+◌, ◌≡◌, ◌∙◌, refl, ◌⊎◌, inl, inr, Bool, true, none, some, arith, Option-cases,
  Bool-cases,
}
use knative_serving_wasm.Api.Types.{WasmModule}
use knative_serving_wasm.Platform.Types.{Updater}
use knative_serving_wasm.Platform.Laws.{retry_loop}

module _ {Err W : Type 0} (retriable : Err → Bool) (f : Updater Err W) where
  -- What the first call decides.
  pub retry_loop-suc :
      (k n : ℕ) (m : WasmModule) (w : W)
      → (retry_loop retriable f (suc k) n m w ≡ f n m w)
        ⊎ ((x : Err) × ((f n m w).0.0 ≡ some x)
            × (retriable x ≡ true)
            × (retry_loop retriable f (suc k) n m w
                ≡ retry_loop retriable f k (n + 1) (f n m w).0.1 (f n m w).1))
  unfolding retry_loop
  retry_loop-suc k n m w = elim (Option-cases (f n m w).0.0) [
    | inl e ↦ inl (ground arith)
    | inr (x, e) ↦ elim (Bool-cases (retriable x)) [
      | inl h ↦ inr (x, e, h, ground arith)
      | inr h ↦ inl (ground arith)
    ]
  ]

  -- A result of the loop is the result of one of its calls, on which holds what the first call has and
  -- each call hands on.
  module _ (P : ℕ → WasmModule → W → Type 0)
      (keep : (n : ℕ) (m : WasmModule) (w : W)
        → P n m w
        → P (n + 1) (f n m w).0.1 (f n m w).1) where
    pub retry_loop_last :
        (k n : ℕ) (m : WasmModule) (w : W)
        → P n m w
        → (n' : ℕ) × (m' : WasmModule) × (w' : W) × P n' m' w'
          × (retry_loop retriable f k n m w ≡ f n' m' w')
    unfolding retry_loop
    retry_loop_last zero n m w h = (n, m, w, h, refl)
    retry_loop_last (suc k) n m w h =
        let (n', m', w', h', last) =
          retry_loop_last k (n + 1) (f n m w).0.1 (f n m w).1 (keep n m w h) in
        elim (retry_loop-suc k n m w) [
          | inl e ↦ (n, m, w, h, e)
          | inr (x, _, _, e) ↦ (n', m', w', h', e ∙ last)
        ]

  -- A call that succeeds ends the loop.
  pub retry_loop_done :
      (k n : ℕ) (m : WasmModule) (w : W) {m' : WasmModule} {w' : W}
      → f n m w ≡ ((none, m'), w')
      → retry_loop retriable f k n m w ≡ ((none, m'), w')
  unfolding retry_loop
  retry_loop_done zero n m w h = h
  retry_loop_done (suc k) n m w h = ground arith

  -- A retriable failure is followed by the next call.
  pub retry_loop_conflict :
      (k n : ℕ) (m : WasmModule) (w : W) {x : Err} {m' : WasmModule} {w' : W}
      → f n m w ≡ ((some x, m'), w')
      → retriable x ≡ true
      → retry_loop retriable f (suc k) n m w ≡ retry_loop retriable f k (n + 1) m' w'
  unfolding retry_loop
  retry_loop_conflict k n m w h c = ground arith
