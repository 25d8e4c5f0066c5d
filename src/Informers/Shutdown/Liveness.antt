-- ===== src/Informers/Shutdown/Liveness.antt =====
-- `Shutdown` waits for the running goroutines and for no others, so it returns once they end.
use knative_serving_wasm.Prelude.{
  ℕ, zero, suc, ◌+◌, String, eq_iff, ◌≡◌, ◌∙◌, refl, ap, true, Option, List, [], ◌∷◌, arith,
  contains, length,
}
use knative_serving_wasm.Informers.Factory.{
  Tweak, lookup, begin_shutdown, goroutine_done, informer_for,
}
use knative_serving_wasm.Informers.Shutdown.{
  Run, Step, call_informer_for, call_start, call_shutdown, done, shutdown_returns, Reach, here,
  next, IsCounted, length-remove,
}
use knative_serving_wasm.Informers.Shutdown.Safety.{
  start_down, informer_from-frame, Step-shutting_down, Step-IsCounted, Reach-IsSound, fresh,
  fresh-IsSound,
}

running_type :
    (ts : List String) {n : ℕ} → length ts ≡ suc n → (t : String) × (contains ts t ≡ true)
running_type [] h = absurd (omega (arith, h))
running_type (t ∷ ts) h = (t, ground (arith, eq_iff t t))

module _ {C I T : Type 0} (set_transform : Option T → I → I) where
  -- The goroutines that end in a step, and in a sequence of steps.
  abbrev pub ends : {r s : Run C I T} → Step set_transform r s → ℕ
  ends (call_informer_for _ _) = 0
  ends call_start = 0
  ends call_shutdown = 0
  ends (done _ _) = 1
  ends (shutdown_returns _ _) = 0

  abbrev pub all_ends : {r s : Run C I T} → Reach set_transform r s → ℕ
  all_ends here = 0
  all_ends (next path step) = all_ends path + ends step

  Step-ends :
      {r s : Run C I T} (step : Step set_transform r s)
      → r.factory.shutting_down ≡ true
      → ends step + length s.factory.running ≡ length r.factory.running
  unfolding begin_shutdown informer_for goroutine_done
  Step-ends {r} (call_informer_for t new_func) down = omega (
    arith,
    ap length
        (informer_from-frame set_transform t new_func r.factory (lookup t r.factory.informers)).0,
  )
  Step-ends {r} call_start down =
      omega (arith, ap (λ f. length f.running) (start_down r.factory down))
  Step-ends call_shutdown down = omega arith
  Step-ends {r} (done t runs) down = omega (arith, length-remove t r.factory.running runs)
  Step-ends (shutdown_returns _ idle) down = omega arith

  -- While the factory shuts down, a sequence of steps ends goroutines that ran at its start, each
  -- once, and no others.
  Reach-ends :
      {r s : Run C I T} (path : Reach set_transform r s)
      → r.factory.shutting_down ≡ true
      → (s.factory.shutting_down ≡ true)
        × (all_ends path + length s.factory.running ≡ length r.factory.running)
  Reach-ends here down = (down, omega arith)
  Reach-ends (next path step) down =
      let (down', counted) = Reach-ends path down in
      (
        (Step-shutting_down set_transform step down').0,
        omega (arith, counted, Step-ends step down'),
      )

  -- A state that a sequence of steps leads to, in which `Shutdown` has returned.
  abbrev pub Returns : Run C I T → ℕ → Type 0
  Returns r n =
      (s : Run C I T) × (path : Reach set_transform r s) × (s.returned ≡ true) × (all_ends path ≡ n)

  drain :
      {r : Run C I T} (n : ℕ) {s : Run C I T} (path : Reach set_transform r s)
      → s.factory.shutting_down ≡ true
      → IsCounted s.factory
      → length s.factory.running ≡ n
      → Returns r (all_ends path + n)
  drain {r} zero {s} path down counted idle = (
    record s { returned = true },
    next path (shutdown_returns down (counted.counted ∙ idle)),
    refl,
    refl,
  )
  drain {r} (suc n) {s} path down counted count =
      let (t, runs) = running_type s.factory.running count in
      let fewer : length (goroutine_done t s.factory).running ≡ n =
        unfold goroutine_done in omega (arith, count, length-remove t s.factory.running runs) in
      let (u, path', returns, all) =
        drain n (next path (done t runs)) (unfold goroutine_done in down)
          (Step-IsCounted set_transform {r = s} (done t runs) counted) fewer in
      (u, path', returns, omega (arith, all))

  -- Take a state that a new factory reaches and in which it shuts down, and any sequence of steps from
  -- there. The goroutines that end in it and those that still run are, in number, those that ran at
  -- its start. After it some further steps, in which exactly the ones that still run end, lead to a
  -- state in which `Shutdown` has returned.
  pub shutdown-Returns :
      (client : C) (resync : ℕ) (namespace : String) (tweak : Tweak) {r s : Run C I T}
      → Reach set_transform (fresh set_transform client resync namespace tweak) r
      → r.factory.shutting_down ≡ true
      → (path : Reach set_transform r s)
      → (all_ends path + length s.factory.running ≡ length r.factory.running)
        × Returns s (length s.factory.running)
  shutdown-Returns client resync namespace tweak {r} {s} reach down path =
      let (down', all) = Reach-ends path down in
      let sound =
        Reach-IsSound set_transform
          (Reach-IsSound set_transform (fresh-IsSound set_transform client resync namespace tweak)
            reach)
          path in
      let (u, path', returns, count) =
        drain (length s.factory.running) here down' sound.sound refl in
      (all, (u, path', returns, omega (arith, count)))
