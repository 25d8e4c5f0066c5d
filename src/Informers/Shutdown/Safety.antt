-- ===== src/Informers/Shutdown/Safety.antt =====
-- No goroutine outlives `Shutdown`, whatever the interleaving.
use knative_serving_wasm.Prelude.{
  ℕ, ◌≤◌, String, ◌≡◌, refl, ap, true, false, Option, none, some, List, [], ◌∷◌, arith, contains,
  length, Bool-cases, inl, inr,
}
use knative_serving_wasm.Informers.Factory.{
  Factory, Tweak, lookup, is_started, start, begin_shutdown, goroutine_done, informer_from,
  informer_for, new_factory, new_filtered_factory, with_namespace, with_tweak_list_options,
  apply_options,
}
use knative_serving_wasm.Informers.Shutdown.{
  Run, Step, call_informer_for, call_start, call_shutdown, done, shutdown_returns, Reach, here,
  next, Distinct, IsCounted, IsSound, contains-remove, length-remove, remove-Distinct,
  start_loop-IsCounted,
}

length-zero : (ts : List String) → length ts ≤ 0 → ts ≡ []
length-zero [] h = refl
length-zero (t ∷ ts) h = absurd (omega arith)

module _ {C I T : Type 0} where
  pub start_down : (f : Factory C I T) → f.shutting_down ≡ true → start f ≡ f
  unfolding start
  start_down f down = ground arith

  start-IsCounted : (f : Factory C I T) → IsCounted f → IsCounted (start f)
  unfolding start
  start-IsCounted f h = elim (Bool-cases f.shutting_down) [
    | inl down ↦ simp down h
    | inr up ↦ simp up (start_loop-IsCounted f.informers f h)
  ]

  goroutine_done-IsCounted :
      (t : String) (f : Factory C I T)
      → contains f.running t ≡ true
      → IsCounted f
      → IsCounted (goroutine_done t f)
  goroutine_done-IsCounted t f runs h = record {
    counted = unfold goroutine_done in omega (arith, h.counted, length-remove t f.running runs);
    started = λ u m. still u m;
    distinct = unfold goroutine_done in remove-Distinct t f.running h.distinct;
  }
    where
      still :
          (u : String)
          → contains (goroutine_done t f).running u ≡ true
          → is_started (goroutine_done t f) u ≡ true
      still u m = unfold goroutine_done is_started in h.started u (contains-remove t u f.running m)

  module _ (set_transform : Option T → I → I) where
    informer_from-IsCounted :
        (t : String) (new_func : C → ℕ → I) (f : Factory C I T) (known : Option I)
        → IsCounted f
        → IsCounted (informer_from set_transform t new_func f known).1
    unfolding informer_from is_started
    informer_from-IsCounted t new_func f none h = record {
      counted = h.counted;
      started = h.started;
      distinct = h.distinct;
    }
    informer_from-IsCounted t new_func f (some i) h = h

    -- Registering an informer leaves the goroutines and the shutdown flag alone.
    pub informer_from-frame :
        (t : String) (new_func : C → ℕ → I) (f : Factory C I T) (known : Option I)
        → let f' = (informer_from set_transform t new_func f known).1 in
          (f'.running ≡ f.running) × (f'.shutting_down ≡ f.shutting_down)
    unfolding informer_from
    informer_from-frame t new_func f none = (refl, refl)
    informer_from-frame t new_func f (some i) = (refl, refl)

    pub Step-IsCounted :
        {r s : Run C I T} → Step set_transform r s → IsCounted r.factory → IsCounted s.factory
    unfolding begin_shutdown is_started informer_for
    Step-IsCounted {r} (call_informer_for t new_func) h =
        informer_from-IsCounted t new_func r.factory (lookup t r.factory.informers) h
    Step-IsCounted call_start h = start-IsCounted _ h
    Step-IsCounted call_shutdown h = record {
      counted = h.counted;
      started = h.started;
      distinct = h.distinct;
    }
    Step-IsCounted (done t runs) h = goroutine_done-IsCounted t _ runs h
    Step-IsCounted (shutdown_returns down idle) h = h

    -- Once the factory shuts down it stays so in every step, and the number of its goroutines does
    -- not grow.
    pub Step-shutting_down :
        {r s : Run C I T}
        → Step set_transform r s
        → r.factory.shutting_down ≡ true
        → (s.factory.shutting_down ≡ true) × (length s.factory.running ≤ length r.factory.running)
    unfolding begin_shutdown informer_for goroutine_done
    Step-shutting_down {r} (call_informer_for t new_func) down =
        let frame = informer_from-frame t new_func r.factory (lookup t r.factory.informers) in
        rw (frame.0, frame.1) (down, omega arith)
    Step-shutting_down {r} call_start down = rw (start_down r.factory down) (down, omega arith)
    Step-shutting_down call_shutdown down = (refl, omega arith)
    Step-shutting_down {r} (done t runs) down =
        (down, omega (arith, length-remove t r.factory.running runs))
    Step-shutting_down (shutdown_returns _ idle) down = (down, omega arith)

    still_quiet :
        {r s : Run C I T}
        → Step set_transform r s
        → (r.factory.shutting_down ≡ true) × (r.factory.running ≡ [])
        → (s.factory.shutting_down ≡ true) × (s.factory.running ≡ [])
    still_quiet {s} step (down, none') =
        let (down', fewer) = Step-shutting_down step down in
        (down', length-zero s.factory.running (omega (arith, fewer, ap length none')))

    Step-quiet :
        {r s : Run C I T}
        → Step set_transform r s
        → IsSound r
        → s.returned ≡ true
        → (s.factory.shutting_down ≡ true) × (s.factory.running ≡ [])
    Step-quiet {r} (shutdown_returns down idle) h e =
        (down, length-zero r.factory.running (omega (arith, h.sound.counted)))
    Step-quiet {r} (call_informer_for t new_func) h e =
        still_quiet {r = r} (call_informer_for t new_func) (h.quiet e)
    Step-quiet {r} call_start h e = still_quiet {r = r} call_start (h.quiet e)
    Step-quiet {r} call_shutdown h e = still_quiet {r = r} call_shutdown (h.quiet e)
    Step-quiet {r} (done t runs) h e = still_quiet {r = r} (done t runs) (h.quiet e)

    Step-IsSound : {r s : Run C I T} → Step set_transform r s → IsSound r → IsSound s
    Step-IsSound step h = record { sound = Step-IsCounted step h.sound; quiet = Step-quiet step h }

    pub Reach-IsSound : {r s : Run C I T} → IsSound r → Reach set_transform r s → IsSound s
    Reach-IsSound h here = h
    Reach-IsSound h (next reach step) = Step-IsSound step (Reach-IsSound h reach)

    -- A factory from `NewFilteredSharedInformerFactory`, before any call.
    abbrev pub fresh : C → ℕ → String → Tweak → Run C I T
    fresh client resync namespace tweak = record {
      factory = new_filtered_factory client resync namespace tweak;
      returned = false;
    }

    pub fresh-IsSound :
        (client : C) (resync : ℕ) (namespace : String) (tweak : Tweak)
        → IsSound (fresh client resync namespace tweak)
    unfolding new_filtered_factory new_factory with_namespace with_tweak_list_options apply_options
    fresh-IsSound client resync namespace tweak = record {
      sound = record { counted = refl; started = λ t m. cc; distinct = tt };
      quiet = λ e. cc;
    }

    -- In every state that a new factory reaches, by calls of `InformerFor`, `Start` and `Shutdown`
    -- and by ends of goroutines in any order: the wait group counts the running goroutines, each
    -- informer is run by at most one of them, and when a call of `Shutdown` has returned no goroutine
    -- runs.
    pub Reach-sound :
        (client : C) (resync : ℕ) (namespace : String) (tweak : Tweak) {r : Run C I T}
        → Reach set_transform (fresh client resync namespace tweak) r
        → (r.factory.wait_group ≡ length r.factory.running)
          × Distinct r.factory.running
          × (r.returned ≡ true → r.factory.running ≡ [])
    Reach-sound client resync namespace tweak reach =
        let h = Reach-IsSound (fresh-IsSound client resync namespace tweak) reach in
        (h.sound.counted, h.sound.distinct, λ e. (h.quiet e).1)
