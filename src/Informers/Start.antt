-- ===== src/Informers/Start.antt =====
-- `Start` and `InformerFor`: every registered informer runs once.
use knative_serving_wasm.Prelude.{
  String, ◌==◌, ◌≡◌, refl, ◌∙◌, sym, ap, subst, inl, inr, Bool, true, false, List, [], ◌∷◌, arith,
  eq_iff, Bool-cases, if◌then◌else◌,
}
use knative_serving_wasm.Informers.Factory.{
  Factory, lookup, is_started, launch, start_loop, start, sync_results, started_of,
  wait_for_cache_sync,
}

module _ {C I T : Type 0} where
  -- Every entry of a map of informers is started.
  abbrev pub AllStarted : List (String × I) → Factory C I T → Type 0
  AllStarted [] f = Unit
  AllStarted ((t, _) ∷ rest) f = (is_started f t ≡ true) × AllStarted rest f

  pub is_started-launch :
      (t u : String) (f : Factory C I T)
      → is_started (launch t f) u ≡ (if t == u then true else is_started f u)
  unfolding is_started launch lookup
  is_started-launch t u f = ground arith

  -- Started informers stay started.
  start_loop_keeps :
      (rest : List (String × I)) (t : String) (f : Factory C I T)
      → is_started f t ≡ true
      → is_started (start_loop rest f) t ≡ true
  unfolding start_loop
  start_loop_keeps [] t f h = h
  start_loop_keeps ((u, _) ∷ rest) t f h = elim (Bool-cases (is_started f u)) [
    | inl old ↦ rw old (start_loop_keeps rest t f h)
    | inr new ↦
        rw new (start_loop_keeps rest t (launch u f) (ground (arith, is_started-launch u t f)))
  ]

  start_loop-AllStarted :
      (rest : List (String × I)) (f : Factory C I T) → AllStarted rest (start_loop rest f)
  unfolding start_loop
  start_loop-AllStarted [] f = tt
  start_loop-AllStarted ((t, _) ∷ rest) f = elim (Bool-cases (is_started f t)) [
    | inl old ↦ rw old (start_loop_keeps rest t f old, start_loop-AllStarted rest f)
    | inr new ↦ rw new (
      start_loop_keeps rest t (launch t f) (ground (arith, is_started-launch t t f, eq_iff t t)),
      start_loop-AllStarted rest (launch t f),
    )
  ]

  start_loop_idle :
      (rest : List (String × I)) (f : Factory C I T) → AllStarted rest f → start_loop rest f ≡ f
  unfolding start_loop
  start_loop_idle [] f h = refl
  start_loop_idle ((t, _) ∷ rest) f (started, h) = rw started (start_loop_idle rest f h)

  -- The loop leaves the registered informers and the shutdown flag as they are.
  start_loop_frame :
      (rest : List (String × I)) (f : Factory C I T)
      → ((start_loop rest f).informers ≡ f.informers)
        × ((start_loop rest f).shutting_down ≡ f.shutting_down)
  unfolding start_loop launch
  start_loop_frame [] f = (refl, refl)
  start_loop_frame ((t, _) ∷ rest) f =
      ground (arith, start_loop_frame rest f, start_loop_frame rest (launch t f))

  start_running : (f : Factory C I T) → f.shutting_down ≡ false → start f ≡ start_loop f.informers f
  unfolding start
  start_running f up = ground arith

  start-AllStarted :
      (f : Factory C I T) → f.shutting_down ≡ false → AllStarted (start f).informers (start f)
  start-AllStarted f up =
      let g = start_loop f.informers f in
      let e = start_running f up in
      let all =
        subst (λ m. AllStarted m g) (sym (start_loop_frame f.informers f).0)
          (start_loop-AllStarted f.informers f) in
      subst (λ h. AllStarted h.informers h) (sym e) all

  -- `Start` may be called again safely: the second of two calls changes nothing.
  pub start_twice : (f : Factory C I T) → start (start f) ≡ start f
  unfolding start
  start_twice f = elim (Bool-cases f.shutting_down) [
    | inl down ↦ ground arith
    | inr up ↦
        start_running (start f) (
          ap (λ h. h.shutting_down) (start_running f up)
          ∙ ((start_loop_frame f.informers f).1 ∙ up))
        ∙ start_loop_idle (start f).informers (start f) (start-AllStarted f up)
  ]

  started_of-AllStarted :
      (rest : List (String × I)) (f : Factory C I T) → AllStarted rest f → started_of f rest ≡ rest
  unfolding started_of
  started_of-AllStarted [] f h = refl
  started_of-AllStarted ((t, i) ∷ rest) f (started, h) =
      rw started (ap (λ r. (t, i) ∷ r) (started_of-AllStarted rest f h))

  -- After `Start` on a factory that is not shutting down every registered informer is started, and
  -- `WaitForCacheSync` waits for each of them, and for no other.
  pub wait_for_cache_sync-start :
      (wait : I → Bool) (f : Factory C I T)
      → f.shutting_down ≡ false
      → AllStarted f.informers (start f)
        × (wait_for_cache_sync wait (start f) ≡ sync_results wait f.informers)
  unfolding wait_for_cache_sync
  wait_for_cache_sync-start wait f up =
      let same = ap (λ h. h.informers) (start_running f up) ∙ (start_loop_frame f.informers f).0 in
      let all = subst (λ m. AllStarted m (start f)) same (start-AllStarted f up) in
      (
        all,
        ap (sync_results wait)
            (ap (started_of (start f)) same ∙ started_of-AllStarted f.informers (start f) all),
      )
