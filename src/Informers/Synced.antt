-- ===== src/Informers/Synced.antt =====
-- What `WaitForCacheSync` reports of a type, before `Start` and after it.
use knative_serving_wasm.Prelude.{
  String, ◌==◌, eq_iff, ◌≡◌, refl, ap, ◌∙◌, subst, inl, inr, Bool, true, false, Bool-cases, Option,
  none, some, List, [], ◌∷◌, arith,
}
use mathlib.Core.Option
use knative_serving_wasm.Informers.Factory.{
  Factory, NewInformer, lookup, is_started, start, sync_results, started_of, wait_for_cache_sync,
  resync_period, informer_from, informer_for,
}
use knative_serving_wasm.Informers.Registry.{lookup-informer_for}
use knative_serving_wasm.Informers.Start.{AllStarted, wait_for_cache_sync-start}

lookup-sync_results :
    {I : Type 0} (wait : I → Bool) (t : String) (l : List (String × I))
    → lookup t (sync_results wait l) ≡ Option.map wait (lookup t l)
unfolding lookup sync_results
lookup-sync_results wait t [] = refl
lookup-sync_results wait t ((u, i) ∷ l) = elim (Bool-cases (u == t)) [
  | inl e ↦ rw e refl
  | inr e ↦ rw e (lookup-sync_results wait t l)
]

module _ {C I T : Type 0} where
  AllStarted-lookup :
      (l : List (String × I)) (f : Factory C I T) (t : String) {x : I}
      → AllStarted l f
      → lookup t l ≡ some x
      → is_started f t ≡ true
  unfolding lookup
  AllStarted-lookup [] f t all h = absurd (cc)
  AllStarted-lookup ((u, i) ∷ l) f t (started, all) h = elim (Bool-cases (u == t)) [
    | inl e ↦ subst (λ v. is_started f v ≡ true) (ground (arith, eq_iff u t)) started
    | inr e ↦ AllStarted-lookup l f t all (rw e at h)
  ]

  -- Only started informers are waited for.
  lookup-started_of :
      (f : Factory C I T) (t : String) (l : List (String × I))
      → is_started f t ≡ false
      → lookup t (started_of f l) ≡ none
  unfolding lookup started_of
  lookup-started_of f t [] h = refl
  lookup-started_of f t ((u, i) ∷ l) h = elim (Bool-cases (is_started f u)) [
    | inr e ↦ rw e (lookup-started_of f t l h)
    | inl e ↦ elim (Bool-cases (u == t)) [
      | inl same ↦
          let u_is_t : u ≡ t = ground (arith, eq_iff u t) in
          let started : is_started f t ≡ true = subst (λ v. is_started f v ≡ true) u_is_t e in
          absurd (ground arith)
      | inr other ↦ rw (e, other) (lookup-started_of f t l h)
    ]
  ]

  pub wait_for_cache_sync-unstarted :
      (wait : I → Bool) (f : Factory C I T) (t : String)
      → is_started f t ≡ false
      → lookup t (wait_for_cache_sync wait f) ≡ none
  unfolding wait_for_cache_sync
  wait_for_cache_sync-unstarted wait f t h =
      lookup-sync_results wait t (started_of f f.informers)
      ∙ ap (Option.map wait) (lookup-started_of f t f.informers h)

  module _ (set_transform : Option T → I → I) (t : String) (g : NewInformer C I)
      (f : Factory C I T) where
    pub informer_for-down : (informer_for set_transform t g f).1.shutting_down ≡ f.shutting_down
    unfolding informer_for informer_from resync_period
    informer_for-down = ground arith

    pub informer_for-started :
        (u : String) → is_started (informer_for set_transform t g f).1 u ≡ is_started f u
    unfolding informer_for informer_from resync_period is_started
    informer_for-started u = ground arith

    lookup-requested :
        lookup t (informer_for set_transform t g f).1.informers
        ≡ some (informer_for set_transform t g f).0
    lookup-requested = lookup-informer_for set_transform t g f t ∙ ground (arith, eq_iff t t)

    module _ (up : f.shutting_down ≡ false) where
      pub start-requested : is_started (start (informer_for set_transform t g f).1) t ≡ true
      start-requested =
          let f₁ = (informer_for set_transform t g f).1 in
          AllStarted-lookup f₁.informers (start f₁) t
            (wait_for_cache_sync-start (λ _. true) f₁ (informer_for-down ∙ up)).0 lookup-requested

      pub wait_for_cache_sync-requested :
          (wait : I → Bool)
          → lookup t (wait_for_cache_sync wait (start (informer_for set_transform t g f).1))
            ≡ some (wait (informer_for set_transform t g f).0)
      wait_for_cache_sync-requested wait =
          let f₁ = (informer_for set_transform t g f).1 in
          ap (lookup t) (wait_for_cache_sync-start wait f₁ (informer_for-down ∙ up)).1
          ∙ (lookup-sync_results wait t f₁.informers ∙ ap (Option.map wait) lookup-requested)
