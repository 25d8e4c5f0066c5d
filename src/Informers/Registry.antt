-- ===== src/Informers/Registry.antt =====
-- `InformerFor`: one informer for each type.
use knative_serving_wasm.Prelude.{
  ℕ, String, ◌==◌, ◌≡◌, Option, none, some, arith, eq_iff, inl, inr, Option-cases, if◌then◌else◌,
}
use knative_serving_wasm.Informers.Factory.{
  Factory, lookup, resync_period, informer_from, informer_for,
}

module _ {C I T : Type 0} (set_transform : Option T → I → I) (t : String) (new_func : C → ℕ → I)
    (f : Factory C I T) where
  -- The informer that a call returns.
  abbrev pub informer : I
  informer = (informer_for set_transform t new_func f).0

  abbrev pub registered : Factory C I T
  registered = (informer_for set_transform t new_func f).1

  -- A call registers the informer that it returns, and leaves those of all other types.
  pub lookup-informer_for :
      (u : String)
      → lookup u registered.informers ≡ (if t == u then some informer else lookup u f.informers)
  unfolding informer_for informer_from lookup
  lookup-informer_for u = elim (Option-cases (lookup t f.informers)) [
    | inl new ↦ ground (arith, new)
    | inr (i, old) ↦ ground (arith, old, eq_iff t u)
  ]

  -- The informers are shared: a later call for the type returns the first call's informer, whatever
  -- function it brings, and registers nothing.
  pub informer_for_shared :
      (later : C → ℕ → I) → informer_for set_transform t later registered ≡ (informer, registered)
  unfolding informer_for informer_from lookup
  informer_for_shared later = ground (arith, eq_iff t t)

  -- A first call for a type with a custom resync period makes the informer with that period, and
  -- gives it the factory's transform.
  pub informer_for_new :
      {period : ℕ}
      → lookup t f.informers ≡ none
      → lookup t f.custom_resync ≡ some period
      → informer ≡ set_transform f.transform (new_func f.client period)
  unfolding informer_for informer_from resync_period
  informer_for_new new custom = ground arith
