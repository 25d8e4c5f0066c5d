-- ===== src/Injection/Filtered/Factories.antt =====
-- The loop that makes a factory for each selector.
use knative_serving_wasm.Prelude.{
  ℕ, String, ◌==◌, eq_iff, ◌≡◌, refl, ap, Bool-cases, ◌⊎◌, inl, inr, true, false, some, List, [],
  ◌∷◌, arith, contains,
}
use knative_serving_wasm.Cells.{Memory, alloc, load, load-alloc, load-alloc-some}
use knative_serving_wasm.Informers.Factory.{Factory, lookup, insert}
use knative_serving_wasm.Informers.Listing.{scope_of}
use knative_serving_wasm.Injection.Heap.{Context}
use knative_serving_wasm.Injection.{selector_factory, get_selector_factory, add_factories}

module _ {C I T : Type 0} (c : C) where
  -- The context has a factory for a selector, whose informers are those of the selector.
  abbrev pub IsReady : Context C → Memory (Factory C I T) → String → Type 0
  IsReady ctx heap s =
      (p : ℕ) × (f : Factory C I T) × (get_selector_factory ctx s ≡ some p)
      × (load heap p ≡ some f)
      × (scope_of f
          ≡ scope_of (selector_factory {I = I} {T = T} c ctx.resync ctx.namespace_scope s))

  -- One more factory.
  module _ (ctx : Context C) (heap : Memory (Factory C I T)) (t : String) where
    abbrev made : ℕ × Memory (Factory C I T)
    made = alloc (selector_factory c ctx.resync ctx.namespace_scope t) heap

    abbrev added : Context C
    added = record ctx { factories = insert t made.0 ctx.factories }

    added-same : (s : String) → (t == s) ≡ true → IsReady added made.1 s
    unfolding get_selector_factory lookup
    added-same s h = (
      made.0,
      selector_factory c ctx.resync ctx.namespace_scope t,
      rw h refl,
      load-alloc heap (selector_factory c ctx.resync ctx.namespace_scope t),
      ap (λ a. scope_of (selector_factory {I = I} {T = T} c ctx.resync ctx.namespace_scope a))
          (ground (arith, eq_iff t s)),
    )

    added-other : (s : String) → (t == s) ≡ false → IsReady ctx heap s → IsReady added made.1 s
    unfolding get_selector_factory lookup
    added-other s h (p, f, at, held, scope) = (p, f, rw h at, load-alloc-some heap p _ held, scope)

  -- The loop makes a factory for each selector, and keeps those of other selectors.
  pub add_factories-IsReady :
      (selectors : List String) (ctx : Context C) (heap : Memory (Factory C I T)) (s : String)
      → (contains selectors s ≡ true) ⊎ IsReady ctx heap s
      → IsReady (add_factories c selectors ctx heap).0 (add_factories c selectors ctx heap).1 s
  unfolding add_factories
  add_factories-IsReady [] ctx heap s (inl h) = absurd (cc)
  add_factories-IsReady [] ctx heap s (inr h) = h
  add_factories-IsReady (t ∷ rest) ctx heap s h =
      add_factories-IsReady rest (added ctx heap t) (made ctx heap t).1 s
        (elim (Bool-cases (t == s)) [
          | inl same ↦ inr (added-same ctx heap t s same)
          | inr other ↦ elim h [
            | inl found ↦ inl (ground arith)
            | inr ready ↦ inr (added-other ctx heap t s other ready)
          ]
        ])

  pub add_factories-frame :
      (selectors : List String) (ctx : Context C) (heap : Memory (Factory C I T))
      → let ctx' = (add_factories c selectors ctx heap).0 in
        (ctx'.selectors ≡ ctx.selectors)
        × (ctx'.resync ≡ ctx.resync)
        × (ctx'.namespace_scope ≡ ctx.namespace_scope)
  unfolding add_factories
  add_factories-frame [] ctx heap = (refl, refl, refl)
  add_factories-frame (t ∷ rest) ctx heap =
      add_factories-frame rest (added ctx heap t) (made ctx heap t).1
