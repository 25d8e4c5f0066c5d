-- ===== src/Injection/Filtered/Opened.antt =====
-- The loop that opens an informer for each selector, on the selector's factory.
use knative_serving_wasm.Prelude.{
  ℕ, suc, String, ◌==◌, eq_iff, ◌≡◌, ◌∙◌, sym, refl, ap, Bool-cases, inl, inr, true, false, Option,
  none, some, List, [], ◌∷◌, arith, contains, length,
}
use knative_serving_wasm.Cells.{Memory, load, write, load-write_any}
use knative_serving_wasm.Informers.Factory.{Factory, lookup, insert, informer_from, informer_for}
use knative_serving_wasm.Informers.Listing.{Scope, wasm, scope_of}
use knative_serving_wasm.Injection.Heap.{Context, ModuleInformer, Call, and_then, required}
use knative_serving_wasm.Injection.Sharing.{opened, open_informer-opened}
use knative_serving_wasm.Injection.{
  selector_factory, get_selector_factory, get_selector_informer, module_informer, open_informer,
  add_informers,
}
use knative_serving_wasm.Injection.Filtered.Factories.{IsReady}

module _ {C I T : Type 0} (c : C) (set_transform : Option T → I → I)
    (default_informer : Scope → C → ℕ → I) where
  informer_from-scope :
      (t : String) (new_func : C → ℕ → I) (f : Factory C I T) (known : Option I)
      → scope_of (informer_from set_transform t new_func f known).1 ≡ scope_of f
  unfolding informer_from scope_of wasm
  informer_from-scope t new_func f none = refl
  informer_from-scope t new_func f (some i) = refl

  opened-scope :
      (f : Factory C I T) → scope_of (opened set_transform default_informer f).1 ≡ scope_of f
  unfolding informer_for
  opened-scope f =
      informer_from-scope "WasmModule" (default_informer (scope_of f)) f
        (lookup "WasmModule" f.informers)

  -- The informer of a selector stands on the selector's factory.
  abbrev pub Serves : Context C → Context C → String → Type 0
  Serves ctx ctx' s =
      (m : ModuleInformer) × (get_selector_informer ctx' s ≡ some m)
      × (get_selector_factory ctx s ≡ some m.factory)
      × (m.scope ≡ scope_of (selector_factory {I = I} {T = T} c ctx.resync ctx.namespace_scope s))

  -- What the loop gives: an informer for each selector, in their number; the others stay.
  abbrev pub Added : List String → Context C → Memory (Factory C I T) → Type 0
  Added selectors ctx heap =
      (ctx' : Context C) × (infs : List I) × (heap' : Memory (Factory C I T)) × (add_informers
          set_transform default_informer selectors ctx heap
        ≡ some ((ctx', infs), heap'))
      × (length infs ≡ length selectors)
      × ((s : String) → contains selectors s ≡ true → Serves ctx ctx' s)
      × ((s : String)
          → contains selectors s ≡ false
          → get_selector_informer ctx' s ≡ get_selector_informer ctx s)

  -- Opening one informer keeps the factories of the selectors ready.
  IsReady-write :
      (ctx : Context C) (heap : Memory (Factory C I T)) (p : ℕ) (f : Factory C I T) (s : String)
      → load heap p ≡ some f
      → IsReady c ctx heap s
      → IsReady c ctx (write heap p (opened set_transform default_informer f).1) s
  IsReady-write ctx heap p f s held (q, g, at, held', scope) =
      elim (load-write_any heap p q (opened set_transform default_informer f).1 held held') [
        | inl same ↦ (q, g, at, same, scope)
        | inr (new, e) ↦ (
          q,
          (opened set_transform default_informer f).1,
          at,
          new,
          opened-scope f ∙ (ap scope_of e ∙ scope),
        )
      ]

  module _ (t : String) (rest : List String) (ctx : Context C) (heap : Memory (Factory C I T))
      (p : ℕ) (f : Factory C I T) (at : get_selector_factory ctx t ≡ some p)
      (held : load heap p ≡ some f)
      (scope : scope_of f
        ≡ scope_of (selector_factory {I = I} {T = T} c ctx.resync ctx.namespace_scope t)) where
    abbrev with_first : Context C
    with_first = record ctx { informers = insert t (module_informer p f) ctx.informers }

    abbrev heap_first : Memory (Factory C I T)
    heap_first = write heap p (opened set_transform default_informer f).1

    -- The informers of the other selectors, after the first one.
    abbrev following :
        Option ((Context C × List I) × Memory (Factory C I T))
        → Option ((Context C × List I) × Memory (Factory C I T))
    following r = and_then r (λ (ctx', infs) heap''.
        some ((ctx', (opened set_transform default_informer f).0 ∷ infs), heap''))

    add_informers-first :
        add_informers set_transform default_informer (t ∷ rest) ctx heap
        ≡ following (add_informers set_transform default_informer rest with_first heap_first)
    unfolding add_informers
    add_informers-first =
        ap (λ o. required o from_factory heap) at
        ∙ ap (λ r. and_then r then_rest)
            (open_informer-opened set_transform default_informer p f heap held)
      where
        then_rest : ModuleInformer × I → Call C I T (Context C × List I)
        then_rest = λ (m, i) heap'.
            and_then
              (add_informers set_transform default_informer rest
                (record ctx { informers = insert t m ctx.informers }) heap')
              (λ (ctx', infs) heap''. some ((ctx', i ∷ infs), heap''))

        from_factory : ℕ → Call C I T (Context C × List I)
        from_factory =
            λ q heap'. and_then (open_informer set_transform default_informer q heap') then_rest

    informer-other :
        (s : String)
        → (t == s) ≡ false
        → get_selector_informer with_first s ≡ get_selector_informer ctx s
    unfolding get_selector_informer lookup
    informer-other s other = rw other refl

    first-Serves :
        (ctx' : Context C) (s : String)
        → (t == s) ≡ true
        → get_selector_informer ctx' s ≡ get_selector_informer with_first s
        → Serves ctx ctx' s
    unfolding get_selector_informer lookup module_informer
    first-Serves ctx' s same unchanged =
        let e : t ≡ s = ground (arith, eq_iff t s) in
        (
          module_informer p f,
          unchanged ∙ (rw same refl),
          ap (λ a. get_selector_factory ctx a) (sym e) ∙ at,
          scope
              ∙ ap
                  (λ a.
                    scope_of (selector_factory {I = I} {T = T} c ctx.resync ctx.namespace_scope a))
                  e,
        )

    Added-cons : Added rest with_first heap_first → Added (t ∷ rest) ctx heap
    unfolding get_selector_factory
    Added-cons (ctx', infs, heap', eq, count, serves, others) = (
      ctx',
      (opened set_transform default_informer f).0 ∷ infs,
      heap',
      add_informers-first ∙ ap following eq,
      ap suc count,
      λ s h. elim (Bool-cases (contains rest s)) [
        | inl later ↦ serves s later
        | inr not_later ↦ first-Serves ctx' s (ground arith) (others s not_later)
      ],
      λ s h. others s (ground arith) ∙ informer-other s (ground arith),
    )

  pub add_informers-Added :
      (selectors : List String) (ctx : Context C) (heap : Memory (Factory C I T))
      → ((s : String) → contains selectors s ≡ true → IsReady c ctx heap s)
      → Added selectors ctx heap
  unfolding add_informers
  add_informers-Added [] ctx heap ready =
      (ctx, [], heap, refl, refl, λ s h. absurd (cc), λ s h. refl)
  add_informers-Added (t ∷ rest) ctx heap ready =
      let (p, f, at, held, scope) = ready t (ground (arith, eq_iff t t)) in
      Added-cons t rest ctx heap p f at held scope (
        add_informers-Added rest (with_first t rest ctx heap p f at held scope)
          (heap_first t rest ctx heap p f at held scope)
          (λ s h. IsReady-write ctx heap p f s held (ready s (ground arith))))
