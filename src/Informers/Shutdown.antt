-- ===== src/Informers/Shutdown.antt =====
-- `Start`, `Shutdown` and the goroutines of the informers, interleaved. Each step holds the
-- factory's lock, except that a goroutine ends and a waiting `Shutdown` returns without it.
pub mod Safety
pub mod Liveness
use knative_serving_wasm.Prelude.{
  ℕ, zero, suc, ◌+◌, ◌-◌, ◌≤◌, String, ◌==◌, ◌≡◌, refl, ◌||◌, Bool, true, false, not, Option, List,
  [], ◌∷◌, arith, eq_iff, contains, length, Bool-cases, inl, inr, if◌then◌else◌,
}
use knative_serving_wasm.Informers.Start.{is_started-launch}
use knative_serving_wasm.Informers.Factory.{
  Factory, FactoryOption, lookup, insert, remove, is_started, launch, start_loop, start,
  begin_shutdown, goroutine_done, informer_for, new_factory,
}

-- A factory, and whether some call of `Shutdown` has returned.
pub record Run (C I T : Type 0) : Type 0 where
  pub factory : Factory C I T
  pub returned : Bool

module _ {C I T : Type 0} (set_transform : Option T → I → I) where
  pub data Step (r : Run C I T) : Run C I T → Type 0 where
    call_informer_for :
        (t : String) (new_func : C → ℕ → I)
        → Step r (record r { factory = (informer_for set_transform t new_func r.factory).1 })
    call_start : Step r (record r { factory = start r.factory })
    call_shutdown : Step r (record r { factory = begin_shutdown r.factory })
    done :
        (t : String)
        → contains r.factory.running t ≡ true
        → Step r (record r { factory = goroutine_done t r.factory })
    shutdown_returns :
        r.factory.shutting_down ≡ true
        → r.factory.wait_group ≡ 0
        → Step r (record r { returned = true })

  pub data Reach (r : Run C I T) : Run C I T → Type 0 where
    here : Reach r r
    next : {s t : Run C I T} → Reach r s → Step s t → Reach r t

-- No type stands twice in a list.
abbrev pub Distinct : List String → Type 0
Distinct [] = Unit
Distinct (t ∷ ts) = (contains ts t ≡ false) × Distinct ts

-- The wait group counts the goroutines, which run started informers, each once.
pub record IsCounted {C I T : Type 0} (f : Factory C I T) : Type 0 where
  pub counted : f.wait_group ≡ length f.running
  pub started : (t : String) → contains f.running t ≡ true → is_started f t ≡ true
  pub distinct : Distinct f.running

-- So at all times; and once `Shutdown` has returned the factory is shutting down and no goroutine
-- runs.
pub record IsSound {C I T : Type 0} (r : Run C I T) : Type 0 where
  pub sound : IsCounted r.factory
  pub quiet : r.returned ≡ true → (r.factory.shutting_down ≡ true) × (r.factory.running ≡ [])

pub contains-remove :
    (t u : String) (ts : List String) → contains (remove t ts) u ≡ true → contains ts u ≡ true
unfolding remove
contains-remove t u (x ∷ xs) h = ground (arith, contains-remove t u xs)
contains-remove t u [] h = h

pub length-remove :
    (t : String) (ts : List String) → contains ts t ≡ true → length (remove t ts) + 1 ≡ length ts
unfolding remove
length-remove t [] h = cc
length-remove t (x ∷ xs) h = ground (arith, length-remove t xs)

pub remove-Distinct : (t : String) (ts : List String) → Distinct ts → Distinct (remove t ts)
unfolding remove
remove-Distinct t [] h = h
remove-Distinct t (x ∷ xs) (new, h) = elim (Bool-cases (x == t)) [
  | inl same ↦ rw same h
  | inr other ↦ rw other (ground (arith, contains-remove t x xs), remove-Distinct t xs h)
]

module _ {C I T : Type 0} where
  launch-IsCounted :
      (t : String) (f : Factory C I T)
      → is_started f t ≡ false
      → IsCounted f
      → IsCounted (launch t f)
  launch-IsCounted t f new h = record {
    counted = unfold launch in omega (arith, h.counted);
    started = λ u m. launched u m;
    distinct = unfold launch in (ground (arith, h.started t), h.distinct);
  }
    where
      launched :
          (u : String) → contains (launch t f).running u ≡ true → is_started (launch t f) u ≡ true
      launched u m = unfold launch in ground (arith, h.started u, is_started-launch t u f)

  pub start_loop-IsCounted :
      (rest : List (String × I)) (f : Factory C I T) → IsCounted f → IsCounted (start_loop rest f)
  unfolding start_loop
  start_loop-IsCounted [] f h = h
  start_loop-IsCounted ((t, _) ∷ rest) f h = start_loop-IsCounted rest _ next
    where
      next : IsCounted (if not (is_started f t) then launch t f else f)
      next = elim (Bool-cases (is_started f t)) [
        | inl old ↦ rw old h
        | inr new ↦ rw new (launch-IsCounted t f new h)
      ]
