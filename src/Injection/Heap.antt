-- ===== src/Injection/Heap.antt =====
-- The context that the injection fills (pkg/client/injection), by its values, and the heap of the
-- factories that it points to. A panic ends the program: `none`, as a result.
use knative_serving_wasm.Prelude.{ℕ, String, Option, none, some, List}
use knative_serving_wasm.Cells.{Memory, load, write}
use knative_serving_wasm.Informers.Factory.{Factory}
use knative_serving_wasm.Informers.Listing.{Scope}

-- Values under keys that hold a selector.
abbrev pub Values : Type 0 → Type 0
Values V = List (String × V)

-- `wasmModuleInformer`: the factory that it points to, the namespace and the tweak.
pub record ModuleInformer : Type 0 where
  pub factory : ℕ
  pub scope : Scope

-- `context.Context`, by the keys of the packages and of knative.dev/pkg that the injection reads:
-- `client` stands under `client.Key`, `selectors` under `filtered.LabelKey`, `factory` and
-- `factories` under the keys of the packages factory and filtered, `informer` and `informers` under
-- those of wasmmodule and its package filtered. `namespace_scope` and `resync` are knative.dev's.
pub record Context (C : Type 0) : Type 0 where
  pub client : Option C
  pub selectors : Option (List String)
  pub factory : Option ℕ
  pub factories : Values ℕ
  pub informer : Option ModuleInformer
  pub informers : Values ModuleInformer
  pub namespace_scope : Option String
  pub resync : ℕ

-- A call that reads and changes factories, and may panic.
abbrev pub Call : Type 0 → Type 0 → Type 0 → Type 0 → Type 0
Call C I T A = Memory (Factory C I T) → Option (A × Memory (Factory C I T))

module _ {C I T A B : Type 0} where
  -- A call, and then one that takes its result.
  abbrev pub and_then :
      Option (A × Memory (Factory C I T)) → (A → Call C I T B) → Option (B × Memory (Factory C I T))
  and_then none next = none
  and_then (some (a, heap)) next = next a heap

  -- A value of the context, where a missing one is a panic.
  abbrev pub required : Option A → (A → Call C I T B) → Call C I T B
  required none next heap = none
  required (some a) next heap = next a heap

module _ {C I T : Type 0} where
  -- A method of the factory that a reference points to.
  abbrev pub on_loaded :
      {A : Type 0}
      → ℕ
      → (Factory C I T → A × Factory C I T)
      → Memory (Factory C I T)
      → Option (Factory C I T)
      → Option (A × Memory (Factory C I T))
  on_loaded p method heap none = none
  on_loaded p method heap (some f) = some ((method f).0, write heap p (method f).1)

  abbrev pub on_factory : {A : Type 0} → ℕ → (Factory C I T → A × Factory C I T) → Call C I T A
  on_factory p method heap = on_loaded p method heap (load heap p)
