-- ===== src/Platform/Laws.antt =====
-- Documented behaviour of the libraries, as hypotheses of the theorems that need it.
use knative_serving_wasm.Prelude.{
  ℕ, zero, suc, ◌+◌, String, ◌==◌, ◌≡◌, Bool, true, false, Option, none, some, List, Effect,
  contains, if◌then◌else◌,
}
use knative_serving_wasm.Api.Types.{WasmModule, WasmModuleStatus}
use knative_serving_wasm.Platform.Types.{Sets, Updater, Platform}
use knative_serving_wasm.Platform.GoError.{Errors, GroupResource}

-- Sets of texts: `New`, `Insert`, `Delete` and `List` by their members.
pub record SetsLaws (S : Type 0) (sets : Sets S) : Type 0 where
  pub has-new : (l : List String) (x : String) → sets.has (sets.new l) x ≡ contains l x
  pub has-insert :
      (s : S) (y x : String)
      → sets.has (sets.insert s y) x ≡ (if y == x then true else sets.has s x)
  pub has-delete :
      (s : S) (y x : String)
      → sets.has (sets.delete s y) x ≡ (if y == x then false else sets.has s x)
  pub contains-to_list : (s : S) (x : String) → contains (sets.to_list s) x ≡ sets.has s x

-- `DeepEqual` holds of a value and itself.
abbrev pub IsReflexive : (WasmModuleStatus → WasmModuleStatus → Bool) → Type 0
IsReflexive deep_equal = (s : WasmModuleStatus) → deep_equal s s ≡ true

-- `retry.OnError` with a limit on the calls: a call that fails with a retriable error is followed
-- by another, until `retries` calls have followed the first.
module _ {Err W : Type 0} (retriable : Err → Bool) (f : Updater Err W) where
  unfoldable pub retry_loop : ℕ → ℕ → WasmModule → Effect W (Option Err × WasmModule)
  retry_loop zero attempts existing w = f attempts existing w
  retry_loop (suc retries) attempts existing w =
      let ((e, s), w1) = f attempts existing w in
      elim e [
        | none ↦ ((none, s), w1)
        | some x ↦ elim (retriable x) [
          | true ↦ retry_loop retries (attempts + 1) s w1
          | false ↦ ((some x, s), w1)
        ]
      ]

-- `RetryUpdateConflicts` repeats the updater on conflicts, `retries` times at most.
pub record RetriesConflicts {Ctx Err S W : Type 0} (p : Platform Ctx Err S W) : Type 0 where
  pub retries : ℕ
  pub runs :
      (f : Updater Err W) (existing : WasmModule) (w : W)
      → p.retry_update_conflicts f existing w
        ≡ retry_loop p.errors.is_conflict f retries 0 existing w

-- Key errors and events are told apart: what `errors.As` and `errors.Is` find.
pub record ErrorsLaws {Err : Type 0} (e : Errors Err) : Type 0 where
  pub is_event_as : (x : Err) → e.event_as x ≡ none → e.is_event x ≡ false
  pub new_skip_key_is : (key : String) → e.is_skip_key (e.new_skip_key key) ≡ true
  pub new_not_found_is :
      (resource : GroupResource) (name : String)
      → e.is_not_found (e.new_not_found resource name) ≡ true
  pub event_as-wrap : (m : String) (x : Err) → e.event_as (e.wrap m x) ≡ e.event_as x
  pub is_event-wrap : (m : String) (x : Err) → e.is_event (e.wrap m x) ≡ false
