-- ===== src/Lister/Contents.antt =====
-- What the listers return, over a cache that lists what it holds.
use knative_serving_wasm.Prelude.{
  ◌≡◌, ap, ◌∙◌, refl, Bool, true, none, List, [], ◌∷◌, ◌++◌, if◌then◌else◌,
}
use mathlib.Core.List.{append-nil, append_assoc}
use knative_serving_wasm.Api.Types.{WasmModule}
use knative_serving_wasm.Lister.{
  Selector, AppendFunc, Indexer, WasmModuleLister, append, list_modules,
}

-- The objects that pass a test, in their order.
unfoldable pub kept : (WasmModule → Bool) → List WasmModule → List WasmModule
kept test [] = []
kept test (m ∷ ms) = if test m then m ∷ kept test ms else kept test ms

-- A function applied to each of a list of objects, in order.
pub append_all : AppendFunc → List WasmModule → List WasmModule → List WasmModule
append_all f [] ret = ret
append_all f (m ∷ ms) ret = append_all f ms (f m ret)

-- The documented behaviour of `ListAll`: the function is applied to each object that the cache holds
-- and whose labels the selector matches; `stored` has the objects in the order in which the cache lists
-- them in a world.
pub record ListsCache {Err W : Type 0} (indexer : Indexer Err W) (stored : W → List WasmModule)
    : Type 0 where
  pub list_all_lem :
      (sel : Selector) (f : AppendFunc) (ret : List WasmModule) (w : W)
      → indexer.list_all sel f ret w
        ≡ (append_all f (kept (λ m. sel m.labels) (stored w)) ret, none)

append_all-append : (ms ret : List WasmModule) → append_all append ms ret ≡ ret ++ ms
unfolding append_all
append_all-append [] ret = rw append-nil
append_all-append (m ∷ ms) ret =
    append_all-append ms (ret ++ (m ∷ [])) ∙ append_assoc ret (m ∷ []) ms

pub kept-true : (ms : List WasmModule) → kept (λ _. true) ms ≡ ms
unfolding kept
kept-true [] = refl
kept-true (m ∷ ms) = ap (λ r. m ∷ r) (kept-true ms)

module _ {Err W : Type 0} (s : WasmModuleLister Err W) (stored : W → List WasmModule)
    (law : ListsCache s.indexer stored) (sel : Selector) (w : W) where
  -- A list of all namespaces holds the cached objects that match, in the cache's order.
  pub list_modules-kept : list_modules s sel w ≡ (kept (λ m. sel m.labels) (stored w), none)
  unfolding list_modules
  list_modules-kept = law.list_all_lem sel append [] w ∙ rw append_all-append
