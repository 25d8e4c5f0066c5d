-- ===== src/FakeClient/Agreement.antt =====
-- The fake client against the typed client: what both are asked for, and what a list returns.
use knative_serving_wasm.Prelude.{
  ◌≡◌, refl, ap, ◌∙◌, Bool, true, false, Option, none, some, List, [], ◌∷◌, ◌++◌, if◌then◌else◌,
}
use mathlib.Core.List.{append-nil, append_assoc}
use knative_serving_wasm.Api.Types.{WasmModule, WasmModuleList}
use knative_serving_wasm.Platform.Http.{ListOptions}
use knative_serving_wasm.Lister.{Selector}
use knative_serving_wasm.Lister.Contents.{kept}
use knative_serving_wasm.FakeClient.{
  list_action, FakeWasmModules, label_or_everything, matching, list_with, filtered, fake_list,
}

matching-kept :
    (label : Selector) (all items : List WasmModule)
    → matching label all items ≡ items ++ kept (λ m. label m.labels) all
unfolding matching kept
matching-kept label [] items = rw append-nil
matching-kept label (item ∷ rest) items = matching-kept label rest _ ∙ step (label item.labels)
  where
    step :
        (b : Bool)
        → (if b then items ++ (item ∷ []) else items) ++ kept (λ m. label m.labels) rest
          ≡ items
            ++ (if b
                then item ∷ kept (λ m. label m.labels) rest
                else kept (λ m. label m.labels) rest)
    step true = append_assoc items (item ∷ []) (kept (λ m. label m.labels) rest)
    step false = refl

-- `List` of the fake client returns the items of the answer whose labels the selector matches, all of
-- them and in their order, with the answer's list metadata; without a selector it returns all items.
-- The error of the answer is passed on, and a nil object is returned as nil.
pub fake_list-kept :
    {Err W : Type 0} (c : FakeWasmModules Err W) (opts : ListOptions) (w w' : W) {e : Option Err}
    → {answer : Option WasmModuleList}
    → c.fake.invokes_list (list_action c.ns opts) w ≡ ((answer, e), w')
    → fake_list c opts w ≡ (
      (
        elim answer [
          | none ↦ none
          | some obj ↦ some (
              list_with obj.list_meta
                (kept (λ m. label_or_everything (c.fake.extract_label opts) m.labels) obj.items))
        ],
        e,
      ),
      w',
    )
unfolding fake_list
fake_list-kept c opts w w' {e} {answer} h = rw h (ap (λ l. ((l, e), w')) (whole answer))
  where
    whole :
        (answer : Option WasmModuleList)
        → filtered c opts answer ≡ elim answer [
          | none ↦ none
          | some obj ↦ some (
              list_with obj.list_meta
                (kept (λ m. label_or_everything (c.fake.extract_label opts) m.labels) obj.items))
        ]
    whole none = unfold filtered in refl
    whole (some obj) =
        unfold filtered in ap (λ l. some (list_with obj.list_meta l)) (matching-kept _ obj.items [])
