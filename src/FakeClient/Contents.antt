-- ===== src/FakeClient/Contents.antt =====
-- What the fake clientset answers: the objects that it was made with.
use knative_serving_wasm.Prelude.{
  String, ◌==◌, eq_iff, ◌≡◌, ◌∙◌, refl, ap, sym, Bool, true, false, not, is_some, ◌&&◌, Option,
  none, some, List, [], ◌∷◌, ok, err, arith, if◌then◌else◌,
}
use knative_serving_wasm.Api.Types.{WasmModule}
use knative_serving_wasm.Platform.GoError.{Errors}
use knative_serving_wasm.Platform.Http.{Options}
use knative_serving_wasm.FakeClient.{get_action, fake_get}
use knative_serving_wasm.FakeClient.Tracker.{
  Testing, FakeClientset, wasm_v1alpha1, fake_wasm_modules, add_objects, tracked_clientset,
  new_simple_clientset,
}

abbrev pub has_key : String → String → WasmModule → Bool
has_key ns name m = m.namespace == ns && m.name == name

-- The object of a list with a key, and whether no two have the same.
abbrev pub find_object : String → String → List WasmModule → Option WasmModule
find_object ns name [] = none
find_object ns name (m ∷ rest) = if has_key ns name m then some m else find_object ns name rest

abbrev pub distinct_keys : List WasmModule → Bool
distinct_keys [] = true
distinct_keys (m ∷ rest) = not (is_some (find_object m.namespace m.name rest)) && distinct_keys rest

-- What client-go documents of the object tracker, by what it holds under a namespace and a name: an
-- object whose key is new is added as it is, and a get action finds what is held. A `Fake` with the
-- tracker's reactions answers by them.
pub record TestingLaws {Err W : Type 0} (errors : Errors Err) (lib : Testing Err W) : Type 0 where
  pub held : String → String → W → Option WasmModule
  pub held_empty : (ns name : String) → held ns name lib.empty ≡ none
  pub add_new :
      (m : WasmModule) (w : W)
      → held m.namespace m.name w ≡ none
      → (w' : W) × (lib.add m w ≡ ok w')
        × ((ns name : String)
            → held ns name w' ≡ (if has_key ns name m then some m else held ns name w))
  pub get_held :
      (ns name : String) (w : W) {m : WasmModule}
      → held ns name w ≡ some m
      → lib.object_reaction (get_action ns name) w ≡ ((some m, none), w)
  pub get_missing :
      (ns name : String) (w : W)
      → held ns name w ≡ none
      → (x : Err) × (lib.object_reaction (get_action ns name) w ≡ ((none, some x), w))
        × (errors.is_not_found x ≡ true)
  pub reacts :
      (watching : String → W → Bool × Option Err)
      → (lib.with_reactors lib.object_reaction lib.list_reaction watching).invokes
        ≡ lib.object_reaction

-- The keys of a list with distinct keys: that of the first object is not among those of the others.
first_key :
    (m : WasmModule) (rest : List WasmModule) (ns name : String)
    → distinct_keys (m ∷ rest) ≡ true
    → has_key ns name m ≡ true
    → is_some (find_object ns name rest) ≡ false
first_key m rest ns name distinct same =
    let e : m.namespace ≡ ns = ground (arith, eq_iff m.namespace ns) in
    let e' : m.name ≡ name = ground (arith, eq_iff m.name name) in
    let new : is_some (find_object m.namespace m.name rest) ≡ false = ground arith in
    sym (
      ap (λ a. is_some (find_object a m.name rest)) e
      ∙ ap (λ b. is_some (find_object ns b rest)) e')
    ∙ new

key_found :
    (m : WasmModule) (rest : List WasmModule)
    → is_some (find_object m.namespace m.name (m ∷ rest)) ≡ true
key_found m rest = ground (arith, eq_iff m.namespace m.namespace, eq_iff m.name m.name)

rest_distinct :
    (m : WasmModule) (rest : List WasmModule)
    → distinct_keys (m ∷ rest) ≡ true
    → distinct_keys rest ≡ true
rest_distinct m rest h = ground arith

key_later :
    (m : WasmModule) (rest : List WasmModule) (ns name : String)
    → is_some (find_object ns name rest) ≡ true
    → is_some (find_object ns name (m ∷ rest)) ≡ true
key_later m rest ns name h = ground arith

or_none : (o : Option WasmModule) → (if is_some o then o else none) ≡ o
or_none none = refl
or_none (some _) = refl

-- What is held after the first object and then the others.
combine :
    (first : Bool) (found : Option WasmModule) (m : WasmModule) (old : Option WasmModule)
    {one all : Option WasmModule}
    → (first ≡ true → is_some found ≡ false)
    → one ≡ (if first then some m else old)
    → all ≡ (if is_some found then found else one)
    → all ≡ (
        if is_some (if first then some m else found)
        then (if first then some m else found)
        else old)
combine true none m old h e e' = e' ∙ e
combine true (some _) m old h e e' = absurd (let f = h refl in cc)
combine false none m old h e e' = e' ∙ e
combine false (some _) m old h e e' = e'

still_new :
    (first : Bool) (m : WasmModule) (found : Option WasmModule) {old : Option WasmModule}
    → (first ≡ true → is_some found ≡ false)
    → is_some found ≡ true
    → old ≡ none
    → (if first then some m else old) ≡ none
still_new true m found h f e = absurd (let g = h refl in cc)
still_new false m found h f e = e

module _ {Err W : Type 0} (errors : Errors Err) (lib : Testing Err W)
    (laws : TestingLaws errors lib) where
  open laws use {held, held_empty, add_new, get_held, get_missing, reacts}

  -- The loop adds each of the objects, if their keys are distinct and new.
  add_objects-held :
      (objects : List WasmModule) (w : W)
      → distinct_keys objects ≡ true
      → ((ns name : String) → is_some (find_object ns name objects) ≡ true → held ns name w ≡ none)
      → (w' : W) × (add_objects lib objects w ≡ some w')
        × ((ns name : String)
            → held ns name w' ≡ (
                if is_some (find_object ns name objects)
                then find_object ns name objects
                else held ns name w))
  unfolding add_objects
  add_objects-held [] w distinct new = (w, refl, λ ns name. refl)
  add_objects-held (m ∷ rest) w distinct new =
      let (w₁, added, holds) = add_new m w (new m.namespace m.name (key_found m rest)) in
      let (w', all, holds') =
        add_objects-held rest w₁ (rest_distinct m rest distinct) (λ ns name found.
          holds ns name
          ∙ still_new (has_key ns name m) m (find_object ns name rest)
              (first_key m rest ns name distinct) found
              (new ns name (key_later m rest ns name found))) in
      (
        w',
        ap (λ r. elim r [ err _ ↦ none | ok v ↦ add_objects lib rest v ]) added ∙ all,
        λ ns name.
            combine (has_key ns name m) (find_object ns name rest) m (held ns name w)
              (first_key m rest ns name distinct) (holds ns name) (holds' ns name),
      )

  -- A get through the interface, against the object of a list.
  abbrev pub Answers : Option WasmModule → W → (Option WasmModule × Option Err) × W → Type 0
  Answers (some m) w r = r ≡ ((some m, none), w)
  Answers none w r = (x : Err) × (r ≡ ((none, some x), w)) × (errors.is_not_found x ≡ true)

  get-Answers :
      (ns name : String) (opts : Options) (w : W) (found : Option WasmModule)
      → held ns name w ≡ found
      → Answers found w
          (fake_get (fake_wasm_modules (wasm_v1alpha1 (tracked_clientset lib)) ns) name opts w)
  unfolding fake_get fake_wasm_modules wasm_v1alpha1 tracked_clientset
  get-Answers ns name opts w (some m) h =
      ap (λ f. f (get_action ns name) w) (reacts _) ∙ get_held ns name w h
  get-Answers ns name opts w none h =
      let (x, answer, not_found) = get_missing ns name w h in
      (x, ap (λ f. f (get_action ns name) w) (reacts _) ∙ answer, not_found)

  -- `NewSimpleClientset` on objects with distinct keys does not panic. Its WasmModules client then
  -- answers a `Get` with the object of that namespace and name, and with a not-found error where there
  -- is none; the tracker stays as it is.
  pub new_simple_clientset-Answers :
      (objects : List WasmModule) (ns name : String) (opts : Options)
      → distinct_keys objects ≡ true
      → (cs : FakeClientset Err W) × (w : W) × (new_simple_clientset lib objects ≡ some (cs, w))
        × Answers
            (find_object ns name objects)
            w
            (fake_get (fake_wasm_modules (wasm_v1alpha1 cs) ns) name opts w)
  unfolding new_simple_clientset
  new_simple_clientset-Answers objects ns name opts distinct =
      let (w, added, holds) =
        add_objects-held objects lib.empty distinct (λ ns' name' _. held_empty ns' name') in
      (
        tracked_clientset lib,
        w,
        ap (λ r. elim r [ none ↦ none | some v ↦ some (tracked_clientset lib, v) ]) added,
        get-Answers ns name opts w (find_object ns name objects) (
            holds ns name
            ∙ ap
                (λ o.
                  if is_some (find_object ns name objects) then find_object ns name objects else o)
                (held_empty ns name)
            ∙ or_none (find_object ns name objects)),
      )
