-- ===== src/Injection/Selection.antt =====
-- What the factories of the context list.
use knative_serving_wasm.Prelude.{ℕ, String, ◌≡◌, refl, Option, none, some}
use knative_serving_wasm.Platform.Types.{Rest}
use knative_serving_wasm.Platform.Http.{ListOptions}
use knative_serving_wasm.Client.{list_request, watch_request, list_modules, watch_modules}
use knative_serving_wasm.Informers.Factory.{
  Factory, with_namespace, with_tweak_list_options, apply_options, new_factory,
}
use knative_serving_wasm.Informers.Listing.{
  tweaked, new_filtered_informer, new_group, v1alpha1, wasm_modules, wasm, scope_of,
  default_informer,
}
use knative_serving_wasm.Injection.{scope_options, informer_factory, selector_factory}

-- The namespace of a scope; no scope is all namespaces.
abbrev pub scope_namespace : Option String → String
scope_namespace none = ""
scope_namespace (some namespace) = namespace

module _ {C : Type 0} (I T : Type 0) (client : C) (resync : ℕ) where
  -- The factory of no selector lists everything in the scope's namespace, or in all.
  pub informer_factory-scope :
      (scope : Option String)
      → scope_of (informer_factory {I = I} {T = T} client resync scope)
        ≡ record { namespace = scope_namespace scope; tweak_list_options = none }
  unfolding informer_factory scope_options with_namespace apply_options new_factory new_group
      v1alpha1 wasm_modules wasm scope_of
  informer_factory-scope none = refl
  informer_factory-scope (some namespace) = refl

  -- The factory of a selector has the scope's namespace, and sets the label selector of the options.
  pub selector_factory-scope :
      (scope : Option String) (selector : String)
      → let s = scope_of (selector_factory {I = I} {T = T} client resync scope selector) in
        (s.namespace ≡ scope_namespace scope)
        × ((options : ListOptions)
            → tweaked s.tweak_list_options options ≡ record options { label_selector = selector })
  unfolding selector_factory scope_options with_namespace with_tweak_list_options apply_options
      new_factory new_group v1alpha1 wasm_modules wasm scope_of
  selector_factory-scope none selector = (refl, λ options. refl)
  selector_factory-scope (some namespace) selector = (refl, λ options. refl)

module _ {Ctx Err W : Type 0} (I T : Type 0) (client : Rest Ctx Err W) (resync : ℕ)
    (todo : Ctx) where
  -- The informer of a selector's factory lists and watches with that label selector, in the
  -- namespace of the scope or else in all; the other options are the caller's.
  pub selector_factory-requests :
      (scope : Option String) (selector : String) (options : ListOptions) (w : W)
      → let f : Factory (Rest Ctx Err W) I T = selector_factory client resync scope selector in
        let chosen = record options { label_selector = selector } in
        ((default_informer f todo).list_func options w
          ≡ client.do_into_list todo (list_request (scope_namespace scope) chosen) w)
        × ((default_informer f todo).watch_func options w
            ≡ client.do_watch todo (watch_request (scope_namespace scope) chosen) w)
  unfolding selector_factory scope_options with_namespace with_tweak_list_options apply_options
      new_factory default_informer new_filtered_informer new_group v1alpha1 wasm_modules wasm
      scope_of list_modules watch_modules
  selector_factory-requests none selector options w = (refl, refl)
  selector_factory-requests (some namespace) selector options w = (refl, refl)
