-- ===== src/Informers/Generic.antt =====
-- `Informer` of wasm/v1alpha1/wasmmodule.go, and `ForResource` of generic.go.
use knative_serving_wasm.Prelude.{
  ℕ, String, ◌==◌, ◌≡◌, ◌≢◌, refl, Bool, true, false, ◌&&◌, Option, Result, ok, err, arith, eq_iff,
  Bool-cases, inl, inr, if◌then◌else◌,
}
use knative_serving_wasm.Api.Register.{GroupVersionResource, scheme_group_version, with_resource}
use knative_serving_wasm.Platform.Types.{Rest}
use knative_serving_wasm.Platform.GoError.{GroupResource}
use knative_serving_wasm.Informers.Factory.{Factory, informer_for}
use knative_serving_wasm.Informers.Listing.{ListWatch, Scope, scope_of, new_filtered_informer}
use knative_serving_wasm.Informers.Registry.{informer_for_shared}

-- Go's `==` on the struct.
abbrev pub same_resource : GroupVersionResource → GroupVersionResource → Bool
same_resource a b = a.group == b.group && (a.version == b.version && a.resource == b.resource)

same_resource-eq : (a b : GroupVersionResource) → same_resource a b ≡ true → a ≡ b
same_resource-eq a b h =
    fields (ground (arith, eq_iff a.group b.group)) (ground (arith, eq_iff a.version b.version))
      (ground (arith, eq_iff a.resource b.resource))
  where
    fields : a.group ≡ b.group → a.version ≡ b.version → a.resource ≡ b.resource → a ≡ b
    fields g v r = cc

abbrev pub wasmmodules : GroupVersionResource
wasmmodules = with_resource scheme_group_version "wasmmodules"

-- `genericInformer`.
pub record GenericInformer (I : Type 0) : Type 0 where
  pub informer : I
  pub resource : GroupResource

-- `new_shared` is `cache.NewSharedIndexInformer` on what it lists and watches and its resync period,
-- `set_transform` the informer's `SetTransform`, and `todo` is `context.TODO()`.
module _ {Ctx Err W I T : Type 0} (set_transform : Option T → I → I)
    (new_shared : ListWatch Ctx Err W → ℕ → I) (todo : Ctx) where
  -- `f.defaultInformer`, by the namespace and the tweak.
  unfoldable pub default_for : Scope → Rest Ctx Err W → ℕ → I
  default_for s client resync =
      new_shared (new_filtered_informer client todo s.namespace s.tweak_list_options) resync

  -- `f.Wasm().V1alpha1().WasmModules().Informer()`.
  unfoldable pub wasm_module_informer :
      Factory (Rest Ctx Err W) I T → I × Factory (Rest Ctx Err W) I T
  wasm_module_informer f = informer_for set_transform "WasmModule" (default_for (scope_of f)) f

  unfoldable pub generic_from :
      GroupVersionResource
      → I × Factory (Rest Ctx Err W) I T
      → Result String (GenericInformer I) × Factory (Rest Ctx Err W) I T
  generic_from resource (informer, f) = (
    ok (record {
      informer = informer;
      resource = record { group = resource.group; resource = resource.resource };
    }),
    f,
  )

  -- `ForResource`; the error is its text without the resource.
  unfoldable pub for_resource :
      GroupVersionResource
      → Factory (Rest Ctx Err W) I T
      → Result String (GenericInformer I) × Factory (Rest Ctx Err W) I T
  for_resource resource f =
      if same_resource resource wasmmodules
      then generic_from resource (wasm_module_informer f)
      else (err "no informer found for", f)

  pub for_resource_known :
      (resource : GroupVersionResource) (f : Factory (Rest Ctx Err W) I T)
      → same_resource resource wasmmodules ≡ true
      → for_resource resource f ≡ generic_from resource (wasm_module_informer f)
  unfolding for_resource
  for_resource_known resource f h = rw h

  for_resource_unknown :
      (resource : GroupVersionResource) (f : Factory (Rest Ctx Err W) I T)
      → same_resource resource wasmmodules ≡ false
      → for_resource resource f ≡ (err "no informer found for", f)
  unfolding for_resource
  for_resource_unknown resource f h = rw h

  -- `ForResource` on the WasmModules of the group's version gives the shared informer: a typed call
  -- after it returns the same informer and changes nothing. On every other resource it is an error,
  -- and no informer is registered.
  pub for_resource-wasm_module_informer :
      (resource : GroupVersionResource) (f : Factory (Rest Ctx Err W) I T)
      → (resource ≡ wasmmodules
          → (g : GenericInformer I) × ((for_resource resource f).0 ≡ ok g)
            × (wasm_module_informer (for_resource resource f).1
                ≡ (g.informer, (for_resource resource f).1)))
        × (resource ≢ wasmmodules
            → ((for_resource resource f).0 ≡ err "no informer found for")
              × ((for_resource resource f).1 ≡ f))
  unfolding generic_from wasm_module_informer
  for_resource-wasm_module_informer resource f = (
    λ same.
        let e = for_resource_known resource f (rw same refl) in
        rw e (
          _,
          refl,
          informer_for_shared set_transform "WasmModule" (default_for (scope_of f)) f
              (default_for (scope_of (wasm_module_informer f).1)),
        ),
    λ other. elim (Bool-cases (same_resource resource wasmmodules)) [
      | inl h ↦ absurd (other (same_resource-eq resource wasmmodules h))
      | inr h ↦ rw (for_resource_unknown resource f h) (refl, refl)
    ],
  )
