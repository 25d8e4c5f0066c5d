-- ===== src/Api/Scheme.antt =====
-- The registration of the types with a scheme (pkg/apis/wasm/v1alpha1/register.go), and the schemes of
-- the clientset and of the fake clientset (pkg/client/clientset/versioned/scheme/register.go and
-- fake/register.go).
use knative_serving_wasm.Prelude.{
  String, ◌≡◌, refl, Bool, true, Option, none, some, List, [], ◌∷◌, contains,
}
use knative_serving_wasm.Api.Register.{GroupVersion, scheme_group_version}

-- `runtime.Scheme` of k8s.io/apimachinery: `add_known_types` is `AddKnownTypes`, which names a type by
-- its kind, and `add_to_group_version` is `metav1.AddToGroupVersion`.
pub record SchemeLib (S : Type 0) : Type 0 where
  pub new_scheme : S
  pub add_known_types : GroupVersion → List String → S → S
  pub add_to_group_version : GroupVersion → S → S

-- A function of a `runtime.SchemeBuilder`: it changes the scheme, and may return an error.
abbrev pub SchemeFunc : Type 0 → Type 0 → Type 0
SchemeFunc Err S = S → Option Err × S

-- `AddToScheme` of a `runtime.SchemeBuilder`: the functions in their order, up to the first error.
abbrev pub after_func : {Err S : Type 0} → (S → Option Err × S) → Option Err × S → Option Err × S
after_func rest (some x, s) = (some x, s)
after_func rest (none, s) = rest s

unfoldable pub build : {Err S : Type 0} → List (SchemeFunc Err S) → SchemeFunc Err S
build [] s = (none, s)
build (f ∷ rest) s = after_func (build rest) (f s)

module _ (Err : Type 0) {S : Type 0} (lib : SchemeLib S) where
  -- `addKnownTypes`.
  unfoldable pub add_known_types : SchemeFunc Err S
  add_known_types s = (
    none,
    lib.add_to_group_version scheme_group_version
        (lib.add_known_types scheme_group_version ("WasmModule" ∷ "WasmModuleList" ∷ []) s),
  )

  -- `SchemeBuilder` and `AddToScheme` of the package of the types.
  unfoldable pub scheme_builder : List (SchemeFunc Err S)
  unfolding add_known_types
  scheme_builder = add_known_types ∷ []

  unfoldable pub add_to_scheme : SchemeFunc Err S
  unfolding scheme_builder
  add_to_scheme = build scheme_builder

  -- `localSchemeBuilder` and `AddToScheme` of the clientset.
  unfoldable pub local_scheme_builder : List (SchemeFunc Err S)
  unfolding add_to_scheme
  local_scheme_builder = add_to_scheme ∷ []

  -- `utilruntime.Must`: an error is a panic.
  abbrev pub must : Option Err × S → Option S
  must (some _, s) = none
  must (none, s) = some s

  -- The scheme of the clientset after `init`.
  unfoldable pub clientset_scheme : Option S
  unfolding local_scheme_builder
  clientset_scheme = must (
      build local_scheme_builder
        (lib.add_to_group_version (record { group = ""; version = "v1" }) lib.new_scheme))

  -- `localSchemeBuilder` and the scheme of the fake clientset after `init`.
  unfoldable pub fake_local_scheme_builder : List (SchemeFunc Err S)
  unfolding add_to_scheme
  fake_local_scheme_builder = add_to_scheme ∷ []

  unfoldable pub fake_scheme : Option S
  unfolding fake_local_scheme_builder
  fake_scheme = must (
      build fake_local_scheme_builder
        (lib.add_to_group_version (record { group = ""; version = "v1" }) lib.new_scheme))

  -- What apimachinery documents, by the kinds that a scheme recognizes under a group and version:
  -- `AddKnownTypes` adds the kinds that it is given, and `AddToGroupVersion` takes none away.
  pub record SchemeLaws : Type 0 where
    pub recognizes : GroupVersion → String → S → Bool
    pub recognizes-add_known_types :
        (gv : GroupVersion) (kinds : List String) (kind : String) (s : S)
        → contains kinds kind ≡ true
        → recognizes gv kind (lib.add_known_types gv kinds s) ≡ true
    pub recognizes-add_to_group_version :
        (gv gv' : GroupVersion) (kind : String) (s : S)
        → recognizes gv kind s ≡ true
        → recognizes gv kind (lib.add_to_group_version gv' s) ≡ true

  -- The scheme of the clientset is built without a panic, recognizes both kinds under the package's
  -- group and version, and is the fake clientset's.
  pub clientset_scheme-recognizes :
      (laws : SchemeLaws) (kind : String)
      → contains ("WasmModule" ∷ "WasmModuleList" ∷ []) kind ≡ true
      → (s : S) × (clientset_scheme ≡ some s)
        × (fake_scheme ≡ some s)
        × (laws.recognizes scheme_group_version kind s ≡ true)
  unfolding clientset_scheme fake_scheme build
  clientset_scheme-recognizes laws kind known = (
    _,
    refl,
    refl,
    laws.recognizes-add_to_group_version scheme_group_version scheme_group_version kind _ (
        laws.recognizes-add_known_types scheme_group_version ("WasmModule" ∷ "WasmModuleList" ∷ [])
          kind _ known),
  )
