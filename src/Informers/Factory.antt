-- ===== src/Informers/Factory.antt =====
-- `sharedInformerFactory` (factory.go). A `reflect.Type` is the type's name, a Go map is an
-- association list, and a goroutine that runs an informer is the informer's type in `running`.
use knative_serving_wasm.Prelude.{
  ℕ, ◌+◌, ◌-◌, String, ◌==◌, Bool, true, false, not, Option, none, some, List, [], ◌∷◌,
  if◌then◌else◌,
}
use knative_serving_wasm.Platform.Http.{ListOptions}

-- `m[k]` with its second result, for a Go map.
unfoldable pub lookup {ℓ} : {V : Type ℓ} → String → List (String × V) → Option V
lookup k [] = none
lookup k ((j, v) ∷ m) = if j == k then some v else lookup k m

-- `m[k] = v`: the newest entry hides the older.
abbrev pub insert {ℓ} : {V : Type ℓ} → String → V → List (String × V) → List (String × V)
insert k v m = (k, v) ∷ m

-- `internalinterfaces.TweakListOptionsFunc`; nil is `none`.
abbrev pub Tweak : Type 0
Tweak = Option (ListOptions → ListOptions)

-- `internalinterfaces.NewInformerFunc`: an informer from a client and a resync period.
abbrev pub NewInformer : Type 0 → Type 0 → Type 0
NewInformer C I = C → ℕ → I

pub record Factory (Client Informer Transform : Type 0) : Type 0 where
  pub client : Client
  pub namespace : String
  pub tweak_list_options : Tweak
  pub default_resync : ℕ
  pub custom_resync : List (String × ℕ)
  pub transform : Option Transform
  pub informers : List (String × Informer)
  pub started_informers : List (String × Bool)
  pub wait_group : ℕ
  pub shutting_down : Bool
  pub running : List String  -- the goroutines; no field of the source

-- `SharedInformerOption`.
abbrev pub FactoryOption : Type 0 → Type 0 → Type 0 → Type 0
FactoryOption C I T = Factory C I T → Factory C I T

-- One occurrence of a type, taken out.
unfoldable pub remove : String → List String → List String
remove t [] = []
remove t (x ∷ xs) = if x == t then xs else x ∷ remove t xs

-- The second loop of `WaitForCacheSync`.
unfoldable pub sync_results : {I : Type 0} → (I → Bool) → List (String × I) → List (String × Bool)
sync_results wait [] = []
sync_results wait ((t, informer) ∷ rest) = (t, wait informer) ∷ sync_results wait rest

module _ {C I T : Type 0} where
  -- The loop over the map of resync periods by type.
  unfoldable pub with_custom_resync_config : List (String × ℕ) → FactoryOption C I T
  with_custom_resync_config [] f = f
  with_custom_resync_config ((k, v) ∷ rest) f =
      with_custom_resync_config rest (record f { custom_resync = insert k v f.custom_resync })

  unfoldable pub with_tweak_list_options : Tweak → FactoryOption C I T
  with_tweak_list_options tweak f = record f { tweak_list_options = tweak }

  unfoldable pub with_namespace : String → FactoryOption C I T
  with_namespace ns f = record f { namespace = ns }

  unfoldable pub with_transform : Option T → FactoryOption C I T
  with_transform transform f = record f { transform = transform }

  unfoldable pub apply_options : List (FactoryOption C I T) → FactoryOption C I T
  apply_options [] f = f
  apply_options (opt ∷ rest) f = apply_options rest (opt f)

  -- `v1.NamespaceAll` is the empty text.
  unfoldable pub new_factory : C → ℕ → List (FactoryOption C I T) → Factory C I T
  new_factory client default_resync options = apply_options options (record {
    client = client;
    namespace = "";
    tweak_list_options = none;
    default_resync = default_resync;
    custom_resync = [];
    transform = none;
    informers = [];
    started_informers = [];
    wait_group = 0;
    shutting_down = false;
    running = [];
  })

  -- `NewFilteredSharedInformerFactory`.
  unfoldable pub new_filtered_factory : C → ℕ → String → Tweak → Factory C I T
  new_filtered_factory client default_resync namespace tweak =
      new_factory client default_resync
        (with_namespace namespace ∷ with_tweak_list_options tweak ∷ [])

  -- `f.startedInformers[informerType]`: false where the key is missing.
  unfoldable pub is_started : Factory C I T → String → Bool
  is_started f t = elim (lookup t f.started_informers) [ none ↦ false | some b ↦ b ]

  -- The body of the loop of `Start`, for an informer that has not been started.
  unfoldable pub launch : String → Factory C I T → Factory C I T
  launch t f = record f {
    wait_group = f.wait_group + 1;
    running = t ∷ f.running;
    started_informers = insert t true f.started_informers;
  }

  unfoldable pub start_loop : List (String × I) → Factory C I T → Factory C I T
  start_loop [] f = f
  start_loop ((t, informer) ∷ rest) f =
      start_loop rest (if not (is_started f t) then launch t f else f)

  unfoldable pub start : Factory C I T → Factory C I T
  start f = if f.shutting_down then f else start_loop f.informers f

  -- The part of `Shutdown` before it waits; `Wait` returns when the wait group is at 0.
  unfoldable pub begin_shutdown : Factory C I T → Factory C I T
  begin_shutdown f = record f { shutting_down = true }

  -- `defer f.wg.Done()` of the goroutine of a type.
  unfoldable pub goroutine_done : String → Factory C I T → Factory C I T
  goroutine_done t f = record f { wait_group = f.wait_group - 1; running = remove t f.running }

  -- `WaitForCacheSync`: the started informers, and whether each has synced. The wait itself is
  -- `cache.WaitForCacheSync` of k8s.io/client-go.
  unfoldable pub started_of : Factory C I T → List (String × I) → List (String × I)
  started_of f [] = []
  started_of f ((t, informer) ∷ rest) =
      if is_started f t then (t, informer) ∷ started_of f rest else started_of f rest

  unfoldable pub wait_for_cache_sync : (I → Bool) → Factory C I T → List (String × Bool)
  wait_for_cache_sync wait f = sync_results wait (started_of f f.informers)

  -- The resync period of a type.
  unfoldable pub resync_period : Factory C I T → String → ℕ
  resync_period f t = elim (lookup t f.custom_resync) [
    | some period ↦ period
    | none ↦ f.default_resync
  ]

  -- `InformerFor`, by what the map of informers holds for the type: `new_func` makes an informer,
  -- and `set_transform` is its `SetTransform`.
  unfoldable pub informer_from :
      (Option T → I → I) → String → NewInformer C I → Factory C I T → Option I → I × Factory C I T
  informer_from set_transform t new_func f (some informer) = (informer, f)
  informer_from set_transform t new_func f none =
      let informer = set_transform f.transform (new_func f.client (resync_period f t)) in
      (informer, record f { informers = insert t informer f.informers })

  unfoldable pub informer_for :
      (Option T → I → I) → String → NewInformer C I → Factory C I T → I × Factory C I T
  informer_for set_transform t new_func f =
      informer_from set_transform t new_func f (lookup t f.informers)
