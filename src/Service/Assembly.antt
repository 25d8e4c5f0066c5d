-- ===== src/Service/Assembly.antt =====
-- `NewController` (pkg/reconciler/wasmmodule/controller.go) on an injected context, and `NewImpl` on the
-- values that it reads from that context.
pub mod Cache
pub mod Startup
use knative_serving_wasm.Prelude.{
  ℕ, String, Bool, Option, none, some, List, [], Effect, Result, ok, err, length, ltb,
  if◌then◌else◌,
}
use knative_serving_wasm.Api.Types.{WasmModule}
use knative_serving_wasm.Platform.Types.{NamespacedName}
use knative_serving_wasm.Cells.{Memory}
use knative_serving_wasm.Informers.Factory.{Factory}
use knative_serving_wasm.Lister.{Indexer, WasmModuleLister, new_lister}
use knative_serving_wasm.Informers.Listing.{Scope}
use knative_serving_wasm.Injection.Heap.{Context, ModuleInformer, Call, and_then, required}
use knative_serving_wasm.Injection.{get_client, get_informer, informer_of}
use knative_serving_wasm.Reconciler.Types.{Interface, ReconcilerImpl}
use knative_serving_wasm.Controller.Options.{ControllerOptions}
use knative_serving_wasm.Controller.Construction.{
  Fatal, too_many_functions, Constructed, Unrecorded, new_impl,
}
use knative_serving_wasm.Controller.Recorder.{Broadcasting, Surroundings, create_recorder}
use knative_serving_wasm.Service.{Reference, Services, interface}
use knative_serving_wasm.Service.Wiring.{ServiceObject, Impl, on_module_event, on_service_event}

-- What `NewImpl` makes: the reconciler, and the watches that the recorder's goroutine waits to stop.
pub record Made (Ctx Err W C R H : Type 0) : Type 0 where
  pub constructed : Constructed Ctx Err W C R
  pub watches : List H

-- What `NewController` builds: that, and the event handlers that it adds, to the informer of
-- WasmModules and to that of Services.
pub record Built (Ctx Err W C R H I V : Type 0) : Type 0 where
  pub made : Made Ctx Err W C R H
  pub module_informer : I
  pub module_handler : WasmModule → W → W
  pub service_informer : V
  pub service_handler : ServiceObject → W → W

-- What `NewController` takes from the libraries: `V` is the informer of Services, with the `Get` of its
-- lister; `impl` and `track_reference` are what `controller.NewContext` makes, `is_leader_for` is the
-- promoted `LeaderAwareFuncs`, and `base` holds the other packages' functions.
pub record Parts (Err W I V : Type 0) : Type 0 where
  pub get_indexer : I → Indexer Err W
  pub service_lister : V → String → String → W → Option Err
  pub impl : Impl W
  pub track_reference : Reference → WasmModule → Effect W (Option Err)
  pub is_leader_for : NamespacedName → W → Bool
  pub base : Services Err W

-- `Reconciler`, whose tracker is set once `NewImpl` has returned.
unfoldable pub services_with : {Err W I V : Type 0} → Parts Err W I V → V → Services Err W
services_with parts svc = record parts.base {
  get_service = parts.service_lister svc;
  track_reference = parts.track_reference;
}

module _ {Err W C I T V : Type 0} (set_transform : Option T → I → I)
    (default_informer : Scope → C → ℕ → I) (parts : Parts Err W I V) where
  -- `Lister` of a WasmModule informer.
  unfoldable pub lister_of : ModuleInformer → Call C I T (WasmModuleLister Err W)
  lister_of m heap =
      and_then (informer_of set_transform default_informer m heap)
        (λ i heap'. some (new_lister (parts.get_indexer i), heap'))

module _ {Ctx Err W C I T V : Type 0} (set_transform : Option T → I → I)
    (default_informer : Scope → C → ℕ → I) (parts : Parts Err W I V) where
  open parts use {impl, is_leader_for}

  -- `NewImpl` up to the creation of the recorder: the informer and the client of the context are read
  -- after the options are counted. What `controller.NewContext` makes is in the parts.
  unfoldable pub new_unrecorded :
      Context C
      → Interface Ctx Err W
      → List (ControllerOptions Ctx W)
      → Call C I T (Result Fatal (Unrecorded Ctx Err W C))
  unfolding lister_of
  new_unrecorded ctx r options heap =
      if ltb 1 (length options)
      then some (err (too_many_functions (length options)), heap)
      else required (get_informer ctx)
          (λ m heap₁. and_then (lister_of set_transform default_informer parts m heap₁) (λ lister.
            required (get_client ctx)
              (λ c heap₂. some (new_impl is_leader_for c lister r options, heap₂))))
          heap

  module _ {R K H : Type 0} (lib : Broadcasting R K H W) where
    -- `rec.Recorder = createRecorder(ctx, agentName)`.
    abbrev pub with_recorder :
        Unrecorded Ctx Err W C
        → Memory (Factory C I T)
        → Option ((R × List H) × W)
        → Option (Result Fatal (Made Ctx Err W C R H) × Memory (Factory C I T) × W)
    with_recorder u heap none = none
    with_recorder u heap (some ((recorder, watches), w)) = some (
      ok (record {
        constructed = record { rec = u.rec; client = u.client; recorder = recorder };
        watches = watches;
      }),
      heap,
      w,
    )

    abbrev pub recorded :
        Surroundings R K
        → W
        → Option (Result Fatal (Unrecorded Ctx Err W C) × Memory (Factory C I T))
        → Option (Result Fatal (Made Ctx Err W C R H) × Memory (Factory C I T) × W)
    recorded outer w none = none
    recorded outer w (some (err x, heap)) = some (err x, heap, w)
    recorded outer w (some (ok u, heap)) =
        with_recorder u heap (create_recorder lib outer u.agent_name w)

    -- `NewImpl`; the context holds, beside `ctx`, what `createRecorder` reads (`outer`).
    unfoldable pub new_impl_in :
        Context C
        → Surroundings R K
        → Interface Ctx Err W
        → List (ControllerOptions Ctx W)
        → Memory (Factory C I T)
        → W
        → Option (Result Fatal (Made Ctx Err W C R H) × Memory (Factory C I T) × W)
    unfolding new_unrecorded
    new_impl_in ctx outer r options heap w = recorded outer w (new_unrecorded ctx r options heap)

    -- The handlers, added to the informers.
    abbrev pub wired :
        ModuleInformer
        → V
        → Option (Result Fatal (Made Ctx Err W C R H) × Memory (Factory C I T) × W)
        → Option (Result Fatal (Built Ctx Err W C R H I V) × Memory (Factory C I T) × W)
    wired m svc none = none
    wired m svc (some (err x, heap, w)) = some (err x, heap, w)
    wired m svc (some (ok made, heap, w)) =
        elim (informer_of set_transform default_informer m heap) [
          | none ↦ none
          | some r ↦ some (
            ok (record {
              made = made;
              module_informer = r.0;
              module_handler = on_module_event impl;
              service_informer = svc;
              service_handler = on_service_event impl;
            }),
            r.1,
            w,
          )
        ]

    -- `NewController`, on the informer of Services that the context holds.
    unfoldable pub new_controller :
        Context C
        → Surroundings R K
        → Option V
        → Memory (Factory C I T)
        → W
        → Option (Result Fatal (Built Ctx Err W C R H I V) × Memory (Factory C I T) × W)
    unfolding new_impl_in
    new_controller ctx outer service_informer heap w = elim (get_informer ctx) [
      | none ↦ none
      | some m ↦ elim service_informer [
        | none ↦ none
        | some svc ↦
            wired m svc (new_impl_in ctx outer (interface (services_with parts svc)) [] heap w)
      ]
    ]
