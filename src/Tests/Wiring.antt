-- ===== src/Tests/Wiring.antt =====
-- The theorems on the controller and on the wiring of events, at concrete data.
use knative_serving_wasm.Prelude.{
  ℕ, String, ok, some, List, ◌∷◌, ◌++◌, ◌<>◌, ◌≡◌, refl, true, eq_iff, [], arith, contains,
  if◌then◌else◌, none,
}
use knative_serving_wasm.Cells.{Memory}
use knative_serving_wasm.Informers.Factory.{Factory}
use knative_serving_wasm.Injection.Heap.{Context}
use knative_serving_wasm.Injection.Registration.{
  Registrar, RegistrarLaws, Injectors, run_in_order, init_controller,
}
use knative_serving_wasm.Injection.Setup.{Apart}
use knative_serving_wasm.Service.Assembly.{Parts, new_controller}
use knative_serving_wasm.Service.Assembly.Cache.{built_over}
use knative_serving_wasm.Service.Assembly.Startup.{setup_informers-new_controller}
use knative_serving_wasm.Service.{reconcile_kind}
use knative_serving_wasm.Service.Wiring.{
  ServiceObject, Impl, TrackerLaws, on_service_event, on_service_event-reconcile_kind,
}
use knative_serving_wasm.Controller.Options.{default_controller_agent_name}
use knative_serving_wasm.Controller.Recorder.{Broadcasting, Surroundings, create_recorder}
use knative_serving_wasm.Controller.Promotion.{key_of}
use knative_serving_wasm.Tests.World.{Problem, World, logged}
use knative_serving_wasm.Tests.Cluster.{services, cache_lister, module_with, world_with}
use knative_serving_wasm.Tests.Injecting.{set_transform, by_resync, context, nothing}

-- The tracker reads the log for what was tracked.
abbrev impl : Impl World
impl = record {
  enqueue = λ o w. logged "queue" w;
  on_changed = λ svc w. if contains w.log ("track " <> svc.name) then logged "queue" w else w;
  ensure_type_meta = λ handler t svc w. handler (record svc { type_meta = t }) w;
}

laws : TrackerLaws services impl
laws = record {
  watches = λ w ref key. contains w.log ("track " <> ref.name);
  queued = λ w key. contains w.log "queue";
  watches-track_reference =
      λ ref o w tracked. ground (arith, eq_iff ("track " <> ref.name) ("track " <> ref.name));
  queued-on_changed = λ svc key w watched. rw watched refl;
  ensure_type_meta_lem = λ handler t svc w. refl;
}

-- A Service as an event may deliver it, without its type metadata.
abbrev bare : ServiceObject
bare = record {
  type_meta = record { kind = ""; api_version = "" };
  namespace = "default";
  name = "hello";
}

on_service_event-reconcile_kind_example :
    laws.queued
      (on_service_event impl bare
        (reconcile_kind services tt
          (module_with 1 1 [] none)
          (world_with (module_with 1 1 [] none) 0)).1)
      (key_of (module_with 1 1 [] none))
    ≡ true
on_service_event-reconcile_kind_example =
    on_service_event-reconcile_kind services impl tt laws (module_with 1 1 [] none) bare
      (world_with (module_with 1 1 [] none) 0) refl refl refl

-- The libraries' parts: an informer of WasmModules or of Services is a number.
abbrev parts : Parts Problem World ℕ ℕ
parts = record {
  get_indexer = λ i. cache_lister.indexer;
  service_lister = λ v ns name w. services.get_service ns name w;
  impl = impl;
  track_reference = services.track_reference;
  is_leader_for = λ key w. true;
  base = services;
}

-- A registry that holds its injectors, and another package's informer.
abbrev registrar : Registrar (Injectors ℕ ℕ ℕ ℕ) ℕ ℕ ℕ ℕ
registrar = record {
  register_client = λ f r. record r { clients = r.clients ++ (f ∷ []) };
  register_client_fetcher = λ f r. r;
  register_informer_factory = λ f r. record r { factories = r.factories ++ (f ∷ []) };
  register_informer = λ f r. record r { informers = r.informers ++ (f ∷ []) };
  register_filtered_informers = λ f r. record r { filtered = r.filtered ++ (f ∷ []) };
  setup_informers = run_in_order;
}

abbrev registrar_laws : RegistrarLaws registrar
registrar_laws = record {
  registered = λ r. r;
  client_law = λ f r. refl;
  fetcher_law = λ f r. refl;
  factory_law = λ f r. refl;
  informer_law = λ f r. refl;
  setup_law = λ r ctx cfg. refl;
}

abbrev others : Injectors ℕ ℕ ℕ ℕ
others = record {
  clients = (λ ctx cfg. some ctx) ∷ [];
  factories = (λ ctx heap. some (ctx, heap)) ∷ [];
  informers = (λ ctx heap. some ((ctx, 9), heap)) ∷ [];
  filtered = [];
}

abbrev others_Apart : Apart others
others_Apart = record {
  clients = (λ ctx cfg. refl, tt);
  factories = (λ ctx heap. refl, tt);
  informers = (λ ctx heap. (9, refl), tt);
  filtered = tt;
}

-- Recorders are the components of their sources, and watches and clients are numbers.
abbrev broadcasting : Broadcasting String ℕ ℕ World
broadcasting = record {
  start_logging = λ w. (0, logged "watch" w);
  start_recording_to_sink = λ kube w. (kube, logged "record" w);
  new_recorder = λ component. component;
  stop = λ h w. logged "stop" w;
}

abbrev outer : Surroundings String ℕ
outer = record { event_recorder = none; kube_client = some 3 }

abbrev started : World
started = world_with (module_with 1 1 [] none) 0

setup_informers-new_controller_example :
    (ctx : Context ℕ) × (before : List ℕ) × (i : ℕ) × (after : List ℕ) × (heap : Memory
      (Factory ℕ ℕ ℕ))
    × (recorder : String) × (watches : List ℕ) × (w : World) × (run_in_order
          (init_controller registrar set_transform by_resync some others)
          (context none)
          5
          nothing
        ≡ some ((ctx, (before ++ (i ∷ [])) ++ after), heap))
    × (create_recorder broadcasting outer default_controller_agent_name started
        ≡ some ((recorder, watches), w))
    × (new_controller {Ctx = Unit {0}} set_transform by_resync parts broadcasting ctx outer
          (some 9)
          heap
          started
        ≡ some (ok (built_over parts 9 5 recorder watches i), heap, w))
setup_informers-new_controller_example =
    setup_informers-new_controller registrar registrar_laws set_transform by_resync some others
      others_Apart parts 9 broadcasting outer 5 5 (context none) nothing started tt refl
