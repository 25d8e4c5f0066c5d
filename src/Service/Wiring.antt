-- ===== src/Service/Wiring.antt =====
-- The wiring of the controller (pkg/reconciler/wasmmodule/controller.go): which keys the events of
-- the informers put on the work queue. The queue and the tracker live in the world.
use knative_serving_wasm.Prelude.{String, ◌≡◌, refl, Bool, true, none}
use knative_serving_wasm.Api.Types.{WasmModule, TypeMeta}
use knative_serving_wasm.Platform.Types.{NamespacedName}
use knative_serving_wasm.Controller.Promotion.{key_of}
use knative_serving_wasm.Service.Outcome.{reconcile_kind_frame}
use knative_serving_wasm.Service.{Reference, Services, reference_to, reconcile_kind}

-- A Service by what its events are handled by.
pub record ServiceObject : Type 0 where
  pub type_meta : TypeMeta
  pub namespace : String
  pub name : String

-- `controller.Impl` with its tracker, `Enqueue` and `OnChanged`, and `controller.EnsureTypeMeta`.
pub record Impl (W : Type 0) : Type 0 where
  pub enqueue : WasmModule → W → W
  pub on_changed : ServiceObject → W → W
  pub ensure_type_meta : (ServiceObject → W → W) → TypeMeta → ServiceObject → W → W

-- `corev1.SchemeGroupVersion.WithKind("Service")`, as type metadata.
abbrev pub service_type : TypeMeta
service_type = record { kind = "Service"; api_version = "v1" }

-- The event handlers that `NewController` adds, to the informer of WasmModules and to that of
-- Services; `controller.HandleAll` calls them with the object of each event.
unfoldable pub on_module_event : {W : Type 0} → Impl W → WasmModule → W → W
on_module_event impl = impl.enqueue

unfoldable pub on_service_event : {W : Type 0} → Impl W → ServiceObject → W → W
on_service_event impl = impl.ensure_type_meta impl.on_changed service_type

-- The reference by which the tracker knows an object.
abbrev pub reference_of : ServiceObject → Reference
reference_of svc = record {
  api_version = svc.type_meta.api_version;
  kind = svc.type_meta.kind;
  namespace = svc.namespace;
  name = svc.name;
}

-- What the packages document: a reference that was tracked without an error is watched for the
-- object's key; a change of the object that it refers to puts the keys that watch it on the queue;
-- and `EnsureTypeMeta` calls the handler with the type metadata set.
pub record TrackerLaws {Err W : Type 0} (services : Services Err W) (impl : Impl W) : Type 0 where
  pub watches : W → Reference → NamespacedName → Bool
  pub queued : W → NamespacedName → Bool
  pub watches-track_reference :
      (ref : Reference) (o : WasmModule) (w : W)
      → (services.track_reference ref o w).0 ≡ none
      → watches (services.track_reference ref o w).1 ref (key_of o) ≡ true
  pub queued-on_changed :
      (svc : ServiceObject) (key : NamespacedName) (w : W)
      → watches w (reference_of svc) key ≡ true
      → queued (impl.on_changed svc w) key ≡ true
  pub ensure_type_meta_lem :
      (handler : ServiceObject → W → W) (t : TypeMeta) (svc : ServiceObject) (w : W)
      → impl.ensure_type_meta handler t svc w ≡ handler (record svc { type_meta = t }) w

-- Right after a run of `ReconcileKind` that tracked its Service without an error, an event of that
-- Service puts the WasmModule on the queue again, also where the Service's object lacks its type
-- metadata, and whatever the run made of the object.
pub on_service_event-reconcile_kind :
    {Ctx Err W : Type 0} (services : Services Err W) (impl : Impl W) (ctx : Ctx)
    → (laws : TrackerLaws services impl) (o : WasmModule) (svc : ServiceObject) (w : W)
    → (services.track_reference (reference_to services o) o w).0 ≡ none
    → svc.namespace ≡ o.namespace
    → svc.name ≡ o.spec.service_name
    → laws.queued (on_service_event impl svc (reconcile_kind services ctx o w).1) (key_of o) ≡ true
unfolding on_service_event
on_service_event-reconcile_kind services impl ctx laws o svc w tracked same_namespace same_name =
    let full = record svc { type_meta = service_type } in
    let w₁ = (services.track_reference (reference_to services o) o w).1 in
    let same : reference_of full ≡ reference_to services o = rw (same_namespace, same_name) refl in
    rw
      (
        (reconcile_kind_frame services ctx o w).0,
        laws.ensure_type_meta_lem impl.on_changed service_type svc w₁,
      )
      (laws.queued-on_changed full (key_of o) w₁
        (rw same (laws.watches-track_reference (reference_to services o) o w tracked)))
