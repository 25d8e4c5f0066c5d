-- ===== src/Reconciler/Effects.antt =====
-- What a run of the reconciler does to the world (reconciler.go), as a chain of effects.
pub mod Parts
pub mod Run
pub mod History
pub mod Evolution
use knative_serving_wasm.Prelude.{
  String, ◌==◌, ◌≡◌, Bool, true, false, Option, some, List, [], ok, contains, is_some, refl,
  if◌then◌else◌,
}
use knative_serving_wasm.Api.Types.{WasmModule, WasmModuleStatus}
use knative_serving_wasm.Platform.Types.{NamespacedName, Platform, Argument}
use knative_serving_wasm.Platform.Http.{merge_patch}
use knative_serving_wasm.Client.{get_request, update_status_request, patch_request, zero_options}
use knative_serving_wasm.Reconciler.Types.{DoReconcile, ReconcilerImpl}

-- Two lists of finalizers that differ at most in one name.
abbrev pub SameBut : String → List String → List String → Type 0
SameBut own old new = (x : String) → (own == x) ≡ false → contains new x ≡ contains old x

module _ {Ctx Err S W : Type 0} (p : Platform Ctx Err S W) (r : ReconcilerImpl Ctx Err W)
    (cached : WasmModule → Type 0) where
  -- The objects that a run sends and hands on: the cached one, one just read, either with another
  -- status, and what `FinalizeKind` makes of one.
  pub data AtHand : WasmModule → Type 0 where
    in_cache : (o : WasmModule) → cached o → AtHand o
    answered :
        (ctx : Ctx) (namespace name : String) (w : W)
        → AtHand (p.rest.do_into ctx (get_request namespace name zero_options) w).0.0
    with_status :
        (o : WasmModule) (status : WasmModuleStatus)
        → AtHand o
        → AtHand (record o { status = status })
    finalized :
        (f : DoReconcile Ctx Err W) (ctx : Ctx) (o : WasmModule) (w : W)
        → r.reconciler.finalize_kind ≡ some f
        → AtHand o
        → AtHand (f ctx o w).0.1

module _ {Ctx Err S W : Type 0} (p : Platform Ctx Err S W) (r : ReconcilerImpl Ctx Err W)
    (cached : WasmModule → Type 0) (leads : Bool) where
  -- One effect of a run on a replica that leads for its key, or does not: only a leader reads the
  -- server, writes a status, patches the finalizer of a reconciler that implements `Finalizer`, and
  -- calls `ReconcileKind` and `FinalizeKind`; only another replica calls `ObserveKind`.
  pub data Act : W → W → Type 0 where
    read :
        (ctx : Ctx) (namespace name : String) (w : W)
        → leads ≡ true
        → Act w (p.rest.do_into ctx (get_request namespace name zero_options) w).1
    put_status :
        (ctx : Ctx) (o : WasmModule) (w : W)
        → leads ≡ true
        → AtHand p r cached o
        → Act w (p.rest.do_into ctx (update_status_request o.namespace o zero_options) w).1
    patch_finalizer :
        (ctx : Ctx) (o : WasmModule) (finalizers : List String) (bytes : String) (w : W)
        → leads ≡ true
        → is_some r.reconciler.finalize_kind ≡ true
        → AtHand p r cached o
        → SameBut r.finalizer_name o.finalizers finalizers
        → p.marshal
            (record { finalizers = finalizers; resource_version = o.object_meta.resource_version })
          ≡ ok bytes
        → Act w
            (p.rest.do_into ctx
              (patch_request o.namespace o.name merge_patch bytes zero_options [])
              w).1
    record_event :
        (o : WasmModule) (kind reason message : String) (w : W)
        → Act w (p.recorder.event o kind reason message w)
    record_eventf :
        (o : WasmModule) (kind reason format : String) (args : List (Argument Err)) (w : W)
        → Act w (p.recorder.eventf o kind reason format args w)
    reconcile_kind :
        (ctx : Ctx) (o : WasmModule) (w : W)
        → leads ≡ true
        → Act w (r.reconciler.reconcile_kind ctx o w).1
    finalize_kind :
        (f : DoReconcile Ctx Err W) (ctx : Ctx) (o : WasmModule) (w : W)
        → r.reconciler.finalize_kind ≡ some f
        → leads ≡ true
        → AtHand p r cached o
        → Act w (f ctx o w).1
    observe_kind :
        (f : DoReconcile Ctx Err W) (ctx : Ctx) (o : WasmModule) (w : W)
        → r.reconciler.observe_kind ≡ some f
        → leads ≡ false
        → AtHand p r cached o
        → Act w (f ctx o w).1
    observe_deletion :
        (f : Ctx → NamespacedName → W → Option Err × W) (ctx : Ctx) (key : NamespacedName) (w : W)
        → r.reconciler.observe_deletion ≡ some f
        → Act w (f ctx key w).1

  pub data Acts : W → W → Type 0 where
    here : {w : W} → Acts w w
    next : {w₀ w w' : W} → Acts w₀ w → Act w w' → Acts w₀ w'

  pub Acts-append : {w₀ w w' : W} → Acts w₀ w → Acts w w' → Acts w₀ w'
  Acts-append h here = h
  Acts-append h (next s a) = next (Acts-append h s) a

  pub Act-Acts : {w w' : W} → Act w w' → Acts w w'
  Act-Acts a = next here a

  pub Acts-if :
      {A : Type 0} (b : Bool) {w : W} (x y : A × W)
      → (b ≡ true → Acts w x.1)
      → Acts w y.1
      → Acts w (if b then x else y).1
  Acts-if true x y f g = f refl
  Acts-if false x y f g = g
