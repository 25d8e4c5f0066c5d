-- ===== src/Reconciler/Types.antt =====
-- The struct `reconcilerImpl` and the interfaces of reconciler.go that a user implements.
use knative_serving_wasm.Prelude.{String, Bool, Option, Effect}
use knative_serving_wasm.Api.Types.{WasmModule}
use knative_serving_wasm.Platform.Types.{NamespacedName}
use knative_serving_wasm.Lister.{WasmModuleLister}

-- `doReconcile`: the object is passed by pointer, so its new value is a result.
abbrev pub DoReconcile : Type 0 → Type 0 → Type 0 → Type 0
DoReconcile Ctx Err W = Ctx → WasmModule → Effect W (Option Err × WasmModule)

-- A user's reconciler: `Interface`, and what a type assertion to `Finalizer`,
-- `ReadOnlyInterface` and `reconciler.OnDeletionInterface` gives.
pub record Interface (Ctx Err W : Type 0) : Type 0 where
  pub reconcile_kind : DoReconcile Ctx Err W
  pub finalize_kind : Option (DoReconcile Ctx Err W)
  pub observe_kind : Option (DoReconcile Ctx Err W)
  pub observe_deletion : Option (Ctx → NamespacedName → Effect W (Option Err))

-- `reconciler.Bucket`, by the name that identifies it.
abbrev pub Bucket : Type 0
Bucket = String

-- The function by which a promotion enqueues a key.
abbrev pub Enqueue : Type 0 → Type 0
Enqueue W = Bucket → NamespacedName → W → W

-- `reconcilerImpl`. `is_leader_for` and the two functions after it are those of the embedded
-- `reconciler.LeaderAwareFuncs`; its client and recorder are the platform's.
pub record ReconcilerImpl (Ctx Err W : Type 0) : Type 0 where
  pub is_leader_for : NamespacedName → W → Bool
  pub promote_func : Bucket → Enqueue W → Effect W (Option Err)
  pub demote_func : Option (Bucket → W → W)
  pub lister : WasmModuleLister Err W
  pub config_store : Option (Ctx → Ctx)
  pub reconciler : Interface Ctx Err W
  pub finalizer_name : String
  pub skip_status_updates : Bool
