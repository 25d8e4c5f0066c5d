-- ===== src/Controller/Promotion.antt =====
-- What a replica enqueues when it is promoted: the `PromoteFunc` closures of `NewImpl` and
-- `NewReconciler`.
pub mod Keys
use knative_serving_wasm.Prelude.{
  Bool, true, Option, none, some, List, [], ◌∷◌, Effect, if◌then◌else◌,
}
use knative_serving_wasm.Api.Types.{WasmModule}
use knative_serving_wasm.Platform.Types.{NamespacedName}
use knative_serving_wasm.Lister.{Selector, WasmModuleLister, list_modules}
use knative_serving_wasm.Reconciler.Types.{Bucket, Enqueue}

-- `labels.Everything()`.
abbrev pub everything : Selector
everything _ = true

-- The key of an object.
abbrev pub key_of : WasmModule → NamespacedName
key_of elt = record { namespace = elt.namespace; name = elt.name }

-- Whether the filter lets an object pass; a nil filter lets all pass.
abbrev pub passes : Option (WasmModule → Bool) → WasmModule → Bool
passes none elt = true
passes (some filter) elt = filter elt

module _ {W : Type 0} (filter : Option (WasmModule → Bool)) (bkt : Bucket) (enq : Enqueue W) where
  -- The loop over the listed objects, with its `continue`.
  unfoldable pub enqueue_all : List WasmModule → W → W
  enqueue_all [] w = w
  enqueue_all (elt ∷ rest) w =
      enqueue_all rest (if passes filter elt then enq bkt (key_of elt) w else w)

module _ {Err W : Type 0} where
  -- What the closures do with the lister's answer.
  unfoldable pub enqueue_listed :
      Option (WasmModule → Bool)
      → Bucket
      → Enqueue W
      → List WasmModule × Option Err
      → Effect W (Option Err)
  unfolding enqueue_all
  enqueue_listed filter bkt enq (all, some x) w = (some x, w)
  enqueue_listed filter bkt enq (all, none) w = (none, enqueue_all filter bkt enq all w)

  -- `PromoteFunc` of `NewImpl`: the promotion is signalled first.
  unfoldable pub promote :
      WasmModuleLister Err W
      → Option (WasmModule → Bool)
      → (Bucket → W → W)
      → Bucket
      → Enqueue W
      → Effect W (Option Err)
  unfolding enqueue_listed
  promote lister filter signal bkt enq w =
      let w1 = signal bkt w in enqueue_listed filter bkt enq (list_modules lister everything w1) w1

  -- `PromoteFunc` of `NewReconciler`.
  unfoldable pub promote_plain : WasmModuleLister Err W → Bucket → Enqueue W → Effect W (Option Err)
  unfolding enqueue_listed
  promote_plain lister bkt enq w = enqueue_listed none bkt enq (list_modules lister everything w) w
