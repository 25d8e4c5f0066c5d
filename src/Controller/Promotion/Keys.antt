-- ===== src/Controller/Promotion/Keys.antt =====
-- Which keys a promotion enqueues.
use knative_serving_wasm.Prelude.{◌≡◌, ap, refl, Bool, Option, none, List, [], ◌∷◌, map, arith}
use knative_serving_wasm.Api.Types.{WasmModule}
use knative_serving_wasm.Platform.Types.{NamespacedName}
use knative_serving_wasm.Lister.{WasmModuleLister}
use knative_serving_wasm.Lister.Contents.{ListsCache, kept, kept-true, list_modules-kept}
use knative_serving_wasm.Reconciler.Types.{Bucket, Enqueue}
use knative_serving_wasm.Controller.Promotion.{
  everything, key_of, passes, enqueue_all, enqueue_listed, promote,
}

module _ {W : Type 0} (bkt : Bucket) (enq : Enqueue W) where
  -- The keys of a list, enqueued in its order.
  unfoldable pub enqueue_keys : List NamespacedName → W → W
  enqueue_keys [] w = w
  enqueue_keys (k ∷ ks) w = enqueue_keys ks (enq bkt k w)

  enqueue_all-kept :
      (filter : Option (WasmModule → Bool)) (all : List WasmModule) (w : W)
      → enqueue_all filter bkt enq all w ≡ enqueue_keys (map key_of (kept (passes filter) all)) w
  unfolding enqueue_all enqueue_keys kept
  enqueue_all-kept filter [] w = refl
  enqueue_all-kept filter (elt ∷ rest) w =
      ground (
        arith,
        enqueue_all-kept filter rest w,
        enqueue_all-kept filter rest (enq bkt (key_of elt) w),
      )

  -- Over a cache that lists what it holds, promoting a replica signals the promotion, and then
  -- enqueues the keys of exactly the cached objects that the filter lets pass, each once and in the
  -- order in which the cache lists them then; it returns no error.
  pub promote-keys :
      {Err : Type 0} (lister : WasmModuleLister Err W) (stored : W → List WasmModule)
      → ListsCache lister.indexer stored
      → (filter : Option (WasmModule → Bool)) (signal : Bucket → W → W) (w : W)
      → promote lister filter signal bkt enq w ≡ (
        none,
        enqueue_keys (map key_of (kept (passes filter) (stored (signal bkt w)))) (signal bkt w),
      )
  unfolding promote enqueue_listed
  promote-keys lister stored law filter signal w =
      rw (list_modules-kept lister stored law everything (signal bkt w), kept-true)
        (ap (λ v. (none, v)) (enqueue_all-kept filter _ (signal bkt w)))
