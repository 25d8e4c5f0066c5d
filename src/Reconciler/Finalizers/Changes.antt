-- ===== src/Reconciler/Finalizers/Changes.antt =====
-- When the finalizers of a resource are patched, and to what (reconciler.go).
use knative_serving_wasm.Prelude.{
  String, ◌==◌, ◌≡◌, Bool, true, false, not, ◌&&◌, Option, none, some, List, [], ◌∷◌, ◌++◌, arith,
  eq_iff, is_some, contains, if◌then◌else◌,
}
use knative_serving_wasm.Api.Types.{WasmModule}
use knative_serving_wasm.Platform.Types.{Platform}
use knative_serving_wasm.Platform.GoError.{Errors}
use knative_serving_wasm.Platform.Laws.{SetsLaws}
use knative_serving_wasm.Reconciler.Types.{ReconcilerImpl}
use knative_serving_wasm.Reconciler.Finalizers.{
  event_type_normal, patch_finalizers, update_finalizers_filtered, set_finalizer_if_finalizer,
  finalizers_after, clear_finalizer,
}

-- "Reconciled cleanly (nil or normal event)".
abbrev pub is_clean : {Err : Type 0} → Errors Err → Option Err → Bool
is_clean e none = true
is_clean e (some x) = elim (e.event_as x) [
  | none ↦ false
  | some event ↦ event.event_type == event_type_normal
]

module _ {Ctx Err S W : Type 0} (p : Platform Ctx Err S W) (laws : SetsLaws S p.sets)
    (r : ReconcilerImpl Ctx Err W) (ctx : Ctx) (resource : WasmModule) where
  open laws use {has-new, has-insert, has-delete, contains-to_list}

  -- Setting the finalizer patches exactly the live resources of a reconciler that implements
  -- `Finalizer` which lack it, and appends the name to the finalizers in their order; every other
  -- resource is returned as it was, with no request and no event.
  pub set_finalizer_if_finalizer_lem :
      (w : W)
      → set_finalizer_if_finalizer p r ctx resource w ≡ (
          if is_some r.reconciler.finalize_kind
            && (p.is_zero resource.deletion_timestamp
                && not (contains resource.finalizers r.finalizer_name))
          then patch_finalizers p r ctx resource (resource.finalizers ++ (r.finalizer_name ∷ [])) w
          else ((resource, none), w))
  unfolding set_finalizer_if_finalizer update_finalizers_filtered
  set_finalizer_if_finalizer_lem w = ground (
    arith,
    has-new resource.finalizers r.finalizer_name,
    has-insert (p.sets.new resource.finalizers) r.finalizer_name r.finalizer_name,
    eq_iff r.finalizer_name r.finalizer_name,
  )

  has-finalizers_after :
      (event : Option Err)
      → p.sets.has (finalizers_after p r resource.finalizers event) r.finalizer_name
        ≡ (not (is_clean p.errors event) && contains resource.finalizers r.finalizer_name)
  unfolding finalizers_after
  has-finalizers_after event = ground (
    arith,
    has-new resource.finalizers r.finalizer_name,
    has-delete (p.sets.new resource.finalizers) r.finalizer_name r.finalizer_name,
    eq_iff r.finalizer_name r.finalizer_name,
  )

  -- The finalizers that a clean finalization leaves.
  remaining : List String
  remaining = p.sets.to_list (p.sets.delete (p.sets.new resource.finalizers) r.finalizer_name)

  contains-remaining :
      (x : String)
      → contains remaining x
        ≡ (if r.finalizer_name == x then false else contains resource.finalizers x)
  unfolding remaining
  contains-remaining x = ground (
    arith,
    has-new resource.finalizers x,
    has-delete (p.sets.new resource.finalizers) r.finalizer_name x,
    contains-to_list (p.sets.delete (p.sets.new resource.finalizers) r.finalizer_name) x,
  )

  clear_finalizer-eq :
      (event : Option Err) (w : W)
      → clear_finalizer p r ctx resource event w ≡ (
          if is_some r.reconciler.finalize_kind
            && (not (p.is_zero resource.deletion_timestamp)
                && (is_clean p.errors event && contains resource.finalizers r.finalizer_name))
          then patch_finalizers p r ctx resource remaining w
          else ((resource, none), w))
  unfolding clear_finalizer update_finalizers_filtered remaining
  clear_finalizer-eq event w =
      ground (arith, has-new resource.finalizers r.finalizer_name, has-finalizers_after event)

  -- Clearing the finalizer patches exactly the deleted resources of a reconciler that implements
  -- `Finalizer` which hold it and whose finalization returned nil or a normal event. The patch keeps
  -- every other finalizer, and only those. Every other resource is returned as it was, with no
  -- request and no event.
  pub clear_finalizer_lem :
      (event : Option Err) (w : W)
      → (kept : List String) × ((x : String)
          → contains kept x
            ≡ (if r.finalizer_name == x then false else contains resource.finalizers x))
        × (clear_finalizer p r ctx resource event w ≡ (
            if is_some r.reconciler.finalize_kind
              && (not (p.is_zero resource.deletion_timestamp)
                  && (is_clean p.errors event && contains resource.finalizers r.finalizer_name))
            then patch_finalizers p r ctx resource kept w
            else ((resource, none), w)))
  clear_finalizer_lem event w = (remaining, contains-remaining, clear_finalizer-eq event w)
