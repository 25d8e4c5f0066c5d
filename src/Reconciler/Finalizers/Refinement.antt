-- ===== src/Reconciler/Finalizers/Refinement.antt =====
-- Setting and clearing the finalizer of the object that the API server stores are insertion and removal
-- on its set of finalizers.
use knative_serving_wasm.Prelude.{
  String, ◌≡◌, ◌∙◌, refl, ap, sym, inl, inr, Bool, true, Option, none, some, is_some, contains,
  Bool-cases, if◌then◌else◌,
}
use knative_serving_wasm.Api.Types.{WasmModule}
use knative_serving_wasm.Platform.Types.{Platform}
use knative_serving_wasm.Platform.Laws.{SetsLaws}
use knative_serving_wasm.Server.{ApiServer, remains}
use knative_serving_wasm.Reconciler.Types.{ReconcilerImpl}
use knative_serving_wasm.Reconciler.Finalizers.{set_finalizer_if_finalizer, clear_finalizer}
use knative_serving_wasm.Reconciler.Finalizers.Changes.{
  is_clean, set_finalizer_if_finalizer_lem, clear_finalizer_lem,
}
use knative_serving_wasm.Reconciler.Finalizers.Sets.{
  FinalizerSet, set_of, insert, delete, insert-held, insert-append, delete-kept, delete-lacks,
}
use knative_serving_wasm.Reconciler.Finalizers.Stored.{
  RecorderKeeps, set_finalizer_if_finalizer-Patched, clear_finalizer-Patched,
}

-- The specification: a live object gets the finalizer, a deleted one keeps its set; a deleted object
-- loses the finalizer after a clean finalization, and keeps its set otherwise, as a live one does.
unfoldable pub set_spec : String → Bool → FinalizerSet → FinalizerSet
set_spec own live s = if live then insert own s else s

unfoldable pub clear_spec : String → Bool → Bool → FinalizerSet → FinalizerSet
clear_spec own live clean s = if live then s else if clean then delete own s else s

module _ {Ctx Err S W : Type 0} (p : Platform Ctx Err S W)
    (server : ApiServer p.errors p.rest p.marshal p.is_zero) (keeps : RecorderKeeps p server)
    (r : ReconcilerImpl Ctx Err W) (ctx : Ctx) (laws : SetsLaws S p.sets) (m : WasmModule) where
  -- A call that ends well, with an object that has the given set, and is stored if it remains.
  abbrev pub Ends : FinalizerSet → (WasmModule × Option Err) × W → Type 0
  Ends set result =
      (m' : WasmModule) × (w' : W) × (result ≡ ((m', none), w'))
      × (server.stored m.namespace m.name w' ≡ remains m')
      × (set_of m' ≡ set)

  module _ (finalizes : is_some r.reconciler.finalize_kind ≡ true) (kept : remains m ≡ some m)
      (accepts : server.accepts r.finalizer_name ≡ true) where
    set_finalizer-Ends :
        (w : W)
        → server.stored m.namespace m.name w ≡ some m
        → Ends
            (set_spec r.finalizer_name (p.is_zero m.deletion_timestamp) (set_of m))
            (set_finalizer_if_finalizer p r ctx m w)
    unfolding set_spec
    set_finalizer-Ends w held = elim (Bool-cases (p.is_zero m.deletion_timestamp)) [
      | inr gone ↦ rw gone (
        m,
        w,
        set_finalizer_if_finalizer_lem p laws r ctx m w ∙ rw (finalizes, gone) refl,
        held ∙ sym kept,
        refl,
      )
      | inl live ↦ elim (Bool-cases (contains m.finalizers r.finalizer_name)) [
        | inl has ↦ rw live (
          m,
          w,
          set_finalizer_if_finalizer_lem p laws r ctx m w ∙ rw (finalizes, live, has) refl,
          held ∙ sym kept,
          insert-held r.finalizer_name m has,
        )
        | inr lacks ↦
            let (m', w', eq, stored', set) =
              set_finalizer_if_finalizer-Patched p server keeps r ctx laws m w finalizes live lacks
                accepts held in
            rw live (
              m',
              w',
              eq,
              stored',
              insert-append r.finalizer_name m m' (ap (λ o. o.finalizers) set.set_meta),
            )
      ]
    ]

    clear_finalizer-Ends :
        (event : Option Err) (w : W)
        → server.stored m.namespace m.name w ≡ some m
        → Ends
            (clear_spec r.finalizer_name
              (p.is_zero m.deletion_timestamp)
              (is_clean p.errors event)
              (set_of m))
            (clear_finalizer p r ctx m event w)
    unfolding clear_spec
    clear_finalizer-Ends event w held =
        let cleared = (clear_finalizer_lem p laws r ctx m event w).2 in
        elim (Bool-cases (p.is_zero m.deletion_timestamp)) [
          | inl live ↦ rw live (m, w, cleared ∙ rw (finalizes, live) refl, held ∙ sym kept, refl)
          | inr gone ↦ elim (Bool-cases (is_clean p.errors event)) [
            | inr failed ↦
                rw (gone, failed)
                  (m, w, cleared ∙ rw (finalizes, gone, failed) refl, held ∙ sym kept, refl)
            | inl clean ↦ elim (Bool-cases (contains m.finalizers r.finalizer_name)) [
              | inr lacks ↦
                  rw (gone, clean)
                    (
                      m,
                      w,
                      cleared ∙ rw (finalizes, gone, clean, lacks) refl,
                      held ∙ sym kept,
                      delete-lacks r.finalizer_name m lacks,
                    )
              | inl has ↦
                  let (left, contains-left, (m', w', eq, stored', set)) =
                    clear_finalizer-Patched p server keeps r ctx laws m event w finalizes gone has
                      clean held in
                  rw (gone, clean)
                    (
                      m',
                      w',
                      eq,
                      stored',
                      delete-kept r.finalizer_name m m' left (ap (λ o. o.finalizers) set.set_meta)
                          contains-left,
                    )
            ]
          ]
        ]

    -- With a reconciler that implements `Finalizer`, on an object that the server stores, and that
    -- is not a deleted one with no finalizer, where the server accepts the finalizer's name:
    -- setting and clearing the finalizer end well, and what they return is stored, but for a
    -- deleted object with no finalizer left, which is removed. On the set of the object's
    -- finalizers, setting is the insertion of the reconciler's own if the object is live, and the
    -- identity if it is deleted; clearing is its removal if the object is deleted and its
    -- finalization returned nil or a normal event, and the identity otherwise.
    pub finalizers-refine :
        (event : Option Err) (w : W)
        → server.stored m.namespace m.name w ≡ some m
        → Ends
            (set_spec r.finalizer_name (p.is_zero m.deletion_timestamp) (set_of m))
            (set_finalizer_if_finalizer p r ctx m w)
          × Ends
              (clear_spec r.finalizer_name
                (p.is_zero m.deletion_timestamp)
                (is_clean p.errors event)
                (set_of m))
              (clear_finalizer p r ctx m event w)
    finalizers-refine event w held = (set_finalizer-Ends w held, clear_finalizer-Ends event w held)
