-- ===== src/Reconciler/Finalizers/Stored.antt =====
-- The finalizers of the object that the API server stores: setting and clearing the reconciler's own
-- is a round trip.
use knative_serving_wasm.Prelude.{
  String, ◌==◌, eq_iff, ◌≡◌, ◌∙◌, refl, ap, subst, ◌⊎◌, inl, inr, Bool-cases, true, false, Option,
  none, some, List, [], ◌∷◌, ◌++◌, is_some, contains, contains-append, arith, if◌then◌else◌,
}
use knative_serving_wasm.Api.Types.{WasmModule}
use knative_serving_wasm.Platform.Types.{Platform, Argument, text}
use knative_serving_wasm.Platform.Laws.{SetsLaws}
use knative_serving_wasm.Client.{patch_module}
use knative_serving_wasm.Server.{ApiServer, FinalizersSet, remains}
use knative_serving_wasm.Reconciler.Types.{ReconcilerImpl}
use knative_serving_wasm.Reconciler.Finalizers.{
  report_patch, send_patch, patch_finalizers, set_finalizer_if_finalizer, clear_finalizer,
  event_type_normal,
}
use knative_serving_wasm.Reconciler.Finalizers.Changes.{
  is_clean, set_finalizer_if_finalizer_lem, clear_finalizer_lem,
}

-- The recorder writes nothing that the server stores under a WasmModule's name.
abbrev pub RecorderKeeps :
    {Ctx Err S W : Type 0} (p : Platform Ctx Err S W)
    → ApiServer p.errors p.rest p.marshal p.is_zero
    → Type 0
RecorderKeeps {Err = Err} {W = W} p server =
    (o : WasmModule) (kind reason format : String) (args : List (Argument Err)) (ns name : String)
    → (w : W)
    → server.stored ns name (p.recorder.eventf o kind reason format args w)
      ≡ server.stored ns name w

-- What is left of a list less one entry was in it.
pub kept_held :
    (own : String) (old kept : List String) (x : String)
    → contains kept x ≡ (if own == x then false else contains old x)
    → contains kept x ≡ true
    → contains old x ≡ true
kept_held own old kept x e h = ground arith

module _ {Ctx Err S W : Type 0} (p : Platform Ctx Err S W)
    (server : ApiServer p.errors p.rest p.marshal p.is_zero) (keeps : RecorderKeeps p server)
    (r : ReconcilerImpl Ctx Err W) (ctx : Ctx) where
  -- A patch that succeeds and leaves the finalizers stored, or the object removed.
  abbrev pub Patched : WasmModule → List String → (WasmModule × Option Err) × W → Type 0
  Patched m finalizers result =
      (m' : WasmModule) × (w' : W) × (result ≡ ((m', none), w'))
      × (server.stored m.namespace m.name w' ≡ remains m')
      × FinalizersSet finalizers m m'

  -- The normal event of a patch.
  reported : WasmModule → WasmModule → W → W
  reported m m' w =
      p.recorder.eventf m' event_type_normal "FinalizerUpdate" "Updated %q finalizers"
        (text m.name ∷ []) w

  pub patch_finalizers-Patched :
      (m : WasmModule) (finalizers : List String) (w : W)
      → server.stored m.namespace m.name w ≡ some m
      → ((x : String)
          → contains finalizers x ≡ true
          → (contains m.finalizers x ≡ true)
            ⊎ ((p.is_zero m.deletion_timestamp ≡ true) × (server.accepts x ≡ true)))
      → Patched m finalizers (patch_finalizers p r ctx m finalizers w)
  unfolding patch_finalizers patch_module reported
  patch_finalizers-Patched m finalizers w held allowed =
      let (bytes, m', w', marshalled, answered, stored', set) =
        server.patch_accepted ctx m.namespace m.name
          (record { finalizers = finalizers; resource_version = m.object_meta.resource_version }) w
          held refl allowed in
      (
        m',
        reported m m' w',
        ap (λ a. send_patch p r ctx m a w) marshalled ∙ ap (report_patch p r m) answered,
        keeps m' event_type_normal "FinalizerUpdate" "Updated %q finalizers" (text m.name ∷ [])
              m.namespace m.name w'
            ∙ stored',
        set,
      )

  -- A live resource without the finalizer gets it.
  pub set_finalizer_if_finalizer-Patched :
      (laws : SetsLaws S p.sets) (m : WasmModule) (w : W)
      → is_some r.reconciler.finalize_kind ≡ true
      → p.is_zero m.deletion_timestamp ≡ true
      → contains m.finalizers r.finalizer_name ≡ false
      → server.accepts r.finalizer_name ≡ true
      → server.stored m.namespace m.name w ≡ some m
      → Patched m (m.finalizers ++ (r.finalizer_name ∷ [])) (set_finalizer_if_finalizer p r ctx m w)
  set_finalizer_if_finalizer-Patched laws m w finalizes live lacks accepts held =
      let (m', w', eq, stored', set) =
        patch_finalizers-Patched m (m.finalizers ++ (r.finalizer_name ∷ [])) w held (λ x there.
          elim (Bool-cases (contains m.finalizers x)) [
            | inl old ↦ inl old
            | inr new ↦
                let own : r.finalizer_name ≡ x = ground (
                  arith,
                  contains-append m.finalizers (r.finalizer_name ∷ []) x,
                  eq_iff r.finalizer_name x,
                ) in
                inr (live, subst (λ y. server.accepts y ≡ true) own accepts)
          ]) in
      (
        m',
        w',
        set_finalizer_if_finalizer_lem p laws r ctx m w ∙ (rw (finalizes, live, lacks) eq),
        stored',
        set,
      )

  -- A cleanly finalized resource with the finalizer loses it, and it alone.
  pub clear_finalizer-Patched :
      (laws : SetsLaws S p.sets) (m : WasmModule) (event : Option Err) (w : W)
      → is_some r.reconciler.finalize_kind ≡ true
      → p.is_zero m.deletion_timestamp ≡ false
      → contains m.finalizers r.finalizer_name ≡ true
      → is_clean p.errors event ≡ true
      → server.stored m.namespace m.name w ≡ some m
      → (kept : List String) × ((x : String)
          → contains kept x ≡ (if r.finalizer_name == x then false else contains m.finalizers x))
        × Patched m kept (clear_finalizer p r ctx m event w)
  clear_finalizer-Patched laws m event w finalizes deleted has clean held =
      let (kept, contains-kept, cleared) = clear_finalizer_lem p laws r ctx m event w in
      let (m', w', eq, stored', set) =
        patch_finalizers-Patched m kept w held (λ x there.
          inl (kept_held r.finalizer_name m.finalizers kept x (contains-kept x) there)) in
      (
        kept,
        contains-kept,
        (m', w', cleared ∙ (rw (finalizes, deleted, clean, has) eq), stored', set),
      )

  contains-cleared :
      (fin : String) (old set kept : List String) (x : String)
      → contains old fin ≡ false
      → set ≡ old ++ (fin ∷ [])
      → contains kept x ≡ (if fin == x then false else contains set x)
      → contains kept x ≡ contains old x
  contains-cleared fin old set kept x lacks is_set is_kept = ground (
    arith,
    ap (λ l. contains l x) is_set,
    contains-append old (fin ∷ []) x,
    eq_iff fin x,
    ap (λ a. contains old a),
  )

  -- With a reconciler that implements `Finalizer`: take a live object that the server stores
  -- without the finalizer, whose name the server accepts, and set it. Take later a deleted object
  -- that the server stores with the finalizers that this left, and clear the finalizer after a
  -- finalization that returned nil or a normal event. That succeeds, and the patched object has
  -- the finalizers of the first one, as a set; its type, spec, status and other metadata are the
  -- deleted object's, but for the version. It is what the server stores then, or nothing is, where
  -- no finalizer is left.
  pub finalizers_roundtrip :
      (laws : SetsLaws S p.sets) (m d : WasmModule) (event : Option Err) (w w' : W)
      → is_some r.reconciler.finalize_kind ≡ true
      → p.is_zero m.deletion_timestamp ≡ true
      → contains m.finalizers r.finalizer_name ≡ false
      → server.accepts r.finalizer_name ≡ true
      → server.stored m.namespace m.name w ≡ some m
      → d.finalizers ≡ (set_finalizer_if_finalizer p r ctx m w).0.0.finalizers
      → p.is_zero d.deletion_timestamp ≡ false
      → is_clean p.errors event ≡ true
      → server.stored d.namespace d.name w' ≡ some d
      → (kept : List String) × ((x : String) → contains kept x ≡ contains m.finalizers x)
        × Patched d kept (clear_finalizer p r ctx d event w')
  finalizers_roundtrip laws m d event w w' finalizes live lacks accepts held same deleted clean
        held' =
      let (m', w₁, eq, _, set) =
        set_finalizer_if_finalizer-Patched laws m w finalizes live lacks accepts held in
      let is_set : d.finalizers ≡ m.finalizers ++ (r.finalizer_name ∷ []) =
        same ∙ (ap (λ a. a.0.0.finalizers) eq ∙ ap (λ o. o.finalizers) set.set_meta) in
      let has : contains d.finalizers r.finalizer_name ≡ true = ground (
        arith,
        ap (λ l. contains l r.finalizer_name) is_set,
        contains-append m.finalizers (r.finalizer_name ∷ []) r.finalizer_name,
        eq_iff r.finalizer_name r.finalizer_name,
      ) in
      let (kept, contains-kept, cleared) =
        clear_finalizer-Patched laws d event w' finalizes deleted has clean held' in
      (
        kept,
        λ x.
            contains-cleared r.finalizer_name m.finalizers d.finalizers kept x lacks is_set
              (contains-kept x),
        cleared,
      )
