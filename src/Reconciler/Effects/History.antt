-- ===== src/Reconciler/Effects/History.antt =====
-- Many replicas of a reconciler over time: what their runs make of the stored WasmModules.
use knative_serving_wasm.Prelude.{
  String, ◌≡◌, Bool, true, ◌⊎◌, Option, none, some, List, [], ok, is_some,
}
use knative_serving_wasm.Api.Types.{WasmModule}
use knative_serving_wasm.Platform.Types.{NamespacedName, Platform, Argument}
use knative_serving_wasm.Platform.Laws.{SetsLaws, RetriesConflicts}
use knative_serving_wasm.Platform.Http.{merge_patch}
use knative_serving_wasm.Client.{get_request, update_status_request, patch_request, zero_options}
use knative_serving_wasm.Server.{StatusSet, FinalizersSet, remains}
use knative_serving_wasm.Reconciler.Types.{DoReconcile, ReconcilerImpl}
use knative_serving_wasm.Reconciler.Reconcile.{reconcile}
use knative_serving_wasm.Reconciler.Effects
use knative_serving_wasm.Reconciler.Effects.{Act, Acts}
use knative_serving_wasm.Reconciler.Effects.Run.{reconcile-Acts}

-- What is stored under a name before and after: nothing both times, or an object of which only the
-- status and the version have changed.
abbrev pub StatusOnly : Option WasmModule → Option WasmModule → Type 0
StatusOnly none none = Unit
StatusOnly (some m) (some m') = StatusSet m'.status m m'
StatusOnly none (some _) = ⊥
StatusOnly (some _) none = ⊥

-- The same for a patch of the finalizers: nothing has changed, or an object's finalizers and version
-- have, and it is removed if it is deleted and has none left.
abbrev pub PatchOnly : List String → Option WasmModule → Option WasmModule → Type 0
PatchOnly finalizers a b =
    (a ≡ b)
    ⊎ ((m : WasmModule) × (m' : WasmModule) × (a ≡ some m)
        × (b ≡ remains m')
        × FinalizersSet finalizers m m')

-- What Kubernetes and the libraries document of calls, whatever the answers: an update of the status
-- subresource changes a stored object in its status and version alone; reads and events change none.
-- While a call runs, others may change what is stored under a name, as `R` allows.
pub record CallsKeep {Ctx Err S W : Type 0} (p : Platform Ctx Err S W)
    (stored : String → String → W → Option WasmModule)
    (R : Option WasmModule → Option WasmModule → Type 0) : Type 0 where
  pub reads :
      (ctx : Ctx) (namespace name a b : String) (w : W)
      → R
          (stored a b w)
          (stored a b (p.rest.do_into ctx (get_request namespace name zero_options) w).1)
  pub updates_status :
      (ctx : Ctx) (o : WasmModule) (a b : String) (w : W)
      → (x : Option WasmModule) × (y : Option WasmModule) × R (stored a b w) x
        × StatusOnly x y
        × R y
            (stored a b (p.rest.do_into ctx (update_status_request o.namespace o zero_options) w).1)
  pub records_event :
      (o : WasmModule) (kind reason message a b : String) (w : W)
      → R (stored a b w) (stored a b (p.recorder.event o kind reason message w))
  pub records_eventf :
      (o : WasmModule) (kind reason format : String) (args : List (Argument Err)) (a b : String)
      → (w : W) → R (stored a b w) (stored a b (p.recorder.eventf o kind reason format args w))

-- The same of a patch of the finalizers, which changes these and the version, and of the user's methods,
-- which change no stored object.
pub record RunsKeep {Ctx Err S W : Type 0} (p : Platform Ctx Err S W) (r : ReconcilerImpl Ctx Err W)
    (stored : String → String → W → Option WasmModule)
    (R : Option WasmModule → Option WasmModule → Type 0) : Type 0 where
  pub calls : CallsKeep p stored R
  pub patches :
      (ctx : Ctx) (o : WasmModule) (finalizers : List String) (bytes a b : String) (w : W)
      → is_some r.reconciler.finalize_kind ≡ true
      → p.marshal
          (record { finalizers = finalizers; resource_version = o.object_meta.resource_version })
        ≡ ok bytes
      → (x : Option WasmModule) × (y : Option WasmModule) × R (stored a b w) x
        × PatchOnly finalizers x y
        × R y (
            stored a b
              (p.rest.do_into ctx
                (patch_request o.namespace o.name merge_patch bytes zero_options [])
                w).1)
  pub reconciles :
      (ctx : Ctx) (o : WasmModule) (a b : String) (w : W)
      → R (stored a b w) (stored a b (r.reconciler.reconcile_kind ctx o w).1)
  pub finalizes :
      (f : DoReconcile Ctx Err W) (ctx : Ctx) (o : WasmModule) (a b : String) (w : W)
      → r.reconciler.finalize_kind ≡ some f
      → R (stored a b w) (stored a b (f ctx o w).1)
  pub observes :
      (f : DoReconcile Ctx Err W) (ctx : Ctx) (o : WasmModule) (a b : String) (w : W)
      → r.reconciler.observe_kind ≡ some f
      → R (stored a b w) (stored a b (f ctx o w).1)
  pub observes_deletion :
      (f : Ctx → NamespacedName → W → Option Err × W) (ctx : Ctx) (key : NamespacedName)
      → (a b : String) (w : W) → r.reconciler.observe_deletion ≡ some f
      → R (stored a b w) (stored a b (f ctx key w).1)

-- The worlds that replicas of a reconciler reach with their runs, for any contexts and keys in any
-- order, and with changes by others (users, other controllers, the informers, the elector) in between.
module _ {I Ctx Err S W : Type 0} (p : Platform Ctx Err S W)
    (replica : I → ReconcilerImpl Ctx Err W) (Other : W → W → Type 0) (w₀ : W) where
  pub data Reach : W → Type 0 where
    start : Reach w₀
    run :
        {w : W} (i : I) (ctx : Ctx) (key : String)
        → Reach w
        → Reach (reconcile p (replica i) ctx key w).1
    other : {w w' : W} → Reach w → Other w w' → Reach w'

module _ {W : Type 0} (stored : String → String → W → Option WasmModule)
    (R : Option WasmModule → Option WasmModule → Type 0) where
  -- The relation holds of what is stored under each name.
  abbrev pub Throughout : W → W → Type 0
  Throughout w w' = (a b : String) → R (stored a b w) (stored a b w')

  module _ (R_refl : (o : Option WasmModule) → R o o)
      (R_trans : (a b c : Option WasmModule) → R a b → R b c → R a c)
      (status : (a b : Option WasmModule) → StatusOnly a b → R a b) where
    module _ {Ctx Err S : Type 0} (p : Platform Ctx Err S W) (r : ReconcilerImpl Ctx Err W)
        (keeps : RunsKeep p r stored R)
        (patch : is_some r.reconciler.finalize_kind ≡ true
          → (l : List String) (a b : Option WasmModule) → PatchOnly l a b
          → R a b) where
      Act-Throughout :
          {cached : WasmModule → Type 0} {leads : Bool} {w w' : W}
          → Act p r cached leads w w'
          → Throughout w w'
      Act-Throughout (Effects.read ctx namespace name w _) =
          λ a b. keeps.calls.reads ctx namespace name a b w
      Act-Throughout (Effects.put_status ctx o w _ _) = λ a b.
          let (x, y, before, written, after) = keeps.calls.updates_status ctx o a b w in
          R_trans _ x _ before (R_trans x y _ (status x y written) after)
      Act-Throughout (Effects.patch_finalizer ctx o l bytes w _ finalizes _ _ marshalled) = λ a b.
          let (x, y, before, patched, after) =
            keeps.patches ctx o l bytes a b w finalizes marshalled in
          R_trans _ x _ before (R_trans x y _ (patch finalizes l x y patched) after)
      Act-Throughout (Effects.record_event o kind reason message w) =
          λ a b. keeps.calls.records_event o kind reason message a b w
      Act-Throughout (Effects.record_eventf o kind reason format args w) =
          λ a b. keeps.calls.records_eventf o kind reason format args a b w
      Act-Throughout (Effects.reconcile_kind ctx o w _) = λ a b. keeps.reconciles ctx o a b w
      Act-Throughout (Effects.finalize_kind f ctx o w is _ _) =
          λ a b. keeps.finalizes f ctx o a b w is
      Act-Throughout (Effects.observe_kind f ctx o w is _ _) =
          λ a b. keeps.observes f ctx o a b w is
      Act-Throughout (Effects.observe_deletion f ctx key w is) =
          λ a b. keeps.observes_deletion f ctx key a b w is

      Acts-Throughout :
          {cached : WasmModule → Type 0} {leads : Bool} {w w' : W}
          → Acts p r cached leads w w'
          → Throughout w w'
      Acts-Throughout {w = w} Effects.here = λ a b. R_refl (stored a b w)
      Acts-Throughout (Effects.next s act) =
          λ a b. R_trans _ _ _ (Acts-Throughout s a b) (Act-Throughout act a b)

    module _ {I Ctx Err S : Type 0} (p : Platform Ctx Err S W) (law : RetriesConflicts p)
        (laws : SetsLaws S p.sets) (replica : I → ReconcilerImpl Ctx Err W)
        (keeps : (i : I) → RunsKeep p (replica i) stored R)
        (patch : (i : I)
          → is_some (replica i).reconciler.finalize_kind ≡ true
          → (l : List String) (a b : Option WasmModule) → PatchOnly l a b
          → R a b)
        (Other : W → W → Type 0) (others : (w w' : W) → Other w w' → Throughout w w') where
      -- A relation that each step keeps holds of each history.
      pub Reach-Throughout : {w₀ w : W} → Reach p replica Other w₀ w → Throughout w₀ w
      Reach-Throughout {w₀} start = λ a b. R_refl (stored a b w₀)
      Reach-Throughout (run {w = w} i ctx key h) = λ a b. R_trans _ _ _ (Reach-Throughout h a b) (
          Acts-Throughout p (replica i) (keeps i) (patch i)
            (reconcile-Acts p (replica i) law laws ctx key w) a b)
      Reach-Throughout (other h change) =
          λ a b. R_trans _ _ _ (Reach-Throughout h a b) (others _ _ change a b)
