-- ===== src/Service/History.antt =====
-- Many replicas of the controller over time: what their runs make of the stored WasmModules.
use knative_serving_wasm.Prelude.{String, Option}
use knative_serving_wasm.Api.Types.{WasmModule}
use knative_serving_wasm.Platform.Types.{Platform}
use knative_serving_wasm.Platform.Laws.{SetsLaws, RetriesConflicts}
use knative_serving_wasm.Reconciler.Types.{ReconcilerImpl}
use knative_serving_wasm.Reconciler.Effects.History.{
  StatusOnly, CallsKeep, RunsKeep, Throughout, Reach, Reach-Throughout,
}
use knative_serving_wasm.Service.{Services, Reference, reference_to, interface}
use knative_serving_wasm.Service.Outcome.{reconcile_kind_frame}
use knative_serving_wasm.Service.Steady.{over}

-- What is documented of the calls of a run of this controller: those of the generated reconciler, and
-- that the tracker changes no stored object.
pub record ServiceKeeps {Ctx Err S W : Type 0} (p : Platform Ctx Err S W)
    (services : Services Err W) (stored : String → String → W → Option WasmModule)
    (R : Option WasmModule → Option WasmModule → Type 0) : Type 0 where
  pub calls : CallsKeep p stored R
  pub tracks :
      (ref : Reference) (o : WasmModule) (a b : String) (w : W)
      → R (stored a b w) (stored a b (services.track_reference ref o w).1)

module _ {I Ctx Err S W : Type 0} (p : Platform Ctx Err S W)
    (stored : String → String → W → Option WasmModule) (law : RetriesConflicts p)
    (laws : SetsLaws S p.sets) (replica : I → ReconcilerImpl Ctx Err W)
    (services : I → Services Err W) (R : Option WasmModule → Option WasmModule → Type 0)
    (keeps : (i : I) → ServiceKeeps p (services i) stored R) (Other : W → W → Type 0) where
  -- The replicas of the controller.
  abbrev pub controllers : I → ReconcilerImpl Ctx Err W
  controllers i = over (replica i) (services i)

  controllers-RunsKeep : (i : I) → RunsKeep p (controllers i) stored R
  unfolding interface
  controllers-RunsKeep i = record {
    calls = (keeps i).calls;
    patches = λ ctx o l bytes a b w h _. absurd (cc);
    reconciles = λ ctx o a b w.
        rw ((reconcile_kind_frame (services i) ctx o w).0)
          ((keeps i).tracks (reference_to (services i) o) o a b w);
    finalizes = λ f ctx o a b w h. absurd (cc);
    observes = λ f ctx o a b w h. absurd (cc);
    observes_deletion = λ f ctx key a b w h. absurd (cc);
  }

  -- Runs of this controller change no more of the stored WasmModules than statuses and versions. The
  -- conditions: the server, the recorder and the tracker do to the stored objects what is documented of
  -- them (`ServiceKeeps`), retries are of conflicts (`RetriesConflicts`), and the set library has its
  -- laws. Take any reflexive and transitive relation between what is stored under a name before and
  -- after that allows such a change (`StatusOnly`), and that holds of the changes by others, also of
  -- those while a run is in one of its calls. Then it holds, for every name, from the start to every
  -- world that is reached by runs of replicas, whatever their roles, keys, caches and answers, and by
  -- changes by others in between.
  pub Reach-StatusOnly :
      ((o : Option WasmModule) → R o o)
      → ((a b c : Option WasmModule) → R a b → R b c → R a c)
      → ((a b : Option WasmModule) → StatusOnly a b → R a b)
      → ((w w' : W) → Other w w' → Throughout stored R w w')
      → {w₀ w : W} → Reach p controllers Other w₀ w
      → Throughout stored R w₀ w
  unfolding interface
  Reach-StatusOnly R_refl R_trans allowed others =
      Reach-Throughout stored R R_refl R_trans allowed p law laws controllers controllers-RunsKeep
        (λ i h. absurd (cc)) Other others
