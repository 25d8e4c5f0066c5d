-- ===== src/Reconciler/Effects/Evolution.antt =====
-- What the runs of any reconciler can make of the stored WasmModules.
use knative_serving_wasm.Prelude.{
  ℕ, String, ◌≡◌, ◌≢◌, ap, subst, refl, inl, inr, Option, none, some, List, [], ◌∷◌, arith,
}
use knative_serving_wasm.Api.Types.{WasmModule}
use knative_serving_wasm.Platform.Types.{Platform}
use knative_serving_wasm.Platform.Laws.{SetsLaws, RetriesConflicts}
use knative_serving_wasm.Server.{StatusSet, FinalizersSet, left_of}
use knative_serving_wasm.Reconciler.Types.{ReconcilerImpl}
use knative_serving_wasm.Reconciler.Effects.History.{
  StatusOnly, PatchOnly, RunsKeep, Throughout, Reach, Reach-Throughout,
}

-- An object before and after: the type, the spec and the metadata are the same but for the finalizers
-- and the version.
pub record SameBody (m m' : WasmModule) : Type 0 where
  pub same_type : m'.type_meta ≡ m.type_meta
  pub same_spec : m'.spec ≡ m.spec
  pub same_meta : m'.object_meta ≡ record m.object_meta {
    finalizers = m'.finalizers;
    resource_version = m'.object_meta.resource_version;
  }

-- What is stored under a name: nothing appears, an object keeps its body, and only a deleted one goes.
abbrev pub Evolves : Option WasmModule → Option WasmModule → Type 0
Evolves none none = Unit
Evolves (some m) (some m') = SameBody m m'
Evolves (some m) none = m.deletion_timestamp ≢ none
Evolves none (some _) = ⊥

Evolves-refl : (o : Option WasmModule) → Evolves o o
Evolves-refl none = tt
Evolves-refl (some m) = record { same_type = refl; same_spec = refl; same_meta = refl }

StatusSet-SameBody : (m m' : WasmModule) → StatusSet m'.status m m' → SameBody m m'
StatusSet-SameBody m m' set = record {
  same_type = set.same_type;
  same_spec = set.same_spec;
  same_meta = ground (arith, set.same_meta, ap (λ o. o.finalizers) set.same_meta);
}

pub StatusOnly-Evolves : (a b : Option WasmModule) → StatusOnly a b → Evolves a b
StatusOnly-Evolves none none h = tt
StatusOnly-Evolves (some m) (some m') h = StatusSet-SameBody m m' h
StatusOnly-Evolves none (some _) h = h
StatusOnly-Evolves (some _) none h = absurd h

FinalizersSet-SameBody :
    (l : List String) (m m' : WasmModule) → FinalizersSet l m m' → SameBody m m'
FinalizersSet-SameBody l m m' set = record {
  same_type = set.same_type;
  same_spec = set.same_spec;
  same_meta = ground (arith, set.set_meta, ap (λ o. o.finalizers) set.set_meta);
}

left_of-Evolves :
    (d : Option ℕ) (l : List String) (m m' : WasmModule)
    → d ≡ m.deletion_timestamp
    → SameBody m m'
    → Evolves (some m) (left_of d l m')
left_of-Evolves none l m m' e same = same
left_of-Evolves (some _) (_ ∷ _) m m' e same = same
left_of-Evolves (some t) [] m m' e same = λ h. cc

PatchOnly-Evolves : (l : List String) (a b : Option WasmModule) → PatchOnly l a b → Evolves a b
PatchOnly-Evolves l a b (inl e) = subst (Evolves a) e (Evolves-refl a)
PatchOnly-Evolves l a b (inr (m, m', from, to, set)) =
    rw (from, to)
      (left_of-Evolves m'.deletion_timestamp m'.finalizers m m'
        (ap (λ o. o.deletion_timestamp) set.set_meta) (FinalizersSet-SameBody l m m' set))

module _ {I Ctx Err S W : Type 0} (p : Platform Ctx Err S W)
    (stored : String → String → W → Option WasmModule) (law : RetriesConflicts p)
    (laws : SetsLaws S p.sets) (replica : I → ReconcilerImpl Ctx Err W)
    (R : Option WasmModule → Option WasmModule → Type 0)
    (keeps : (i : I) → RunsKeep p (replica i) stored R) (Other : W → W → Type 0) where
  -- Runs of any reconciler create no WasmModule, keep the type, the spec and the metadata of the stored
  -- ones but for finalizers and versions, and remove only deleted ones. The conditions: the server and
  -- the recorder do to the stored objects what is documented of each request and event (`RunsKeep`),
  -- retries are of conflicts (`RetriesConflicts`), and the set library has its laws. Take any reflexive
  -- and transitive relation between what is stored under a name before and after that allows such a
  -- change (`Evolves`), and that holds of the changes by others and by the user's methods, also of those
  -- while a run is in one of its calls. Then it holds, for every name, from the start to every world
  -- that is reached by runs of replicas, whatever their roles, keys, caches and answers, and by changes
  -- by others in between.
  pub Reach-Evolves :
      ((o : Option WasmModule) → R o o)
      → ((a b c : Option WasmModule) → R a b → R b c → R a c)
      → ((a b : Option WasmModule) → Evolves a b → R a b)
      → ((w w' : W) → Other w w' → Throughout stored R w w')
      → {w₀ w : W} → Reach p replica Other w₀ w
      → Throughout stored R w₀ w
  Reach-Evolves R_refl R_trans allowed others =
      Reach-Throughout stored R R_refl R_trans (λ a b h. allowed a b (StatusOnly-Evolves a b h)) p
        law laws replica keeps (λ i _ l a b h. allowed a b (PatchOnly-Evolves l a b h)) Other others
