-- ===== src/Tests/Persistence.antt =====
-- A relation that the histories of the tests keep: live objects stay, and their generations do not fall.
use knative_serving_wasm.Prelude.{
  ℕ, ◌+◌, ◌≤◌, String, ◌==◌, ◌≡◌, ◌≢◌, ap, sym, subst, refl, Bool, true, false, ◌&&◌, Option, none,
  some, List, [], ◌∷◌, arith, if◌then◌else◌,
}
use knative_serving_wasm.Api.Types.{WasmModule, WasmModuleStatus}
use knative_serving_wasm.Server.{StatusSet, left_of, remains}
use knative_serving_wasm.Reconciler.Effects.History.{StatusOnly, Throughout}
use knative_serving_wasm.Reconciler.Effects.Evolution.{Evolves}
use knative_serving_wasm.Tests.World.{World}
use knative_serving_wasm.Tests.Versioned.{with_status, with_finalizers, guarded, patched}

-- The stored object, under its name alone.
abbrev is_named : String → String → World → Bool
is_named ns name w = w.server.namespace == ns && w.server.name == name

unfoldable pub stored_under : String → String → World → Option WasmModule
stored_under ns name w = if is_named ns name w then remains w.server else none

StatusOnly-left_of :
    (t : Bool) (d : Option ℕ) (l : List String) (m m' : WasmModule)
    → StatusSet m'.status m m'
    → StatusOnly (if t then left_of d l m else none) (if t then left_of d l m' else none)
StatusOnly-left_of false d l m m' h = tt
StatusOnly-left_of true none l m m' h = h
StatusOnly-left_of true (some _) [] m m' h = tt
StatusOnly-left_of true (some _) (_ ∷ _) m m' h = h

pub StatusOnly-guarded :
    (accepted : Bool) (status : WasmModuleStatus) (ns name : String) (w : World)
    → StatusOnly
        (stored_under ns name w)
        (stored_under ns name (guarded accepted (with_status status w.server) w).1)
unfolding stored_under guarded with_status
StatusOnly-guarded true status ns name w =
    StatusOnly-left_of (is_named ns name w) w.server.deletion_timestamp w.server.finalizers w.server
      (with_status status w.server)
      (record { status_is = refl; same_type = refl; same_spec = refl; same_meta = refl })
StatusOnly-guarded false status ns name w =
    StatusOnly-left_of (is_named ns name w) w.server.deletion_timestamp w.server.finalizers w.server
      w.server (record { status_is = refl; same_type = refl; same_spec = refl; same_meta = refl })

-- A user names another Service, which gives the object a new generation.
abbrev pub edited : String → World → World
edited service w = record w {
  server = record w.server {
    object_meta = record w.server.object_meta { generation = w.server.generation + 1 };
    spec = record { service_name = service };
  };
}

pub data Edit : World → World → Type 0 where
  edit : (service : String) (w : World) → Edit w (edited service w)

-- A live object is not removed or deleted, and its generation does not fall.
abbrev FromLive : Option ℕ → ℕ → Option WasmModule → Type 0
FromLive (some _) generation b = Unit
FromLive none generation none = ⊥
FromLive none generation (some m) = (m.deletion_timestamp ≡ none) × (generation ≤ m.generation)

abbrev pub Persists : Option WasmModule → Option WasmModule → Type 0
Persists none b = Unit
Persists (some m) b = FromLive m.deletion_timestamp m.generation b

FromLive-some :
    (d : Option ℕ) (generation : ℕ) (m : WasmModule)
    → d ≡ m.deletion_timestamp
    → generation ≤ m.generation
    → FromLive d generation (some m)
FromLive-some none generation m e h = (sym e, h)
FromLive-some (some _) generation m e h = tt

pub Persists-refl : (o : Option WasmModule) → Persists o o
Persists-refl none = tt
Persists-refl (some m) = FromLive-some m.deletion_timestamp m.generation m refl (omega arith)

FromLive-trans :
    (d : Option ℕ) (generation : ℕ) (b c : Option WasmModule)
    → FromLive d generation b
    → Persists b c
    → FromLive d generation c
FromLive-trans (some _) generation b c h k = tt
FromLive-trans none generation none c h k = absurd h
FromLive-trans none generation (some m) c (live, le) k =
    later c (subst (λ d. FromLive d m.generation c) live k)
  where
    later : (c : Option WasmModule) → FromLive none m.generation c → FromLive none generation c
    later none k = absurd k
    later (some m') (live', le') = (live', omega arith)

pub Persists-trans : (a b c : Option WasmModule) → Persists a b → Persists b c → Persists a c
Persists-trans none b c h k = tt
Persists-trans (some m) b c h k = FromLive-trans m.deletion_timestamp m.generation b c h k

FromLive-none : (d : Option ℕ) (generation : ℕ) → d ≢ none → FromLive d generation none
FromLive-none none generation h = absurd (h refl)
FromLive-none (some _) generation h = tt

pub Evolves-Persists : (a b : Option WasmModule) → Evolves a b → Persists a b
Evolves-Persists none b h = tt
Evolves-Persists (some m) (some m') h =
    FromLive-some m.deletion_timestamp m.generation m'
      (sym (ap (λ o. o.deletion_timestamp) h.same_meta))
      (omega (arith, ap (λ o. o.generation) h.same_meta))
Evolves-Persists (some m) none h = FromLive-none m.deletion_timestamp m.generation h

Persists-left_of :
    (t : Bool) (d : Option ℕ) (l l' : List String) (m m' : WasmModule)
    → d ≡ m.deletion_timestamp
    → d ≡ m'.deletion_timestamp
    → m.generation ≤ m'.generation
    → Persists (if t then left_of d l m else none) (if t then left_of d l' m' else none)
Persists-left_of false d l l' m m' e e' h = tt
Persists-left_of true none l l' m m' e e' h =
    subst (λ d. FromLive d m.generation (some m')) e (sym e', h)
Persists-left_of true (some x) [] l' m m' e e' h = tt
Persists-left_of true (some x) (_ ∷ _) l' m m' e e' h =
    subst (λ d. FromLive d m.generation (left_of (some x) l' m')) e tt

pub same_object : (w : World) (a b : String) → Persists (stored_under a b w) (stored_under a b w)
same_object w a b = Persists-refl (stored_under a b w)

pub patched-Persists :
    (l : List String) (w : World) (a b : String)
    → Persists (stored_under a b w) (stored_under a b (patched l w).1)
unfolding patched guarded with_finalizers stored_under
patched-Persists [] w a b = same_object w a b
patched-Persists (v ∷ l) w a b = accepted (v == w.server.object_meta.resource_version)
  where
    accepted :
        (t : Bool)
        → Persists
            (stored_under a b w)
            (stored_under a b (guarded t (with_finalizers l w.server) w).1)
    accepted true =
        Persists-left_of (is_named a b w) w.server.deletion_timestamp w.server.finalizers l w.server
          (with_finalizers l w.server) refl refl (omega arith)
    accepted false = same_object w a b

pub Edit-Persists : (w w' : World) → Edit w w' → Throughout stored_under Persists w w'
unfolding stored_under
Edit-Persists w w' (edit service _) = λ a b.
    Persists-left_of (is_named a b w) w.server.deletion_timestamp w.server.finalizers
      w.server.finalizers w.server (edited service w).server refl refl (omega arith)
