-- ===== src/Tests/Versioned.antt =====
-- A platform for the tests whose API server guards writes by the resource version, and decodes patches.
use knative_serving_wasm.Prelude.{
  String, ◌==◌, eq_iff, ◌≡◌, ◌≢◌, refl, Bool, true, false, Option, none, some, List, [], ◌∷◌, ok,
  arith, inl, inr, Bool-cases,
}
use Prim.Native.String.{◌∷◌ as ◌◂◌}
use Prim.Native.Char.{char}
use native.Mathlib.Decide.{ℕ_discrete}
use knative_serving_wasm.Api.Types.{WasmModule, WasmModuleStatus}
use knative_serving_wasm.Api.Lifecycle.{condition_of, untimed}
use knative_serving_wasm.Platform.Http.{Request, get, put, patch, object, bytes}
use knative_serving_wasm.Platform.Types.{Platform}
use knative_serving_wasm.Platform.Laws.{RetriesConflicts, IsReflexive}
use knative_serving_wasm.Service.Written.{ProcessLaws}
use knative_serving_wasm.Reconciler.Status.Stored.{IsSemantic}
use knative_serving_wasm.Tests.World.{
  Problem, conflict, failure, World, logged, transport, platform,
}
use knative_serving_wasm.Tests.Encoding.{encode, decode}

-- A version after a write.
unfoldable pub next_version : String → String
next_version v = (char 43 tt) ◂ v

unfoldable pub with_status : WasmModuleStatus → WasmModule → WasmModule
with_status s m = record m {
  status = s;
  object_meta = record m.object_meta {
    resource_version = next_version m.object_meta.resource_version;
  };
}

unfoldable pub with_finalizers : List String → WasmModule → WasmModule
with_finalizers l m = record m {
  object_meta = record m.object_meta {
    finalizers = l;
    resource_version = next_version m.object_meta.resource_version;
  };
}

-- A write of an object, where the given version is the stored one.
unfoldable pub guarded : Bool → WasmModule → World → (WasmModule × Option Problem) × World
guarded true m w = ((m, none), logged "write" (record w { server = m }))
guarded false m w = ((w.server, some conflict), logged "refused" w)

unfoldable pub patched : List String → World → (WasmModule × Option Problem) × World
unfolding guarded with_finalizers
patched [] w = ((w.server, some (failure "patch")), w)
patched (v ∷ l) w =
    guarded (v == w.server.object_meta.resource_version) (with_finalizers l w.server) w

unfoldable pub answer : Request → World → (WasmModule × Option Problem) × World
unfolding guarded with_status patched decode
answer req w = elim req.verb [
  | get ↦ ((w.server, none), logged "read" w)
  | put ↦ elim req.body [
    | object m ↦
        guarded (m.object_meta.resource_version == w.server.object_meta.resource_version)
          (with_status m.status w.server) w
    | _ ↦ ((w.server, some (failure "body")), w)
  ]
  | patch _ ↦ elim req.body [
    | bytes b ↦ patched (decode b) w
    | _ ↦ ((w.server, some (failure "body")), w)
  ]
  | _ ↦ ((w.server, none), w)
]

String-Discrete : Discrete String
String-Discrete s t = elim (Bool-cases (s == t)) [
  | inl e ↦ yes (ground (arith, eq_iff s t))
  | inr e ↦ no (λ h. ground (arith, eq_iff s t))
]

pub WasmModuleStatus-Discrete : Discrete WasmModuleStatus
WasmModuleStatus-Discrete = hlevel (ℕ_discrete, String-Discrete)

-- Times are not compared.
unfoldable pub same_status : WasmModuleStatus → WasmModuleStatus → Bool
same_status s t = elim (WasmModuleStatus-Discrete (untimed s) (untimed t)) [
  | yes _ ↦ true
  | no _ ↦ false
]

-- The platform of the tests over that server, whose equality of statuses is but for times.
abbrev pub versioned : Platform Unit Problem (List String) World
versioned = record platform {
  rest = record transport { do_into = λ _. answer };
  deep_equal = same_status;
  marshal = λ p. ok (encode (p.resource_version ∷ p.finalizers));
}

abbrev pub versioned_retries : RetriesConflicts versioned
versioned_retries = record { retries = 4; runs = λ f existing w. refl }

pub versioned_process : ProcessLaws versioned
unfolding condition_of
versioned_process = record {
  pre_meta = λ c o. refl;
  pre_spec = λ c o. refl;
  pre_address = λ c o. refl;
  post_meta = λ c o old w. refl;
  post_address = λ c o old w. refl;
  post_condition = λ c o old w t. refl;
  post_observed = λ c o old w. refl;
}

pub versioned_IsSemantic : IsSemantic versioned.deep_equal
unfolding same_status
versioned_IsSemantic s t h =
    elim (WasmModuleStatus-Discrete (untimed s) (untimed t))
        as (λ d. elim d [ yes _ ↦ true | no _ ↦ false ] ≡ true → untimed s ≡ untimed t) [
          | yes e ↦ λ _. e
          | no _ ↦ λ f. absurd (cc)
        ]
      h

pub same_status-differs : (s t : WasmModuleStatus) → untimed s ≢ untimed t → same_status s t ≡ false
unfolding same_status
same_status-differs s t h =
    elim (WasmModuleStatus-Discrete (untimed s) (untimed t))
      as (λ d. elim d [ yes _ ↦ true | no _ ↦ false ] ≡ false) [
        | yes e ↦ absurd (h e)
        | no _ ↦ refl
      ]

pub versioned_IsReflexive : IsReflexive versioned.deep_equal
unfolding same_status
versioned_IsReflexive s =
    elim (WasmModuleStatus-Discrete (untimed s) (untimed s))
      as (λ d. elim d [ yes _ ↦ true | no _ ↦ false ] ≡ true) [
        | yes _ ↦ refl
        | no different ↦ absurd (different refl)
      ]
