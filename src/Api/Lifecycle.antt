-- ===== src/Api/Lifecycle.antt =====
-- The conditions of a WasmModule (pkg/apis/wasm/v1alpha1/wasm_module_lifecycle.go, and `GetStatus`
-- and the ready condition of wasm_module_types.go), over the condition manager of knative.dev/pkg.
use knative_serving_wasm.Prelude.{
  String, ◌==◌, ◌≡◌, ◌∙◌, sym, ap, refl, inl, inr, Bool-cases, Option, none, some, List, [], ◌∷◌,
  map, if◌then◌else◌,
}
use mathlib.Core.Option
use knative_serving_wasm.Api.Types.{Condition, DuckStatus, WasmModule, WasmModuleStatus}

-- `apis.ConditionReady`.
abbrev pub condition_ready : String
condition_ready = "Ready"

abbrev pub wasm_module_condition_ready : String
wasm_module_condition_ready = condition_ready

-- `apis.NewLivingConditionSet().Manage(status)`, with the changed status as a result; the clock is
-- read from the world. `mark_false` takes the type, the reason, the format and its arguments.
pub record ConditionSet (W : Type 0) : Type 0 where
  pub initialize : DuckStatus → W → DuckStatus
  pub mark_true : String → DuckStatus → W → DuckStatus
  pub mark_false : String → String → String → List String → DuckStatus → W → DuckStatus

-- `GetStatus`.
abbrev pub get_status : WasmModule → DuckStatus
get_status o = o.status.status

module _ {W : Type 0} (cond_set : ConditionSet W) where
  -- `GetConditionSet`.
  abbrev pub get_condition_set : WasmModule → ConditionSet W
  get_condition_set _ = cond_set

  unfoldable pub initialize_conditions : WasmModuleStatus → W → WasmModuleStatus
  initialize_conditions s w = record s { status = cond_set.initialize s.status w }

  unfoldable pub mark_service_unavailable : String → WasmModuleStatus → W → WasmModuleStatus
  mark_service_unavailable name s w = record s {
    status =
        cond_set.mark_false wasm_module_condition_ready "ServiceUnavailable"
          "Service %q wasn't found." (name ∷ []) s.status w;
  }

  unfoldable pub mark_service_available : WasmModuleStatus → W → WasmModuleStatus
  mark_service_available s w = record s {
    status = cond_set.mark_true wasm_module_condition_ready s.status w;
  }

-- The first condition of a type.
unfoldable pub find_condition : String → List Condition → Option Condition
find_condition t [] = none
find_condition t (c ∷ cs) = if c.kind == t then some c else find_condition t cs

-- The status and reason of a condition.
unfoldable pub condition_of : String → DuckStatus → Option (String × String)
unfolding find_condition
condition_of t s = elim (find_condition t s.conditions) [
  | none ↦ none
  | some c ↦ some (c.status, c.reason)
]

-- A status without the times of its conditions.
abbrev pub without_time : Condition → Condition
without_time c = record c { last_transition_time = 0 }

abbrev pub untimed : WasmModuleStatus → WasmModuleStatus
untimed s = record s {
  status = record s.status { conditions = map without_time s.status.conditions };
}

module _ {A : Type 0} (f : Condition → A) (same : (c : Condition) → f (without_time c) ≡ f c)
    (t : String) where
  find_condition-without_time :
      (cs : List Condition)
      → Option.map f (find_condition t (map without_time cs)) ≡ Option.map f (find_condition t cs)
  unfolding find_condition
  find_condition-without_time [] = refl
  find_condition-without_time (c ∷ cs) = elim (Bool-cases (c.kind == t)) [
    | inl e ↦ rw e (ap some (same c))
    | inr e ↦ rw e (find_condition-without_time cs)
  ]

  -- What does not depend on the time of a condition is the same in statuses that differ in times alone.
  pub find_condition-untimed :
      (a b : WasmModuleStatus)
      → untimed a ≡ untimed b
      → Option.map f (find_condition t a.status.conditions)
        ≡ Option.map f (find_condition t b.status.conditions)
  find_condition-untimed a b e =
      sym (find_condition-without_time a.status.conditions)
      ∙ (ap (λ s. Option.map f (find_condition t s.status.conditions)) e
          ∙ find_condition-without_time b.status.conditions)

condition_of-find_condition :
    (t : String) (s : DuckStatus)
    → condition_of t s ≡ Option.map (λ c. (c.status, c.reason)) (find_condition t s.conditions)
unfolding condition_of
condition_of-find_condition t s =
    elim (find_condition t s.conditions)
      as (λ o.
        elim o [ none ↦ none | some c ↦ some (c.status, c.reason) ]
        ≡ Option.map {B = String × String} (λ c. (c.status, c.reason)) o) [
          | none ↦ refl
          | some c ↦ refl
        ]

-- Statuses that differ in times alone have the same conditions.
pub condition_of-untimed :
    (t : String) (a b : WasmModuleStatus)
    → untimed a ≡ untimed b
    → condition_of t a.status ≡ condition_of t b.status
condition_of-untimed t a b e =
    condition_of-find_condition t a.status
    ∙ (find_condition-untimed (λ c. (c.status, c.reason)) (λ c. refl) t a b e
        ∙ sym (condition_of-find_condition t b.status))

-- What the condition manager documents of marking a condition: its status and reason are set.
pub record ConditionLaws (W : Type 0) (cond_set : ConditionSet W) : Type 0 where
  pub condition_of-mark_true :
      (t : String) (s : DuckStatus) (w : W)
      → condition_of t (cond_set.mark_true t s w) ≡ some ("True", "")
  pub condition_of-mark_false :
      (t reason format : String) (args : List String) (s : DuckStatus) (w : W)
      → condition_of t (cond_set.mark_false t reason format args s w) ≡ some ("False", reason)
