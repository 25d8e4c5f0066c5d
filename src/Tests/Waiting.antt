-- ===== src/Tests/Waiting.antt =====
-- The theorem on a second run without the Service, at concrete data: marking a condition that shows
-- the same changes nothing.
use knative_serving_wasm.Prelude.{
  ℕ, String, ◌==◌, eq_iff, ◌≡◌, ◌∙◌, sym, ap, refl, Bool, true, false, ◌&&◌, Bool-cases, inl, inr,
  Option, none, some, List, [], arith, if◌then◌else◌,
}
use mathlib.Core.Option
use knative_serving_wasm.Api.Types.{Condition, DuckStatus, WasmModule}
use knative_serving_wasm.Api.Lifecycle.{
  find_condition, condition_of, mark_service_unavailable, ConditionSet, ConditionLaws,
}
use knative_serving_wasm.Lister.{wasm_modules, get_cached}
use knative_serving_wasm.Reconciler.Reconcile.{reconcile}
use knative_serving_wasm.Service.{Services, unavailable}
use knative_serving_wasm.Service.Steady.{over}
use knative_serving_wasm.Service.Progress.{marked_unready}
use knative_serving_wasm.Service.Missing.{IsUnserved}
use knative_serving_wasm.Service.Waiting.{shown, WaitingLaws, reconcile_unserved}
use knative_serving_wasm.Tests.World.{Problem, World, logged, text_sets_laws}
use knative_serving_wasm.Tests.Cluster.{find_cached, marked, services, module_with, world_with}
use knative_serving_wasm.Tests.Data.{impl}
use knative_serving_wasm.Tests.Versioned.{versioned, versioned_process, versioned_IsReflexive}

abbrev false_already : String → Option Condition → Bool
false_already reason none = false
false_already reason (some c) =
    c.status == "False" && (c.severity == "" && (c.reason == reason && c.message == ""))

abbrev waiting_conditions : ConditionSet World
waiting_conditions = record {
  initialize = λ s _. s;
  mark_true = λ t s _. marked t "True" "" s;
  mark_false = λ t reason _ _ s _.
      if false_already reason (find_condition t s.conditions) then s else marked t "False" reason s;
}

reads : Option Condition → Option (String × String × String × String)
reads =
    Option.map {B = String × String × String × String}
      (λ c. (c.status, c.severity, c.reason, c.message))

false_already-reads :
    (reason : String) (o : Option Condition)
    → false_already reason o ≡ true
    → reads o ≡ some ("False", "", reason, "")
unfolding reads
false_already-reads reason none h = cc
false_already-reads reason (some c) h = ground (
  arith,
  eq_iff c.status "False",
  eq_iff c.severity "",
  eq_iff c.reason reason,
  eq_iff c.message "",
)

reads-false_already :
    (reason : String) (o : Option Condition)
    → reads o ≡ some ("False", "", reason, "")
    → false_already reason o ≡ true
unfolding reads
reads-false_already reason none h = cc
reads-false_already reason (some c) h =
    let parts : (a : String × String × String × String) × (some a
          ≡ some (c.status, c.severity, c.reason, c.message)) =
      ((c.status, c.severity, c.reason, c.message), refl) in
    ground (
      arith,
      eq_iff c.status "False",
      eq_iff c.severity "",
      eq_iff c.reason reason,
      eq_iff c.message "",
    )

marked-shown :
    (t reason : String) (s : DuckStatus)
    → shown t (marked t "False" reason s) ≡ some ("False", "", reason, "")
unfolding find_condition
marked-shown t reason s = ground (arith, eq_iff t t)

mark_false-shown :
    (t reason format : String) (args : List String) (s : DuckStatus) (w : World)
    → shown t (waiting_conditions.mark_false t reason format args s w)
      ≡ some ("False", "", reason, "")
unfolding reads
mark_false-shown t reason format args s w =
    elim (Bool-cases (false_already reason (find_condition t s.conditions))) [
      | inl e ↦ rw e (false_already-reads reason (find_condition t s.conditions) e)
      | inr e ↦ rw e (marked-shown t reason s)
    ]

mark_false_idle :
    (t reason format : String) (args : List String) (s s' : DuckStatus) (w w' : World)
    → shown t s' ≡ shown t (waiting_conditions.mark_false t reason format args s w)
    → waiting_conditions.mark_false t reason format args s' w' ≡ s'
unfolding reads
mark_false_idle t reason format args s s' w w' h =
    rw
      (reads-false_already reason (find_condition t s'.conditions)
        (h ∙ mark_false-shown t reason format args s w))
      refl

abbrev seen_of : Option Condition → Option (String × String)
seen_of o = elim o [ none ↦ none | some c ↦ some (c.status, c.reason) ]

seen :
    (reason : String) (o : Option Condition)
    → reads o ≡ some ("False", "", reason, "")
    → seen_of o ≡ some ("False", reason)
unfolding reads
seen reason none h = cc
seen reason (some c) h =
    let parts : (a : String × String × String × String) × (some a
          ≡ some (c.status, c.severity, c.reason, c.message)) =
      ((c.status, c.severity, c.reason, c.message), refl) in
    ground arith

laws : ConditionLaws World waiting_conditions
unfolding condition_of find_condition reads
laws = record {
  condition_of-mark_true = λ t s w. ground (arith, eq_iff t t);
  condition_of-mark_false = λ t reason format args s w.
      seen reason
        (find_condition t (waiting_conditions.mark_false t reason format args s w).conditions)
        (mark_false-shown t reason format args s w);
}

with_observed : WasmModule → ℕ → WasmModule
with_observed o n = record o {
  status = record o.status { status = record o.status.status { observed_generation = n } };
}

waiting : WaitingLaws versioned waiting_conditions
unfolding with_observed
waiting = record {
  mark_false_idle = mark_false_idle;
  pre_idle = λ c o h h'. refl;
  post_shown = λ c o old w t. refl;
  post_idle = λ c o w h. ap (with_observed o) (sym h);
}

abbrev waiting_services : Services Problem World
waiting_services = record services { cond_set = waiting_conditions }

-- What was cached, what the server stored before the run, and what it stores after it.
abbrev cached : WasmModule
cached = module_with 4 3 [] none

abbrev homeless : WasmModule → World
homeless m = record (world_with m 0) { services = [] }

abbrev first : World
first = logged "track hello" (homeless cached)

abbrev stored : WasmModule
stored = record cached { object_meta = record cached.object_meta { resource_version = "8" } }

abbrev after : WasmModule
after = record stored {
  object_meta = record stored.object_meta { resource_version = "9" };
  status = (marked_unready versioned (impl true) waiting_services tt cached first).status;
}

unserved :
    IsUnserved versioned versioned_process
      (impl true)
      waiting_services
      laws
      tt
      cached
      first
      stored
      after
unfolding unavailable mark_service_unavailable condition_of find_condition
unserved = record {
  is_not_ready = refl;
  keeps_address = refl;
  is_observed = refl;
  has_status = refl;
  same_object = record { status_is = refl; same_type = refl; same_spec = refl; same_meta = refl };
}

reconcile_unserved_example :
    reconcile versioned (over (impl true) waiting_services) tt "default/greeter" (homeless after)
    ≡ (none, logged "track hello" (homeless after))
unfolding find_cached get_cached wasm_modules
reconcile_unserved_example =
    reconcile_unserved versioned versioned_process (impl true) waiting_services laws waiting tt
      cached first unserved refl refl (homeless after) (logged "track hello" (homeless after)) refl
      refl refl text_sets_laws versioned_IsReflexive "default/greeter" "default" "greeter" refl refl
      refl refl
