-- ===== src/Tests/Converging.antt =====
-- The theorem on a second run, at concrete data: marking a condition that is true changes nothing.
use knative_serving_wasm.Prelude.{
  ℕ, String, ◌==◌, eq_iff, ◌≡◌, sym, ap, refl, Bool, true, false, ◌&&◌, Bool-cases, inl, inr,
  Option, none, some, [], arith, if◌then◌else◌,
}
use mathlib.Core.Option
use knative_serving_wasm.Api.Types.{Condition, DuckStatus, WasmModule}
use knative_serving_wasm.Api.Lifecycle.{
  condition_ready, find_condition, condition_of, mark_service_available, ConditionSet,
  ConditionLaws,
}
use knative_serving_wasm.Lister.{wasm_modules, get_cached}
use knative_serving_wasm.Reconciler.Reconcile.{reconcile}
use knative_serving_wasm.Service.{Services, available}
use knative_serving_wasm.Service.Steady.{over}
use knative_serving_wasm.Service.Progress.{marked_ready}
use knative_serving_wasm.Service.Stored.{IsServed}
use knative_serving_wasm.Service.Written.{ProcessLaws}
use knative_serving_wasm.Service.Converged.{SteadyLaws, reconcile_served}
use knative_serving_wasm.Tests.World.{
  Problem, World, logged, platform, platform_IsReflexive, text_sets_laws,
}
use knative_serving_wasm.Tests.Cluster.{find_cached, marked, services, module_with, world_with}
use knative_serving_wasm.Tests.Data.{impl}

abbrev true_already : Option Condition → Bool
true_already none = false
true_already (some c) =
    c.status == "True" && (c.severity == "" && (c.reason == "" && c.message == ""))

abbrev steady_conditions : ConditionSet World
steady_conditions = record {
  initialize = λ s _. s;
  mark_true =
      λ t s _. if true_already (find_condition t s.conditions) then s else marked t "True" "" s;
  mark_false = λ t reason _ _ s _. marked t "False" reason s;
}

reads : Option Condition → Option (String × String × String × String)
reads =
    Option.map {B = String × String × String × String}
      (λ c. (c.status, c.severity, c.reason, c.message))

true_already-reads :
    (o : Option Condition) → true_already o ≡ true → reads o ≡ some ("True", "", "", "")
unfolding reads
true_already-reads none h = cc
true_already-reads (some c) h =
    ground
      (arith, eq_iff c.status "True", eq_iff c.severity "", eq_iff c.reason "", eq_iff c.message "")

reads-true_already :
    (o : Option Condition) → reads o ≡ some ("True", "", "", "") → true_already o ≡ true
unfolding reads
reads-true_already none h = cc
reads-true_already (some c) h =
    let parts : (a : String × String × String × String) × (some a
          ≡ some (c.status, c.severity, c.reason, c.message)) =
      ((c.status, c.severity, c.reason, c.message), refl) in
    ground
      (arith, eq_iff c.status "True", eq_iff c.severity "", eq_iff c.reason "", eq_iff c.message "")

abbrev MarkedTrue : String → DuckStatus → Type 0
MarkedTrue t s = reads (find_condition t s.conditions) ≡ some ("True", "", "", "")

marked-MarkedTrue : (t : String) (s : DuckStatus) → MarkedTrue t (marked t "True" "" s)
unfolding find_condition reads
marked-MarkedTrue t s = ground (arith, eq_iff t t)

mark_true-MarkedTrue :
    (t : String) (s : DuckStatus) (w : World) → MarkedTrue t (steady_conditions.mark_true t s w)
unfolding reads
mark_true-MarkedTrue t s w = elim (Bool-cases (true_already (find_condition t s.conditions))) [
  | inl e ↦ rw e (true_already-reads (find_condition t s.conditions) e)
  | inr e ↦ rw e (marked-MarkedTrue t s)
]

mark_true_idle :
    (t : String) (s : DuckStatus) (w : World)
    → MarkedTrue t s
    → steady_conditions.mark_true t s w ≡ s
unfolding reads
mark_true_idle t s w h = rw (reads-true_already (find_condition t s.conditions) h) refl

abbrev seen_of : Option Condition → Option (String × String)
seen_of o = elim o [ none ↦ none | some c ↦ some (c.status, c.reason) ]

seen : (o : Option Condition) → reads o ≡ some ("True", "", "", "") → seen_of o ≡ some ("True", "")
unfolding reads
seen none h = cc
seen (some c) h =
    let parts : (a : String × String × String × String) × (some a
          ≡ some (c.status, c.severity, c.reason, c.message)) =
      ((c.status, c.severity, c.reason, c.message), refl) in
    ground arith

MarkedTrue-condition_of :
    (t : String) (s : DuckStatus) → MarkedTrue t s → condition_of t s ≡ some ("True", "")
unfolding condition_of reads
MarkedTrue-condition_of t s h = seen (find_condition t s.conditions) h

laws : ConditionLaws World steady_conditions
unfolding condition_of find_condition
laws = record {
  condition_of-mark_true = λ t s w.
      MarkedTrue-condition_of t (steady_conditions.mark_true t s w) (mark_true-MarkedTrue t s w);
  condition_of-mark_false = λ t reason format args s w. ground (arith, eq_iff t t);
}

process : ProcessLaws platform
unfolding condition_of
process = record {
  pre_meta = λ c o. refl;
  pre_spec = λ c o. refl;
  pre_address = λ c o. refl;
  post_meta = λ c o old w. refl;
  post_address = λ c o old w. refl;
  post_condition = λ c o old w t. refl;
  post_observed = λ c o old w. refl;
}

with_observed : WasmModule → ℕ → WasmModule
with_observed o n = record o {
  status = record o.status { status = record o.status.status { observed_generation = n } };
}

steady : SteadyLaws platform steady_conditions
unfolding with_observed reads
steady = record {
  mark_true_marks = mark_true-MarkedTrue condition_ready;
  mark_true_idle = mark_true_idle condition_ready;
  post_keeps = λ c o old w h. h;
  pre_idle = λ c o h h'. refl;
  post_idle = λ c o w h. ap (with_observed o) (sym h);
}

abbrev steady_services : Services Problem World
steady_services = record services { cond_set = steady_conditions }

-- What was cached, what the server stored before the run, and what it stores after it.
abbrev cached : WasmModule
cached = module_with 4 3 [] none

abbrev first : World
first = logged "track hello" (world_with cached 0)

abbrev stored : WasmModule
stored = record cached { object_meta = record cached.object_meta { resource_version = "8" } }

abbrev after : WasmModule
after = record stored {
  object_meta = record stored.object_meta { resource_version = "9" };
  status = (marked_ready platform (impl true) steady_services tt cached first).status;
}

served : IsServed platform process (impl true) steady_services laws tt cached first stored after
unfolding available mark_service_available condition_of find_condition
served = record {
  is_ready = refl;
  has_address = refl;
  is_observed = refl;
  has_status = refl;
  same_object = record { status_is = refl; same_type = refl; same_spec = refl; same_meta = refl };
}

reconcile_served_example :
    reconcile platform (over (impl true) steady_services) tt "default/greeter" (world_with after 0)
    ≡ (none, logged "track hello" (world_with after 0))
unfolding find_cached get_cached wasm_modules
reconcile_served_example =
    reconcile_served platform process (impl true) steady_services laws steady tt cached first served
      refl refl refl (world_with after 0) (logged "track hello" (world_with after 0)) refl refl
      text_sets_laws platform_IsReflexive "default/greeter" "default" "greeter" refl refl refl refl
