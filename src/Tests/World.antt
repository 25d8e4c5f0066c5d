-- ===== src/Tests/World.antt =====
-- A small world for the tests: an API server that holds one WasmModule and may refuse writes with a
-- conflict, a cache, a set of Services, and a log of the requests and events.
use knative_serving_wasm.Prelude.{
  ℕ, zero, suc, String, ◌<>◌, ◌==◌, eq_iff, ◌≡◌, refl, Bool, true, false, Option, none, some, List,
  [], ◌∷◌, ok, err, arith, contains, if◌then◌else◌,
}
use knative_serving_wasm.Api.Types.{WasmModule}
use knative_serving_wasm.Platform.GoError.{ReconcilerEvent, Errors}
use knative_serving_wasm.Platform.Http.{Request, get, put, patch, object, bytes}
use knative_serving_wasm.Platform.Types.{Sets, Rest, Platform}
use knative_serving_wasm.Platform.Laws.{
  SetsLaws, IsReflexive, retry_loop, RetriesConflicts, ErrorsLaws,
}

pub data Problem : Type 0 where
  missing conflict : Problem
  skip failure : String → Problem
  event : ReconcilerEvent → Problem
  wrapped : String → Problem → Problem

unfoldable pub event_in : Problem → Option ReconcilerEvent
event_in (event e) = some e
event_in (wrapped _ x) = event_in x
event_in missing = none
event_in conflict = none
event_in (skip _) = none
event_in (failure _) = none

abbrev pub problems : Errors Problem
problems = record {
  is_not_found = λ x. elim x [ missing ↦ true | _ ↦ false ];
  is_conflict = λ x. elim x [ conflict ↦ true | _ ↦ false ];
  event_as = event_in;
  is_event = λ x. elim x [ event _ ↦ true | _ ↦ false ];
  is_skip_key = λ x. elim x [ skip _ ↦ true | _ ↦ false ];
  is_requeue_key = λ _. false;
  message = λ _. "message";
  new_skip_key = skip;
  new_not_found = λ _ _. missing;
  wrap = wrapped;
  errorf = λ format text. failure (format <> text);
}

pub problems_laws : ErrorsLaws problems
unfolding event_in
problems_laws = record {
  is_event_as = bare;
  new_skip_key_is = λ key. refl;
  new_not_found_is = λ resource name. refl;
  event_as-wrap = λ m x. refl;
  is_event-wrap = λ m x. refl;
}
  where
    bare : (x : Problem) → problems.event_as x ≡ none → problems.is_event x ≡ false
    bare missing h = refl
    bare conflict h = refl
    bare (skip _) h = refl
    bare (failure _) h = refl
    bare (event _) h = cc
    bare (wrapped _ _) h = refl

unfoldable pub without : List String → String → List String
without [] y = []
without (x ∷ xs) y = if y == x then without xs y else x ∷ without xs y

abbrev pub text_sets : Sets (List String)
text_sets = record {
  new = λ l. l;
  has = contains;
  insert = λ s y. y ∷ s;
  delete = without;
  to_list = λ s. s;
}

contains-without :
    (s : List String) (y x : String)
    → contains (without s y) x ≡ (if y == x then false else contains s x)
unfolding without
contains-without [] y x = ground arith
contains-without (a ∷ s) y x =
    ground (arith, contains-without s y x, eq_iff y a, eq_iff a x, eq_iff y x)

pub text_sets_laws : SetsLaws (List String) text_sets
text_sets_laws = record {
  has-new = λ l x. refl;
  has-insert = λ s y x. ground arith;
  has-delete = contains-without;
  contains-to_list = λ s x. refl;
}

pub record World : Type 0 where
  pub server : WasmModule
  pub refusals : ℕ
  pub cache : List WasmModule
  pub services : List String
  pub log : List String

abbrev pub logged : String → World → World
logged line w = record w { log = line ∷ w.log }

-- The answer to a write: a conflict for as many writes as the world refuses.
abbrev pub accept : ℕ → WasmModule → World → (WasmModule × Option Problem) × World
accept zero m w = ((m, none), logged "write" (record w { server = m }))
accept (suc k) m w = ((w.server, some conflict), logged "refused" (record w { refusals = k }))

abbrev pub answer : Request → World → (WasmModule × Option Problem) × World
answer req w = elim req.verb [
  | get ↦ ((w.server, none), logged "read" w)
  | put ↦ elim req.body [
    | object m ↦ accept w.refusals m w
    | _ ↦ ((w.server, some (failure "body")), w)
  ]
  | patch _ ↦ elim req.body [
    | bytes b ↦ ((w.server, none), logged ("patch " <> b) w)
    | _ ↦ ((w.server, some (failure "body")), w)
  ]
  | _ ↦ ((w.server, none), w)
]

abbrev pub transport : Rest Unit Problem World
transport = record {
  do_into = λ _. answer;
  do_into_list = λ _ req w. (
    (
      record {
        type_meta = record { kind = ""; api_version = "" };
        list_meta = record { resource_version = ""; continue_token = "" };
        items = w.cache;
      },
      none,
    ),
    logged "list" w,
  );
  do_error = λ _ req w. (none, w);
  do_watch = λ _ req w. (none, logged "watch" w);
}

unfoldable pub same_number : ℕ → ℕ → Bool
same_number zero zero = true
same_number (suc a) (suc b) = same_number a b
same_number zero (suc b) = false
same_number (suc a) zero = false

same_number_self : (n : ℕ) → same_number n n ≡ true
unfolding same_number
same_number_self zero = refl
same_number_self (suc n) = same_number_self n

unfoldable pub join : List String → String
join [] = ""
join (x ∷ xs) = x <> ";" <> join xs

abbrev pub platform : Platform Unit Problem (List String) World
platform = record {
  errors = problems;
  sets = text_sets;
  rest = transport;
  recorder = record {
    event = λ _ kind reason _ w. logged (kind <> " " <> reason) w;
    eventf = λ _ kind reason _ _ w. logged (kind <> " " <> reason) w;
  };
  with_event_recorder = λ ctx. ctx;
  split_meta_namespace_key =
      λ key. if key == "default/greeter" then ok ("default", "greeter") else err (failure key);
  is_zero = λ t. elim t [ none ↦ true | some _ ↦ false ];
  deep_equal = λ s s'. same_number s.status.observed_generation s'.status.observed_generation;
  pre_process_reconcile = λ _ o. o;
  post_process_reconcile = λ _ o _ _. record o {
    status = record o.status {
      status = record o.status.status { observed_generation = o.object_meta.generation };
    };
  };
  retry_update_conflicts = λ f existing w. retry_loop problems.is_conflict f 4 0 existing w;
  marshal = λ patch. ok (join patch.finalizers);
}

pub platform_IsReflexive : IsReflexive platform.deep_equal
platform_IsReflexive s = same_number_self s.status.observed_generation

abbrev pub platform_retries : RetriesConflicts platform
platform_retries = record { retries = 4; runs = λ f existing w. refl }
