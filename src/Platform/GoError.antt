-- ===== src/Platform/GoError.antt =====
-- Go errors, by what the code asks of them: k8s.io/apimachinery/pkg/api/errors, errors.As and the
-- key errors of knative.dev/pkg/controller.
use knative_serving_wasm.Prelude.{String, Bool, Option}

-- `reconciler.ReconcilerEvent`; `text` is its `Error()`.
pub record ReconcilerEvent : Type 0 where
  pub event_type : String
  pub reason : String
  pub text : String

-- `schema.GroupResource`.
pub record GroupResource : Type 0 where
  pub group : String
  pub resource : String

pub record Errors (Err : Type 0) : Type 0 where
  pub is_not_found : Err → Bool
  pub is_conflict : Err → Bool
  -- `reconciler.EventAs(err, &event)`: the event somewhere in the chain of wrapped errors.
  pub event_as : Err → Option ReconcilerEvent
  -- The type assertion `err.(*reconciler.ReconcilerEvent)`: the error is itself an event.
  pub is_event : Err → Bool
  pub is_skip_key : Err → Bool
  pub is_requeue_key : Err → Bool
  pub message : Err → String  -- `Error()`
  pub new_skip_key : String → Err
  pub new_not_found : GroupResource → String → Err
  -- `fmt.Errorf("…: %w", err)`, by the text in front of `%w`.
  pub wrap : String → Err → Err
  -- `fmt.Errorf` of a format and a text.
  pub errorf : String → String → Err
