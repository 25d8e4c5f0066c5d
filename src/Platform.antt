-- ===== src/Platform.antt =====
-- What the program calls and does not implement: the Kubernetes and Knative libraries under
-- vendor/, as records of functions over the types that stand for a Go error (`Err`), a
-- `context.Context` (`Ctx`), a `sets.Set[string]` (`S`) and the outside world (`W`).
pub mod GoError
pub mod Http
pub mod Types
pub mod Laws
