-- ===== src/Api.antt =====
-- The API types of `wasm.serving.knative.dev/v1alpha1` (pkg/apis/wasm/v1alpha1).
pub mod Types
pub mod Register
pub mod Scheme
pub mod Lifecycle
pub mod Validation
pub mod DeepCopy
