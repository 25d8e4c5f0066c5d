-- ===== src/Reconciler.antt =====
-- The generated reconciler (pkg/client/injection/reconciler/wasm/v1alpha1/wasmmodule): the struct
-- `reconcilerImpl` and the interfaces that a user's reconciler implements.
pub mod Types
pub mod State
pub mod Finalizers
pub mod Status
pub mod Report
pub mod Effects
pub mod Reconcile
