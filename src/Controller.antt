-- ===== src/Controller.antt =====
-- How the generated reconciler is built and wired (controller.go and `NewReconciler` of
-- pkg/client/injection/reconciler/wasm/v1alpha1/wasmmodule).
pub mod Options
pub mod Promotion
pub mod Construction
pub mod Recorder
