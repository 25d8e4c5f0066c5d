-- ===== src/Tests/Factories.antt =====
-- The theorems on the informer factories, at concrete data.
use knative_serving_wasm.Prelude.{
  ℕ, ◌+◌, ◌≡◌, refl, true, false, Option, none, some, [], ◌∷◌, length, contains,
}
use knative_serving_wasm.Platform.Http.{ListOptions}
use knative_serving_wasm.Informers.Factory.{
  Factory, lookup, is_started, launch, start_loop, start, begin_shutdown, goroutine_done,
  informer_for, new_factory, new_filtered_factory, wait_for_cache_sync, sync_results, apply_options,
  with_namespace, with_tweak_list_options, informer_from, remove, resync_period,
}
use knative_serving_wasm.Informers.Start.{AllStarted, wait_for_cache_sync-start}
use knative_serving_wasm.Tests.World.{World}
use knative_serving_wasm.Informers.Contract.{Contract}
use knative_serving_wasm.Informers.Shutdown.{
  Run, call_informer_for, call_start, call_shutdown, done, shutdown_returns, Reach, here, next,
  Distinct,
}
use knative_serving_wasm.Informers.Shutdown.Safety.{fresh, Reach-sound}
use knative_serving_wasm.Informers.Shutdown.Liveness.{all_ends, Returns, shutdown-Returns}

-- An informer by its resync period, and a transform by what it adds to that.
abbrev set_transform : Option ℕ → ℕ → ℕ
set_transform t informer = informer

abbrev make : ℕ → ℕ → ℕ
make client resync = resync

abbrev factory : Factory ℕ ℕ ℕ
factory = record {
  client = 0;
  namespace = "";
  tweak_list_options = none;
  default_resync = 30;
  custom_resync = [];
  transform = none;
  informers = ("WasmModule", 30) ∷ ("Service", 30) ∷ [];
  started_informers = ("Service", true) ∷ [];
  wait_group = 1;
  shutting_down = false;
  running = "Service" ∷ [];
}

started_once : (start factory).running ≡ "WasmModule" ∷ "Service" ∷ []
unfolding start start_loop launch is_started lookup
started_once = refl

wait_for_cache_sync-start_example :
    AllStarted factory.informers (start factory)
    × (wait_for_cache_sync (λ _. true) (start factory)
        ≡ ("WasmModule", true) ∷ ("Service", true) ∷ [])
unfolding sync_results
wait_for_cache_sync-start_example = wait_for_cache_sync-start (λ _. true) factory refl

-- A factory that runs one informer and shuts down.
abbrev new_run : Run ℕ ℕ ℕ
new_run = fresh set_transform 0 30 "default" none

abbrev registered : Run ℕ ℕ ℕ
registered = record new_run { factory = (informer_for set_transform "Pod" make new_run.factory).1 }

abbrev started : Run ℕ ℕ ℕ
started = record registered { factory = start registered.factory }

abbrev stopping : Run ℕ ℕ ℕ
stopping = record started { factory = begin_shutdown started.factory }

abbrev ended : Run ℕ ℕ ℕ
ended = record stopping { factory = goroutine_done "Pod" stopping.factory }

abbrev returned : Run ℕ ℕ ℕ
returned = record ended { returned = true }

pod_runs : contains stopping.factory.running "Pod" ≡ true
unfolding begin_shutdown start start_loop launch is_started lookup informer_for informer_from
    new_filtered_factory new_factory apply_options with_namespace with_tweak_list_options
    resync_period
pod_runs = refl

run_to_shutdown : Reach set_transform new_run stopping
run_to_shutdown = next (next (next here (call_informer_for "Pod" make)) call_start) call_shutdown

last_end : Reach set_transform stopping ended
last_end = next here (done "Pod" pod_runs)

run_to_end : Reach set_transform new_run returned
unfolding begin_shutdown start start_loop launch is_started lookup informer_for informer_from
    new_filtered_factory new_factory apply_options with_namespace with_tweak_list_options
    resync_period goroutine_done remove
run_to_end =
    next
      (next (next (next (next here (call_informer_for "Pod" make)) call_start) call_shutdown)
        (done "Pod" pod_runs))
      (shutdown_returns refl refl)

shutdown-Returns_example :
    (all_ends set_transform last_end + length ended.factory.running
      ≡ length stopping.factory.running)
    × Returns set_transform ended (length ended.factory.running)
unfolding begin_shutdown
shutdown-Returns_example =
    shutdown-Returns set_transform 0 30 "default" none run_to_shutdown refl last_end

Reach-sound_example :
    (returned.factory.wait_group ≡ length returned.factory.running)
    × Distinct returned.factory.running
    × (true ≡ true → returned.factory.running ≡ [])
Reach-sound_example = Reach-sound set_transform 0 30 "default" none run_to_end

abbrev caller : ListOptions
caller = record { label_selector = ""; timeout_seconds = some 5; watch = false }
