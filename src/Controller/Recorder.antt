-- ===== src/Controller/Recorder.antt =====
-- `createRecorder` (controller.go), with the goroutine that stops the watches of a new broadcaster.
use knative_serving_wasm.Prelude.{
  String, ◌≡◌, refl, ◌⊎◌, inl, inr, Bool, false, Option, none, some, List, [], ◌∷◌, Effect,
}

-- `record.NewBroadcaster` of client-go, by the watches `H` that it starts: to the log, and to the sink
-- of the cluster's events, of the Kubernetes client `K`; `new_recorder` takes the component of the
-- event source, `stop` is a watch's `Stop`.
pub record Broadcasting (R K H W : Type 0) : Type 0 where
  pub start_logging : Effect W H
  pub start_recording_to_sink : K → Effect W H
  pub new_recorder : String → R
  pub stop : H → W → W

-- The values of the context that it reads: `controller.GetEventRecorder`, and those under the key of
-- kubeclient.
pub record Surroundings (R K : Type 0) : Type 0 where
  pub event_recorder : Option R
  pub kube_client : Option K

module _ {R K H W : Type 0} (lib : Broadcasting R K H W) where
  -- `createRecorder`, by the recorder and the Kubernetes client that the context holds: the recorder,
  -- and the watches that the goroutine waits to stop. A panic of `kubeclient.Get` is `none`.
  unfoldable pub recorder_for : Option R → Option K → String → W → Option ((R × List H) × W)
  recorder_for (some recorder) kube_client agent_name w = some ((recorder, []), w)
  recorder_for none none agent_name w = none
  recorder_for none (some kube) agent_name w =
      let (logging, w₁) = lib.start_logging w in
      let (recording, w₂) = lib.start_recording_to_sink kube w₁ in
      some ((lib.new_recorder agent_name, logging ∷ recording ∷ []), w₂)

  unfoldable pub create_recorder : Surroundings R K → String → W → Option ((R × List H) × W)
  unfolding recorder_for
  create_recorder ctx agent_name w = recorder_for ctx.event_recorder ctx.kube_client agent_name w

  -- A context that holds a recorder or a Kubernetes client, and a recorder that is created.
  abbrev pub CanRecord : Option R → Option K → Type 0
  CanRecord none none = ⊥
  CanRecord (some _) kube_client = Unit
  CanRecord none (some _) = Unit

  abbrev pub Created : Option ((R × List H) × W) → Type 0
  Created result =
      (recorder : R) × (watches : List H) × (w : W) × (result ≡ some ((recorder, watches), w))

  recorder_for-Created :
      (known : Option R) (kube_client : Option K) (agent_name : String) (w : W)
      → CanRecord known kube_client
      → Created (recorder_for known kube_client agent_name w)
  unfolding recorder_for
  recorder_for-Created (some recorder) kube_client agent_name w can = (_, _, _, refl)
  recorder_for-Created none none agent_name w can = absurd can
  recorder_for-Created none (some kube) agent_name w can = (_, _, _, refl)

  pub create_recorder-Created :
      (ctx : Surroundings R K) (agent_name : String) (w : W)
      → CanRecord ctx.event_recorder ctx.kube_client
      → Created (create_recorder ctx agent_name w)
  unfolding create_recorder
  create_recorder-Created ctx agent_name w can =
      recorder_for-Created ctx.event_recorder ctx.kube_client agent_name w can

  -- The goroutine, once the context is done.
  unfoldable pub stop_watches : List H → W → W
  stop_watches [] w = w
  stop_watches (watch ∷ rest) w = stop_watches rest (lib.stop watch w)

  -- What client-go documents of watches: starting one starts no other, and stopping one stops it and
  -- starts no other.
  pub record BroadcastingLaws : Type 0 where
    pub runs : H → W → Bool
    pub stop_stops : (h : H) (w : W) → runs h (lib.stop h w) ≡ false
    pub stop_starts_none : (h k : H) (w : W) → runs k w ≡ false → runs k (lib.stop h w) ≡ false
    pub logging_starts :
        (k : H) (w : W)
        → runs k w ≡ false
        → (runs k (lib.start_logging w).1 ≡ false) ⊎ (k ≡ (lib.start_logging w).0)
    pub recording_starts :
        (kube : K) (k : H) (w : W)
        → runs k w ≡ false
        → (runs k (lib.start_recording_to_sink kube w).1 ≡ false)
          ⊎ (k ≡ (lib.start_recording_to_sink kube w).0)

  module _ (laws : BroadcastingLaws) where
    open laws use {runs, stop_stops, stop_starts_none, logging_starts, recording_starts}

    stop_stopped : (h k : H) (w : W) → (runs k w ≡ false) ⊎ (k ≡ h) → runs k (lib.stop h w) ≡ false
    stop_stopped h k w (inl e) = stop_starts_none h k w e
    stop_stopped h k w (inr e) = rw e (stop_stops h w)

    or_later :
        (kube : K) (h k : H) (w : W)
        → (runs k w ≡ false) ⊎ (k ≡ h)
        → ((runs k (lib.start_recording_to_sink kube w).1 ≡ false) ⊎ (k ≡ h))
          ⊎ (k ≡ (lib.start_recording_to_sink kube w).0)
    or_later kube h k w (inr e) = inl (inr e)
    or_later kube h k w (inl e) = elim (recording_starts kube k w e) [
      | inl quiet ↦ inl (inl quiet)
      | inr same ↦ inr same
    ]

    both_stopped :
        (a b k : H) (w : W)
        → ((runs k w ≡ false) ⊎ (k ≡ a)) ⊎ (k ≡ b)
        → runs k (lib.stop b (lib.stop a w)) ≡ false
    both_stopped a b k w (inl h) = stop_starts_none b k (lib.stop a w) (stop_stopped a k w h)
    both_stopped a b k w (inr h) = stop_stopped b k (lib.stop a w) (inr h)

    -- A watch does not run once the goroutine has stopped those that were returned.
    abbrev pub StopsWatch : H → Option ((R × List H) × W) → Type 0
    StopsWatch k none = Unit
    StopsWatch k (some ((_, watches), w)) = runs k (stop_watches watches w) ≡ false

    recorder_for-StopsWatch :
        (known : Option R) (kube_client : Option K) (agent_name : String) (k : H) (w : W)
        → runs k w ≡ false
        → StopsWatch k (recorder_for known kube_client agent_name w)
    unfolding recorder_for stop_watches
    recorder_for-StopsWatch (some recorder) kube_client agent_name k w quiet = quiet
    recorder_for-StopsWatch none none agent_name k w quiet = tt
    recorder_for-StopsWatch none (some kube) agent_name k w quiet =
        let (logging, w₁) = lib.start_logging w in
        both_stopped logging (lib.start_recording_to_sink kube w₁).0 k
          (lib.start_recording_to_sink kube w₁).1
          (or_later kube logging k w₁ (logging_starts k w quiet))

    -- A watch that did not run before `createRecorder` does not run once its goroutine has ended,
    -- whether the context has a recorder or not.
    pub create_recorder-StopsWatch :
        (ctx : Surroundings R K) (agent_name : String) (k : H) (w : W)
        → runs k w ≡ false
        → StopsWatch k (create_recorder ctx agent_name w)
    unfolding create_recorder
    create_recorder-StopsWatch ctx agent_name k w quiet =
        recorder_for-StopsWatch ctx.event_recorder ctx.kube_client agent_name k w quiet
