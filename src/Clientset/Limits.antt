-- ===== src/Clientset/Limits.antt =====
-- The configuration that both clients of a clientset are made with.
use knative_serving_wasm.Prelude.{
  ◌≡◌, refl, ◌⊎◌, inl, inr, true, false, none, some, Result, ok, err, arith, subst, Bool-cases,
  Option-cases,
}
use knative_serving_wasm.Clientset.{
  is_positive, burst_message, Config, ClientGo, ClientSet, set_config_defaults, wrap_rest,
  wasm_client_with, limited, with_discovery, with_wasm_client, clientset_from,
  new_for_config_and_client, with_transport, with_agent, new_for_config,
}

module _ {Qps Limiter Serializer Http Rest Discovery Err : Type 0}
    (lib : ClientGo Qps Limiter Serializer Http Rest Discovery Err) where
  -- A copy of a configuration with its rate limiter decided: it is the given one if there is one; it
  -- is a token bucket of the configuration's positive QPS and burst; or there is none and the QPS is
  -- not positive. Nothing else is changed.
  pub data IsLimited (c : Config Qps Limiter Serializer)
      : Config Qps Limiter Serializer → Type 0 where
    given : {l : Limiter} → c.rate_limiter ≡ some l → IsLimited c c
    bucket :
        c.rate_limiter ≡ none
        → lib.is_above_zero c.qps ≡ true
        → is_positive c.burst ≡ true
        → IsLimited c (record c { rate_limiter = some (lib.new_token_bucket c.qps c.burst) })
    unlimited : c.rate_limiter ≡ none → lib.is_above_zero c.qps ≡ false → IsLimited c c

  -- What a clientset is made of.
  pub record MadeWith (c : Config Qps Limiter Serializer) (h : Http) (cs : ClientSet Rest Discovery)
      : Type 0 where
    pub config : Config Qps Limiter Serializer
    pub is_limited : IsLimited c config
    pub wasm :
        lib.rest_client_for (set_config_defaults lib config) h ≡ ok cs.wasm_v1alpha1.rest_client
    pub discovery : lib.discovery_for config h ≡ ok cs.discovery

  Result-cases :
      {A : Type 0} (r : Result Err A) → ((x : Err) × (r ≡ err x)) ⊎ ((a : A) × (r ≡ ok a))
  Result-cases (err x) = inl (x, refl)
  Result-cases (ok a) = inr (a, refl)

  injective : {A : Type 0} {a b : A} (r : Result Err A) → r ≡ ok a → r ≡ ok b → a ≡ b
  injective r g h = cc

  limited-IsLimited :
      (c c' : Config Qps Limiter Serializer) → limited lib c ≡ ok c' → IsLimited c c'
  unfolding limited
  limited-IsLimited c c' h = elim (Option-cases c.rate_limiter) [
    | inr (l, e) ↦ subst (IsLimited c) (injective (limited lib c) (ground arith) h) (given e)
    | inl e ↦ elim (Bool-cases (lib.is_above_zero c.qps)) [
      | inr slow ↦
          subst (IsLimited c) (injective (limited lib c) (ground arith) h) (unlimited e slow)
      | inl fast ↦ elim (Bool-cases (is_positive c.burst)) [
        | inl room ↦
            subst (IsLimited c) (injective (limited lib c) (ground arith) h) (bucket e fast room)
        | inr full ↦ absurd (ground arith)
      ]
    ]
  ]

  with_wasm_client-MadeWith :
      (c config : Config Qps Limiter Serializer) (h : Http) (cs : ClientSet Rest Discovery)
      → IsLimited c config
      → with_wasm_client lib config h (wasm_client_with lib config h) ≡ ok cs
      → MadeWith c h cs
  unfolding with_wasm_client wasm_client_with wrap_rest with_discovery
  with_wasm_client-MadeWith c config h cs is_limited made =
      elim (Result-cases (lib.rest_client_for (set_config_defaults lib config) h)) [
        | inl (x, e) ↦ absurd (ground arith)
        | inr (client, e) ↦ elim (Result-cases (lib.discovery_for config h)) [
          | inl (x, e') ↦ absurd (ground arith)
          | inr (d, e') ↦ record {
            config = config;
            is_limited = is_limited;
            wasm = ground arith;
            discovery = ground arith;
          }
        ]
      ]

  -- A clientset that `NewForConfig` makes has one HTTP client, that of the configuration with its
  -- user agent filled in, and one configuration with its rate limiter decided, which both the group's
  -- client, with its defaults set, and the discovery client are made with.
  pub new_for_config-MadeWith :
      (c : Config Qps Limiter Serializer) (cs : ClientSet Rest Discovery)
      → new_for_config lib c ≡ ok cs
      → (h : Http) × (lib.http_client_for (with_agent lib c) ≡ ok h)
        × MadeWith (with_agent lib c) h cs
  unfolding new_for_config with_transport new_for_config_and_client clientset_from
  new_for_config-MadeWith c cs made = elim (Result-cases (lib.http_client_for (with_agent lib c))) [
    | inl (x, e) ↦ absurd (ground arith)
    | inr (h, e) ↦ elim (Result-cases (limited lib (with_agent lib c))) [
      | inl (x, e') ↦ absurd (ground arith)
      | inr (config, e') ↦ (
        h,
        e,
        with_wasm_client-MadeWith (with_agent lib c) config h cs
            (limited-IsLimited (with_agent lib c) config e') (ground arith),
      )
    ]
  ]

  -- A configuration without a rate limiter, with a positive QPS and no positive burst, is refused,
  -- whatever the libraries make of it.
  pub new_for_config-refused :
      (c : Config Qps Limiter Serializer)
      → c.rate_limiter ≡ none
      → lib.is_above_zero c.qps ≡ true
      → is_positive c.burst ≡ false
      → (x : Err) × (new_for_config lib c ≡ err x)
  unfolding new_for_config with_transport new_for_config_and_client clientset_from limited
      with_agent
  new_for_config-refused c free fast full =
      elim (Result-cases (lib.http_client_for (with_agent lib c))) [
        | inl (x, e) ↦ (x, ground arith)
        | inr (h, e) ↦ (lib.errorf burst_message, ground arith)
      ]
