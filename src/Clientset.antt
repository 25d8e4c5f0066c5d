-- ===== src/Clientset.antt =====
-- The clientset (pkg/client/clientset/versioned/clientset.go) and the client of the group
-- (typed/wasm/v1alpha1/wasm_client.go): from a REST configuration to clients. client-go's
-- constructors are parameters; a panic is `none`.
pub mod Limits
use knative_serving_wasm.Prelude.{
  ℕ, zero, suc, String, ◌==◌, Bool, true, false, not, ◌&&◌, Option, none, some, Result, ok, err,
  is_some, if◌then◌else◌,
}
use knative_serving_wasm.Api.Register.{GroupVersion, scheme_group_version}

-- An `int`.
pub data ℤ : Type 0 where
  pos negsuc : ℕ → ℤ

-- `0 < n`.
abbrev pub is_positive : ℤ → Bool
is_positive (pos zero) = false
is_positive (pos (suc n)) = true
is_positive (negsuc n) = false

-- `rest.Config`: the fields that the code reads or sets, and the host for those it passes on. `Qps`
-- is the type of a `float32`.
pub record Config (Qps Limiter Serializer : Type 0) : Type 0 where
  pub host : String
  pub user_agent : String
  pub rate_limiter : Option Limiter
  pub qps : Qps
  pub burst : ℤ
  pub group_version : Option GroupVersion
  pub api_path : String
  pub negotiated_serializer : Option Serializer

-- The functions of client-go.
pub record ClientGo (Qps Limiter Serializer Http Rest Discovery Err : Type 0) : Type 0 where
  pub default_user_agent : String
  pub codecs : Serializer
  pub is_above_zero : Qps → Bool
  pub new_token_bucket : Qps → ℤ → Limiter
  pub http_client_for : Config Qps Limiter Serializer → Result Err Http
  pub rest_client_for : Config Qps Limiter Serializer → Http → Result Err Rest
  pub discovery_for : Config Qps Limiter Serializer → Http → Result Err Discovery
  pub new_discovery : Rest → Discovery
  pub errorf : String → Err

-- `WasmV1alpha1Client`.
pub record WasmClient (Rest : Type 0) : Type 0 where
  pub rest_client : Rest

pub record ClientSet (Rest Discovery : Type 0) : Type 0 where
  pub discovery : Discovery
  pub wasm_v1alpha1 : WasmClient Rest

abbrev pub burst_message : String
burst_message =
    "burst is required to be greater than 0 when RateLimiter is not set and QPS is set to greater than 0"

-- `if config.UserAgent == "" { … }`.
abbrev pub or_agent : String → String → String
or_agent default agent = if agent == "" then default else agent

module _ {Qps Limiter Serializer Http Rest Discovery Err : Type 0}
    (lib : ClientGo Qps Limiter Serializer Http Rest Discovery Err) where
  -- `setConfigDefaults`, which returns no error.
  unfoldable pub set_config_defaults : Config Qps Limiter Serializer → Config Qps Limiter Serializer
  set_config_defaults config = record config {
    group_version = some scheme_group_version;
    api_path = "/apis";
    negotiated_serializer = some lib.codecs;
    user_agent = or_agent lib.default_user_agent config.user_agent;
  }

  unfoldable pub wrap_rest : Result Err Rest → Result Err (WasmClient Rest)
  wrap_rest (err x) = err x
  wrap_rest (ok client) = ok (record { rest_client = client })

  -- `NewForConfigAndClient` of the group's client.
  unfoldable pub wasm_client_with :
      Config Qps Limiter Serializer → Http → Result Err (WasmClient Rest)
  wasm_client_with c h = wrap_rest (lib.rest_client_for (set_config_defaults c) h)

  unfoldable pub wasm_client_over :
      Config Qps Limiter Serializer → Result Err Http → Result Err (WasmClient Rest)
  wasm_client_over config (err x) = err x
  wasm_client_over config (ok h) = wasm_client_with config h

  -- `NewForConfig` of the group's client.
  unfoldable pub wasm_client : Config Qps Limiter Serializer → Result Err (WasmClient Rest)
  wasm_client c =
      let config = set_config_defaults c in wasm_client_over config (lib.http_client_for config)

  -- The rate limiter that `NewForConfigAndClient` puts into its copy of the configuration.
  unfoldable pub limited :
      Config Qps Limiter Serializer → Result Err (Config Qps Limiter Serializer)
  limited c =
      if not (is_some c.rate_limiter) && lib.is_above_zero c.qps
      then (if not (is_positive c.burst)
          then err (lib.errorf burst_message)
          else ok (record c { rate_limiter = some (lib.new_token_bucket c.qps c.burst) }))
      else ok c

  unfoldable pub with_discovery :
      WasmClient Rest → Result Err Discovery → Result Err (ClientSet Rest Discovery)
  with_discovery client (err x) = err x
  with_discovery client (ok d) = ok (record { discovery = d; wasm_v1alpha1 = client })

  unfoldable pub with_wasm_client :
      Config Qps Limiter Serializer
      → Http
      → Result Err (WasmClient Rest)
      → Result Err (ClientSet Rest Discovery)
  with_wasm_client c h (err x) = err x
  with_wasm_client c h (ok client) = with_discovery client (lib.discovery_for c h)

  unfoldable pub clientset_from :
      Http → Result Err (Config Qps Limiter Serializer) → Result Err (ClientSet Rest Discovery)
  clientset_from h (err x) = err x
  clientset_from h (ok c) = with_wasm_client c h (wasm_client_with c h)

  -- `NewForConfigAndClient`.
  unfoldable pub new_for_config_and_client :
      Config Qps Limiter Serializer → Http → Result Err (ClientSet Rest Discovery)
  new_for_config_and_client c h = clientset_from h (limited c)

  unfoldable pub with_transport :
      Config Qps Limiter Serializer → Result Err Http → Result Err (ClientSet Rest Discovery)
  with_transport c (err x) = err x
  with_transport c (ok h) = new_for_config_and_client c h

  -- The copy of the configuration that `NewForConfig` makes.
  unfoldable pub with_agent : Config Qps Limiter Serializer → Config Qps Limiter Serializer
  with_agent c = record c { user_agent = or_agent lib.default_user_agent c.user_agent }

  -- `NewForConfig`.
  unfoldable pub new_for_config :
      Config Qps Limiter Serializer → Result Err (ClientSet Rest Discovery)
  new_for_config c = with_transport (with_agent c) (lib.http_client_for (with_agent c))

  -- `NewForConfigOrDie`.
  unfoldable pub new_for_config_or_die :
      Config Qps Limiter Serializer → Option (ClientSet Rest Discovery)
  new_for_config_or_die c = elim (new_for_config c) [ err _ ↦ none | ok cs ↦ some cs ]

  -- `New`.
  unfoldable pub new_clientset : Rest → ClientSet Rest Discovery
  new_clientset c = record {
    discovery = lib.new_discovery c;
    wasm_v1alpha1 = record { rest_client = c };
  }

  -- `NewForConfigOrDie` of the group's client.
  unfoldable pub wasm_client_or_die : Config Qps Limiter Serializer → Option (WasmClient Rest)
  wasm_client_or_die c = elim (wasm_client c) [ err _ ↦ none | ok client ↦ some client ]

module _ {Rest Discovery : Type 0} where
  -- `WasmV1alpha1` and `Discovery` of a clientset; the second of a nil clientset is nil.
  unfoldable pub group_client : ClientSet Rest Discovery → WasmClient Rest
  group_client c = c.wasm_v1alpha1

  unfoldable pub discovery_of : Option (ClientSet Rest Discovery) → Option Discovery
  discovery_of none = none
  discovery_of (some c) = some c.discovery
