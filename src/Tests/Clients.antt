-- ===== src/Tests/Clients.antt =====
-- The theorems on the clientset, the fake client and `ForResource`, at concrete data.
use knative_serving_wasm.Prelude.{
  ℕ, zero, suc, ◌+◌, String, ◌≡◌, ◌≢◌, refl, true, false, Option, none, some, [], ◌∷◌, ok,
}
use knative_serving_wasm.Api.Types.{WasmModule}
use knative_serving_wasm.Platform.Http.{ListOptions}
use knative_serving_wasm.Platform.Types.{Rest}
use knative_serving_wasm.Lister.Contents.{kept}
use knative_serving_wasm.Clientset.{
  ℤ, pos, Config, ClientGo, ClientSet, set_config_defaults, with_agent, limited, wrap_rest,
  wasm_client_with, with_discovery, with_wasm_client, clientset_from, new_for_config_and_client,
  with_transport, new_for_config,
}
use knative_serving_wasm.Clientset.Limits.{MadeWith, new_for_config-MadeWith}
use knative_serving_wasm.FakeClient.{FakeWasmModules, list_with, fake_list}
use knative_serving_wasm.FakeClient.Agreement.{fake_list-kept}
use knative_serving_wasm.Informers.Factory.{Factory, start, begin_shutdown, informer_for}
use knative_serving_wasm.Informers.Generic.{GenericInformer, for_resource, wasmmodules}
use knative_serving_wasm.Informers.Listing.{ListWatch}
use knative_serving_wasm.Informers.Typed.{
  WasmModuleInformer, modules_of, wasm_modules_of-shared_factory,
}
use knative_serving_wasm.Tests.World.{Problem, World, transport}
use knative_serving_wasm.Tests.Cluster.{module_with, world_with}

-- Clients are the user agents that they are made with, and a limiter is the size of its bucket.
abbrev client_go : ClientGo ℕ ℤ String String String String String
client_go = record {
  default_user_agent = "default";
  codecs = "codecs";
  is_above_zero = λ q. elim q [ zero ↦ false | suc _ ↦ true ];
  new_token_bucket = λ q b. b;
  http_client_for = λ c. ok c.user_agent;
  rest_client_for = λ c h. ok h;
  discovery_for = λ c h. ok h;
  new_discovery = λ r. r;
  errorf = λ text. text;
}

abbrev config : ℤ → Config ℕ ℤ String
config burst = record {
  host = "api";
  user_agent = "";
  rate_limiter = none;
  qps = 5;
  burst = burst;
  group_version = none;
  api_path = "";
  negotiated_serializer = none;
}

abbrev clients : ClientSet String String
clients = record { discovery = "default"; wasm_v1alpha1 = record { rest_client = "default" } }

made : new_for_config client_go (config (pos 10)) ≡ ok clients
unfolding new_for_config with_transport new_for_config_and_client clientset_from with_wasm_client
    with_discovery wasm_client_with wrap_rest limited with_agent set_config_defaults
made = refl

new_for_config-MadeWith_example :
    (h : String) × (client_go.http_client_for (with_agent client_go (config (pos 10))) ≡ ok h)
    × MadeWith client_go (with_agent client_go (config (pos 10))) h clients
new_for_config-MadeWith_example = new_for_config-MadeWith client_go (config (pos 10)) clients made

abbrev plain : WasmModule
plain = module_with 1 1 [] none

abbrev unlabelled : WasmModule
unlabelled = record plain { object_meta = record plain.object_meta { labels = [] } }

-- A fake client that answers with two modules, and selects those with labels.
abbrev fakes : FakeWasmModules Problem World
fakes = record {
  fake = record {
    invokes = λ _ w. ((none, none), w);
    invokes_list = λ _ w. (
      (
        some (
            list_with (record { resource_version = "3"; continue_token = "" })
              (unlabelled ∷ plain ∷ [])),
        none,
      ),
      w,
    );
    invokes_watch = λ _ w. (none, w);
    extract_label = λ _. some (λ labels. elim labels [ [] ↦ false | _ ∷ _ ↦ true ]);
  };
  ns = "default";
}

abbrev everything : ListOptions
everything = record { label_selector = "app"; timeout_seconds = none; watch = false }

fake_list-kept_example : fake_list fakes everything (world_with plain 0) ≡ (
  (some (list_with (record { resource_version = "3"; continue_token = "" }) (plain ∷ [])), none),
  world_with plain 0,
)
unfolding kept
fake_list-kept_example =
    fake_list-kept fakes everything (world_with plain 0) (world_with plain 0) refl

abbrev set_transform : Option ℕ → ℕ → ℕ
set_transform t informer = informer

abbrev make : ListWatch Unit Problem World → ℕ → ℕ
make lw resync = resync

abbrev factory : Factory (Rest Unit Problem World) ℕ ℕ
factory = record {
  client = transport;
  namespace = "";
  tweak_list_options = none;
  default_resync = 30;
  custom_resync = [];
  transform = none;
  informers = [];
  started_informers = [];
  wait_group = 0;
  shutting_down = false;
  running = [];
}

abbrev modules : WasmModuleInformer (Factory (Rest Unit Problem World) ℕ ℕ) ℕ ℕ
modules = modules_of set_transform make tt (λ x. x + 1) factory

wasm_modules_of-shared_factory_example :
    let (x, f) = modules.informer factory in
    (modules.informer f ≡ (x, f))
    × (modules.lister factory ≡ (x + 1, f))
    × (modules.lister f ≡ (x + 1, f))
    × ((r : GenericInformer ℕ) × (for_resource set_transform make tt wasmmodules f ≡ (ok r, f))
        × (r.informer ≡ x))
    × ((modules.informer (start f)).0 ≡ x)
    × ((modules.informer (begin_shutdown f)).0 ≡ x)
    × ((u : String) (h : Rest Unit Problem World → ℕ → ℕ)
        → u ≢ "WasmModule"
        → (modules.informer (informer_for set_transform u h f).1).0 ≡ x)
wasm_modules_of-shared_factory_example =
    wasm_modules_of-shared_factory set_transform make tt (λ x. x + 1) factory factory factory
