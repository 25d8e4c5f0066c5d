-- ===== src/Tests/Stored.antt =====
-- The API server of the versioned platform keeps what the theorems assume of one.
use knative_serving_wasm.Prelude.{
  String, ◌≡◌, ◌≢◌, ap, ◌∙◌, sym, subst, refl, Bool, not, contains, ◌⊎◌, ◌==◌, true, none, some, [],
  ◌∷◌, ok,
}
use knative_serving_wasm.Api.Types.{WasmModule}
use knative_serving_wasm.Platform.Http.{merge_patch}
use knative_serving_wasm.Platform.Types.{MergePatch}
use knative_serving_wasm.Server.{ApiServer, remains, StatusSet, FinalizersSet}
use knative_serving_wasm.Client
use knative_serving_wasm.Reconciler.Finalizers.Stored.{RecorderKeeps}
use knative_serving_wasm.Tests.World.{Problem, problems, conflict, World, logged}
use knative_serving_wasm.Tests.Encoding.{encode, decode-encode}
use knative_serving_wasm.Tests.Held.{
  is_stored, held, held-server, held-named, held-with_status, held-with_finalizers,
  StatusSet-with_status, FinalizersSet-with_finalizers, version_of, wrote, guarded-accepted,
  guarded-refused,
}
use knative_serving_wasm.Tests.Versioned.{with_status, with_finalizers, patched, answer, versioned}

pub server_named :
    (ns name : String) (w : World) {m : WasmModule}
    → held ns name w ≡ some m
    → (m.namespace ≡ ns) × (m.name ≡ name) × (m.object_meta.resource_version ≢ "")
server_named ns name w h =
    subst
      (λ (n : WasmModule).
        (n.namespace ≡ ns) × (n.name ≡ name) × (n.object_meta.resource_version ≢ ""))
      (held-server ns name w h) (held-named ns name w h)

pub server_get :
    (ctx : Unit {0}) (ns name : String) (w : World) {m : WasmModule}
    → held ns name w ≡ some m
    → (w' : World) × (answer (Client.get_request ns name Client.zero_options) w ≡ ((m, none), w'))
      × (held ns name w' ≡ some m)
unfolding Client.get_request Client.base answer held is_stored
server_get ctx ns name w h =
    (logged "read" w, ap (λ n. ((n, none), logged "read" w)) (held-server ns name w h), h)

pub server_put :
    (ctx : Unit {0}) (o : WasmModule) (w : World) {m : WasmModule}
    → held o.namespace o.name w ≡ some m
    → o.object_meta.resource_version ≡ m.object_meta.resource_version
    → (m' : WasmModule) × (w' : World) × (answer
          (Client.update_status_request o.namespace o Client.zero_options)
          w
        ≡ ((m', none), w'))
      × (held o.namespace o.name w' ≡ some m')
      × StatusSet o.status m m'
unfolding Client.update_status_request Client.base answer
server_put ctx o w {m} h same = (
  with_status o.status w.server,
  wrote (with_status o.status w.server) w,
  guarded-accepted o.object_meta.resource_version w.server.object_meta.resource_version
      (with_status o.status w.server) w (same ∙ sym (version_of o.namespace o.name w h)),
  held-with_status o.namespace o.name w o.status h,
  StatusSet-with_status o.status w.server m (held-server o.namespace o.name w h),
)

pub server_refuse :
    (ctx : Unit {0}) (o : WasmModule) (w : World) {m : WasmModule}
    → held o.namespace o.name w ≡ some m
    → o.object_meta.resource_version ≢ m.object_meta.resource_version
    → o.object_meta.resource_version ≢ ""
    → (a : WasmModule) × (x : Problem) × (w' : World) × (answer
          (Client.update_status_request o.namespace o Client.zero_options)
          w
        ≡ ((a, some x), w'))
      × (problems.is_conflict x ≡ true)
      × (held o.namespace o.name w' ≡ some m)
unfolding Client.update_status_request Client.base answer held is_stored
server_refuse ctx o w h other _ = (
  w.server,
  conflict,
  logged "refused" w,
  guarded-refused o.object_meta.resource_version w.server.object_meta.resource_version
      (with_status o.status w.server) w (λ e. other (e ∙ version_of o.namespace o.name w h)),
  refl,
  h,
)

-- The names of finalizers that the server takes.
abbrev accepted : String → Bool
accepted x = not (x == "")

pub server_patch :
    (ctx : Unit {0}) (ns name : String) (p : MergePatch) (w : World) {m : WasmModule}
    → held ns name w ≡ some m
    → p.resource_version ≡ m.object_meta.resource_version
    → ((x : String)
        → contains p.finalizers x ≡ true
        → (contains m.finalizers x ≡ true)
          ⊎ ((versioned.is_zero m.deletion_timestamp ≡ true) × (accepted x ≡ true)))
    → (b : String) × (m' : WasmModule) × (w' : World) × (versioned.marshal p ≡ ok b)
      × (answer (Client.patch_request ns name merge_patch b Client.zero_options []) w
          ≡ ((m', none), w'))
      × (held ns name w' ≡ remains m')
      × FinalizersSet p.finalizers m m'
unfolding Client.patch_request Client.base answer patched
server_patch ctx ns name p w {m} h same _ = (
  encode (p.resource_version ∷ p.finalizers),
  with_finalizers p.finalizers w.server,
  wrote (with_finalizers p.finalizers w.server) w,
  refl,
  ap (λ l. patched l w) (decode-encode (p.resource_version ∷ p.finalizers))
      ∙ guarded-accepted p.resource_version w.server.object_meta.resource_version
          (with_finalizers p.finalizers w.server) w (same ∙ sym (version_of ns name w h)),
  held-with_finalizers ns name w p.finalizers h,
  FinalizersSet-with_finalizers p.finalizers w.server m (held-server ns name w h),
)

abbrev pub versioned_server :
    ApiServer versioned.errors versioned.rest versioned.marshal versioned.is_zero
versioned_server = record {
  stored = held;
  accepts = accepted;
  named = server_named;
  get_answers = server_get;
  put_accepted = server_put;
  put_refused = server_refuse;
  patch_accepted = server_patch;
}

pub versioned_recorder : RecorderKeeps versioned versioned_server
unfolding held is_stored
versioned_recorder o kind reason format args ns name w = refl
