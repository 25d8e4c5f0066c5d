-- ===== src/Tests/Held.antt =====
-- What the API server of the versioned platform stores under a name, before and after a write.
use knative_serving_wasm.Prelude.{
  ℕ, String, ◌==◌, eq_iff, ◌≡◌, ◌≢◌, ap, ◌∙◌, subst, refl, Bool, true, false, not, ◌&&◌, Option,
  none, some, List, [], ◌∷◌, arith, if◌then◌else◌,
}
use Prim.Native.String.{[] as end, ◌∷◌ as ◌◂◌}
use knative_serving_wasm.Api.Types.{WasmModule, WasmModuleStatus}
use knative_serving_wasm.Server.{left_of, remains, StatusSet, FinalizersSet}
use knative_serving_wasm.Tests.World.{conflict, World, logged}
use knative_serving_wasm.Tests.Versioned.{next_version, with_status, with_finalizers, guarded}

-- The stored object, under its name alone.
unfoldable pub is_stored : String → String → World → Bool
is_stored ns name w =
    w.server.namespace == ns
    && (w.server.name == name && not (w.server.object_meta.resource_version == ""))

unfoldable pub held : String → String → World → Option WasmModule
unfolding is_stored
held ns name w = if is_stored ns name w then remains w.server else none

left_of-same :
    (deleted : Option ℕ) (finalizers : List String) (m : WasmModule) {n : WasmModule}
    → left_of deleted finalizers m ≡ some n
    → (m ≡ n) × ((k : WasmModule) → left_of deleted finalizers k ≡ some k)
left_of-same none finalizers m h = (cc, λ k. refl)
left_of-same (some _) [] m h = cc
left_of-same (some _) (_ ∷ _) m h = (cc, λ k. refl)

guard-some :
    (b : Bool) (o : Option WasmModule) {m : WasmModule}
    → (if b then o else none) ≡ some m
    → (b ≡ true) × (o ≡ some m)
guard-some true o h = (refl, h)
guard-some false o h = cc

module _ (ns name : String) (w : World) {m : WasmModule} (h : held ns name w ≡ some m) where
  is_stored-held : is_stored ns name w ≡ true
  unfolding held
  is_stored-held = (guard-some (is_stored ns name w) (remains w.server) h).0

  remains-held : remains w.server ≡ some m
  unfolding held
  remains-held = (guard-some (is_stored ns name w) (remains w.server) h).1

  pub held-server : w.server ≡ m
  held-server =
      (left_of-same w.server.deletion_timestamp w.server.finalizers w.server remains-held).0

  pub held-named :
      (w.server.namespace ≡ ns)
      × (w.server.name ≡ name)
      × (w.server.object_meta.resource_version ≢ "")
  unfolding is_stored
  held-named = (
    ground (arith, is_stored-held, eq_iff w.server.namespace ns),
    ground (arith, is_stored-held, eq_iff w.server.name name),
    ground (arith, is_stored-held, eq_iff w.server.object_meta.resource_version ""),
  )

  -- What is stored of a written object stands under the same name.
  held-written :
      (w' : World)
      → w'.server.namespace ≡ w.server.namespace
      → w'.server.name ≡ w.server.name
      → w'.server.object_meta.resource_version ≢ ""
      → held ns name w' ≡ remains w'.server
  unfolding held is_stored
  held-written w' same_namespace same_name versioned' =
      let (namespace, name', _) = held-named in
      let there : is_stored ns name w' ≡ true = ground (
        arith,
        eq_iff w'.server.namespace ns,
        eq_iff w'.server.name name,
        eq_iff w'.server.object_meta.resource_version "",
      ) in
      ap (λ (b : Bool). if b then remains w'.server else none) there

abbrev nonempty : String → Bool
nonempty end = false
nonempty (_ ◂ _) = true

next_version-nonempty : (v : String) → next_version v ≢ ""
unfolding next_version
next_version-nonempty v h = let e : true ≡ false = ap nonempty h in cc

versions : (a b : String) → a ≡ b → (a == b) ≡ true
versions a b h = ground (arith, eq_iff a b)

other_versions : (a b : String) → a ≢ b → (a == b) ≡ false
other_versions a b h = ground (arith, eq_iff a b)

pub StatusSet-with_status :
    (status : WasmModuleStatus) (n m : WasmModule)
    → n ≡ m
    → StatusSet status m (with_status status n)
unfolding with_status
StatusSet-with_status status n m e =
    subst (λ k. StatusSet status k (with_status status n)) e
      (record { status_is = refl; same_type = refl; same_spec = refl; same_meta = refl })

pub FinalizersSet-with_finalizers :
    (l : List String) (n m : WasmModule) → n ≡ m → FinalizersSet l m (with_finalizers l n)
unfolding with_finalizers
FinalizersSet-with_finalizers l n m e =
    subst (λ k. FinalizersSet l k (with_finalizers l n)) e
      (record { same_status = refl; same_type = refl; same_spec = refl; set_meta = refl })

pub version_of :
    (ns name : String) (w : World) {m : WasmModule}
    → held ns name w ≡ some m
    → w.server.object_meta.resource_version ≡ m.object_meta.resource_version
version_of ns name w h = ap (λ n. n.object_meta.resource_version) (held-server ns name w h)

-- The world after an accepted write.
abbrev pub wrote : WasmModule → World → World
wrote m w = logged "write" (record w { server = m })

pub guarded-accepted :
    (a b : String) (m : WasmModule) (w : World)
    → a ≡ b
    → guarded (a == b) m w ≡ ((m, none), wrote m w)
unfolding guarded
guarded-accepted a b m w h = ap (λ t. guarded t m w) (versions a b h)

pub guarded-refused :
    (a b : String) (m : WasmModule) (w : World)
    → a ≢ b
    → guarded (a == b) m w ≡ ((w.server, some conflict), logged "refused" w)
unfolding guarded
guarded-refused a b m w h = ap (λ t. guarded t m w) (other_versions a b h)

pub held-with_status :
    (ns name : String) (w : World) {m : WasmModule} (status : WasmModuleStatus)
    → held ns name w ≡ some m
    → held ns name (wrote (with_status status w.server) w) ≡ some (with_status status w.server)
unfolding with_status
held-with_status ns name w status h =
    held-written ns name w h (wrote (with_status status w.server) w) refl refl
      (next_version-nonempty w.server.object_meta.resource_version)
    ∙ (left_of-same w.server.deletion_timestamp w.server.finalizers w.server
          (remains-held ns name w h)).1
        (with_status status w.server)

pub held-with_finalizers :
    (ns name : String) (w : World) {m : WasmModule} (l : List String)
    → held ns name w ≡ some m
    → held ns name (wrote (with_finalizers l w.server) w) ≡ remains (with_finalizers l w.server)
unfolding with_finalizers
held-with_finalizers ns name w l h =
    held-written ns name w h (wrote (with_finalizers l w.server) w) refl refl
      (next_version-nonempty w.server.object_meta.resource_version)
