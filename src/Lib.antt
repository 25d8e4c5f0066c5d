-- ===== src/Lib.antt =====
-- The WasmModule controller: the generated reconciler, the business logic that it runs, and the
-- client, cache and informer code that they stand on.
--
-- A work queue hands a key to `Reconcile` of the generated reconciler. It reads the WasmModule from
-- the lister, chooses by leadership and deletion which method of the user's reconciler runs, sets or
-- clears the finalizer by a merge patch, runs the method, writes a changed status back with retries
-- on conflicts, and reports the event. The user's reconciler here marks a WasmModule ready and gives
-- it an address where its Service exists. The caches are filled by informers that a shared factory
-- starts and shuts down. The injection puts the client, the factory and the informer into the context
-- that `NewController` builds the reconciler from. What the API server stores after a run is stated
-- over an interface of the server's documented behaviour (Server).
--
--   Prelude      names of the libraries, Boolean tests, lists of texts, results and effects
--   Api          pkg/apis/wasm: the structs (Types), group and version (Register), conditions
--                (Lifecycle), Validate (Validation), zz_generated.deepcopy.go (DeepCopy), the schemes
--                of the clientsets (Scheme)
--   Cells        a memory of cells, for pointers to addresses and to factories
--   Platform     the libraries that the code calls, as parameters: Go errors, HTTP requests, sets,
--                the recorder, retries; Laws holds what their documentation promises
--   Server       the API server by what Kubernetes documents of reads, status updates and patches
--   Client       pkg/client/clientset/versioned/typed/wasm/v1alpha1/wasmmodule.go; Interface: its
--                WasmModuleInterface
--   Clientset    pkg/client/clientset/versioned/{clientset.go,typed/wasm/v1alpha1/wasm_client.go}
--   FakeClient   pkg/client/clientset/versioned/typed/wasm/v1alpha1/fake/fake_wasmmodule.go; Tracker
--                and Contents: pkg/client/clientset/versioned/fake/clientset_generated.go
--   Lister       pkg/client/listers/wasm/v1alpha1/wasmmodule.go
--   Reconciler   pkg/client/injection/reconciler/wasm/v1alpha1/wasmmodule/{reconciler,state}.go:
--                State (newState, reconcileMethodFor), Finalizers (updateFinalizersFiltered,
--                setFinalizerIfFinalizer, clearFinalizer), Status (updateStatus), Report (the end of
--                Reconcile), Reconcile; Effects: a run as a chain of requests, events and calls of
--                the user's methods, and many replicas over time; Finalizers/Sets: the finalizers
--                as a quotient that forgets order
--   Controller   controller.go beside them, and NewReconciler: Options, Promotion, Construction,
--                Recorder (createRecorder and the goroutine that stops its watches)
--   Service      pkg/reconciler/wasmmodule/wasmmodule.go (ReconcileKind); Assembly and Wiring:
--                controller.go beside it (NewController and its event handlers); Stored, Missing,
--                Recovery, Converged and Waiting: whole runs with the API server; History: many
--                replicas over time
--   Informers    pkg/client/informers/externalversions: Factory (factory.go), Listing (the informer
--                of WasmModules), Generic (generic.go), Interface and Contract (SharedInformerFactory),
--                Typed (the group's packages through the internal interfaces), Shutdown (calls and
--                goroutines as steps)
--   Injection    pkg/client/injection/client and informers: factory, factory/filtered, wasmmodule,
--                wasmmodule/filtered; Heap: the context and the factories; Registration: the
--                functions init, and the order in which knative.dev/pkg runs what they
--                register; Fakes: their fakes, and the functions init of those
--   Tests        a small world with an API server, a cache and Services; the theorems at concrete data
--
-- A function of the source has its name in snake_case, its receiver as first argument; `List`, `Get`,
-- `Watch` and `Delete` carry what they are about. Code with effects takes the outside world, an
-- arbitrary type, and returns the new one with its result (`Effect`). A pointer that is changed is a
-- value that is returned, except in Api/DeepCopy and Injection, where shared addresses and factories
-- are cells of a memory; a nil pointer, function or interface is `none`. A type assertion to an
-- optional interface is an optional field.
--
-- Bounds. The retries of a status update are the library's: `RetriesConflicts` says that some number
-- of calls at most follows the first one, on conflicts only, and the theorems hold for each such
-- number. All other loops go over finite lists. The timeout of a list is a product of int64s, taken
-- modulo 2 ^ 64.
--
-- Not modelled: logging, metrics, the texts of panics and the content of JSON; the work queue, the
-- elector, the REST transport, the object tracker and the informers' own loops, which are parameters;
-- codecs; the main programs; vendored code.
pub mod Prelude
pub mod Api
pub mod Platform
pub mod Cells
pub mod Client
pub mod Clientset
pub mod FakeClient
pub mod Server
pub mod Lister
pub mod Reconciler
pub mod Service
pub mod Controller
pub mod Informers
pub mod Injection
pub mod Tests
