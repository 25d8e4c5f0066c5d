-- ===== src/Service/Outcome.antt =====
-- What `ReconcileKind` makes of a WasmModule, on each of its paths.
use knative_serving_wasm.Prelude.{
  String, ◌≡◌, ap, ◌∙◌, sym, subst, refl, inl, inr, true, Option, none, some, arith, Option-cases,
  Bool-cases, if◌then◌else◌,
}
use knative_serving_wasm.Api.Types.{WasmModule, Addressable}
use knative_serving_wasm.Api.Lifecycle.{
  condition_ready, condition_of, mark_service_unavailable, mark_service_available, ConditionLaws,
}
use knative_serving_wasm.Service.{
  Services, reference_to, address_of, unavailable, available, after_lookup, after_track,
  reconcile_kind,
}

-- What a run finds out about the Service: it exists, it is missing, or tracking it or looking it up
-- fails.
pub data Finding (Err : Type 0) : Type 0 where
  exists missing : Finding Err
  failed : Err → Finding Err

abbrev pub error_by : {Err : Type 0} → Finding Err → Option Err
error_by (failed x) = some x
error_by exists = none
error_by missing = none

module _ {Ctx Err W : Type 0} (r : Services Err W) (ctx : Ctx) (o : WasmModule) (w : W) where
  -- The world after the reference to the Service is tracked, in which the Service is looked up.
  abbrev pub tracked : Option Err × W
  tracked = r.track_reference (reference_to r o) o w

  abbrev pub lookup : Option Err
  lookup = r.get_service o.namespace o.spec.service_name tracked.1

  abbrev pub result : (Option Err × WasmModule) × W
  result = reconcile_kind r ctx o w

  -- `ReconcileKind` has no effect but to track the Service, and never changes the metadata or the
  -- spec; if it returns an error, the object is unchanged.
  pub reconcile_kind_frame :
      (result.1 ≡ tracked.1)
      × (result.0.1.object_meta ≡ o.object_meta)
      × (result.0.1.spec ≡ o.spec)
      × ((x : Err) → result.0.0 ≡ some x → result.0.1 ≡ o)
  unfolding reconcile_kind after_track after_lookup available unavailable
  reconcile_kind_frame = (ground arith, ground arith, ground arith, λ x h. ground arith)

  module _ (laws : ConditionLaws W r.cond_set) (clear : tracked.0 ≡ none) where
    result-lookup : result ≡ after_lookup r o lookup tracked.1
    unfolding reconcile_kind after_track
    result-lookup = rw (clear, after_track)

    -- Where the Service is tracked without an error and exists, the run succeeds, the module is
    -- ready and its address is the plain HTTP host of the Service.
    pub reconcile_kind_available :
        lookup ≡ none
        → (result.0.0 ≡ none)
          × (condition_of condition_ready result.0.1.status.status ≡ some ("True", ""))
          × (result.0.1.status.address ≡ some (address_of r o))
    unfolding after_lookup available mark_service_available
    reconcile_kind_available found =
        let e = result-lookup ∙ ap (λ l. after_lookup r o l tracked.1) found in
        rw e (refl, laws.condition_of-mark_true condition_ready o.status.status tracked.1, refl)

    -- Where the Service is tracked without an error and the lister does not find it, the run
    -- succeeds all the same, the module is marked not ready, and it keeps the address that it had.
    pub reconcile_kind_unavailable :
        {x : Err}
        → lookup ≡ some x
        → r.errors.is_not_found x ≡ true
        → (result.0.0 ≡ none)
          × (condition_of condition_ready result.0.1.status.status
              ≡ some ("False", "ServiceUnavailable"))
          × (result.0.1.status.address ≡ o.status.address)
    unfolding after_lookup unavailable mark_service_unavailable
    reconcile_kind_unavailable {x} unfound not_found =
        let e = result-lookup ∙ ap (λ l. after_lookup r o l tracked.1) unfound in
        rw (e, not_found) (refl, laws.condition_of-mark_false _ _ _ _ _ _, refl)

module _ {Ctx Err W : Type 0} (r : Services Err W) (ctx : Ctx) (o : WasmModule) (w : W) where
  abbrev pub finding : Finding Err
  finding = elim (tracked r ctx o w).0 [
    | some x ↦ failed x
    | none ↦ elim (lookup r ctx o w) [
      | none ↦ exists
      | some x ↦ if r.errors.is_not_found x then missing else failed x
    ]
  ]

  -- The ready condition and the address, by what is found.
  abbrev pub readiness_by : Finding Err → Option (String × String)
  readiness_by exists = some ("True", "")
  readiness_by missing = some ("False", "ServiceUnavailable")
  readiness_by (failed _) = condition_of condition_ready o.status.status

  abbrev pub address_by : Finding Err → Option Addressable
  address_by exists = some (address_of r o)
  address_by missing = o.status.address
  address_by (failed _) = o.status.address

  abbrev Becomes : Finding Err → Type 0
  Becomes f =
      ((result r ctx o w).0.0 ≡ error_by f)
      × (condition_of condition_ready (result r ctx o w).0.1.status.status ≡ readiness_by f)
      × ((result r ctx o w).0.1.status.address ≡ address_by f)

  Becomes-failed :
      (x : Err) → result r ctx o w ≡ ((some x, o), (tracked r ctx o w).1) → Becomes (failed x)
  Becomes-failed x e = (
    ap (λ a. a.0.0) e,
    ap (λ a. condition_of condition_ready a.0.1.status.status) e,
    ap (λ a. a.0.1.status.address) e,
  )

  Becomes-finding : (f : Finding Err) → finding ≡ f → Becomes f → Becomes finding
  Becomes-finding f e h = subst Becomes (sym e) h

  -- The run fails exactly where tracking the Service or looking it up fails, with that error, and then
  -- leaves the ready condition and the address alone. Where the Service exists the module is ready,
  -- and its address is the plain HTTP host of the Service. Where the lister does not find it, the run
  -- succeeds all the same, the module is marked not ready, and it keeps the address that it had.
  pub reconcile_kind_lem :
      ConditionLaws W r.cond_set
      → ((result r ctx o w).0.0 ≡ error_by finding)
        × (condition_of condition_ready (result r ctx o w).0.1.status.status ≡ readiness_by finding)
        × ((result r ctx o w).0.1.status.address ≡ address_by finding)
  unfolding reconcile_kind after_track after_lookup
  reconcile_kind_lem laws = elim (Option-cases (tracked r ctx o w).0) [
    | inr (x, e) ↦
        Becomes-finding (failed x) (rw (e, finding) refl)
          (Becomes-failed x (rw (e, after_track) refl))
    | inl clear ↦ elim (Option-cases (lookup r ctx o w)) [
      | inl found ↦
          Becomes-finding exists (rw (clear, found, finding) refl)
            (reconcile_kind_available r ctx o w laws clear found)
      | inr (x, e) ↦ elim (Bool-cases (r.errors.is_not_found x)) [
        | inl not_found ↦
            Becomes-finding missing (rw (clear, e, not_found, finding) refl)
              (reconcile_kind_unavailable r ctx o w laws clear e not_found)
        | inr other ↦
            Becomes-finding (failed x) (rw (clear, e, other, finding) refl)
              (Becomes-failed x (rw (clear, e, other, after_track, after_lookup) refl))
      ]
    ]
  ]
