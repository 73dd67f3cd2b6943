-- ===== src/Coordination/Checked.antt =====
-- The checks of `execute` before the readiness barrier (materialized_coordinator.py) leave no look-up
-- of its loop without a result.
use dsp.Prelude.{
  String, ◌≡◌, refl, List, [], ◌∷◌, true, ◌&&◌, ◌==◌, all, elem, map, Result, ok, err, >>=-eq-ok,
  guard_then, All, arith,
}
use dsp.Prelude.Json.{Json}
use dsp.Contracts.{Error}
use dsp.Saga.Evidence.{Authority}
use dsp.Scope.Rules.{Boundary}
use dsp.Scope.Local.{ExecutionSlice}
use dsp.Scope.Listing.{Among}
use dsp.Coordination.Effects.{
  CoordinationError, materialization_binding_mismatch, materialization_authority_mismatch,
}
use dsp.Coordination.Contracts.{Job}
use dsp.Coordination.Indexes.{covers, caught}
use dsp.Coordination.Lookup.{All-Among, Among-elem, covers-elem, index_by-present}
use dsp.Coordination.Inputs.{PlannedSlice, BindingSet, Inputs}
use dsp.Coordination.Bindings.{intent_ids, validate_cross_materialization_identity}
use dsp.Coordination.Validate.{
  slice_id, check_authorities, check_slices, job_of, jobs_of, admitted_jobs,
  validate_materialization_plan, check_binding_sets,
}
use dsp.Coordination.Joined.{check_slices-covers}

abbrev binding_ids : Inputs → List String
binding_ids given = map (λ (s : BindingSet). s.materialization_id) given.binding_sets

abbrev authority_ids : Inputs → List String
authority_ids given = map (λ (a : Authority). a.materialization_id) given.authorities

caught-eq-ok :
    {E : Type 0} (m : Result E (Unit {0})) (e : CoordinationError) → caught m e ≡ ok tt → m ≡ ok tt
caught-eq-ok (ok tt) e h = refl
caught-eq-ok (err _) e h = cc

module _ (given : Inputs) where
  cross-covers :
      validate_cross_materialization_identity given.materialization_plan given.binding_sets ≡ ok tt
      → covers (binding_ids given) (intent_ids given.materialization_plan) ≡ true
  unfolding validate_cross_materialization_identity
  cross-covers run =
      let p = given.materialization_plan in
      let (held, _) =
        guard_then
          (covers (binding_ids given) (intent_ids p)
            && all (λ (s : BindingSet). s.materialization_plan_hash == p.materialization_plan_hash)
                given.binding_sets)
          materialization_binding_mismatch _ run in
      ground arith

  check_authorities-covers :
      check_authorities given ≡ ok tt
      → covers (authority_ids given) (intent_ids given.materialization_plan) ≡ true
  unfolding check_authorities
  check_authorities-covers run =
      (guard_then (covers (authority_ids given) (intent_ids given.materialization_plan))
        materialization_authority_mismatch _ run).0

  job_of-returns :
      (s : PlannedSlice)
      → elem (slice_id s) (binding_ids given) ≡ true
      → elem (slice_id s) (authority_ids given) ≡ true
      → (job : Job) × (job_of given s ≡ ok job)
  unfolding job_of
  job_of-returns s in_bindings in_authorities =
      let (b, has_b) =
        index_by-present (λ (x : BindingSet). x.materialization_id) given.binding_sets (slice_id s)
          in_bindings in
      let (a, has_a) =
        index_by-present (λ (x : Authority). x.materialization_id) given.authorities (slice_id s)
          in_authorities in
      (
        record {
          execution_slice = s.execution_slice;
          authority = a;
          binding_set_hash = b.binding_set_hash;
        },
        rw has_b (rw has_a refl),
      )

  jobs_of-returns :
      (ss : List PlannedSlice)
      → All (λ s. (job : Job) × (job_of given s ≡ ok job)) ss
      → (jobs : List Job) × (jobs_of given ss ≡ ok jobs)
  unfolding jobs_of
  jobs_of-returns [] h = ([], refl)
  jobs_of-returns (s ∷ ss) ((job, one), rest) =
      let (jobs, later) = jobs_of-returns ss rest in (job ∷ jobs, rw one (rw later refl))

  module _ (sha256_json : Json → String) (owner_truth : String → Boundary → Result Error (Unit {0}))
      (binding_integrity : BindingSet → ExecutionSlice → Result Error (Unit {0})) where
    check_binding_sets-covers :
        check_binding_sets sha256_json owner_truth binding_integrity given ≡ ok tt
        → covers (binding_ids given) (intent_ids given.materialization_plan) ≡ true
    unfolding check_binding_sets
    check_binding_sets-covers run =
        let cross =
          validate_cross_materialization_identity given.materialization_plan given.binding_sets in
        let (tt, first, _) = >>=-eq-ok (caught cross materialization_binding_mismatch) _ run in
        cross-covers (caught-eq-ok cross materialization_binding_mismatch first)

    -- Where the checks of the owners' truth, the materialization plan, the Slices, the binding sets
    -- and the authorities pass, every look-up of the loop finds something: the jobs are returned.
    pub admitted_jobs-returns :
        owner_truth given.changeset_hash given.boundary ≡ ok tt
        → validate_materialization_plan sha256_json owner_truth binding_integrity
            given.changeset_hash given.boundary given.materialization_plan given.convergence_profile
          ≡ ok tt
        → check_slices given.changeset_hash given.boundary given.materialization_plan
            given.execution_plan
          ≡ ok tt
        → check_binding_sets sha256_json owner_truth binding_integrity given ≡ ok tt
        → check_authorities given ≡ ok tt
        → (jobs : List Job) × (admitted_jobs sha256_json owner_truth binding_integrity given
            ≡ ok jobs)
    unfolding admitted_jobs
    admitted_jobs-returns truth plan slices bindings authorities =
        let ss = given.execution_plan.execution_slices in
        let required = intent_ids given.materialization_plan in
        let known = check_slices-covers given slices in
        let bound = check_binding_sets-covers bindings in
        let admitted = check_authorities-covers authorities in
        let (jobs, run) =
          jobs_of-returns ss (each ss known bound admitted (All-Among ss ss (λ x m. m))) in
        (jobs, rw truth (rw plan (rw slices (rw bindings (rw authorities run)))))
      where
        each :
            (ts : List PlannedSlice)
            → covers
                (map slice_id given.execution_plan.execution_slices)
                (intent_ids given.materialization_plan)
              ≡ true
            → covers (binding_ids given) (intent_ids given.materialization_plan) ≡ true
            → covers (authority_ids given) (intent_ids given.materialization_plan) ≡ true
            → All (λ s. Among s given.execution_plan.execution_slices) ts
            → All (λ s. (job : Job) × (job_of given s ≡ ok job)) ts
        each [] known bound admitted m = tt
        each (s ∷ ts) known bound admitted (m, ms) =
            let ss = given.execution_plan.execution_slices in
            let required = intent_ids given.materialization_plan in
            let here = Among-elem slice_id ss s m in
            (
              job_of-returns s
                  (covers-elem (slice_id s) (map slice_id ss) (binding_ids given) required known
                    bound here)
                  (covers-elem (slice_id s) (map slice_id ss) (authority_ids given) required known
                    admitted here),
              each ts known bound admitted ms,
            )
