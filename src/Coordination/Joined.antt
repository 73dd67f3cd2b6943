-- ===== src/Coordination/Joined.antt =====
-- What the checks of `execute` before the readiness barrier (materialized_coordinator.py) have
-- established of the jobs that its loop runs.
use dsp.Prelude.{
  String, ◌≡◌, refl, ap, sym, ◌∙◌, some, List, [], ◌∷◌, true, ◌==◌, eq_iff, map, Result, ok,
  >>=-eq-ok, guard_then, guard-eq-ok, ok-injective, All, subst, arith,
}
use dsp.Prelude.Json.{Json}
use dsp.Contracts.{Error, unique}
use dsp.Saga.Evidence.{Authority}
use dsp.Scope.Rules.{Boundary}
use dsp.Scope.Local.{ExecutionSlice}
use dsp.Scope.Listing.{Among}
use dsp.Coordination.Effects.{
  materialization_plan_hash_mismatch, materialization_required_set_mismatch,
}
use dsp.Coordination.Contracts.{Job}
use dsp.Coordination.Indexes.{found, covers, check_each, caught}
use dsp.Coordination.Lookup.{
  cons_eq, map-map, All-Among, index_by-Among, index_by-unique, check_each-Among, found-eq-ok,
  covers-unique,
}
use dsp.Coordination.Inputs.{PlannedSlice, BindingSet, Inputs}
use dsp.Coordination.Bindings.{intent_ids}
use dsp.Coordination.Validate.{
  slice_id, slices_of, bindings_of, authorities_of, authority_fits, check_authority,
  check_authorities, check_slices, job_of, jobs_of, admitted_jobs, plan_joins,
  validate_materialization_plan, check_binding_sets,
}

-- what `execute` knows of a job before it runs it
abbrev pub Joins : Inputs → Job → Type 0
Joins given job =
    (s : PlannedSlice) × Among s given.execution_plan.execution_slices
    × (job.execution_slice ≡ s.execution_slice)
    × (job.authority.execution_slice_hash ≡ job.execution_slice.execution_slice_hash)
    × (job.authority.binding_set_hash ≡ job.binding_set_hash)
    × (job.authority.host_instance_id ≡ job.execution_slice.host_runtime_ref.host_instance_id)
    × (job.authority.materialization_plan_hash
        ≡ given.materialization_plan.materialization_plan_hash)
    × (job.authority.changeset_hash ≡ given.materialization_plan.changeset_hash)
    × (job.authority.approved_scope_hash ≡ given.materialization_plan.approved_scope_hash)

module _ (given : Inputs) where
  -- the parts of a fitting authority
  fits-Joins :
      (s : PlannedSlice) (a : Authority) (b : BindingSet)
      → Among s given.execution_plan.execution_slices
      → authority_fits given.materialization_plan a s.execution_slice b ≡ true
      → Joins given (record {
        execution_slice = s.execution_slice;
        authority = a;
        binding_set_hash = b.binding_set_hash;
      })
  unfolding authority_fits
  fits-Joins s a b m fit = (
    s,
    m,
    refl,
    ground (arith, eq_iff a.execution_slice_hash s.execution_slice.execution_slice_hash),
    ground (arith, eq_iff a.binding_set_hash b.binding_set_hash),
    ground (arith, eq_iff a.host_instance_id s.execution_slice.host_runtime_ref.host_instance_id),
    ground (
      arith,
      eq_iff a.materialization_plan_hash given.materialization_plan.materialization_plan_hash,
    ),
    ground (arith, eq_iff a.changeset_hash given.materialization_plan.changeset_hash),
    ground (arith, eq_iff a.approved_scope_hash given.materialization_plan.approved_scope_hash),
  )

  check_authority-fits :
      (a : Authority) (s : PlannedSlice) (b : BindingSet)
      → slices_of given a.materialization_id ≡ some s
      → bindings_of given a.materialization_id ≡ some b
      → check_authority given a ≡ ok tt
      → authority_fits given.materialization_plan a s.execution_slice b ≡ true
  unfolding check_authority
  check_authority-fits a s b has_s has_b run = guard-eq-ok _ _ (rw has_b at (rw has_s at run))

  job_of-Joins :
      (s : PlannedSlice) {job : Job}
      → unique (map slice_id given.execution_plan.execution_slices) ≡ true
      → check_each (check_authority given) given.authorities ≡ ok tt
      → Among s given.execution_plan.execution_slices
      → job_of given s ≡ ok job
      → Joins given job × (job.execution_slice ≡ s.execution_slice)
  unfolding job_of check_authority
  job_of-Joins s distinct checked m run =
      let (b, has_b, run₁) = >>=-eq-ok (found (bindings_of given (slice_id s))) _ run in
      let (a, has_a, made) = >>=-eq-ok (found (authorities_of given (slice_id s))) _ run₁ in
      let has_authority = found-eq-ok (authorities_of given (slice_id s)) has_a in
      let (there, named) =
        index_by-Among (λ (a : Authority). a.materialization_id) given.authorities (slice_id s)
          has_authority in
      let fit =
        check_authority-fits a s b
          (ap (slices_of given) named
            ∙ index_by-unique slice_id given.execution_plan.execution_slices s distinct m)
          (ap (bindings_of given) named ∙ found-eq-ok (bindings_of given (slice_id s)) has_b)
          (check_each-Among (check_authority given) given.authorities a checked there) in
      subst (λ j. Joins given j × (j.execution_slice ≡ s.execution_slice)) (ok-injective _ _ made)
        (fits-Joins s a b m fit, refl)

  jobs_of-Joins :
      (ss : List PlannedSlice) {jobs : List Job}
      → unique (map slice_id given.execution_plan.execution_slices) ≡ true
      → check_each (check_authority given) given.authorities ≡ ok tt
      → All (λ s. Among s given.execution_plan.execution_slices) ss
      → jobs_of given ss ≡ ok jobs
      → All (Joins given) jobs
        × (map (λ (j : Job). j.execution_slice) jobs
            ≡ map (λ (s : PlannedSlice). s.execution_slice) ss)
  unfolding jobs_of
  jobs_of-Joins [] distinct checked m run =
      subst
        (λ (js : List Job). All (Joins given) js × (map (λ (j : Job). j.execution_slice) js ≡ []))
        (ok-injective _ _ run) (tt, refl)
  jobs_of-Joins (s ∷ ss) distinct checked (m, ms) run =
      let (job, one, run₁) = >>=-eq-ok (job_of given s) _ run in
      let (jobs, rest, made) = >>=-eq-ok (jobs_of given ss) _ run₁ in
      let (joins, same) = job_of-Joins s distinct checked m one in
      let (all_join, all_same) = jobs_of-Joins ss distinct checked ms rest in
      subst
        (λ (js : List Job).
          All (Joins given) js
          × (map (λ (j : Job). j.execution_slice) js
              ≡ map (λ (t : PlannedSlice). t.execution_slice) (s ∷ ss)))
        (ok-injective _ _ made) ((joins, all_join), cons_eq same all_same)

  pub check_slices-covers :
      check_slices given.changeset_hash given.boundary given.materialization_plan
          given.execution_plan
        ≡ ok tt
      → covers
          (map slice_id given.execution_plan.execution_slices)
          (intent_ids given.materialization_plan)
        ≡ true
  unfolding check_slices
  check_slices-covers run =
      let g = given in
      let (_, run₁) =
        guard_then (plan_joins g.changeset_hash g.boundary g.materialization_plan g.execution_plan)
          materialization_plan_hash_mismatch _ run in
      let (_, run₂) =
        guard_then (g.execution_plan.ordering_policy == "stable_host_type_then_slot.v1")
          materialization_plan_hash_mismatch _ run₁ in
      (guard_then
        (covers (map slice_id g.execution_plan.execution_slices)
          (intent_ids g.materialization_plan))
        materialization_required_set_mismatch _ run₂).0

  check_authorities-each :
      check_authorities given ≡ ok tt → check_each (check_authority given) given.authorities ≡ ok tt
  unfolding check_authorities
  check_authorities-each run = (guard_then _ _ _ run).1

  module _ (sha256_json : Json → String) (owner_truth : String → Boundary → Result Error (Unit {0}))
      (binding_integrity : BindingSet → ExecutionSlice → Result Error (Unit {0})) where
    -- The jobs that an execution runs after its checks are the Slices of the execution plan in their
    -- order, with one for each required materialization and no other. Each has an authority that was
    -- admitted for this Slice, for the binding set of the job, for the Host instance of the Slice and
    -- for the materialization plan, its change set and its approved scope.
    pub admitted_jobs-Joins :
        {jobs : List Job}
        → admitted_jobs sha256_json owner_truth binding_integrity given ≡ ok jobs
        → All (Joins given) jobs
          × (map (λ (j : Job). j.execution_slice) jobs
              ≡ map (λ (s : PlannedSlice). s.execution_slice) given.execution_plan.execution_slices)
          × (covers
                (map (λ (j : Job). j.execution_slice.materialization_id) jobs)
                (intent_ids given.materialization_plan)
              ≡ true)
    unfolding admitted_jobs
    admitted_jobs-Joins {jobs} run =
        let g = given in
        let truth =
          caught (owner_truth g.changeset_hash g.boundary) materialization_plan_hash_mismatch in
        let plan =
          validate_materialization_plan sha256_json owner_truth binding_integrity g.changeset_hash
            g.boundary g.materialization_plan g.convergence_profile in
        let slices =
          check_slices g.changeset_hash g.boundary g.materialization_plan g.execution_plan in
        let bindings = check_binding_sets sha256_json owner_truth binding_integrity g in
        let (_, _, run₁) = >>=-eq-ok truth _ run in
        let (_, _, run₂) = >>=-eq-ok plan _ run₁ in
        let (_, sliced, run₃) = >>=-eq-ok slices _ run₂ in
        let (_, _, run₄) = >>=-eq-ok bindings _ run₃ in
        let (_, admitted, made) = >>=-eq-ok (check_authorities g) _ run₄ in
        let covered = check_slices-covers sliced in
        let distinct =
          covers-unique (map slice_id g.execution_plan.execution_slices)
            (intent_ids g.materialization_plan) covered in
        let (joins, same) =
          jobs_of-Joins given.execution_plan.execution_slices distinct
            (check_authorities-each admitted)
            (All-Among given.execution_plan.execution_slices given.execution_plan.execution_slices
              (λ x m. m))
            made in
        (
          joins,
          same,
          subst (λ ids. covers ids (intent_ids given.materialization_plan) ≡ true)
              (sym (ids_of jobs same)) covered,
        )
      where
        ids_of :
            (js : List Job)
            → map (λ (j : Job). j.execution_slice) js
              ≡ map (λ (s : PlannedSlice). s.execution_slice) given.execution_plan.execution_slices
            → map (λ (j : Job). j.execution_slice.materialization_id) js
              ≡ map slice_id given.execution_plan.execution_slices
        ids_of js same =
            sym (
              map-map (λ (j : Job). j.execution_slice)
                (λ (e : ExecutionSlice). e.materialization_id) js)
            ∙ ap (map (λ (e : ExecutionSlice). e.materialization_id)) same
            ∙ map-map (λ (s : PlannedSlice). s.execution_slice)
                (λ (e : ExecutionSlice). e.materialization_id) given.execution_plan.execution_slices
