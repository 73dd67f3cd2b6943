-- ===== src/Lib.antt =====
-- The execution core of DSP: the platform package execution_reconciliation (saga_contracts_v2.py,
-- saga_state_v2.py, saga_transitions_v2.py, saga_store_v2.py, hashing.py, dispatch_intent.py,
-- dispatch_intent_store.py), with its scope comparator and the order of Slices, the grants of
-- gateway_authorization (v2.py, store_v2.py), and the coordinator of execution_coordination
-- (materialized_coordinator.py).
--
-- An execution Saga carries the Slices of an approved change set, one at a time, from the
-- reservation of an admission over the Gateway's authority and the Host's commit to scope
-- comparison and semantic verification, and the whole Saga to its convergence outcome. A controller
-- passes each request to a store, which applies a pure transition to the stored snapshot under the
-- caller's expected revision. The coordinator checks the plan with its bindings and authorities, runs
-- the Slices on their Hosts one after the other, each under a durable dispatch intent, and reports how
-- the Saga ended.
--
-- Files, with paths from platform/execution_reconciliation/src/design_execution_reconciliation:
--   Prelude, Prelude/*       shared names, lists, results of calls that may raise, str.strip,
--                            SHA-256 texts, JSON values, sorting, dictionaries, integers
--   Contracts, Contracts/*   the checks `_text`, `_digest`, ... of the contracts, and the errors
--   Saga/Definition          saga_contracts.py and saga_contracts_v2.py: ExecutionSagaDefinitionV2
--   Saga/State               saga_state_v2.py: SliceReconciliationStateV2, StoredExecutionSagaV2
--   Saga/Evidence            contracts.py and hashing.py: ActualDelta, ScopeComparisonResult,
--                            SemanticVerificationResult and their content hashes
--   Saga/Transitions/*       saga_transitions_v2.py: one function for each transition; what stands
--                            behind the replay test is a function of its own (`reserve_fresh`, ...)
--   Saga/Requests            the requests of ExecutionSagaControllerV2 (saga_v2.py)
--   Saga/Store               saga_store_v2.py: InMemoryExecutionSagaStoreV2
--   Saga/Moves               the life of a Saga as a step relation, the specification
--   Saga/Locate, Rebuilt, Normal, Fresh, Refinement
--                            from the transitions to the step relation
--   Saga/Lifecycle, Distinct, Coherence, Invariant, Persistence, Revision, Terminal, Replay,
--   Order, Progress
--                            what holds through the life of a Saga
--   Saga/Store/Laws          what the store guarantees
--   Dispatch/Intent          dispatch_intent.py: HostDispatchIntent, build_host_dispatch_intent
--   Dispatch/Store           dispatch_intent_store.py: InMemoryHostDispatchIntentStore
--   Dispatch/Changes, Linked, Laws, Recovery, Lookup
--                            what the store of dispatch intents guarantees
--   Gateway/Grant            platform/gateway_authorization/src/design_gateway_authorization, v2.py
--                            and contracts.py: ExecutionGrantV2 and the states of grants
--   Gateway/Store            store_v2.py: InMemoryGatewayAuthorizationStoreV2, with what it inherits from
--                            store.py: consume_admission_once and revoke_approval
--   Gateway/Exclusive, Methods, Calls, Admission, Frame, Revocation, Permanence
--                            what the store of grants guarantees
--   Scope/Rules              platform/approval_scope/src/design_approval_scope, contracts.py: the rules of
--                            an approved scope
--   Scope/Selector, Compare, Allocation, Evaluate
--                            scope_comparator.py: selectors, the comparison of one change, the
--                            allocation of created entities, the whole comparison
--   Scope/Local              v2.py: the lineage of a request and compare_scope
--   Scope/Listing, Budget, Search, Candidates, Creations, Modifications, Licences, Authority
--                            what a comparison decides
--   Build/Order              saga.py: _topological_order, the order of the Slices of a Saga
--   Build/Definition         saga_v2.py: ExecutionSagaBuilderV2, behind its validators
--   Build/Chain, Forward     what its definitions guarantee
--   Build/Counting, Relax, Graph, Topological, Loop, Sorted, Acyclic
--                            what the order guarantees
--   Coordination/Contracts   platform/execution_coordination/src/design_execution_coordination,
--                            contracts.py and materialized_contracts.py, and the ports
--   Coordination/Effects     computations over the two stores and the outside, which may raise
--   Coordination/Inputs      what `execute` is given: platform/materialization_planning, contracts.py
--                            and hashing.py; platform/convergence, profile.py and hashing.py; v2.py of
--                            platform/execution_planning and of platform/provider_binding
--   Coordination/Indexes, Bindings, Validate
--                            materialized_coordinator.py and provider_binding, v2.py: the checks
--                            before the readiness barrier
--   Coordination/Execute, Rounds
--                            materialized_coordinator.py: `execute` from the readiness barrier on
--   Coordination/Coordinate  `execute` as a whole
--   Coordination/Lookup, Joined, Checked
--                            what the checks establish
--   Coordination/Hoare, Guarded, Outcomes, Mirror, Commanded
--                            what an execution leaves, whether it returns or raises
--   */Tests, Saga/Tests/*    runs and theorems at concrete inputs
--
-- A stored snapshot is replaced as a whole under a lock, so that concurrent callers are sequences of
-- requests, in any order. A Python call that may raise is a Result; the error is its stable code, or
-- Python's own. Type checks of the source are the types of the model. `expected_revision` may be
-- negative and is an integer; the stored revision is a natural number. A UUID is its text. A loop of
-- the source runs over a tuple, but for the one of the topological order: its fuel is the number of
-- Slices, of which each round orders one.
--
-- Parameters, which stand for code outside these files: `canonical_hash`, SHA-256 over canonical
-- JSON (platform/changeset, hashing.py), `uuid5` of Python's uuid module, and `utc_timestamp` and
-- `instant`, the normalisation of a time by datetime.fromisoformat and the moment that it denotes.
-- No property assumes anything of them. The properties of the Gateway's store assume that the grants
-- that are issued are authentic: that a grant is what `content` gives for its hash, where `content`
-- is any function, so that two grants do not share a hash.
--
-- The revocation of an approval is modelled by what it does to the approval; the grants of version 1
-- that it revokes as well are not modelled. Of an approval record, the store of the model keeps the
-- lifecycle state, so that the readers get_approval and get_consumed_approval are left out.
--
-- The coordinator drives the stores of Sagas and dispatch intents and the scope comparator. All else
-- that it calls is a port: a function on an arbitrary outside that returns or raises. The builder
-- runs after readiness, and the outcome of its validators is an argument; the look-ups of the loop,
-- which the checks make safe, are done before it. What was written before an exception stays written.
--
-- The integrity of a boundary, a change set and a binding set, which their owners check, are the
-- parameters `owner_truth` and `binding_integrity`; `sha256_json` is the digest of the planners. The
-- constructor of a coordination result is not modelled.
--
-- Not modelled: recovery and the V1 coordinator, the validators of the builder (saga_v2.py), the
-- rest of Saga V1 (saga.py), the verifier, the PostgreSQL stores, the outbox and inbox, and the other packages.
pub mod Prelude
pub mod Contracts
pub mod Saga
pub mod Dispatch
pub mod Gateway
pub mod Scope
pub mod Build
pub mod Coordination
