-- ===== src/Dispatch/Intent.antt =====
-- dispatch_intent.py: the intent of one Host command and the construction of its identity.
use Prim.Native.String.{◌++◌}
use dsp.Prelude.{ℕ, String, Option, Result, ok, ◌>>=◌}
use dsp.Contracts.{Error, text, optional_text, digest}

-- HostDispatchStatus
pub data DispatchStatus : Type 0 where
  prepared dispatched outcome_unknown host_committed safe_to_retry reconciled : DispatchStatus

-- HostDispatchIntent; a UUID is its text
pub record Intent : Type 0 where
  pub dispatch_intent_id : String
  pub saga_id : String
  pub execution_slice_hash : String
  pub grant_hash : String
  pub binding_set_hash : String
  pub host_instance_id : String
  pub document_ref : String
  pub idempotency_key : String
  pub expected_host_revision : Option String
  pub status : DispatchStatus
  pub intent_revision : ℕ
  pub prepared_at : String

-- HostDispatchIntent.__post_init__, which `dataclasses.replace` runs as well
unfoldable pub check_intent : Intent → Result Error Intent
check_intent i = do
  saga_id ← text i.saga_id
  execution_slice_hash ← digest i.execution_slice_hash
  grant_hash ← digest i.grant_hash
  binding_set_hash ← digest i.binding_set_hash
  host_instance_id ← text i.host_instance_id
  document_ref ← text i.document_ref
  expected_host_revision ← optional_text i.expected_host_revision
  prepared_at ← text i.prepared_at
  ok (record i {
    saga_id = saga_id;
    execution_slice_hash = execution_slice_hash;
    grant_hash = grant_hash;
    binding_set_hash = binding_set_hash;
    host_instance_id = host_instance_id;
    document_ref = document_ref;
    expected_host_revision = expected_host_revision;
    prepared_at = prepared_at;
  })

-- the arguments of build_host_dispatch_intent, less its `prepared_at`
pub record Lineage : Type 0 where
  pub saga_id : String
  pub execution_slice_hash : String
  pub grant_hash : String
  pub binding_set_hash : String
  pub host_instance_id : String
  pub document_ref : String
  pub expected_host_revision : Option String

abbrev pub dispatch_namespace : String
dispatch_namespace = "e0bdb3eb-6c43-5c2a-beb6-e55eb9f252d3"

abbrev pub idempotency_namespace : String
idempotency_namespace = "691eb245-0ea4-50a4-9671-3dd5abf22c79"

-- `intent_name`
unfoldable pub intent_name : String → String → String → String → String → String → String
intent_name saga_id slice_hash grant_hash binding_hash host document =
    saga_id
    ++ (":"
        ++ (slice_hash
            ++ (":"
                ++ (grant_hash
                    ++ (":" ++ (binding_hash ++ (":" ++ (host ++ (":" ++ document)))))))))

-- build_host_dispatch_intent; `uuid5` makes the UUID of a name in a namespace
unfoldable pub build_host_dispatch_intent :
    (String → String → String) → Lineage → String → Result Error Intent
unfolding check_intent intent_name
build_host_dispatch_intent uuid5 l prepared_at = do
  saga_id ← text l.saga_id
  slice_hash ← digest l.execution_slice_hash
  grant_hash ← digest l.grant_hash
  binding_hash ← digest l.binding_set_hash
  host ← text l.host_instance_id
  document ← text l.document_ref
  revision ← optional_text l.expected_host_revision
  at ← text prepared_at
  let name = intent_name saga_id slice_hash grant_hash binding_hash host document
  check_intent (record {
    dispatch_intent_id = uuid5 dispatch_namespace name;
    saga_id = saga_id;
    execution_slice_hash = slice_hash;
    grant_hash = grant_hash;
    binding_set_hash = binding_hash;
    host_instance_id = host;
    document_ref = document;
    idempotency_key = uuid5 idempotency_namespace name;
    expected_host_revision = revision;
    status = prepared;
    intent_revision = 0;
    prepared_at = at;
  })
