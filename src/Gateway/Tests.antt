-- ===== src/Gateway/Tests.antt =====
-- Two grants of one lineage with different bindings, and the theorems at these inputs.
use Prim.Native.String.{count}
use dsp.Prelude.{
  ℕ, String, ◌≡◌, refl, none, some, List, [], ◌∷◌, Result, ok, err, ◌==◌, if◌then◌else◌, All, inl,
  inr,
}
use dsp.Prelude.Dict.{empty, update}
use dsp.Saga.Evidence.{Authority}
use dsp.Gateway.Grant.{
  active, GatewayError, approval_admission_already_consumed, ApprovalRecord, approval_revoked,
  admitted, revoked, ApprovalState, Grant, StoredGrant,
}
use dsp.Gateway.Store.{
  Store, issue_or_get_grant, project_expiry, admit_grant, admitted_authority, revoke_approval,
  consume_admission_once,
}
use dsp.Gateway.Exclusive.{IsExclusive}
use dsp.Gateway.Calls.{
  Call, issue, admit, revoke, consume, call, calls, Authentic, calls-IsExclusive, calls-exclusive,
}
use dsp.Gateway.Admission.{Admission, admit_grant-Admission}
use dsp.Gateway.Revocation.{Spares, revoke-final}

abbrev zeros : String
zeros = "0000000000000000000000000000000000000000000000000000000000000000"

abbrev ones : String
ones = "1111111111111111111111111111111111111111111111111111111111111111"

abbrev twos : String
twos = "2222222222222222222222222222222222222222222222222222222222222222"

abbrev first_grant : Grant
first_grant = record {
  grant_id = "G1";
  approval_id = "approval";
  approval_hash = zeros;
  changeset_hash = zeros;
  approved_scope_hash = zeros;
  materialization_plan_hash = zeros;
  materialization_id = "m";
  execution_slice_id = "slice";
  execution_slice_hash = zeros;
  binding_set_hash = zeros;
  host_instance_id = "host";
  allowed_operations = "modify" ∷ [];
  issued_at = "i";
  expires_at = "iiiiii";
  grant_hash = ones;
}

abbrev second_grant : Grant
second_grant = record first_grant { grant_id = "G2"; binding_set_hash = ones; grant_hash = twos }

-- the grant of a digest
abbrev content : String → Grant
content h = if h == ones then first_grant else record second_grant { grant_hash = h }

-- times in unary
abbrev same_text : String → Result GatewayError String
same_text at = ok at

abbrev unary : String → ℕ
unary at = count at

abbrev empty_store : Store
empty_store = record { consumptions = empty; approvals = empty; grants = empty; lineages = λ _. [] }

abbrev record_of : String → String → ApprovalRecord
record_of approval_id admission_id = record {
  approval_id = approval_id;
  admission_id = admission_id;
  admission_fingerprint = zeros;
}

abbrev consumed : String → String → Call
consumed approval_id admission_id = consume admission_id zeros (record_of approval_id admission_id)

-- the admission of an approval is consumed
abbrev approved : Store
approved = record empty_store {
  approvals = update empty "approval" ApprovalState.active;
  consumptions = update empty "admission" (zeros, "approval");
}

consume_run : call same_text unary empty_store (consumed "approval" "admission") ≡ approved
unfolding call consume_admission_once
consume_run = refl

-- an admission is consumed once
consume_again :
    (consume_admission_once approved "admission" zeros (record_of "approval" "admission")).0
    ≡ err approval_admission_already_consumed
unfolding consume_admission_once
consume_again = refl

-- the second grant supersedes the first and is admitted
abbrev session : List Call
session = issue first_grant ∷ issue second_grant ∷ admit twos "ii" ∷ []

abbrev kept : StoredGrant
kept = record { grant = second_grant; state = admitted; admitted_at = some "ii" }

approved-IsExclusive : IsExclusive content approved
approved-IsExclusive = record { keyed = λ h s e. cc; owned = λ l h e. cc; live = λ h s e v. cc }

session-Authentic : All (Authentic same_text unary content) session
session-Authentic = (refl, (refl, (tt, tt)))

held : (calls same_text unary approved session).grants twos ≡ some kept
unfolding calls call issue_or_get_grant project_expiry admit_grant
held = refl

-- the first grant was revoked when the second one was issued
superseded :
    (calls same_text unary approved session).grants ones
    ≡ some (record { grant = first_grant; state = revoked; admitted_at = none })
unfolding calls call issue_or_get_grant project_expiry admit_grant
superseded = refl

calls-IsExclusive_example : IsExclusive content (calls same_text unary approved session)
calls-IsExclusive_example =
    calls-IsExclusive same_text unary content approved session session-Authentic
      approved-IsExclusive

calls-exclusive_example : (◌≡◌ {A = String} twos twos) × (kept ≡ kept)
calls-exclusive_example =
    calls-exclusive same_text unary content approved session twos twos kept kept session-Authentic
      approved-IsExclusive held held refl refl refl

abbrev authority : Authority
authority = record {
  approval_hash = zeros;
  grant_hash = twos;
  changeset_hash = zeros;
  approved_scope_hash = zeros;
  materialization_plan_hash = zeros;
  materialization_id = "m";
  execution_slice_hash = zeros;
  binding_set_hash = ones;
  host_instance_id = "host";
  admitted_at = "ii";
}

abbrev issued : List Call
issued = issue first_grant ∷ issue second_grant ∷ []

handed_out :
    (admit_grant same_text unary (calls same_text unary approved issued) twos "ii").0 ≡ ok authority
unfolding calls call issue_or_get_grant project_expiry admit_grant admitted_authority
handed_out = refl

admit_grant-Admission_example :
    let store = calls same_text unary approved issued in
    (n : String) × (◌≡◌ {A = Result GatewayError String} (ok "ii") (ok n))
    × Admission same_text unary store
        (admit_grant same_text unary store twos "ii").1
        twos
        n
        authority
admit_grant-Admission_example =
    admit_grant-Admission same_text unary (calls same_text unary approved issued) twos "ii"
      handed_out

revoke_run : (revoke_approval (calls same_text unary approved session) "approval").0 ≡ ok tt
unfolding calls call issue_or_get_grant project_expiry admit_grant revoke_approval
revoke_run = refl

-- another approval is admitted, and the consumption of the first one sent again, before the session
-- runs again
abbrev afterwards : List Call
afterwards = consumed "another" "second" ∷ consumed "approval" "admission" ∷ session

still_held :
    (calls same_text unary
        (revoke_approval (calls same_text unary approved session) "approval").1
        afterwards).grants
      twos
    ≡ some kept
unfolding calls call issue_or_get_grant project_expiry admit_grant revoke_approval
    consume_admission_once
still_held = refl

afterwards-Spares :
    All (Spares (calls same_text unary approved session).consumptions "approval") afterwards
unfolding calls call issue_or_get_grant project_expiry admit_grant
afterwards-Spares = (inl (λ same. cc), (inr ((zeros, "approval"), refl), (tt, (tt, (tt, tt)))))

revoke-final_example :
    let later =
      calls same_text unary
        (revoke_approval (calls same_text unary approved session) "approval").1
        afterwards in
    admit_grant same_text unary later twos "iii" ≡ (err approval_revoked, later)
revoke-final_example =
    revoke-final same_text unary (calls same_text unary approved session) "approval" afterwards twos
      "iii" "iii" kept afterwards-Spares revoke_run still_held refl refl

-- the consumption of a new admission under the same approval id makes a revoked approval active
reactivated :
    (calls same_text unary approved
        (revoke "approval" ∷ consumed "approval" "second" ∷ [])).approvals
      "approval"
    ≡ some ApprovalState.active
unfolding calls call revoke_approval consume_admission_once
reactivated = refl

-- a superseded grant that is issued again is active again
revived :
    let store =
      calls same_text unary approved
        (issue first_grant ∷ issue second_grant ∷ issue first_grant ∷ []) in
    (store.grants ones ≡ some (record { grant = first_grant; state = active; admitted_at = none }))
    × (store.grants twos
        ≡ some (record { grant = second_grant; state = revoked; admitted_at = none }))
unfolding calls call issue_or_get_grant project_expiry
revived = (refl, refl)
