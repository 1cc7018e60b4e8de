-- ===== src/Audit.antt =====
-- Audit events: packages/domain/src/workflowforge_domain/audit.py. The request context and the
-- metadata of an event are not kept.
use workflow_forge.Base.{
  List, ℕ, Result, Option, if◌then◌else◌, any, ◌==◌, invalid_audit_event, err, not_aware,
  audit_persistence, ok, ◌∷◌, ◌>>=◌,
}
use workflow_forge.Time.{DateTime, normalize}

pub data AuditEventType : Type 0 where
  authentication_login_succeeded : AuditEventType
  authentication_login_failed : AuditEventType
  authentication_access_token_rejected : AuditEventType
  session_created : AuditEventType
  session_refreshed : AuditEventType
  session_refresh_failed : AuditEventType
  session_refresh_replay_detected : AuditEventType
  session_revoked : AuditEventType
  session_revoked_all : AuditEventType
  tenancy_access_denied : AuditEventType
  tenancy_inactive_membership : AuditEventType
  tenancy_inactive_organization : AuditEventType
  authorization_permission_denied : AuditEventType
  credential_password_set : AuditEventType
  credential_password_replaced : AuditEventType
  bootstrap_owner_created : AuditEventType
  bootstrap_refused : AuditEventType
  authentication_login_rate_limited : AuditEventType
  session_refresh_rate_limited : AuditEventType
  security_rate_limit_backend_unavailable : AuditEventType
  document_registered : AuditEventType
  document_version_created : AuditEventType
  document_archived : AuditEventType
  document_artifact_registered : AuditEventType
  document_upload_started : AuditEventType
  document_storage_succeeded : AuditEventType
  document_upload_failed : AuditEventType
  document_duplicate_detected : AuditEventType
  document_downloaded : AuditEventType
  document_version_downloaded : AuditEventType
  document_artifact_downloaded : AuditEventType
  batch_created : AuditEventType
  batch_updated : AuditEventType
  batch_document_added : AuditEventType
  batch_document_removed : AuditEventType
  batch_archived : AuditEventType
  case_created : AuditEventType
  case_updated : AuditEventType
  case_document_added : AuditEventType
  case_document_removed : AuditEventType
  case_comment_created : AuditEventType
  case_task_created : AuditEventType
  case_task_updated : AuditEventType
  case_task_completed : AuditEventType
  case_decision_created : AuditEventType
  case_closed : AuditEventType
  case_reopened : AuditEventType
  case_archived : AuditEventType

pub data AuditOutcome : Type 0 where
  success failure denied replay_detected : AuditOutcome

pub record AuditEvent : Type 0 where
  pub id : ℕ
  pub event_type : AuditEventType
  pub outcome : AuditOutcome
  pub occurred_at : DateTime
  pub actor_user_id : Option ℕ
  pub organization_id : Option ℕ
  pub session_id : Option ℕ

-- `create`, with the tests and the normalization of `occurred_at` in `__post_init__`
unfoldable pub create :
    (id : ℕ)
    → AuditEventType
    → AuditOutcome
    → DateTime
    → (actor_user_id organization_id session_id : Option ℕ) → Result AuditEvent
create id event_type outcome occurred_at actor_user_id organization_id session_id = do
  occurred_at ← normalize (invalid_audit_event not_aware) occurred_at
  ok (record {
    id = id;
    event_type = event_type;
    outcome = outcome;
    occurred_at = occurred_at;
    actor_user_id = actor_user_id;
    organization_id = organization_id;
    session_id = session_id;
  })

-- `SqlAlchemyAuditRepository.record` into the table of events: the identifier is its primary key.
unfoldable pub append : AuditEvent → List AuditEvent → Result (List AuditEvent)
append event events =
    if any (λ e. e.id == event.id) events then err audit_persistence else ok (event ∷ events)
