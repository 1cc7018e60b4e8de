-- ===== src/Sessions/Lifecycle.antt =====
-- The use cases of packages/application/src/workflowforge_application/identity/session_lifecycle.py.
pub mod Atomic
pub mod Replay
pub mod Detected
pub mod Replacement
pub mod Rotation
pub mod LoggedOut
pub mod LoggedOutAll
pub mod Guarantees
pub mod Refresh
pub mod Refused
pub mod Race
pub mod Trace
pub mod Forward
use workflow_forge.Audit
use workflow_forge.Sessions.Session
use workflow_forge.Sessions.Token
use workflow_forge.Sessions.Repository
use workflow_forge.Transaction.{
  Action, Tx, or_rollback, ◌>>◌, ◌>>=◌, lift, change, pure, commit, raise,
}
use workflow_forge.Base.{
  ℕ, Result, Bool, Option, ok, if◌then◌else◌, ◌+◌, none, err, some, or_raise, refresh_token_replay,
  raise_if, is_some, session_not_found, not, invalid_refresh_token, invalid_access_token,
  expired_refresh_token, ◌==◌, true, ◌||◌, session_ownership, false,
}
use workflow_forge.Sessions.Claims.{
  SessionLifecyclePolicy, AccessTokenClaims, TokenPair, claims, clock_instant, token_pair,
}
use workflow_forge.Time.{DateTime, utc, before}
use workflow_forge.Text.{Text}
use workflow_forge.Sessions.Token.{RefreshToken, issue_initial}
use workflow_forge.Sessions.Store.{Store, append_event}
use workflow_forge.Sessions.Session.{AuthSession}
use workflow_forge.Audit.{
  AuditEventType, AuditEvent, AuditOutcome, session_refresh_replay_detected, replay_detected,
  session_revoked, session_revoked_all, success, authentication_login_succeeded, session_created,
  session_refreshed,
}
use workflow_forge.Sessions.Repository.{
  get_refresh_token_by_digest, revoke_all_for_user, get_active_by_id, add, rotate_refresh_token,
}
use workflow_forge.Identity.Validation.{typed_id}

-- What the use cases are composed with: the policy, the hash of a refresh token, the codec that
-- issues access tokens, and whether there is an audit recorder.
pub record Ports : Type 0 where
  pub policy : SessionLifecyclePolicy
  pub digest_token : Text → ℕ
  pub issue_token : AccessTokenClaims → Text
  pub audited : Bool

-- What one call draws from the world: the clock, the identifiers in the order of the calls of
-- `new_uuid`, and a fresh refresh token.
pub record Draw : Type 0 where
  pub now : DateTime
  pub uuid : ℕ → ℕ
  pub token : Text

-- `if self._audit is not None: await self._audit.record(event)`
unfoldable pub record_event : Bool → Result AuditEvent → Action Store (Unit {0})
record_event true event = do e ← lift event; change (append_event e)
record_event false event = pure tt

-- `_issue_access_token`: the claims are validated before the codec signs them.
unfoldable pub access_claims :
    Ports → (token_id user_id session_id t : ℕ) → Result AccessTokenClaims
access_claims ports token_id user_id session_id t = claims (record {
  user_id = user_id;
  session_id = session_id;
  token_id = token_id;
  issued_at = utc t;
  expires_at = utc (t + ports.policy.access_token_lifetime);
})

abbrev pub session_event :
    (id : ℕ)
    → AuditEventType
    → AuditOutcome
    → (t : ℕ) → (actor : Option ℕ) → (session_id : ℕ) → Result AuditEvent
session_event id event_type outcome t actor session_id =
    Audit.create id event_type outcome (utc t) actor none (some session_id)

abbrev pub pair_of : Ports → Draw → AccessTokenClaims → (session_id t : ℕ) → DateTime → TokenPair
pair_of ports draw access session_id t refresh_expires_at = record {
  access_token = ports.issue_token access;
  refresh_token = draw.token;
  session_id = session_id;
  access_token_expires_at = utc (t + ports.policy.access_token_lifetime);
  refresh_token_expires_at = refresh_expires_at;
}

-- `StartUserSession`; `authenticated` is the outcome of the injected `authenticate_user`, the
-- identifier of the user or what it raises.
unfoldable pub start_user_session : Ports → Draw → Result ℕ → Action Store TokenPair
start_user_session ports draw authenticated = or_rollback (do
  user_id ← lift authenticated
  t ← lift (clock_instant draw.now)
  session_id ← lift (typed_id (draw.uuid 0))
  session ←
      lift (Session.create session_id user_id (utc t) (utc (t + ports.policy.session_lifetime)))
  token_id ← lift (typed_id (draw.uuid 1))
  family_id ← lift (typed_id (draw.uuid 2))
  token ← lift (
      issue_initial token_id session_id family_id (ports.digest_token draw.token) (utc t)
        (utc (t + ports.policy.refresh_token_lifetime)))
  access ← lift (access_claims ports (draw.uuid 3) user_id session_id t)
  add session token
  record_event ports.audited (
      session_event (draw.uuid 4) authentication_login_succeeded success t (some user_id)
        session_id)
  record_event ports.audited
      (session_event (draw.uuid 5) session_created success t (some user_id) session_id)
  commit
  lift (
      token_pair
        (pair_of ports draw access session_id t (utc (t + ports.policy.refresh_token_lifetime)))))

-- The branch of `RefreshSession` for a token that has been used: its session is revoked, and that
-- is committed, before the replay is raised.
unfoldable pub detect_replay : Ports → Draw → (t : ℕ) → RefreshToken → Action Store TokenPair
detect_replay ports draw t current = do
  Repository.revoke current.session_id (utc t)
  record_event ports.audited (
      session_event (draw.uuid 0) session_refresh_replay_detected replay_detected t none
        current.session_id)
  record_event ports.audited
      (session_event (draw.uuid 1) session_revoked success t none current.session_id)
  commit
  raise refresh_token_replay

-- `min(rotated_at + refresh_token_lifetime, session.expires_at)`
abbrev pub refresh_expiry : Ports → (t : ℕ) → AuthSession → DateTime
refresh_expiry ports t session =
    if before session.expires_at (utc (t + ports.policy.refresh_token_lifetime))
    then session.expires_at
    else utc (t + ports.policy.refresh_token_lifetime)

-- The branch of `RefreshSession` for a token that has not been used.
unfoldable pub rotate : Ports → Draw → (t digest : ℕ) → RefreshToken → Action Store TokenPair
rotate ports draw t digest current = do
  lift (raise_if (is_some current.revoked_at) invalid_refresh_token)
  expired ← lift (Token.is_expired current (utc t))
  lift (raise_if expired expired_refresh_token)
  found ← get_active_by_id current.session_id (utc t)
  session ← lift (or_raise found invalid_refresh_token)
  replacement_id ← lift (typed_id (draw.uuid 0))
  replacement ← lift (
      Token.replacement current replacement_id (ports.digest_token draw.token) (utc t)
        (refresh_expiry ports t session))
  access ← lift (access_claims ports (draw.uuid 1) session.user_id session.id t)
  rotate_refresh_token session.id digest current.generation replacement (utc t)
  record_event ports.audited
      (session_event (draw.uuid 2) session_refreshed success t (some session.user_id) session.id)
  commit
  lift (token_pair (pair_of ports draw access session.id t replacement.expires_at))

-- `except RefreshTokenReplayError: raise` and `except Exception: await rollback(); raise`
abbrev pub refresh_failure : {A : Type 0} → Result A → Tx Store → Tx Store
refresh_failure (ok a) tx = tx
refresh_failure (err refresh_token_replay) tx = tx
refresh_failure (err e) tx = record tx { working = tx.committed }

unfoldable pub or_rollback_unless_replay : {A : Type 0} → Action Store A → Action Store A
or_rollback_unless_replay m tx = let (r, tx') = m tx in (r, refresh_failure r tx')

-- `RefreshSession`
unfoldable pub refresh_session : Ports → Draw → (refresh_token : Text) → Action Store TokenPair
refresh_session ports draw refresh_token = or_rollback_unless_replay (do
  t ← lift (clock_instant draw.now)
  let digest = ports.digest_token refresh_token
  found ← get_refresh_token_by_digest digest
  current ← lift (or_raise found invalid_refresh_token)
  (if is_some current.used_at || is_some current.replaced_by_token_id
      then detect_replay ports draw t current
      else rotate ports draw t digest current))

-- `LogoutSession`
unfoldable pub logout_session : Ports → Draw → (user_id session_id : ℕ) → Action Store (Unit {0})
logout_session ports draw user_id session_id = or_rollback (do
  found ← Repository.get_by_id session_id
  session ← lift (or_raise found session_not_found)
  lift (raise_if (not (session.user_id == user_id)) session_ownership)
  t ← lift (clock_instant draw.now)
  Repository.revoke session_id (utc t)
  record_event ports.audited
      (session_event (draw.uuid 0) session_revoked success t (some user_id) session_id)
  commit)

-- `LogoutAllSessions`, which returns the number of sessions revoked
unfoldable pub logout_all_sessions :
    Ports → Draw → (user_id : ℕ) → (session_id : Option ℕ) → Action Store ℕ
logout_all_sessions ports draw user_id session_id = or_rollback (do
  t ← lift (clock_instant draw.now)
  revoked ← revoke_all_for_user user_id (utc t)
  record_event ports.audited (
      Audit.create (draw.uuid 0) session_revoked_all success (utc t) (some user_id) none session_id)
  commit
  pure revoked)

-- `VerifyAccessToken`; `verified` is what the codec returns or raises for the token.
unfoldable pub verify_access_token :
    DateTime → Result AccessTokenClaims → Action Store AccessTokenClaims
verify_access_token now verified = do
  access ← lift verified
  t ← lift (clock_instant now)
  found ← get_active_by_id access.session_id (utc t)
  session ← lift (or_raise found invalid_access_token)
  lift (raise_if (not (session.user_id == access.user_id)) invalid_access_token)
  lift (claims access)
