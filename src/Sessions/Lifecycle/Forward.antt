-- ===== src/Sessions/Lifecycle/Forward.antt =====
-- Every use case moves the tables forward: a revoked session stays revoked, and a used refresh token
-- stays used, whatever calls follow and whether they return or raise.
use workflow_forge.Sessions.Session
use workflow_forge.Sessions.Repository
use workflow_forge.Transaction.Growth.{
  Grows, Grows-pure, Grows-bind, Grows-lift, Grows-lift-bind, Grows-change, Grows-raise, Above,
  Grows-gets, Grows-or_rollback, Grows-commit, Grows-rollback, Above-after_failure,
}
use workflow_forge.Base.{
  ℕ, Bool, Result, Option, if◌then◌else◌, true, false, ok, is_some-of_is_none, err,
  refresh_token_replay, is_none, List, ◌≡◌,
}
use workflow_forge.Sessions.Lifecycle.{
  or_rollback_unless_replay, record_event, refresh_session, logout_session, start_user_session,
  detect_replay, Ports, rotate, logout_all_sessions, Draw, refresh_failure,
}
use workflow_forge.Audit.{AuditEvent}
use workflow_forge.Sessions.Token.{RefreshToken}
use workflow_forge.Sessions.Session.{AuthSession}
use workflow_forge.Sessions.Store.Changes.{
  Extends-IsPreorder, Extends, insert_token-Extends, close_sessions-Extends, insert_session-Extends,
  append_event-Extends, consume_token-Extends, write_session-Extends, revoke_tokens_of-Extends,
  revoke_current_refresh_tokens-Extends,
}
use workflow_forge.Transaction.{Action, change, Tx}
use workflow_forge.Time.{DateTime}
use workflow_forge.Text.{Text}
use workflow_forge.Sessions.Store.{
  Store, consume_token, insert_token, append_event, insert_session, write_session, close_sessions,
  revoke_current_refresh_tokens, revoke_tokens_of,
}
use workflow_forge.Sessions.Session.Laws.{revoke-eq-ok}

ruleset growth_rules = (
  Extends-IsPreorder, Grows-pure, Grows-lift, Grows-raise, Grows-gets, Grows-or_rollback,
  Grows-commit, Grows-rollback, Grows-bind,
)

Grows-insert_session :
    (x : AuthSession) (t : RefreshToken) → Grows Extends (change (insert_session x t))
Grows-insert_session x t =
    Grows-change Extends-IsPreorder (insert_session x t) (insert_session-Extends x t)

Grows-add : (x : AuthSession) (t : RefreshToken) → Grows Extends (Repository.add x t)
unfolding Repository.add
Grows-add x t = search (growth_rules, Grows-insert_session)

Grows-write_session :
    (x : AuthSession) → is_none x.revoked_at ≡ false → Grows Extends (change (write_session x))
Grows-write_session x h =
    Grows-change Extends-IsPreorder _
      λ s s'. write_session-Extends x s s' (is_some-of_is_none x.revoked_at h)

Grows-revoke_current_refresh_tokens :
    (i : ℕ) (at : DateTime) → Grows Extends (change (revoke_current_refresh_tokens i at))
Grows-revoke_current_refresh_tokens i at =
    Grows-change Extends-IsPreorder _ (revoke_current_refresh_tokens-Extends i at)

Grows-close_sessions : (u : ℕ) (at : DateTime) → Grows Extends (change (close_sessions u at))
Grows-close_sessions u at = Grows-change Extends-IsPreorder _ (close_sessions-Extends u at)

Grows-revoke_tokens_of :
    (is : List ℕ) (at : DateTime) → Grows Extends (change (revoke_tokens_of is at))
Grows-revoke_tokens_of is at = Grows-change Extends-IsPreorder _ (revoke_tokens_of-Extends is at)

Grows-revoke : (i : ℕ) (at : DateTime) → Grows Extends (Repository.revoke i at)
unfolding Repository.revoke
Grows-revoke i at = Grows-bind Extends-IsPreorder _ _ (Grows-gets Extends-IsPreorder _) λ found.
    Grows-bind Extends-IsPreorder _ _ (Grows-lift Extends-IsPreorder _) λ row.
      Grows-bind Extends-IsPreorder _ _ (Grows-lift Extends-IsPreorder _) λ current.
        Grows-lift-bind Extends-IsPreorder (Session.revoke current at) _ λ x e.
          Grows-bind Extends-IsPreorder _ _ (Grows-write_session x (revoke-eq-ok current x at e).1)
            λ _.
              Grows-bind Extends-IsPreorder _ _ (Grows-revoke_current_refresh_tokens i at)
                λ _. Grows-lift Extends-IsPreorder _

Grows-revoke_all_for_user :
    (u : ℕ) (at : DateTime) → Grows Extends (Repository.revoke_all_for_user u at)
unfolding Repository.revoke_all_for_user
Grows-revoke_all_for_user u at =
    search (growth_rules, Grows-close_sessions, Grows-revoke_tokens_of) depth 8

Grows-insert_token : (t : RefreshToken) → Grows Extends (change (insert_token t))
Grows-insert_token t = Grows-change Extends-IsPreorder _ (insert_token-Extends t)

Grows-consume_token :
    (i d g r : ℕ) (at : DateTime) → Grows Extends (change (consume_token i d g r at))
Grows-consume_token i d g r at =
    Grows-change Extends-IsPreorder _ (consume_token-Extends i d g r at)

Grows-rotate_refresh_token :
    (i d g : ℕ) (t : RefreshToken) (at : DateTime)
    → Grows Extends (Repository.rotate_refresh_token i d g t at)
unfolding Repository.rotate_refresh_token
Grows-rotate_refresh_token i d g t at =
    search (growth_rules, Grows-insert_token, Grows-consume_token) depth 8

Grows-append_event : (e : AuditEvent) → Grows Extends (change (append_event e))
Grows-append_event e = Grows-change Extends-IsPreorder _ (append_event-Extends e)

pub Grows-record_event : (b : Bool) (e : Result AuditEvent) → Grows Extends (record_event b e)
unfolding record_event
Grows-record_event true e = search (growth_rules, Grows-append_event)
Grows-record_event false e = search growth_rules

Grows-get_by_id : (i : ℕ) → Grows Extends (Repository.get_by_id i)
unfolding Repository.get_by_id
Grows-get_by_id i = search growth_rules

Grows-get_active_by_id : (i : ℕ) (at : DateTime) → Grows Extends (Repository.get_active_by_id i at)
unfolding Repository.get_active_by_id
Grows-get_active_by_id i at = search growth_rules

Grows-get_refresh_token_by_digest :
    (d : ℕ) → Grows Extends (Repository.get_refresh_token_by_digest d)
unfolding Repository.get_refresh_token_by_digest
Grows-get_refresh_token_by_digest d = search growth_rules

ruleset use_case_rules = (
  growth_rules, Grows-add, Grows-revoke, Grows-revoke_all_for_user, Grows-rotate_refresh_token,
  Grows-record_event, Grows-get_by_id, Grows-get_active_by_id, Grows-get_refresh_token_by_digest,
)

pub Grows-start_user_session :
    (ports : Ports) (draw : Draw) (authenticated : Result ℕ)
    → Grows Extends (start_user_session ports draw authenticated)
unfolding start_user_session
Grows-start_user_session ports draw authenticated = search use_case_rules depth 26

pub Grows-logout_session :
    (ports : Ports) (draw : Draw) (u i : ℕ) → Grows Extends (logout_session ports draw u i)
unfolding logout_session
Grows-logout_session ports draw u i = search use_case_rules depth 16

pub Grows-logout_all_sessions :
    (ports : Ports) (draw : Draw) (u : ℕ) (i : Option ℕ)
    → Grows Extends (logout_all_sessions ports draw u i)
unfolding logout_all_sessions
Grows-logout_all_sessions ports draw u i = search use_case_rules depth 16

Grows-or_rollback_unless_replay :
    {A : Type 0} (m : Action Store A)
    → Grows Extends m
    → Grows Extends (or_rollback_unless_replay m)
unfolding or_rollback_unless_replay
Grows-or_rollback_unless_replay m g = record {
  at = λ tx h. Above-refresh_failure (m tx).0 (m tx).1 (g.at tx h);
}
  where
    Above-refresh_failure :
        {B : Type 0} {tx : Tx Store} (r : Result B) (tx' : Tx Store)
        → Above Extends tx tx'
        → Above Extends tx (refresh_failure r tx')
    Above-refresh_failure {B} (ok a) tx' h = h
    Above-refresh_failure {B} (err refresh_token_replay) tx' h = h
    Above-refresh_failure {B} (err e) tx' h =
        Above-after_failure Extends-IsPreorder {A = B} (err e) tx' h

Grows-rotate :
    (ports : Ports) (draw : Draw) (t digest : ℕ) (current : RefreshToken)
    → Grows Extends (rotate ports draw t digest current)
unfolding rotate
Grows-rotate ports draw t digest current = search use_case_rules depth 26

Grows-detect_replay :
    (ports : Ports) (draw : Draw) (t : ℕ) (current : RefreshToken)
    → Grows Extends (detect_replay ports draw t current)
unfolding detect_replay
Grows-detect_replay ports draw t current = search use_case_rules depth 16

Grows-refresh_branch :
    (ports : Ports) (draw : Draw) (t digest : ℕ) (current : RefreshToken) (b : Bool)
    → Grows Extends
        (if b then detect_replay ports draw t current else rotate ports draw t digest current)
Grows-refresh_branch ports draw t digest current true = Grows-detect_replay ports draw t current
Grows-refresh_branch ports draw t digest current false = Grows-rotate ports draw t digest current

pub Grows-refresh_session :
    (ports : Ports) (draw : Draw) (token : Text) → Grows Extends (refresh_session ports draw token)
unfolding refresh_session
Grows-refresh_session ports draw token =
    search (Grows-or_rollback_unless_replay, use_case_rules, Grows-refresh_branch) depth 16
